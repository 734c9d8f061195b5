-- ===== src/Stream.antt =====
-- The live log stream of a job (backend/internal/api/logstream.go): the hub and the handler's loop. Events
-- are frames before their JSON is written; a subscriber's channel is its number and its waiting events.
pub mod Order
pub mod Ends
mod Examples
use encode_system.Prelude.{
  ℕ, zero, suc, ◌+◌, String, List, [], ◌∷◌, ◌++◌, Bool, true, false, not, Option, none, some, ◌==◌,
  ltb, if◌then◌else◌, length,
}
use encode_system.Prelude.Int.{ℤ}
use encode_system.Table.{update_where, delete_where, select_one}
use encode_system.Model.{Job, JobStatus, terminal}
use encode_system.Heartbeat.{nonempty}

-- logStreamChanCap
abbrev pub log_stream_chan_cap : ℕ
log_stream_chan_cap = 64

-- sseEvent, by its type
pub data SseEvent : Type 0 where
  progress_event : String → ℕ → List ℕ → SseEvent
  final_event : JobStatus → String → ℤ → Bool → SseEvent

pub record Subscriber : Type 0 where
  pub channel : ℕ
  pub job : ℕ
  pub waiting : List SseEvent

-- the sets of channels by job; a job without subscribers has no set
pub record LogHub : Type 0 where
  pub subs : List Subscriber
  pub next_channel : ℕ

unfoldable pub subscribe : ℕ → LogHub → LogHub × ℕ
subscribe job h = (
  record {
    subs = record { channel = h.next_channel; job = job; waiting = [] } ∷ h.subs;
    next_channel = h.next_channel + 1;
  },
  h.next_channel,
)

unfoldable pub unsubscribe : ℕ → LogHub → LogHub
unsubscribe channel h = record h { subs = delete_where (λ u. u.channel == channel) h.subs }

-- the select with a default: a full channel drops the event
unfoldable pub offer : SseEvent → Subscriber → Subscriber
offer ev u = record u {
  waiting = if ltb (length u.waiting) log_stream_chan_cap then u.waiting ++ ev ∷ [] else u.waiting;
}

unfoldable pub publish : ℕ → SseEvent → LogHub → LogHub
unfolding offer
publish job ev h = record h { subs = update_where (λ u. u.job == job) (offer ev) h.subs }

abbrev pub tail_of : List SseEvent → List SseEvent
tail_of [] = []
tail_of (ev ∷ evs) = evs

-- <-ch takes the first waiting event
unfoldable pub receive : ℕ → LogHub → LogHub
receive channel h = record h {
  subs =
      update_where (λ u. u.channel == channel) (λ u. record u { waiting = tail_of u.waiting })
        h.subs;
}

-- publishProgress and publishFinal
abbrev pub publish_progress : ℕ → String → ℕ → List ℕ → LogHub → LogHub
publish_progress job step progress log_tail h =
    publish job (progress_event step progress log_tail) h

abbrev pub publish_final : ℕ → JobStatus → String → ℤ → Bool → LogHub → LogHub
publish_final job status error exit_code full_log h =
    publish job (final_event status error exit_code full_log) h

-- the events that the handler makes of a row
abbrev pub final_of : Job → SseEvent
final_of j = final_event j.status j.error j.exit_code (nonempty j.full_log)

abbrev pub progress_of : Job → SseEvent
progress_of j = progress_event j.step j.progress j.log_tail

pub data Frame : Type 0 where
  event_frame : SseEvent → Frame
  ping : Frame

-- what ends one wait of the loop: the client is gone, an event or the end of the channel, or the
-- keepalive with the row that GetJob finds
pub data Woken : Type 0 where
  disconnected closed : Woken
  received : SseEvent → Woken
  keepalive : Option Job → Woken

abbrev pub is_final : SseEvent → Bool
is_final (progress_event s p t) = false
is_final (final_event s e c f) = true

abbrev pub pinged : List Frame → Option Job → List Frame
pinged rest none = ping ∷ rest
pinged rest (some j) = if terminal j.status then event_frame (final_of j) ∷ [] else ping ∷ rest

-- the frames that the loop writes
unfoldable pub relay : List Woken → List Frame
relay [] = []
relay (disconnected ∷ ws) = []
relay (closed ∷ ws) = []
relay (received ev ∷ ws) =
    let rest = relay ws in if is_final ev then event_frame ev ∷ [] else event_frame ev ∷ rest
relay (keepalive found ∷ ws) = pinged (relay ws) found

pub data StreamReply : Type 0 where
  not_found unsupported : StreamReply
  streamed : List Frame → StreamReply

abbrev pub stream_row : Bool → List Woken → Option Job → StreamReply
stream_row flushes ws none = not_found
stream_row flushes ws (some j) =
    if not flushes
    then unsupported
    else if terminal j.status
    then streamed (event_frame (final_of j) ∷ [])
    else streamed (event_frame (progress_of j) ∷ relay ws)

-- handleJobLogStream, with the row that GetJob finds at first and what the loop is woken by
unfoldable pub handle_job_log_stream : Bool → List Woken → Option Job → StreamReply
unfolding relay
handle_job_log_stream flushes ws found = stream_row flushes ws found
