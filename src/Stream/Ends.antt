-- ===== src/Stream/Ends.antt =====
-- How a live log stream ends (backend/internal/api/logstream.go).
use encode_system.Prelude.{
  ◌≡◌, ◌⊎◌, inl, inr, refl, List, [], ◌∷◌, Bool, true, false, Option, none, some, Bool-cases,
}
use encode_system.Model.{Job, terminal}
use encode_system.Stream.{
  final_of, progress_of, Frame, event_frame, ping, Woken, disconnected, closed, received, keepalive,
  is_final, pinged, relay, StreamReply, not_found, unsupported, streamed, handle_job_log_stream,
}

abbrev pub ends_stream : Frame → Bool
ends_stream ping = false
ends_stream (event_frame ev) = is_final ev

-- a final event is the last frame
abbrev pub FinalLast : List Frame → Type 0
FinalLast [] = Unit {0}
FinalLast (f ∷ []) = Unit {0}
FinalLast (f ∷ g ∷ fs) = (ends_stream f ≡ false) × FinalLast (g ∷ fs)

FinalLast-cons :
    (f : Frame) (fs : List Frame) → ends_stream f ≡ false → FinalLast fs → FinalLast (f ∷ fs)
FinalLast-cons f [] e h = tt
FinalLast-cons f (g ∷ fs) e h = (e, h)

pinged-FinalLast :
    (rest : List Frame) (found : Option Job) → FinalLast rest → FinalLast (pinged rest found)
pinged-FinalLast rest none h = FinalLast-cons ping rest refl h
pinged-FinalLast rest (some j) h = elim (Bool-cases (terminal j.status)) [
  | inl e ↦ rw e tt
  | inr e ↦ rw e (FinalLast-cons ping rest refl h)
]

relay-FinalLast : (ws : List Woken) → FinalLast (relay ws)
unfolding relay
relay-FinalLast [] = tt
relay-FinalLast (disconnected ∷ ws) = tt
relay-FinalLast (closed ∷ ws) = tt
relay-FinalLast (received ev ∷ ws) = elim (Bool-cases (is_final ev)) [
  | inl e ↦ rw e tt
  | inr e ↦ rw e (FinalLast-cons (event_frame ev) (relay ws) e (relay-FinalLast ws))
]
relay-FinalLast (keepalive found ∷ ws) = pinged-FinalLast (relay ws) found (relay-FinalLast ws)

-- how a reply follows from the row that the handler reads
abbrev pub Answers : Option Job → Bool → StreamReply → Type 0
Answers none flushes reply = reply ≡ not_found
Answers (some j) flushes reply =
    ((flushes ≡ false) × (reply ≡ unsupported))
    ⊎ ((terminal j.status ≡ true) × (reply ≡ streamed (event_frame (final_of j) ∷ [])))
    ⊎ ((fs : List Frame) × (terminal j.status ≡ false)
        × (reply ≡ streamed (event_frame (progress_of j) ∷ fs))
        × FinalLast (event_frame (progress_of j) ∷ fs))

-- A stream of an unknown job is not found, and without flushing it is refused; of a job that is over it is
-- one final frame; of any other it starts with the job's progress, and nothing follows a final frame,
-- whatever wakes the loop.
pub handle_job_log_stream-Answers :
    (flushes : Bool) (ws : List Woken) (found : Option Job)
    → Answers found flushes (handle_job_log_stream flushes ws found)
unfolding handle_job_log_stream
handle_job_log_stream-Answers flushes ws none = refl
handle_job_log_stream-Answers false ws (some j) = inl (refl, refl)
handle_job_log_stream-Answers true ws (some j) = elim (Bool-cases (terminal j.status)) [
  | inl e ↦ rw e (inr (inl (refl, refl)))
  | inr e ↦ rw e (
      inr (
        inr (
          relay ws,
          refl,
          refl,
          FinalLast-cons (event_frame (progress_of j)) (relay ws) refl (relay-FinalLast ws),
        )))
]
