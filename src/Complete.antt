-- ===== src/Complete.antt =====
-- handleJobComplete of backend/internal/api/handlers.go: an agent's final report on a job. What other
-- requests do between the handler's read of the job and its guarded write is the argument `between`.
pub mod Outcomes
mod Examples
use encode_system.Prelude.{
  ℕ, List, [], ◌∷◌, Bool, true, false, not, Option, none, some, ◌==◌, if◌then◌else◌,
}
use encode_system.Prelude.Results.{Result, ok, err}
use encode_system.Model.{Job, JobStatus, Node, done, failed, terminal}
use encode_system.Jobs.{Store, Report, FinishError, get_job, finish_job_with_report}
use encode_system.Jobs.Lifecycle.{release_node}
use encode_system.Server.{Env, Effect, final, should_auto_retry, notify_job_finished}
use encode_system.Heartbeat.{nonempty}

-- the replies: 404, 403, and the two statuses of a 200
pub data Answer : Type 0 where
  not_found forbidden already_recorded recorded : Answer

pub record Outcome : Type 0 where
  pub store : Store
  pub effects : List Effect
  pub answer : Answer

-- `if rep.Status != "done" { status = failed }`
abbrev pub reported_status : Report → JobStatus
reported_status rep = if rep.is_done then done else failed

-- a retried job goes on, without an event; any other ends its log stream and is notified
abbrev pub close_unless : Env → ℕ → Report → Node → Bool × Store → Outcome
close_unless env i rep n (true, s) = record { store = s; effects = []; answer = recorded }
close_unless env i rep n (false, s) = record {
  store = s;
  effects =
      final i (reported_status rep) rep.error rep.exit_code (nonempty rep.log_full)
      ∷ notify_job_finished env s i n.name;
  answer = recorded;
}

-- only a failed job can be retried; the row read before the write has the retry count
abbrev pub retried : Env → ℕ → Report → Job → Store → Bool × Store
retried env i rep j s = if rep.is_done then (false, s) else should_auto_retry env.now j i s

abbrev pub finished : Env → ℕ → Report → Node → Job → Store → Result FinishError Store → Outcome
finished env i rep n j s (err e) = record { store = s; effects = []; answer = already_recorded }
finished env i rep n j s (ok t) =
    close_unless env i rep n (retried env i rep j (release_node n.id t))

abbrev pub complete_row : Env → ℕ → Report → Node → (Store → Store) → Store → Option Job → Outcome
complete_row env i rep n between s none = record { store = s; effects = []; answer = not_found }
complete_row env i rep n between s (some j) =
    if not (j.node_id == n.id)
    then record { store = s; effects = []; answer = forbidden }
    else if terminal j.status
    then record { store = s; effects = []; answer = already_recorded }
    else finished env i rep n j (between s)
        (finish_job_with_report env.now i (reported_status rep) rep (between s))

-- handleJobComplete
unfoldable pub handle_job_complete : Env → ℕ → Report → Node → (Store → Store) → Store → Outcome
handle_job_complete env i rep n between s = complete_row env i rep n between s (get_job i s)
