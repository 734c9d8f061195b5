-- ===== src/Jobs/Trace.antt =====
-- The operations of the job store as data, so that a run of the controller is a list of them: what
-- the handlers and loops of backend/internal/api call, each one atomic as its SQL statement or
-- transaction is.
pub mod Shrinks
pub mod Capacity
pub mod Stays
pub mod Reach
use encode_system.Prelude.{ℕ, String, List, [], ◌∷◌, Option, none, some, Bool}
use encode_system.Prelude.Int.{ℤ}
use encode_system.Prelude.Results.{Result, ok, err}
use encode_system.Model.{Job, JobStatus, Node}
use encode_system.Jobs.{
  Store, create_job, assign_job, update_job_status, finish_job, Report, finish_job_with_report,
}
use encode_system.Jobs.Lifecycle.{
  release_node, set_node_max_concurrent, update_node, delete_node_if_not_busy, cancel_job,
  retry_job, delete_job, schedule_job_retry, patch_pending_job, prune_old_jobs,
}

pub data Op : Type 0 where
  create : Job → Op
  assign : ℕ → ℕ → Op
  report : ℕ → JobStatus → String → ℕ → List ℕ → Op
  finish : ℕ → JobStatus → ℤ → String → List String → List ℕ → Op
  complete : ℕ → JobStatus → Report → Op
  cancel : ℕ → Op
  retry : ℕ → Op
  schedule : ℕ → ℕ → ℕ → Op
  delete : ℕ → Op
  prune : ℤ → Op
  patch : ℕ → Option ℕ → Option ℤ → Op
  release : ℕ → Op
  write_node : Node → Op
  remove_node : ℕ → Op
  set_slots : ℕ → ℤ → Op

-- an operation that fails leaves the tables as they were
abbrev pub or_same : {E : Type 0} → Store → Result E Store → Store
or_same s (ok t) = t
or_same s (err e) = s

abbrev pub patched : {E : Type 0} → Store → Result E (Store × Bool) → Store
patched s (ok (t, changed)) = t
patched s (err e) = s

unfoldable pub apply : ℕ → Op → Store → Store
apply now (create j) s = (create_job now j s).0
apply now (assign i n) s = or_same s (assign_job now i n s)
apply now (report i st step progress tail) s = update_job_status i st step progress tail s
apply now (finish i st code error outputs tail) s = finish_job now i st code error outputs tail s
apply now (complete i st r) s = or_same s (finish_job_with_report now i st r s)
apply now (cancel i) s = (cancel_job now i s).0
apply now (retry i) s = (retry_job i s).0
apply now (schedule i n t) s = schedule_job_retry i n t s
apply now (delete i) s = (delete_job i s).0
apply now (prune d) s = (prune_old_jobs now d s).0
apply now (patch i f p) s = patched s (patch_pending_job i f p s)
apply now (release n) s = release_node n s
apply now (write_node n) s = update_node n s
apply now (remove_node n) s = (delete_node_if_not_busy n s).0
apply now (set_slots n m) s = set_node_max_concurrent n m s

-- Each operation with the clock that it reads.
unfoldable pub run : List (ℕ × Op) → Store → Store
run [] s = s
run ((now, op) ∷ ops) s = run ops (apply now op s)
