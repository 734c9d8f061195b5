-- ===== src/Jobs.antt =====
-- The jobs, nodes, flows and series tables and the operations on jobs of
-- backend/internal/store/store.go. A method takes the state and returns the new one. `datetime('now')`
-- and `time.Now()` are the argument `now`. Database errors other than those that the code makes
-- itself are not modelled, and neither is the SQL driver: a statement is its effect on the rows.
pub mod Lifecycle
pub mod Capacity
pub mod Trace
pub mod Queue
pub mod Ids
mod Examples
use encode_system.Prelude.{
  ℕ, zero, suc, ◌+◌, ◌-◌, ◌*◌, String, List, [], ◌∷◌, ◌++◌, Bool, true, false, not, ◌&&◌, ◌||◌,
  Option, none, some, ◌==◌, ltb, leb, if◌then◌else◌,
}
use encode_system.Prelude.Int.{ℤ, pos, negsuc}
use encode_system.Prelude.Results.{Result, ok, err, ◌>>=◌, ◌>>◌, guard, or_err}
use encode_system.Table.{select_one, select_where, count_where, update_where, delete_where}
use encode_system.FullLog.{cap_full_log}
use encode_system.Model.{
  Job, JobStatus, Node, Flow, Series, StepTiming, pending, assigned, done, failed, cancelled,
  terminal, live, idle, busy, offline,
}

pub record Store : Type 0 where
  pub jobs : List Job
  -- AUTOINCREMENT: the id of the next job
  pub next_id : ℕ
  pub nodes : List Node
  pub flows : List Flow
  pub series : List Series

abbrev pub is_pending : JobStatus → Bool
is_pending pending = true
is_pending _ = false

abbrev pub is_done : JobStatus → Bool
is_done done = true
is_done _ = false

abbrev pub is_failed : JobStatus → Bool
is_failed failed = true
is_failed _ = false

abbrev pub is_some : {A : Type 0} → Option A → Bool
is_some none = false
is_some (some a) = true

-- node_id = ? AND status IN ('assigned','running')
unfoldable pub active_on : ℕ → Job → Bool
active_on n j = j.node_id == n && live j.status

-- id = ? AND status = 'pending'
unfoldable pub pending_with_id : ℕ → Job → Bool
pending_with_id i j = j.id == i && is_pending j.status

unfoldable pub active_count : ℕ → Store → ℕ
active_count n s = count_where (active_on n) s.jobs

-- GetJob, GetNode
unfoldable pub get_job : ℕ → Store → Option Job
get_job i s = select_one (λ j. j.id == i) s.jobs

unfoldable pub get_node : ℕ → Store → Option Node
get_node i s = select_one (λ n. n.id == i) s.nodes

unfoldable pub get_flow : ℕ → Store → Option Flow
get_flow i s = select_one (λ f. f.id == i) s.flows

-- The row that CreateJob's INSERT makes of the fields that it passes on.
unfoldable pub new_row : ℕ → ℕ → Job → Job
new_row now i j = record j {
  id = i;
  status = pending;
  node_id = 0;
  step = "";
  progress = 0;
  exit_code = pos 0;
  error = "";
  log_tail = [];
  outputs = [];
  created_at = now;
  started_at = none;
  finished_at = none;
  full_log = [];
  step_timings = [];
  metrics = [];
  retry_count = 0;
  next_retry_at = none;
  last_failed_node_id = 0;
}

unfoldable pub create_job : ℕ → Job → Store → Store × ℕ
unfolding new_row
create_job now j s =
    (record s { jobs = s.jobs ++ new_row now s.next_id j ∷ []; next_id = s.next_id + 1 }, s.next_id)

pub data AssignError : Type 0 where
  unknown_node disabled at_capacity not_pending : AssignError

-- `if maxConc < 1 { maxConc = 1 }`
abbrev pub slots : Node → ℕ
slots n = if ltb n.max_concurrent_jobs 1 then 1 else n.max_concurrent_jobs

unfoldable pub mark_assigned : ℕ → ℕ → Job → Job
mark_assigned now n j = record j { status = assigned; node_id = n; started_at = some now }

unfoldable pub set_status_busy : Node → Node
set_status_busy n = record n { status = busy }

-- AssignJob, one transaction: an error rolls all of it back.
unfoldable pub assign_job : ℕ → ℕ → ℕ → Store → Result AssignError Store
assign_job now job_id node_id s = do
  n ← or_err unknown_node (get_node node_id s)
  guard n.enabled disabled
  guard (not (leb (slots n) (active_count node_id s))) at_capacity
  guard (count_where (pending_with_id job_id) s.jobs == 1) not_pending
  ok (record s {
    jobs = update_where (pending_with_id job_id) (mark_assigned now node_id) s.jobs;
    nodes =
        if leb (slots n) (active_count node_id s + 1)
        then update_where (λ m. m.id == node_id) set_status_busy s.nodes
        else s.nodes;
  })

-- UpdateJobStatus: `WHERE id=? AND status IN ('assigned','running')`
unfoldable pub live_with_id : ℕ → Job → Bool
live_with_id i j = j.id == i && live j.status

unfoldable pub report_row : JobStatus → String → ℕ → List ℕ → Job → Job
report_row st step progress log_tail j = record j {
  status = st;
  step = step;
  progress = progress;
  log_tail = log_tail;
}

unfoldable pub update_job_status : ℕ → JobStatus → String → ℕ → List ℕ → Store → Store
unfolding report_row
update_job_status i st step progress log_tail s = record s {
  jobs = update_where (live_with_id i) (report_row st step progress log_tail) s.jobs;
}

-- The SET list of FinishJob: progress 100 and a cleared steering stamp only for a done job.
unfoldable pub finish_row : ℕ → JobStatus → ℤ → String → List String → List ℕ → Job → Job
finish_row now st exit_code error outputs log_tail j = record j {
  status = st;
  exit_code = exit_code;
  error = error;
  outputs = outputs;
  log_tail = log_tail;
  finished_at = some now;
  progress = if is_done st then 100 else j.progress;
  last_failed_node_id = if is_done st then 0 else j.node_id;
}

-- FinishJob has no guard on the status.
unfoldable pub finish_job : ℕ → ℕ → JobStatus → ℤ → String → List String → List ℕ → Store → Store
unfolding finish_row
finish_job now i st exit_code error outputs log_tail s = record s {
  jobs = update_where (λ j. j.id == i) (finish_row now st exit_code error outputs log_tail) s.jobs;
}

-- The completion report of an agent (the body that handleJobComplete decodes).
pub record Report : Type 0 where
  pub is_done : Bool
  pub exit_code : ℤ
  pub error : String
  pub outputs : List String
  pub log_tail : List ℕ
  pub log_full : List ℕ
  pub step_timings : List StepTiming
  pub metrics : List (String × ℕ)

-- ErrJobNotFinishable
pub data FinishError : Type 0 where
  not_finishable : FinishError

unfoldable pub finish_row_with_report : ℕ → JobStatus → Report → Job → Job
unfolding finish_row
finish_row_with_report now st r j =
    record (finish_row now st r.exit_code r.error r.outputs r.log_tail j) {
      full_log = cap_full_log r.log_full;
      step_timings = r.step_timings;
      metrics = r.metrics;
    }

unfoldable pub finish_job_with_report :
    ℕ → ℕ → JobStatus → Report → Store → Result FinishError Store
unfolding finish_row_with_report
finish_job_with_report now i st r s = do
  guard (not (count_where (live_with_id i) s.jobs == 0)) not_finishable
  ok (record s { jobs = update_where (live_with_id i) (finish_row_with_report now st r) s.jobs })
