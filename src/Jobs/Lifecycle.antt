-- ===== src/Jobs/Lifecycle.antt =====
-- The other operations on jobs and nodes of backend/internal/store/store.go, and PruneOldJobs and
-- DeleteNodeIfNotBusy of store_ext.go.
use encode_system.Prelude.{
  ℕ, ◌-◌, ◌*◌, List, [], ◌∷◌, Bool, true, false, not, ◌&&◌, ◌||◌, Option, none, some, ◌==◌, ltb,
  leb, if◌then◌else◌,
}
use encode_system.Prelude.Int.{ℤ, pos, negsuc}
use encode_system.Prelude.Results.{Result, ok, err}
use encode_system.Table.{select_where, count_where, update_where, delete_where}
use encode_system.Model.{
  Job, JobStatus, Node, pending, assigned, cancelled, terminal, busy, NodeStatus, idle,
}
use encode_system.Jobs.{
  Store, is_pending, is_failed, is_some, active_on, pending_with_id, active_count, get_job,
}

-- ReleaseNode: idle again once a slot is free. It compares with the raw column.
unfoldable pub release_node : ℕ → Store → Store
release_node node_id s = record s {
  nodes =
      update_where (λ n. n.id == node_id && ltb (active_count node_id s) n.max_concurrent_jobs)
        (λ n. record n { status = idle }) s.nodes;
}

-- ORDER BY id
unfoldable pub insert_by_id : Job → List Job → List Job
insert_by_id j [] = j ∷ []
insert_by_id j (k ∷ ks) = if leb j.id k.id then j ∷ k ∷ ks else k ∷ insert_by_id j ks

unfoldable pub order_by_id : List Job → List Job
unfolding insert_by_id
order_by_id [] = []
order_by_id (j ∷ js) = insert_by_id j (order_by_id js)

unfoldable pub active_jobs_for_node : ℕ → Store → List Job
unfolding order_by_id
active_jobs_for_node node_id s = order_by_id (select_where (active_on node_id) s.jobs)

-- SetNodeMaxConcurrent clamps to 1-8.
unfoldable pub clamp_max_concurrent : ℤ → ℕ
clamp_max_concurrent (pos n) = if ltb n 1 then 1 else if ltb 8 n then 8 else n
clamp_max_concurrent (negsuc n) = 1

unfoldable pub set_node_max_concurrent : ℕ → ℤ → Store → Store
unfolding clamp_max_concurrent
set_node_max_concurrent node_id max_jobs s = record s {
  nodes =
      update_where (λ n. n.id == node_id)
        (λ n. record n { max_concurrent_jobs = clamp_max_concurrent max_jobs }) s.nodes;
}

-- UpdateNode writes every column but the id, the name, the group and the slot cap.
unfoldable pub update_node : Node → Store → Store
update_node n s = record s {
  nodes =
      update_where (λ m. m.id == n.id)
        (λ m. record n {
          name = m.name;
          group = m.group;
          max_concurrent_jobs = m.max_concurrent_jobs;
        })
        s.nodes;
}

abbrev pub is_busy : NodeStatus → Bool
is_busy busy = true
is_busy _ = false

unfoldable pub delete_node_if_not_busy : ℕ → Store → Store × ℕ
delete_node_if_not_busy i s =
    let p = λ (n : Node). n.id == i && not (is_busy n.status) in
    (record s { nodes = delete_where p s.nodes }, count_where p s.nodes)

-- status IN ('pending','assigned')
abbrev pub cancellable : JobStatus → Bool
cancellable pending = true
cancellable assigned = true
cancellable _ = false

-- CancelJob returns the rows affected.
unfoldable pub cancel_row : ℕ → Job → Job
cancel_row now j = record j { status = cancelled; finished_at = some now }

unfoldable pub cancel_job : ℕ → ℕ → Store → Store × ℕ
unfolding cancel_row
cancel_job now i s =
    let p = λ (j : Job). j.id == i && cancellable j.status in
    (record s { jobs = update_where p (cancel_row now) s.jobs }, count_where p s.jobs)

-- The clear set that RetryJob and ScheduleJobRetry share; the metrics and the steering stamp stay.
unfoldable pub requeue_row : ℕ → Option ℕ → Job → Job
requeue_row retry_count next_retry_at j = record j {
  status = pending;
  node_id = 0;
  step = "";
  progress = 0;
  exit_code = pos 0;
  error = "";
  log_tail = [];
  outputs = [];
  full_log = [];
  step_timings = [];
  started_at = none;
  finished_at = none;
  next_retry_at = next_retry_at;
  retry_count = retry_count;
}

-- a terminal job, or a pending one behind a backoff gate
unfoldable pub retryable : Job → Bool
retryable j = terminal j.status || (is_pending j.status && is_some j.next_retry_at)

unfoldable pub retry_job : ℕ → Store → Store × ℕ
unfolding retryable requeue_row
retry_job i s =
    let p = λ (j : Job). j.id == i && retryable j in
    (record s { jobs = update_where p (requeue_row 0 none) s.jobs }, count_where p s.jobs)

unfoldable pub delete_job : ℕ → Store → Store × Bool
delete_job i s =
    let p = λ (j : Job). j.id == i && terminal j.status in
    (record s { jobs = delete_where p s.jobs }, ltb 0 (count_where p s.jobs))

unfoldable pub schedule_job_retry : ℕ → ℕ → ℕ → Store → Store
unfolding requeue_row
schedule_job_retry i retry_count next_retry_at s = record s {
  jobs =
      update_where (λ j. j.id == i && is_failed j.status)
        (requeue_row retry_count (some next_retry_at)) s.jobs;
}

-- the conditional SET list of PatchPendingJob: a nil pointer leaves its column alone
unfoldable pub patch_row : Option ℕ → Option ℤ → Job → Job
patch_row flow_id priority j = record j {
  flow_id = elim flow_id [ none ↦ j.flow_id | some f ↦ f ];
  priority = elim priority [ none ↦ j.priority | some p ↦ p ];
}

-- sql.ErrNoRows
pub data PatchError : Type 0 where
  no_rows : PatchError

-- with nothing to patch, only the status is read
abbrev pub patch_nothing : Store → Option Job → Result PatchError (Store × Bool)
patch_nothing s none = err no_rows
patch_nothing s (some j) = ok (s, is_pending j.status)

unfoldable pub patch_pending_job :
    ℕ → Option ℕ → Option ℤ → Store → Result PatchError (Store × Bool)
unfolding patch_row
patch_pending_job i none none s = patch_nothing s (get_job i s)
patch_pending_job i flow_id priority s = ok (
  record s { jobs = update_where (pending_with_id i) (patch_row flow_id priority) s.jobs },
  ltb 0 (count_where (pending_with_id i) s.jobs),
)

-- finished_at IS NOT NULL AND finished_at < cutoff
abbrev pub finished_before : ℕ → Option ℕ → Bool
finished_before cutoff none = false
finished_before cutoff (some t) = ltb t cutoff

-- PruneOldJobs; a UTC day is 86400 seconds.
unfoldable pub prune_old_jobs : ℕ → ℤ → Store → Store × ℕ
prune_old_jobs now (negsuc d) s = (s, 0)
prune_old_jobs now (pos d) s =
    let p = λ (j : Job). terminal j.status && finished_before (now - d * 86400) j.finished_at in
    if d == 0 then (s, 0) else (record s { jobs = delete_where p s.jobs }, count_where p s.jobs)
