-- ===== src/Agent/Registry.antt =====
-- jobRegistry of backend/internal/agent/jobs.go: the jobs that the agent runs, by id. Each job has its
-- own progress and metric trackers.
pub mod Accept
use encode_system.Prelude.{
  ℕ, zero, suc, String, List, [], ◌∷◌, Bool, true, false, not, ◌||◌, map, ◌++◌, Option, none, some,
  ◌==◌, leb, if◌then◌else◌, length,
}
use encode_system.FullLog.{newline}
use encode_system.Model.{HeartbeatJobReport, running}
use encode_system.Heartbeat.Fill.{Payload}
use encode_system.Agent.Observer.{Progress, new_progress_tracker, progress_ring_lines}

abbrev pub max_local_jobs : ℕ
max_local_jobs = 8

pub record ActiveJob : Type 0 where
  pub payload : Payload
  pub prog : Progress
  pub metrics : List (String × ℕ)
  pub run_log : String

-- the map, one entry for each id
unfoldable pub find : ℕ → List (ℕ × ActiveJob) → Option ActiveJob
find i [] = none
find i ((k, j) ∷ m) = if k == i then some j else find i m

unfoldable pub has_key : ℕ → List (ℕ × ActiveJob) → Bool
has_key i [] = false
has_key i ((k, j) ∷ m) = k == i || has_key i m

unfoldable pub new_job : Payload → ActiveJob
new_job p = record {
  payload = p;
  prog = new_progress_tracker progress_ring_lines;
  metrics = [];
  run_log = "";
}

-- at the cap, or a duplicate
abbrev pub refused : Payload → List (ℕ × ActiveJob) → Bool
refused p jobs = leb max_local_jobs (length jobs) || has_key p.id jobs

abbrev pub registered : Payload → List (ℕ × ActiveJob) → List (ℕ × ActiveJob)
registered p jobs = if refused p jobs then jobs else (p.id, new_job p) ∷ jobs

abbrev pub with_started :
    Payload → Bool → List (ℕ × ActiveJob) × List Payload → List (ℕ × ActiveJob) × List Payload
with_started p true rest = rest
with_started p false (jobs, started) = (jobs, p ∷ started)

-- accept: the registry, and the payloads that the caller starts. A nil payload is `none`.
unfoldable pub accept :
    List (Option Payload) → List (ℕ × ActiveJob) → List (ℕ × ActiveJob) × List Payload
accept [] jobs = (jobs, [])
accept (none ∷ ps) jobs = accept ps jobs
accept (some p ∷ ps) jobs = with_started p (refused p jobs) (accept ps (registered p jobs))

unfoldable pub remove : ℕ → List (ℕ × ActiveJob) → List (ℕ × ActiveJob)
remove i [] = []
remove i ((k, j) ∷ m) = let rest = remove i m in if k == i then rest else (k, j) ∷ rest

-- the ids with their jobs, in ascending order
unfoldable pub insert_job : ℕ × ActiveJob → List (ℕ × ActiveJob) → List (ℕ × ActiveJob)
insert_job a [] = a ∷ []
insert_job a (b ∷ m) = let rest = insert_job a m in if leb a.0 b.0 then a ∷ b ∷ m else b ∷ rest

unfoldable pub by_id : List (ℕ × ActiveJob) → List (ℕ × ActiveJob)
unfolding insert_job
by_id [] = []
by_id (a ∷ m) = insert_job a (by_id m)

-- strings.Join(ring, "\n")
unfoldable pub join_lines : List (List ℕ) → List ℕ
join_lines [] = []
join_lines (l ∷ []) = l
join_lines (l ∷ m ∷ ls) = l ++ newline ∷ join_lines (m ∷ ls)

abbrev pub report_of : ℕ × ActiveJob → HeartbeatJobReport
report_of (i, j) = record {
  job_id = i;
  job_status = running;
  step = j.prog.step;
  step_progress = j.prog.pct;
  log_tail = join_lines j.prog.ring;
}

unfoldable pub reports : List (ℕ × ActiveJob) → List HeartbeatJobReport
unfolding by_id
reports jobs = map report_of (by_id jobs)

-- setRunLog
unfoldable pub set_run_log : ℕ → String → List (ℕ × ActiveJob) → List (ℕ × ActiveJob)
set_run_log i path [] = []
set_run_log i path ((k, j) ∷ m) =
    (k, if k == i then record j { run_log = path } else j) ∷ set_run_log i path m
