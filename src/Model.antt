-- ===== src/Model.antt =====
-- The domain types (backend/internal/model/model.go), as far as the modelled code reads or writes
-- them. Times are whole seconds, as the store keeps them; a float64 is only copied by this code, and
-- is a number here; an id is a positive number, and 0 stands for "none" where the source has it so.
use encode_system.Prelude.{ℕ, String, List, Option, Bool, true, false, [], ◌∷◌, ltb, if◌then◌else◌}
use encode_system.Prelude.Int.{ℤ}

-- `JobStatus` is a Go string: `other` is any text that is none of the six constants, which a
-- heartbeat can carry.
pub data JobStatus : Type 0 where
  pending assigned running done failed cancelled : JobStatus
  other : String → JobStatus

-- Terminal reports whether the status ends the job's lifecycle.
abbrev pub terminal : JobStatus → Bool
terminal done = true
terminal failed = true
terminal cancelled = true
terminal _ = false

-- the SQL test `status IN ('assigned','running')`
abbrev pub live : JobStatus → Bool
live assigned = true
live running = true
live _ = false

pub data NodeStatus : Type 0 where
  idle busy offline reboot_pending : NodeStatus

pub record StepTiming : Type 0 where
  pub step : String
  pub started_at : ℕ
  pub duration_sec : ℕ

pub record Job : Type 0 where
  pub id : ℕ
  pub series : String
  pub episode : String
  pub episode_dir : String
  pub script_type : String
  pub script_file : String
  pub flow_id : ℕ
  pub status : JobStatus
  pub node_id : ℕ
  pub step : String
  pub progress : ℕ
  pub exit_code : ℤ
  pub error : String
  pub log_tail : List ℕ
  pub outputs : List String
  pub created_at : ℕ
  pub started_at : Option ℕ
  pub finished_at : Option ℕ
  pub full_log : List ℕ
  pub step_timings : List StepTiming
  pub metrics : List (String × ℕ)
  pub priority : ℤ
  pub retry_count : ℕ
  pub next_retry_at : Option ℕ
  pub last_failed_node_id : ℕ

pub record Node : Type 0 where
  pub id : ℕ
  pub name : String
  pub enabled : Bool
  pub status : NodeStatus
  pub group : String
  pub max_concurrent_jobs : ℕ
  pub agent_version : String
  pub lib_version : ℕ
  pub bin_version : ℕ
  pub tasks_since_boot : ℕ
  pub reboot_pending : Bool
  pub reboot_issued_at_tasks : ℕ
  pub reboot_issued_at : Option ℕ
  pub last_seen : Option ℕ
  pub last_error : String
  pub agent_log : List ℕ
  pub platform : String

-- A flow's retry policy; its steps are in the script renderer's own record.
pub record Flow : Type 0 where
  pub id : ℕ
  pub name : String
  pub is_default : Bool
  pub max_retries : ℤ
  pub retry_backoff_minutes : ℤ

pub record Series : Type 0 where
  pub name : String
  pub flow_id : ℕ
  pub tag : String
  pub enabled : Bool
  pub notify : Bool
  pub paused : Bool
  pub node_group : String
  pub webhook_url : String

pub record HeartbeatJobReport : Type 0 where
  pub job_id : ℕ
  pub job_status : JobStatus
  pub step : String
  pub step_progress : ℕ
  pub log_tail : List ℕ

pub record Heartbeat : Type 0 where
  pub agent_version : String
  pub lib_version : ℕ
  pub bin_version : ℕ
  pub syncing : Bool
  pub tasks_since_boot : ℕ
  pub job_id : ℕ
  pub job_status : JobStatus
  pub step : String
  pub step_progress : ℕ
  pub log_tail : List ℕ
  pub jobs : List HeartbeatJobReport
  -- free disk space of the sample in GB, `none` for an agent that sends no metrics
  pub disk_free_gb : Option ℤ
  pub platform : String
  pub agent_log : List ℕ

abbrev legacy_reports : Heartbeat → List HeartbeatJobReport
legacy_reports h =
    if ltb 0 h.job_id
    then record {
      job_id = h.job_id;
      job_status = h.job_status;
      step = h.step;
      step_progress = h.step_progress;
      log_tail = h.log_tail;
    }
      ∷ []
    else []

abbrev or_legacy : Heartbeat → List HeartbeatJobReport → List HeartbeatJobReport
or_legacy h [] = legacy_reports h
or_legacy h (r ∷ rs) = r ∷ rs

-- JobReports: the Jobs array when it has items, else the legacy single-job fields.
unfoldable pub job_reports : Heartbeat → List HeartbeatJobReport
job_reports h = or_legacy h h.jobs
