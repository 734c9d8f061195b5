-- ===== src/Samples.antt =====
-- Concrete tables and requests for the tests of the other modules.
use encode_system.Prelude.{ℕ, List, [], ◌∷◌, true, false, none, some}
use encode_system.Prelude.Int.{pos}
use encode_system.Prelude.Results.{ok}
use encode_system.Model.{
  Job, JobStatus, pending, running, done, Node, idle, Flow, Series, Heartbeat,
}
use encode_system.Jobs.{Store, Report}
use encode_system.Server.{Settings, Manifest, Env}
use encode_system.Heartbeat.Decide.{Controller}

abbrev pub job : ℕ → JobStatus → ℕ → Job
job i st n = record {
  id = i;
  series = "Show";
  episode = "01";
  episode_dir = "/eps/01";
  script_type = "ps1";
  script_file = "";
  flow_id = 1;
  status = st;
  node_id = n;
  step = "";
  progress = 0;
  exit_code = pos 0;
  error = "";
  log_tail = [];
  outputs = [];
  created_at = 100;
  started_at = none;
  finished_at = none;
  full_log = [];
  step_timings = [];
  metrics = [];
  priority = pos 0;
  retry_count = 0;
  next_retry_at = none;
  last_failed_node_id = 0;
}

abbrev pub node : ℕ → ℕ → Node
node i cap = record {
  id = i;
  name = "node";
  enabled = true;
  status = idle;
  group = "";
  max_concurrent_jobs = cap;
  agent_version = "1";
  lib_version = 0;
  bin_version = 0;
  tasks_since_boot = 1;
  reboot_pending = false;
  reboot_issued_at_tasks = 0;
  reboot_issued_at = none;
  last_seen = none;
  last_error = "";
  agent_log = [];
  platform = "windows";
}

abbrev pub series_row : Series
series_row = record {
  name = "Show";
  flow_id = 0;
  tag = "";
  enabled = true;
  notify = true;
  paused = false;
  node_group = "";
  webhook_url = "";
}

abbrev pub flow_row : Flow
flow_row = record {
  id = 1;
  name = "encode";
  is_default = true;
  max_retries = pos 2;
  retry_backoff_minutes = pos 5;
}

abbrev pub store_of : List Job → Store
store_of js = record {
  jobs = js;
  next_id = 9;
  nodes = node 1 2 ∷ [];
  flows = flow_row ∷ [];
  series = series_row ∷ [];
}

-- one job runs on node 1, one waits, one is done
abbrev pub busy_store : Store
busy_store = store_of (job 1 running 1 ∷ job 2 pending 0 ∷ job 3 done 1 ∷ [])

abbrev pub waiting_store : Store
waiting_store = store_of (job 2 pending 0 ∷ [])

abbrev pub settings : Settings
settings = record {
  tasks_before_reboot = 20;
  disk_alert_gb = pos 10;
  drain_mode = false;
  notify_digest = false;
  discord_webhook = "hook";
}

abbrev pub manifest : Manifest
manifest = record {
  agent_version = "1";
  agent_sha256 = "a";
  prev_agent_version = "";
  prev_agent_sha256 = "";
  linux_agent_version = "";
  linux_agent_sha256 = "";
  prev_linux_agent_version = "";
  prev_linux_agent_sha256 = "";
  lib_version = 0;
  lib_sha256 = "";
  bin_version = 0;
  bin_sha256 = "";
  bin_size = 0;
}

-- a controller with the given configured task limit, whose scripts all render
abbrev pub env : ℕ → Env
env limit = record {
  now = 1000;
  config = record { tasks_before_reboot = limit; reboot_grace_period = 600 };
  settings = some settings;
  defaults = settings;
  manifest = manifest;
  render = λ s j platform. ok "script";
  to_lower = λ s. s;
}

abbrev pub controller : Store → Controller
controller s = record { store = s; effects = []; disk_last = [] }

-- a heartbeat that reports one job, by the legacy fields; 0 is none
abbrev pub heartbeat : ℕ → ℕ → Heartbeat
heartbeat i tasks = record {
  agent_version = "1";
  lib_version = 0;
  bin_version = 0;
  syncing = false;
  tasks_since_boot = tasks;
  job_id = i;
  job_status = running;
  step = "encode";
  step_progress = 40;
  log_tail = [];
  jobs = [];
  disk_free_gb = some (pos 50);
  platform = "windows";
  agent_log = [];
}

abbrev pub report : Report
report = record {
  is_done = true;
  exit_code = pos 0;
  error = "";
  outputs = [];
  log_tail = [];
  log_full = [];
  step_timings = [];
  metrics = [];
}
