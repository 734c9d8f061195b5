-- ===== src/Server.antt =====
-- What the handlers of backend/internal/api share: the configuration they read, the outputs they
-- make beside their HTTP reply, the retry decision and the outcome notification of handlers.go.
-- The production wiring is modelled, in which Server.Notifier is nil.
use text.Mathlib.Text.{◌==◌ as ◌=s=◌}
use encode_system.Prelude.{
  ℕ, ◌+◌, ◌*◌, String, List, [], ◌∷◌, Bool, true, false, Option, none, some, ◌==◌, ltb, leb,
  if◌then◌else◌,
}
use encode_system.Prelude.Int.{ℤ, pos, negsuc}
use encode_system.Prelude.Results.{Result}
use encode_system.Table.{select_one}
use encode_system.Model.{Job, JobStatus, Flow, Series}
use encode_system.Jobs.{Store, get_job, get_flow}
use encode_system.Jobs.Lifecycle.{schedule_job_retry}

-- The settings row, as far as it is read here. `tasks_before_reboot` 0 stands for unset.
pub record Settings : Type 0 where
  pub tasks_before_reboot : ℕ
  pub disk_alert_gb : ℤ
  pub drain_mode : Bool
  pub notify_digest : Bool
  pub discord_webhook : String

pub record Config : Type 0 where
  pub tasks_before_reboot : ℕ
  pub reboot_grace_period : ℕ

-- UpdateManifest
pub record Manifest : Type 0 where
  pub agent_version : String
  pub agent_sha256 : String
  pub prev_agent_version : String
  pub prev_agent_sha256 : String
  pub linux_agent_version : String
  pub linux_agent_sha256 : String
  pub prev_linux_agent_version : String
  pub prev_linux_agent_sha256 : String
  pub lib_version : ℕ
  pub lib_sha256 : String
  pub bin_version : ℕ
  pub bin_sha256 : String
  pub bin_size : ℕ

-- What a request reads besides the tables: the clock, the configuration, the settings row and its
-- defaults, the published manifest, the script that renderJob makes of a job (or its error text), and
-- strings.ToLower.
pub record Env : Type 0 where
  pub now : ℕ
  pub config : Config
  pub settings : Option Settings
  pub defaults : Settings
  pub manifest : Manifest
  pub render : Store → Job → String → Result String String
  pub to_lower : String → String

-- currentSettings: the row once there is one, else the defaults
unfoldable pub current_settings : Env → Settings
current_settings env = elim env.settings [ none ↦ env.defaults | some st ↦ st ]

-- What goes out beside the reply: live events of a job's log stream, alerts and digest entries, the
-- row of node_metrics.
pub data Effect : Type 0 where
  progress : ℕ → String → ℕ → List ℕ → Effect
  final : ℕ → JobStatus → String → ℤ → Bool → Effect
  job_alert : ℕ → String → String → Effect
  digest_entry : ℕ → String → Effect
  disk_alert : ℕ → ℤ → ℤ → Effect
  node_metric : ℕ → ℤ → Effect

-- the minutes of the flow, at least 1 and at most 1440
unfoldable pub backoff_minutes : ℤ → ℕ
backoff_minutes (negsuc n) = 1
backoff_minutes (pos n) = if n == 0 then 1 else if ltb 1440 n then 1440 else n

-- fl.MaxRetries <= 0, or job.RetryCount >= fl.MaxRetries
abbrev pub exhausted : ℤ → ℕ → Bool
exhausted (negsuc n) count = true
exhausted (pos n) count = leb n count

abbrev pub retry_with : ℕ → Job → ℕ → Store → Option Flow → Bool × Store
retry_with now job i s none = (false, s)
retry_with now job i s (some fl) =
    if exhausted fl.max_retries job.retry_count then (false, s) else (
      true,
      schedule_job_retry i (job.retry_count + 1)
          (now + backoff_minutes fl.retry_backoff_minutes * 60) s,
    )

-- shouldAutoRetry: the decision, and the re-queue when it is taken
unfoldable pub should_auto_retry : ℕ → Job → ℕ → Store → Bool × Store
should_auto_retry now job i s = retry_with now job i s (get_flow job.flow_id s)

unfoldable pub series_by_name : String → Store → Option Series
series_by_name name s = select_one (λ sr. sr.name =s= name) s.series

-- the digest entry or the direct alert, to the series' own channel where it has one
abbrev pub deliver : Settings → ℕ → String → String → List Effect
deliver st i node_name series_hook =
    if st.notify_digest
    then digest_entry i node_name ∷ []
    else job_alert i node_name (if series_hook =s= "" then st.discord_webhook else series_hook) ∷ []

abbrev pub notify_series : Settings → ℕ → String → Option Series → List Effect
notify_series st i node_name none = deliver st i node_name ""
notify_series st i node_name (some sr) =
    if sr.notify then deliver st i node_name sr.webhook_url else []

abbrev pub notify_job : Settings → Store → ℕ → String → Option Job → List Effect
notify_job st s i node_name none = []
notify_job st s i node_name (some j) = notify_series st i node_name (series_by_name j.series s)

-- notifyJobFinished
unfoldable pub notify_job_finished : Env → Store → ℕ → String → List Effect
notify_job_finished env s i node_name =
    notify_job (current_settings env) s i node_name (get_job i s)
