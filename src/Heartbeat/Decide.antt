-- ===== src/Heartbeat/Decide.antt =====
-- The second half of handleHeartbeat of backend/internal/api/handlers.go: reboot before update before
-- work, the drains, and the loop that fills the free slots; and checkDisk of disk_alert.go.
pub mod Refines
pub mod Cases
pub mod Instructions
use text.Mathlib.Text.{◌==◌ as ◌=s=◌}
use encode_system.Prelude.{
  ℕ, zero, suc, ◌-◌, String, List, [], ◌∷◌, ◌++◌, Bool, true, false, not, ◌&&◌, ◌||◌, Option, none,
  some, ◌==◌, ltb, leb, if◌then◌else◌,
}
use encode_system.Prelude.Int.{ℤ, pos, negsuc, ltbℤ}
use encode_system.Model.{Node, Heartbeat, job_reports, reboot_pending}
use encode_system.Jobs.{Store, slots}
use encode_system.Jobs.Lifecycle.{active_jobs_for_node, update_node}
use encode_system.Server.{
  Env, Settings, Manifest, Effect, disk_alert, node_metric, current_settings,
}
use encode_system.Heartbeat.Fill.{Payload, Filled, fill}
use encode_system.Heartbeat.{
  Reported, absorb, apply_reports, after_reboot, fail_orphans, survivors, expire_reboot,
  node_status,
}

pub data Reply : Type 0 where
  nothing : Reply
  reboot : ℕ → Reply
  update : Manifest → Reply
  work : List Payload → Reply

-- The controller's memory beside the tables: what went out, and the last disk alert of each node.
pub record Controller : Type 0 where
  pub store : Store
  pub effects : List Effect
  pub disk_last : List (ℕ × ℕ)

abbrev pub disk_alert_cooldown : ℕ
disk_alert_cooldown = 3600

unfoldable pub last_alert : ℕ → List (ℕ × ℕ) → Option ℕ
last_alert i [] = none
last_alert i ((k, t) ∷ m) = if k == i then some t else last_alert i m

abbrev pub cooling : ℕ → ℕ → Option ℕ → Bool
cooling now cooldown none = false
cooling now cooldown (some t) = ltb (now - t) cooldown

-- shouldAlert: the decision and the map with it recorded
unfoldable pub should_alert : ℕ → ℕ → ℕ → List (ℕ × ℕ) → Bool × List (ℕ × ℕ)
unfolding last_alert
should_alert i now cooldown m =
    if cooling now cooldown (last_alert i m) then (false, m) else (true, (i, now) ∷ m)

-- 0 < a
abbrev pub positive : ℤ → Bool
positive a = ltbℤ (pos 0) a

-- checkDisk without its alert: free space was reported and lies below the threshold
abbrev pub disk_low : ℤ → Option ℤ → Bool
disk_low threshold none = false
disk_low threshold (some free) = positive threshold && positive free && ltbℤ free threshold

abbrev pub free_gb : Option ℤ → ℤ
free_gb none = pos 0
free_gb (some free) = free

abbrev pub alert_disk : ℕ → ℤ → ℤ → Controller → Bool × List (ℕ × ℕ) → Controller
alert_disk i free threshold c (true, m) = record c {
  effects = c.effects ++ disk_alert i free threshold ∷ [];
  disk_last = m;
}
alert_disk i free threshold c (false, m) = record c { disk_last = m }

unfoldable pub check_disk : Env → Node → Heartbeat → Controller → Bool × Controller
unfolding should_alert
check_disk env n hb c =
    let threshold = (current_settings env).disk_alert_gb in
    if disk_low threshold hb.disk_free_gb
    then (
      true,
      alert_disk n.id (free_gb hb.disk_free_gb) threshold c
          (should_alert n.id env.now disk_alert_cooldown c.disk_last),
    )
    else (false, c)

-- scopeManifestForNode: a Linux node sees its own agent and no Windows packages.
unfoldable pub scope_manifest : Manifest → Node → Manifest
scope_manifest m n =
    if n.platform =s= "linux"
    then record m {
      agent_version = m.linux_agent_version;
      agent_sha256 = m.linux_agent_sha256;
      prev_agent_version = m.prev_linux_agent_version;
      prev_agent_sha256 = m.prev_linux_agent_sha256;
      linux_agent_version = "";
      linux_agent_sha256 = "";
      prev_linux_agent_version = "";
      prev_linux_agent_sha256 = "";
      lib_version = 0;
      lib_sha256 = "";
      bin_version = 0;
      bin_sha256 = "";
      bin_size = 0;
    }
    else m

-- needsAgent || needsLib || needsBin
unfoldable pub outdated : Manifest → Node → Bool
outdated m n =
    (not (m.agent_version =s= "") && not (m.agent_version =s= n.agent_version))
    || (ltb 0 m.lib_version && not (m.lib_version == n.lib_version))
    || (ltb 0 m.bin_version && not (m.bin_version == n.bin_version))

-- the reply of a finished loop: one payload is sent as `job`, more as `jobs`
abbrev pub reply_of : List Payload → Reply
reply_of [] = nothing
reply_of (p ∷ ps) = work (p ∷ ps)

abbrev pub filled : Controller → Filled → Controller × Reply
filled c f = (record c { store = f.store; effects = f.effects }, reply_of f.payloads)

abbrev pub unless_low : Env → Node → ℕ → Bool × Controller → Controller × Reply
unless_low env n free (true, c) = (c, nothing)
unless_low env n free (false, c) =
    if (current_settings env).drain_mode
    then (c, nothing)
    else filled c (fill free env n (record { store = c.store; effects = c.effects; payloads = [] }))

-- Assignment: held by a sync, a full node, a pending reboot, the configured task limit, low disk and
-- drain mode.
unfoldable pub assign_work : Env → Heartbeat → ℕ → Node → Controller → Controller × Reply
assign_work env hb active n c =
    let free = slots n - active in
    if hb.syncing
      || leb (slots n) active
      || n.reboot_pending
      || leb env.config.tasks_before_reboot n.tasks_since_boot
    then (c, nothing)
    else unless_low env n free (check_disk env n hb c)

abbrev pub live_limit : ℕ → Option Settings → ℕ
live_limit limit none = limit
live_limit limit (some st) = if ltb 0 st.tasks_before_reboot then st.tasks_before_reboot else limit

-- the task limit of the reboot rule: the settings row's, where it sets one
unfoldable pub reboot_limit : Env → ℕ
reboot_limit env = live_limit env.config.tasks_before_reboot env.settings

abbrev pub issue_reboot : Env → Node → Controller → Controller
issue_reboot env n c = if n.reboot_pending then c else record c {
  store =
      update_node
        (record n {
          reboot_pending = true;
          reboot_issued_at_tasks = n.tasks_since_boot;
          reboot_issued_at = some env.now;
          status = reboot_pending;
        })
        c.store;
}

-- The instruction: none for a disabled node, then reboot, update, work.
unfoldable pub decide : Env → Heartbeat → Bool → ℕ → Node → Controller → Controller × Reply
decide env hb has_active active n c =
    if not n.enabled
    then (c, nothing)
    else if not has_active && leb (reboot_limit env) n.tasks_since_boot
    then (issue_reboot env n c, reboot 30)
    else if not has_active && n.reboot_pending
    then (c, reboot 30)
    else if not has_active && outdated (scope_manifest env.manifest n) n
    then (c, update (scope_manifest env.manifest n))
    else assign_work env hb active n c

abbrev pub metric_effect : Node → Option ℤ → List Effect
metric_effect n none = []
metric_effect n (some free) = node_metric n.id free ∷ []

-- hasActiveJob: an update sync counts as busy, and so does every job taken from the report
abbrev pub has_active_job : Heartbeat → List ℕ → Bool
has_active_job hb [] = hb.syncing
has_active_job hb (i ∷ ids) = true

-- the node as phases 1, 3, 5 and 6 leave it
abbrev pub node_after : Env → Heartbeat → Bool → ℕ → Node → Node
node_after env hb has_active active n =
    let m =
      expire_reboot env has_active (after_reboot n.tasks_since_boot has_active (absorb env hb n)) in
    record m { status = node_status hb.syncing active m }

-- handleHeartbeat
unfoldable pub handle_heartbeat : Env → Heartbeat → Node → Controller → Controller × Reply
handle_heartbeat env hb n c =
    let r = apply_reports n.id (job_reports hb) (record {
      store = c.store;
      effects = c.effects ++ metric_effect n hb.disk_free_gb;
      ids = [];
    }) in
    let owned = active_jobs_for_node n.id r.store in
    let (s, fx) = fail_orphans env r.ids owned (r.store, r.effects) in
    let active = survivors r.ids owned in
    let has_active = has_active_job hb r.ids in
    let m = node_after env hb has_active active n in
    decide env hb has_active active m (record c { store = update_node m s; effects = fx })
