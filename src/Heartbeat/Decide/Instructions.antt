-- ===== src/Heartbeat/Decide/Instructions.antt =====
-- Which instruction a heartbeat is answered with, and when.
use encode_system.Prelude.{
  ℕ, ◌+◌, ◌≤◌, ◌<◌, ◌≡◌, ◌⊎◌, sym, ◌∙◌, List, [], ◌++◌, Bool, true, false, some, arith, length,
}
use encode_system.Model.{Node, Heartbeat, job_reports}
use encode_system.Jobs.{slots}
use encode_system.Jobs.Lifecycle.{active_jobs_for_node}
use encode_system.Server.{Env, Settings, Manifest, current_settings}
use encode_system.Heartbeat.{
  Reported, absorb, apply_reports, after_reboot, expire_reboot, survivors,
}
use encode_system.Heartbeat.Fill.{Payload}
use encode_system.Heartbeat.Decide.{
  Controller, Reply, nothing, update, work, disk_low, metric_effect, has_active_job, node_after,
  handle_heartbeat,
}
use encode_system.Heartbeat.Decide.Cases.{
  decide-work, decide-busy, decide-starved, reboot_limit-set,
}

-- The parts of a heartbeat that its answer depends on: what it took from the report, and the node's
-- surviving active jobs.
abbrev pub taken : Heartbeat → Node → Controller → Reported
taken hb n c =
    apply_reports n.id (job_reports hb)
      (record { store = c.store; effects = c.effects ++ metric_effect n hb.disk_free_gb; ids = [] })

abbrev pub active_jobs : Heartbeat → Node → Controller → ℕ
active_jobs hb n c = survivors (taken hb n c).ids (active_jobs_for_node n.id (taken hb n c).store)

abbrev pub answer : Env → Heartbeat → Node → Controller → Reply
answer env hb n c = (handle_heartbeat env hb n c).1

node_after_lem :
    (env : Env) (hb : Heartbeat) (a : Bool) (active : ℕ) (n : Node)
    → ((node_after env hb a active n).enabled ≡ n.enabled)
      × ((node_after env hb a active n).tasks_since_boot ≡ hb.tasks_since_boot)
      × ((node_after env hb a active n).max_concurrent_jobs ≡ n.max_concurrent_jobs)
unfolding expire_reboot after_reboot absorb
node_after_lem env hb a active n = (ground arith, ground arith, ground arith)

node_after-no_reboot :
    (env : Env) (hb : Heartbeat) (a : Bool) (active : ℕ) (n : Node)
    → n.reboot_pending ≡ false
    → (node_after env hb a active n).reboot_pending ≡ false
unfolding expire_reboot after_reboot absorb
node_after-no_reboot env hb a active n h = ground arith

-- Work is handed out only to an enabled node that is not syncing, whose task counter is below the
-- configured limit, with drain mode off and its disk not low; and never more jobs than the slots that
-- the surviving ones leave free.
pub handle_heartbeat-work :
    (env : Env) (hb : Heartbeat) (n : Node) (c : Controller) {ps : List Payload}
    → answer env hb n c ≡ work ps
    → (n.enabled ≡ true)
      × (hb.syncing ≡ false)
      × (hb.tasks_since_boot < env.config.tasks_before_reboot)
      × ((current_settings env).drain_mode ≡ false)
      × (disk_low (current_settings env).disk_alert_gb hb.disk_free_gb ≡ false)
      × (active_jobs hb n c + length ps ≤ slots n)
unfolding handle_heartbeat
handle_heartbeat-work env hb n c h =
    let a = has_active_job hb (taken hb n c).ids in
    let m = decide-work env hb a (active_jobs hb n c) _ _ h in
    let (en, tasks, cap) = node_after_lem env hb a (active_jobs hb n c) n in
    (
      sym en ∙ m.enabled,
      m.not_syncing,
      omega (arith, m.below_limit, tasks),
      m.not_drained,
      m.disk_ok,
      ground (arith, m.fits, cap),
    )

-- A node that is syncing, or that reports a live job of its own, is told neither to reboot nor to
-- update: a running encode is never interrupted.
pub handle_heartbeat-busy :
    (env : Env) (hb : Heartbeat) (n : Node) (c : Controller)
    → has_active_job hb (taken hb n c).ids ≡ true
    → (answer env hb n c ≡ nothing) ⊎ ((ps : List Payload) × (answer env hb n c ≡ work ps))
unfolding handle_heartbeat
handle_heartbeat-busy env hb n c h =
    decide-busy env hb (has_active_job hb (taken hb n c).ids) (active_jobs hb n c) _ _ h

-- With the settings' task limit above the configured one, a node whose counter lies between the two
-- gets no work from such a heartbeat and, with no reboot pending, is not told to reboot either: the answer
-- is nothing or an update.
pub handle_heartbeat-starved :
    (env : Env) (hb : Heartbeat) (n : Node) (c : Controller) (st : Settings)
    → env.settings ≡ some st
    → env.config.tasks_before_reboot ≤ hb.tasks_since_boot
    → hb.tasks_since_boot < st.tasks_before_reboot
    → n.reboot_pending ≡ false
    → (answer env hb n c ≡ nothing) ⊎ ((m : Manifest) × (answer env hb n c ≡ update m))
unfolding handle_heartbeat
handle_heartbeat-starved env hb n c st e low high p =
    let a = has_active_job hb (taken hb n c).ids in
    let active = active_jobs hb n c in
    let (en, tasks, cap) = node_after_lem env hb a active n in
    decide-starved env hb a active _ _ (omega (arith, low, tasks))
      (reboot_limit-set env st _ e (omega (arith, high, tasks)))
      (node_after-no_reboot env hb a active n p)
