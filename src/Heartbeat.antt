-- ===== src/Heartbeat.antt =====
-- handleHeartbeat of backend/internal/api/handlers.go, in its phases: what the report says of the node,
-- of its jobs, the orphans, the reboot flag, and then (Heartbeat/Decide.antt) the instruction.
pub mod Fill
pub mod Decide
mod Examples
use text.Mathlib.Text.{◌==◌ as ◌=s=◌}
use encode_system.Prelude.{
  ℕ, zero, suc, ◌+◌, ◌-◌, String, List, [], ◌∷◌, ◌++◌, Bool, true, false, not, ◌&&◌, ◌||◌, Option,
  none, some, ◌==◌, ltb, leb, if◌then◌else◌,
}
use encode_system.Prelude.Int.{ℤ, pos, negsuc}
use encode_system.FullLog.{tail_on_line}
use encode_system.Model.{
  Job, JobStatus, Node, Heartbeat, HeartbeatJobReport, job_reports, running, failed, terminal,
  NodeStatus, busy, idle, reboot_pending,
}
use encode_system.Jobs.{Store, get_job, update_job_status, finish_job, slots}
use encode_system.Jobs.Lifecycle.{active_jobs_for_node, update_node}
use encode_system.Server.{Env, Effect, progress, final, should_auto_retry, notify_job_finished}

abbrev pub max_agent_log_bytes : ℕ
max_agent_log_bytes = 16384

abbrev pub kept_log : List ℕ → List ℕ → List ℕ
kept_log old [] = old
kept_log old (c ∷ cs) = tail_on_line max_agent_log_bytes (c ∷ cs)

-- Phase 1: the node's own fields; an empty log or platform keeps the stored one.
unfoldable pub absorb : Env → Heartbeat → Node → Node
absorb env hb n = record n {
  agent_version = hb.agent_version;
  lib_version = hb.lib_version;
  bin_version = hb.bin_version;
  tasks_since_boot = hb.tasks_since_boot;
  last_seen = some env.now;
  last_error = "";
  agent_log = kept_log n.agent_log hb.agent_log;
  platform = if hb.platform =s= "" then n.platform else env.to_lower hb.platform;
}

-- The state of the loop over the reported jobs.
pub record Reported : Type 0 where
  pub store : Store
  pub effects : List Effect
  pub ids : List ℕ

-- GetJob's row, if it is live and this node's own
abbrev pub own_job : ℕ → Option Job → Option Job
own_job node_id none = none
own_job node_id (some j) =
    if terminal j.status then none else if j.node_id == node_id then some j else none

abbrev pub take_report : HeartbeatJobReport → Reported → Option Job → Reported
take_report rep r none = r
take_report rep r (some j) = record {
  store = update_job_status j.id rep.job_status rep.step rep.step_progress rep.log_tail r.store;
  effects = r.effects ++ progress j.id rep.step rep.step_progress rep.log_tail ∷ [];
  ids = j.id ∷ r.ids;
}

-- Phase 2: every reported job that the node owns is updated and published.
unfoldable pub apply_reports : ℕ → List HeartbeatJobReport → Reported → Reported
apply_reports node_id [] r = r
apply_reports node_id (rep ∷ reps) r =
    apply_reports node_id reps (take_report rep r (own_job node_id (get_job rep.job_id r.store)))

unfoldable pub has_id : List ℕ → ℕ → Bool
has_id [] i = false
has_id (k ∷ ks) i = k == i || has_id ks i

abbrev pub is_running : JobStatus → Bool
is_running running = true
is_running _ = false

-- running in the table, and not in the heartbeat: the job died with its process
unfoldable pub is_orphan : List ℕ → Job → Bool
unfolding has_id
is_orphan ids j = is_running j.status && not (has_id ids j.id)

abbrev pub orphan_error : String
orphan_error = "node stopped reporting the job (reboot/restart) — orphaned; retry it"

abbrev pub nonempty : List ℕ → Bool
nonempty [] = false
nonempty (c ∷ cs) = true

abbrev pub orphan_outcome : Env → ℕ → Store × List Effect → Job → Bool × Store → Store × List Effect
orphan_outcome env i (s, fx) j (true, t) = (t, fx)
orphan_outcome env i (s, fx) j (false, t) = (
  t,
  fx
      ++ final i failed j.error j.exit_code (nonempty j.full_log)
        ∷ notify_job_finished env t i "controller",
)

abbrev pub orphan_reread : Env → ℕ → Store × List Effect → Option Job → Store × List Effect
orphan_reread env i (s, fx) none = (s, fx)
orphan_reread env i (s, fx) (some j) =
    orphan_outcome env i (s, fx) j (should_auto_retry env.now j i s)

unfoldable pub fail_orphan : Env → Job → Store × List Effect → Store × List Effect
fail_orphan env orphan (s, fx) =
    let t = finish_job env.now orphan.id failed (negsuc 0) orphan_error [] [] s in
    orphan_reread env orphan.id (t, fx) (get_job orphan.id t)

-- Phase 4: the loop over the node's active jobs as they were read before it.
unfoldable pub fail_orphans : Env → List ℕ → List Job → Store × List Effect → Store × List Effect
fail_orphans env ids [] acc = acc
fail_orphans env ids (j ∷ js) acc =
    fail_orphans env ids js (if is_orphan ids j then fail_orphan env j acc else acc)

-- activeCount: the survivors of that snapshot
unfoldable pub survivors : List ℕ → List Job → ℕ
survivors ids [] = 0
survivors ids (j ∷ js) = let rest = survivors ids js in if is_orphan ids j then rest else suc rest

-- Phase 3: a task counter below the last one shows that the node came back from its reboot.
unfoldable pub after_reboot : ℕ → Bool → Node → Node
after_reboot prev_tasks has_active n =
    if n.reboot_pending && not has_active && ltb n.tasks_since_boot prev_tasks
    then record n { reboot_pending = false; reboot_issued_at = none }
    else n

abbrev pub past_grace : Env → Option ℕ → Bool
past_grace env none = true
past_grace env (some t) = ltb env.config.reboot_grace_period (env.now - t)

-- Phase 5: a reboot attempt older than the grace period starts over.
unfoldable pub expire_reboot : Env → Bool → Node → Node
expire_reboot env has_active n =
    if n.reboot_pending && not has_active && past_grace env n.reboot_issued_at
    then record n { reboot_pending = false; reboot_issued_at = none }
    else n

unfoldable pub node_status : Bool → ℕ → Node → NodeStatus
node_status syncing active n =
    if syncing || leb (slots n) active
    then busy
    else if n.reboot_pending
    then reboot_pending
    else idle
