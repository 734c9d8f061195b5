-- ===== src/Heartbeat/Decide/Refines.antt =====
-- A whole heartbeat is a run of ordinary operations of the job store, so what holds of every run holds
-- across heartbeats: no handler path reaches into the tables otherwise.
use mathlib.Core.Path.{subst}
use encode_system.Prelude.{
  ℕ, refl, sym, if_both, List, [], ◌∷◌, Bool, true, false, not, ◌&&◌, Option, none, some,
  Bool-cases, inl, inr, leb,
}
use encode_system.Prelude.Int.{ℤ, negsuc}
use encode_system.Model.{Job, Node, Heartbeat, HeartbeatJobReport, Flow, job_reports, failed}
use encode_system.Jobs.{Store, get_job, get_flow, finish_job}
use encode_system.Jobs.Trace.{report, finish, schedule, write_node, apply}
use encode_system.Jobs.Trace.Capacity.{WithinCapacity, run-WithinCapacity}
use encode_system.Jobs.Trace.Reach.{Reached, Reached-refl, Reached-then}
use encode_system.Server.{Env, Effect, exhausted, retry_with, should_auto_retry, current_settings}
use encode_system.Heartbeat.{
  Reported, own_job, take_report, apply_reports, is_orphan, orphan_error, orphan_outcome,
  orphan_reread, fail_orphan, fail_orphans,
}
use encode_system.Heartbeat.Fill.Slots.{fill-Reached}
use encode_system.Heartbeat.Decide.{
  Controller, Reply, check_disk, disk_low, alert_disk, unless_low, assign_work, issue_reboot,
  decide, reboot_limit, outdated, scope_manifest, handle_heartbeat,
}

module _ (s : Store) where
  take_report-Reached :
      (rep : HeartbeatJobReport) (r : Reported) (o : Option Job)
      → Reached s r.store
      → Reached s (take_report rep r o).store
  unfolding apply
  take_report-Reached rep r none h = h
  take_report-Reached rep r (some j) h =
      Reached-then 0 (report j.id rep.job_status rep.step rep.step_progress rep.log_tail) h tt

  apply_reports-Reached :
      (n : ℕ) (reps : List HeartbeatJobReport) (r : Reported)
      → Reached s r.store
      → Reached s (apply_reports n reps r).store
  unfolding apply_reports
  apply_reports-Reached n [] r h = h
  apply_reports-Reached n (rep ∷ reps) r h =
      apply_reports-Reached n reps _
        (take_report-Reached rep r (own_job n (get_job rep.job_id r.store)) h)

  retry_with-Reached :
      (now : ℕ) (j : Job) (i : ℕ) (t : Store) (o : Option Flow)
      → Reached s t
      → Reached s (retry_with now j i t o).1
  unfolding apply
  retry_with-Reached now j i t none h = h
  retry_with-Reached now j i t (some fl) h =
      elim (Bool-cases (exhausted fl.max_retries j.retry_count)) [
        | inl e ↦ rw e h
        | inr e ↦ rw e (Reached-then now (schedule i _ _) h tt)
      ]

  pub should_auto_retry-Reached :
      (now : ℕ) (j : Job) (i : ℕ) (t : Store)
      → Reached s t
      → Reached s (should_auto_retry now j i t).1
  unfolding should_auto_retry
  should_auto_retry-Reached now j i t h = retry_with-Reached now j i t (get_flow j.flow_id t) h

  orphan_outcome-Reached :
      (env : Env) (i : ℕ) (acc : Store × List Effect) (j : Job) (r : Bool × Store)
      → Reached s r.1
      → Reached s (orphan_outcome env i acc j r).0
  orphan_outcome-Reached env i (t, fx) j (true, u) h = h
  orphan_outcome-Reached env i (t, fx) j (false, u) h = h

  orphan_reread-Reached :
      (env : Env) (i : ℕ) (acc : Store × List Effect) (o : Option Job)
      → Reached s acc.0
      → Reached s (orphan_reread env i acc o).0
  orphan_reread-Reached env i (t, fx) none h = h
  orphan_reread-Reached env i (t, fx) (some j) h =
      orphan_outcome-Reached env i (t, fx) j (should_auto_retry env.now j i t)
        (should_auto_retry-Reached env.now j i t h)

  fail_orphan-Reached :
      (env : Env) (j : Job) (acc : Store × List Effect)
      → Reached s acc.0
      → Reached s (fail_orphan env j acc).0
  unfolding fail_orphan apply
  fail_orphan-Reached env j (t, fx) h =
      let u = finish_job env.now j.id failed (negsuc 0) orphan_error [] [] t in
      orphan_reread-Reached env j.id (u, fx) (get_job j.id u)
        (Reached-then env.now (finish j.id failed (negsuc 0) orphan_error [] []) h refl)

  fail_orphans-Reached :
      (env : Env) (ids : List ℕ) (js : List Job) (acc : Store × List Effect)
      → Reached s acc.0
      → Reached s (fail_orphans env ids js acc).0
  unfolding fail_orphans
  fail_orphans-Reached env ids [] acc h = h
  fail_orphans-Reached env ids (j ∷ js) acc h = fail_orphans-Reached env ids js _ (
      if_both (λ (a : Store × List Effect). Reached s a.0) (is_orphan ids j)
        (fail_orphan-Reached env j acc h) h)

  alert_disk-Reached :
      (i : ℕ) (free threshold : ℤ) (c : Controller) (r : Bool × List (ℕ × ℕ))
      → Reached s c.store
      → Reached s (alert_disk i free threshold c r).store
  alert_disk-Reached i free threshold c (true, m) h = h
  alert_disk-Reached i free threshold c (false, m) h = h

  check_disk-Reached :
      (env : Env) (n : Node) (hb : Heartbeat) (c : Controller)
      → Reached s c.store
      → Reached s (check_disk env n hb c).1.store
  unfolding check_disk
  check_disk-Reached env n hb c h =
      if_both (λ (r : Bool × Controller). Reached s r.1.store)
        (disk_low (current_settings env).disk_alert_gb hb.disk_free_gb)
        (alert_disk-Reached n.id _ _ c _ h) h

  unless_low-Reached :
      (env : Env) (n : Node) (free : ℕ) (r : Bool × Controller)
      → Reached s r.1.store
      → Reached s (unless_low env n free r).0.store
  unless_low-Reached env n free (true, c) h = h
  unless_low-Reached env n free (false, c) h =
      if_both (λ (r : Controller × Reply). Reached s r.0.store) (current_settings env).drain_mode h
        (fill-Reached s free env n (record { store = c.store; effects = c.effects; payloads = [] })
          h)

  assign_work-Reached :
      (env : Env) (hb : Heartbeat) (active : ℕ) (n : Node) (c : Controller)
      → Reached s c.store
      → Reached s (assign_work env hb active n c).0.store
  unfolding assign_work
  assign_work-Reached env hb active n c h =
      if_both (λ (r : Controller × Reply). Reached s r.0.store) _ h
        (unless_low-Reached env n _ (check_disk env n hb c) (check_disk-Reached env n hb c h))

  issue_reboot-Reached :
      (env : Env) (n : Node) (c : Controller)
      → Reached s c.store
      → Reached s (issue_reboot env n c).store
  unfolding apply
  issue_reboot-Reached env n c h =
      if_both (λ (d : Controller). Reached s d.store) n.reboot_pending h
        (Reached-then env.now (write_node _) h tt)

  -- the tables of an answer are reached
  record Answer (r : Controller × Reply) : Type 0 where
    reached : Reached s r.0.store

  decide-Reached :
      (env : Env) (hb : Heartbeat) (has_active : Bool) (active : ℕ) (n : Node) (c : Controller)
      → Reached s c.store
      → Answer (decide env hb has_active active n c)
  unfolding decide
  decide-Reached env hb has_active active n c h =
      if_both Answer (not n.enabled) (record { reached = h })
        (if_both Answer (not has_active && leb (reboot_limit env) n.tasks_since_boot)
          (record { reached = issue_reboot-Reached env n c h })
          (if_both Answer (not has_active && n.reboot_pending) (record { reached = h })
            (if_both Answer (not has_active && outdated (scope_manifest env.manifest n) n)
              (record { reached = h })
              (record { reached = assign_work-Reached env hb active n c h }))))

-- What a heartbeat does to the tables, on every branch, is a run of ordinary operations of the
-- store: no operation but those, and FinishJob only with a terminal status.
pub handle_heartbeat-Reached :
    (env : Env) (hb : Heartbeat) (n : Node) (c : Controller)
    → Reached c.store (handle_heartbeat env hb n c).0.store
unfolding handle_heartbeat apply
handle_heartbeat-Reached env hb n c =
    (decide-Reached c.store env hb _ _ _ _ (
      Reached-then env.now (write_node _)
        (fail_orphans-Reached c.store env _ _ _
          (apply_reports-Reached c.store n.id (job_reports hb) _ (Reached-refl c.store)))
        tt)).reached

-- From tables in which no node has more active jobs than slots, and rows of one node id agree on
-- the slots, a heartbeat leads to tables of the same kind, whatever the agent reports.
pub handle_heartbeat-WithinCapacity :
    (env : Env) (hb : Heartbeat) (n : Node) (c : Controller)
    → WithinCapacity c.store
    → WithinCapacity (handle_heartbeat env hb n c).0.store
handle_heartbeat-WithinCapacity env hb n c h =
    let r = handle_heartbeat-Reached env hb n c in
    subst WithinCapacity (sym r.made) (run-WithinCapacity r.ops c.store r.ordinary h)
