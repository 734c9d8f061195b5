-- ===== src/Heartbeat/Examples.antt =====
-- Heartbeats of a node on small tables.
use mathlib.Core.List.{Memᴰ}
use encode_system.Prelude.{
  ◌+◌, ◌≤◌, ◌<◌, ◌≡◌, ◌⊎◌, refl, sym, ◌∙◌, [], ◌∷◌, true, false, some, arith, All, inl, inr,
}
use encode_system.Prelude.Int.{pos}
use encode_system.Table.{select_one, select_where, count_where, update_where, first_by}
use encode_system.Table.Counts.{Memᴰ-uncons}
use encode_system.Model.{Job, Node, pending, job_reports}
use encode_system.Jobs.{
  active_on, pending_with_id, active_count, get_job, get_node, mark_assigned, set_status_busy,
  assign_job, live_with_id, report_row, update_job_status,
}
use encode_system.Jobs.Trace.Capacity.{WithinCapacity}
use encode_system.Server.{current_settings, Manifest}
use encode_system.Heartbeat.Fill.{Payload, Filled, fill, turn}
use encode_system.Heartbeat.Fill.Held.{Held, fill-held}
use encode_system.Heartbeat.Decide.{
  nothing, work, update, handle_heartbeat, disk_low, has_active_job, last_alert, should_alert,
  check_disk, scope_manifest, outdated, assign_work, reboot_limit, decide,
}
use encode_system.Heartbeat.Decide.Refines.{handle_heartbeat-WithinCapacity}
use encode_system.Heartbeat.Decide.Instructions.{
  answer, active_jobs, taken, handle_heartbeat-work, handle_heartbeat-starved,
}
use encode_system.FullLog.{tail_on_line}
use encode_system.Jobs.Lifecycle.{insert_by_id, order_by_id, active_jobs_for_node, update_node}
use encode_system.Jobs.Queue.{
  not_paused, groups_clash, routed, assignable, assignable_for, before,
  next_assignable_job_for_node,
}
use encode_system.Heartbeat.{
  absorb, apply_reports, has_id, is_orphan, fail_orphan, fail_orphans, survivors, after_reboot,
  expire_reboot, node_status,
}
use encode_system.Samples.{
  job, node, busy_store, waiting_store, env, controller, heartbeat, settings,
}

handed : Payload
handed = record { id = 2; script = "script" }

work_run : answer (env 20) (heartbeat 1 3) (node 1 2) (controller busy_store) ≡ work (handed ∷ [])
unfolding handed select_one select_where count_where update_where first_by job_reports tail_on_line
    active_on pending_with_id active_count get_job get_node mark_assigned set_status_busy assign_job
    live_with_id report_row update_job_status insert_by_id order_by_id active_jobs_for_node
    update_node not_paused groups_clash routed assignable assignable_for before
    next_assignable_job_for_node current_settings absorb apply_reports has_id is_orphan fail_orphan
    fail_orphans survivors after_reboot expire_reboot node_status turn fill last_alert should_alert
    check_disk scope_manifest outdated assign_work reboot_limit decide handle_heartbeat
work_run = refl

handle_heartbeat-work_example :
    ((node 1 2).enabled ≡ true)
    × ((heartbeat 1 3).syncing ≡ false)
    × (3 < 20)
    × (settings.drain_mode ≡ false)
    × (disk_low settings.disk_alert_gb (some (pos 50)) ≡ false)
    × (active_jobs (heartbeat 1 3) (node 1 2) (controller busy_store) + 1 ≤ 2)
unfolding current_settings
handle_heartbeat-work_example =
    handle_heartbeat-work (env 20) (heartbeat 1 3) (node 1 2) (controller busy_store) work_run

reported_run :
    has_active_job (heartbeat 1 3) (taken (heartbeat 1 3) (node 1 2) (controller busy_store)).ids
    ≡ true
unfolding select_one select_where count_where update_where first_by job_reports tail_on_line
    active_on pending_with_id active_count get_job get_node mark_assigned set_status_busy assign_job
    live_with_id report_row update_job_status insert_by_id order_by_id active_jobs_for_node
    update_node not_paused groups_clash routed assignable assignable_for before
    next_assignable_job_for_node current_settings absorb apply_reports has_id is_orphan fail_orphan
    fail_orphans survivors after_reboot expire_reboot node_status turn fill last_alert should_alert
    check_disk scope_manifest outdated assign_work reboot_limit decide handle_heartbeat
reported_run = refl

-- configured limit 10, limit in the settings 20, counter 15
handle_heartbeat-starved_example :
    (answer (env 10) (heartbeat 0 15) (node 1 2) (controller waiting_store) ≡ nothing)
    ⊎ ((m : Manifest) × (answer (env 10) (heartbeat 0 15) (node 1 2) (controller waiting_store)
          ≡ update m))
handle_heartbeat-starved_example =
    handle_heartbeat-starved (env 10) (heartbeat 0 15) (node 1 2) (controller waiting_store)
      settings refl (omega arith) (omega arith) refl

Memᴰ-nil {ℓ} : {A : Type ℓ} {x : A} → Memᴰ x [] → ⊥
Memᴰ-nil h = elim h [ ]

only_node : (n : Node) → Memᴰ n waiting_store.nodes → n ≡ node 1 2
only_node n m = elim (Memᴰ-uncons m) [ inl q ↦ q | inr r ↦ absurd (Memᴰ-nil r) ]

only_job : (j : Job) → Memᴰ j waiting_store.jobs → j ≡ job 2 pending 0
only_job j m = elim (Memᴰ-uncons m) [ inl q ↦ q | inr r ↦ absurd (Memᴰ-nil r) ]

none_active : active_count 1 waiting_store ≡ 0
unfolding active_count active_on count_where
none_active = refl

waiting_store-WithinCapacity : WithinCapacity waiting_store
waiting_store-WithinCapacity = record {
  fits = λ n m. rw (only_node n m) (omega (arith, none_active));
  key = λ m n hm hn e. rw (only_node m hm) (rw (only_node n hn) refl);
}

handle_heartbeat-WithinCapacity_example :
    WithinCapacity
      (handle_heartbeat (env 20) (heartbeat 0 3) (node 1 2) (controller waiting_store)).0.store
handle_heartbeat-WithinCapacity_example =
    handle_heartbeat-WithinCapacity (env 20) (heartbeat 0 3) (node 1 2) (controller waiting_store)
      waiting_store-WithinCapacity

abbrev start : Filled
start = record { store = waiting_store; effects = []; payloads = [] }

fill-held_example :
    All
      (Held 1 (fill 2 (env 20) (node 1 2) start).store.jobs)
      (fill 2 (env 20) (node 1 2) start).payloads
fill-held_example =
    fill-held 2 (env 20) (node 1 2) start (λ j k hj hk e. only_job j hj ∙ sym (only_job k hk)) refl
