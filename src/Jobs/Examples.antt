-- ===== src/Jobs/Examples.antt =====
-- Runs of the job store on small tables.
use mathlib.Core.List.{Memᴰ}
use encode_system.Prelude.{ℕ, ◌≡◌, refl, List, [], ◌∷◌, true, some, arith, inl, inr}
use encode_system.Prelude.Results.{ok}
use encode_system.Table.{select_one, select_where, count_where, update_where, first_by}
use encode_system.Table.Counts.{Memᴰ-uncons}
use encode_system.Model.{busy, Node, pending, running, done, assigned}
use encode_system.Jobs.{
  Store, active_count, assign_job, active_on, mark_assigned, set_status_busy, pending_with_id,
  get_node,
}
use encode_system.Jobs.Queue.{
  next_assignable_job_for_node, assignable_for, assignable, not_paused, routed, groups_clash,
}
use encode_system.Jobs.Queue.Order.{NoLater, next_assignable_first}
use encode_system.Jobs.Trace.{Op, assign, report, complete, cancel, run}
use encode_system.Jobs.Trace.Capacity.{WithinCapacity, run-WithinCapacity}
use encode_system.Jobs.Trace.Stays.{run-terminal_stays}
use encode_system.Samples.{report as job_report, job, node, busy_store}

abbrev after_assign : Store
after_assign = record busy_store {
  jobs = job 1 running 1 ∷ record (job 2 assigned 1) { started_at = some 7 } ∷ job 3 done 1 ∷ [];
  nodes = record (node 1 2) { status = busy } ∷ [];
}

assign_run : assign_job 7 2 1 busy_store ≡ ok after_assign
unfolding assign_job get_node select_one active_count active_on count_where update_where
    pending_with_id mark_assigned set_status_busy
assign_run = refl

Memᴰ-nil : {n : Node} → Memᴰ n [] → ⊥
Memᴰ-nil h = elim h [ ]

only_node : (n : Node) → Memᴰ n busy_store.nodes → n ≡ node 1 2
only_node n m = elim (Memᴰ-uncons m) [ inl q ↦ q | inr r ↦ absurd (Memᴰ-nil r) ]

one_active : active_count 1 busy_store ≡ 1
unfolding active_count active_on count_where
one_active = refl

busy_store-WithinCapacity : WithinCapacity busy_store
busy_store-WithinCapacity = record {
  fits = λ n m. rw (only_node n m) (omega (arith, one_active));
  key = λ m n hm hn e. rw (only_node m hm) (rw (only_node n hn) refl);
}

abbrev day : List (ℕ × Op)
day = (5, assign 2 1) ∷ (6, report 2 running "encode" 50 []) ∷ (7, complete 1 done job_report) ∷ []

run-WithinCapacity_example : WithinCapacity (run day busy_store)
run-WithinCapacity_example =
    run-WithinCapacity day busy_store (tt, (tt, (tt, tt))) busy_store-WithinCapacity

run-terminal_stays_example :
    Memᴰ
      (job 3 done 1)
      (run
        ((5, report 3 running "encode" 50 []) ∷ (6, cancel 3) ∷ (7, assign 3 1) ∷ [])
        busy_store).jobs
run-terminal_stays_example =
    run-terminal_stays ((5, report 3 running "encode" 50 []) ∷ (6, cancel 3) ∷ (7, assign 3 1) ∷ [])
      busy_store (job 3 done 1) (tt, (tt, (tt, tt))) refl (Memᴰ.tail (Memᴰ.tail (Memᴰ.head refl)))

next_run : next_assignable_job_for_node 50 1 busy_store ≡ some (job 2 pending 0)
unfolding next_assignable_job_for_node assignable_for assignable not_paused routed groups_clash
    first_by select_where count_where
next_run = refl

waiting_fits : assignable_for 50 1 busy_store (job 2 pending 0) ≡ true
unfolding assignable_for assignable not_paused routed groups_clash count_where
waiting_fits = refl

next_assignable_first_example :
    Memᴰ (job 2 pending 0) busy_store.jobs
    × (assignable_for 50 1 busy_store (job 2 pending 0) ≡ true)
    × NoLater 1 (job 2 pending 0) (job 2 pending 0)
next_assignable_first_example =
    next_assignable_first 50 1 busy_store next_run (job 2 pending 0) (Memᴰ.tail (Memᴰ.head refl))
      waiting_fits
