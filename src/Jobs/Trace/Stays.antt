-- ===== src/Jobs/Trace/Stays.antt =====
-- Which operations leave a finished job, or a running one, exactly as it is.
use mathlib.Core.List.{Memᴰ}
use encode_system.Prelude.{
  ℕ, ◌≡◌, refl, List, [], ◌∷◌, true, false, Option, none, some, arith, Bool-cases, inl, inr, ◌==◌,
  All,
}
use encode_system.Prelude.Int.{ℤ, pos, negsuc}
use encode_system.Prelude.Results.{Result, ok, err}
use encode_system.Table.{count_where}
use encode_system.Table.Counts.{Memᴰ-update, Memᴰ-delete, Memᴰ-append}
use encode_system.Model.{Job, JobStatus, terminal, running}
use encode_system.Jobs.{
  Store, pending_with_id, live_with_id, mark_assigned, assign_job, AssignError, report_row,
  update_job_status, create_job, finish_job_with_report, Report, get_job,
}
use encode_system.Jobs.Capacity.{assign_job-ok}
use encode_system.Jobs.Lifecycle.{
  cancel_job, retryable, retry_job, delete_job, schedule_job_retry, patch_nothing,
  patch_pending_job, prune_old_jobs, release_node, update_node, delete_node_if_not_busy,
  set_node_max_concurrent,
}
use encode_system.Jobs.Trace.{
  Op, create, assign, report, finish, complete, cancel, retry, schedule, delete, prune, patch,
  release, write_node, remove_node, set_slots, apply, run, or_same, patched,
}

-- Everything that agents and the dispatcher do, and the operator's changes to the queue: all but a
-- retry, a deletion, a prune and the unguarded FinishJob.
abbrev pub KeepsHistory : Op → Type 0
KeepsHistory (finish i st code error outputs tail) = ⊥
KeepsHistory (retry i) = ⊥
KeepsHistory (schedule i c t) = ⊥
KeepsHistory (delete i) = ⊥
KeepsHistory (prune d) = ⊥
KeepsHistory _ = Unit {0}

-- Everything but the reports of the agent and FinishJob.
abbrev pub FromOperator : Op → Type 0
FromOperator (report i st step p tail) = ⊥
FromOperator (finish i st code error outputs tail) = ⊥
FromOperator (complete i st r) = ⊥
FromOperator _ = Unit {0}

not-pending_with_id : (i : ℕ) (j : Job) → terminal j.status ≡ true → pending_with_id i j ≡ false
unfolding pending_with_id
not-pending_with_id i j h = ground arith

not-live_with_id : (i : ℕ) (j : Job) → terminal j.status ≡ true → live_with_id i j ≡ false
unfolding live_with_id
not-live_with_id i j h = ground arith

-- An assignment writes only to rows that are pending.
assign-stays :
    (now i n : ℕ) (s : Store) (j : Job)
    → pending_with_id i j ≡ false
    → Memᴰ j s.jobs
    → Memᴰ j (or_same s (assign_job now i n s)).jobs
assign-stays now i n s j h m = settle (assign_job now i n s) refl
  where
    settle : (r : Result AssignError Store) → assign_job now i n s ≡ r → Memᴰ j (or_same s r).jobs
    settle (ok t) e =
        let a = assign_job-ok now i n s e in
        rw a.rows (Memᴰ-update (pending_with_id i) (mark_assigned now n) h m)
    settle (err x) e = m

complete-stays :
    (now i : ℕ) (st : JobStatus) (r : Report) (s : Store) (j : Job)
    → live_with_id i j ≡ false
    → Memᴰ j s.jobs
    → Memᴰ j (or_same s (finish_job_with_report now i st r s)).jobs
unfolding finish_job_with_report
complete-stays now i st r s j h m = elim (Bool-cases (count_where (live_with_id i) s.jobs == 0)) [
  | inl e ↦ rw e m
  | inr e ↦ rw e (Memᴰ-update (live_with_id i) _ h m)
]

patch-stays :
    (i : ℕ) (f : Option ℕ) (p : Option ℤ) (s : Store) (j : Job)
    → pending_with_id i j ≡ false
    → Memᴰ j s.jobs
    → Memᴰ j (patched s (patch_pending_job i f p s)).jobs
unfolding patch_pending_job
patch-stays i none none s j h m = settle (get_job i s)
  where
    settle : (o : Option Job) → Memᴰ j (patched s (patch_nothing s o)).jobs
    settle none = m
    settle (some k) = m
patch-stays i f p s j h m = Memᴰ-update (pending_with_id i) _ h m

prune-stays :
    (now : ℕ) (d : ℤ) (s : Store) (j : Job)
    → terminal j.status ≡ false
    → Memᴰ j s.jobs
    → Memᴰ j (prune_old_jobs now d s).0.jobs
unfolding prune_old_jobs
prune-stays now (negsuc d) s j h m = m
prune-stays now (pos d) s j h m = elim (Bool-cases (d == 0)) [
  | inl e ↦ rw e m
  | inr e ↦ rw e (Memᴰ-delete _ (ground arith) m)
]

terminal-apply :
    (now : ℕ) (op : Op) (s : Store) (j : Job)
    → KeepsHistory op
    → terminal j.status ≡ true
    → Memᴰ j s.jobs
    → Memᴰ j (apply now op s).jobs
unfolding apply create_job update_job_status cancel_job release_node update_node
    delete_node_if_not_busy set_node_max_concurrent
terminal-apply now (create k) s j h t m = Memᴰ-append _ m
terminal-apply now (assign i n) s j h t m = assign-stays now i n s j (not-pending_with_id i j t) m
terminal-apply now (report i st step p tail) s j h t m =
    Memᴰ-update (live_with_id i) (report_row st step p tail) (not-live_with_id i j t) m
terminal-apply now (finish i st code error outputs tail) s j h t m = absurd h
terminal-apply now (complete i st r) s j h t m =
    complete-stays now i st r s j (not-live_with_id i j t) m
terminal-apply now (cancel i) s j h t m = Memᴰ-update _ _ (ground arith) m
terminal-apply now (retry i) s j h t m = absurd h
terminal-apply now (schedule i c g) s j h t m = absurd h
terminal-apply now (delete i) s j h t m = absurd h
terminal-apply now (prune d) s j h t m = absurd h
terminal-apply now (patch i f p) s j h t m = patch-stays i f p s j (not-pending_with_id i j t) m
terminal-apply now (release n) s j h t m = m
terminal-apply now (write_node n) s j h t m = m
terminal-apply now (remove_node n) s j h t m = m
terminal-apply now (set_slots n k) s j h t m = m

running-apply :
    (now : ℕ) (op : Op) (s : Store) (j : Job)
    → FromOperator op
    → j.status ≡ running
    → Memᴰ j s.jobs
    → Memᴰ j (apply now op s).jobs
unfolding apply create_job cancel_job retry_job retryable schedule_job_retry delete_job release_node
    update_node delete_node_if_not_busy set_node_max_concurrent pending_with_id
running-apply now (create k) s j h t m = Memᴰ-append _ m
running-apply now (assign i n) s j h t m = assign-stays now i n s j (ground arith) m
running-apply now (report i st step p tail) s j h t m = absurd h
running-apply now (finish i st code error outputs tail) s j h t m = absurd h
running-apply now (complete i st r) s j h t m = absurd h
running-apply now (cancel i) s j h t m = Memᴰ-update _ _ (ground arith) m
running-apply now (retry i) s j h t m = Memᴰ-update _ _ (ground arith) m
running-apply now (schedule i c g) s j h t m = Memᴰ-update _ _ (ground arith) m
running-apply now (delete i) s j h t m = Memᴰ-delete _ (ground arith) m
running-apply now (prune d) s j h t m = prune-stays now d s j (ground arith) m
running-apply now (patch i f p) s j h t m = patch-stays i f p s j (ground arith) m
running-apply now (release n) s j h t m = m
running-apply now (write_node n) s j h t m = m
running-apply now (remove_node n) s j h t m = m
running-apply now (set_slots n k) s j h t m = m

-- A finished job is never changed by a run of reports, guarded completions, assignments, cancels,
-- patches, new jobs and changes of nodes: its row, with its recorded outcome, is in the table after
-- it.
pub run-terminal_stays :
    (ops : List (ℕ × Op)) (s : Store) (j : Job)
    → All (λ (op : ℕ × Op). KeepsHistory op.1) ops
    → terminal j.status ≡ true
    → Memᴰ j s.jobs
    → Memᴰ j (run ops s).jobs
unfolding run
run-terminal_stays [] s j h t m = m
run-terminal_stays ((now, op) ∷ ops) s j h t m =
    run-terminal_stays ops (apply now op s) j h.1 t (terminal-apply now op s j h.0 t m)

-- A running job is never changed or removed by a run of assignments, cancels, retries, scheduled
-- retries, deletions, prunes, patches, new jobs and changes of nodes: its row is in the table after
-- it.
pub run-running_stays :
    (ops : List (ℕ × Op)) (s : Store) (j : Job)
    → All (λ (op : ℕ × Op). FromOperator op.1) ops
    → j.status ≡ running
    → Memᴰ j s.jobs
    → Memᴰ j (run ops s).jobs
unfolding run
run-running_stays [] s j h t m = m
run-running_stays ((now, op) ∷ ops) s j h t m =
    run-running_stays ops (apply now op s) j h.1 t (running-apply now op s j h.0 t m)
