-- ===== src/Jobs/Trace/Shrinks.antt =====
-- The operations that make no node fuller: all but an assignment, and a change of the slots.
use mathlib.Core.List.{Memᴰ}
use native.Mathlib.Nat.{le_refl, le_of_eq}
use encode_system.Prelude.{
  ℕ, ◌≤◌, ◌≡◌, ◌⊎◌, inl, inr, refl, sym, ap, ◌∙◌, String, List, Bool, true, false, Option, none,
  some, arith, Bool-cases, ◌==◌, ==_iff,
}
use encode_system.Prelude.Int.{ℤ, pos, negsuc}
use encode_system.Table.{count_where, update_where, delete_where}
use encode_system.Table.Counts.{
  count-update_le, count-delete_le, count-append_miss, Memᴰ-update_from, Memᴰ-delete_from,
}
use encode_system.Model.{Job, JobStatus, Node, terminal}
use encode_system.Jobs.{
  Store, active_on, active_count, pending_with_id, live_with_id, slots, new_row, report_row,
  get_job, create_job, update_job_status, finish_row, finish_job, finish_job_with_report,
  finish_row_with_report, Report,
}
use encode_system.Jobs.Lifecycle.{
  cancel_row, cancel_job, retry_job, requeue_row, patch_row, patch_nothing, schedule_job_retry,
  patch_pending_job, prune_old_jobs, release_node, update_node, delete_node_if_not_busy,
}
use encode_system.Jobs.Trace.{or_same, patched}

-- No node gains an active job, and the nodes and their slots are old ones.
pub record Shrinks (s t : Store) : Type 0 where
  pub fewer : (n : ℕ) → active_count n t ≤ active_count n s
  pub old :
      (m : Node)
      → Memᴰ m t.nodes
      → (n : Node) × Memᴰ n s.nodes × (n.id ≡ m.id) × (slots n ≡ slots m)

pub same_nodes :
    (s : Store) (m : Node)
    → Memᴰ m s.nodes
    → (n : Node) × Memᴰ n s.nodes × (n.id ≡ m.id) × (slots n ≡ slots m)
same_nodes s m h = (m, h, refl, refl)

-- an update of the jobs that makes no row active
pub Shrinks-update :
    (s : Store) (p : Job → Bool) (f : Job → Job)
    → ((n : ℕ) (j : Job) → p j ≡ true → (active_on n j ≡ true) ⊎ (active_on n (f j) ≡ false))
    → Shrinks s (record s { jobs = update_where p f s.jobs })
unfolding active_count
Shrinks-update s p f h = record {
  fewer = λ n. count-update_le (active_on n) p f (h n) s.jobs;
  old = λ m hm. same_nodes s m hm;
}

-- the ways in which an update of the job rows leaves the counts alone
report-count :
    (i : ℕ) (st : JobStatus) (step : String) (progress : ℕ) (tail : List ℕ) (n : ℕ) (j : Job)
    → live_with_id i j ≡ true
    → (active_on n j ≡ true) ⊎ (active_on n (report_row st step progress tail j) ≡ false)
unfolding live_with_id active_on report_row
report-count i st step progress tail n j h = ground arith

complete-count :
    (i now : ℕ) (st : JobStatus) (r : Report) (n : ℕ) (j : Job)
    → live_with_id i j ≡ true
    → (active_on n j ≡ true) ⊎ (active_on n (finish_row_with_report now st r j) ≡ false)
unfolding live_with_id active_on finish_row_with_report
complete-count i now st r n j h = ground arith

patch-count :
    (i : ℕ) (f : Option ℕ) (p : Option ℤ) (n : ℕ) (j : Job)
    → pending_with_id i j ≡ true
    → active_on n (patch_row f p j) ≡ false
unfolding pending_with_id active_on patch_row
patch-count i f p n j h = ground arith

finish-count :
    (now : ℕ) (st : JobStatus) (code : ℤ) (error : String) (outputs : List String) (tail : List ℕ)
    (n : ℕ) (j : Job)
    → terminal st ≡ true
    → active_on n (finish_row now st code error outputs tail j) ≡ false
unfolding active_on finish_row
finish-count now st code error outputs tail n j h = ground arith

create-count : (n now i : ℕ) (j : Job) → active_on n (new_row now i j) ≡ false
unfolding active_on new_row
create-count n now i j = ground arith

requeue-count : (n c : ℕ) (g : Option ℕ) (j : Job) → active_on n (requeue_row c g j) ≡ false
unfolding active_on requeue_row
requeue-count n c g j = ground arith

pub Shrinks-delete :
    (s : Store) (p : Job → Bool) → Shrinks s (record s { jobs = delete_where p s.jobs })
unfolding active_count
Shrinks-delete s p = record {
  fewer = λ n. count-delete_le (active_on n) p s.jobs;
  old = λ m hm. same_nodes s m hm;
}

pub Shrinks-refl : (s : Store) → Shrinks s s
Shrinks-refl s = record { fewer = λ n. le_refl _; old = λ m hm. same_nodes s m hm }

-- an update of the nodes that keeps ids and slots
pub Shrinks-nodes :
    (s : Store) (p : Node → Bool) (f : Node → Node)
    → ((n : Node) → p n ≡ true → ((f n).id ≡ n.id) × (slots (f n) ≡ slots n))
    → Shrinks s (record s { nodes = update_where p f s.nodes })
unfolding active_count
Shrinks-nodes s p f h = record {
  fewer = λ n. le_refl _;
  old = λ m hm.
      let (n, hn, e) = Memᴰ-update_from p f s.nodes hm in
      elim e [
        | inl q ↦ (n, hn, ap (λ (x : Node). x.id) (sym q), ap slots (sym q))
        | inr (hit, q) ↦
            let (a, b) = h n hit in
            (n, hn, sym a ∙ ap (λ (x : Node). x.id) (sym q), sym b ∙ ap slots (sym q))
      ];
}

pub Shrinks-finish_job :
    (now i : ℕ) (st : JobStatus) (code : ℤ) (error : String) (outputs : List String) (tail : List ℕ)
    (s : Store)
    → terminal st ≡ true
    → Shrinks s (finish_job now i st code error outputs tail s)
unfolding finish_job
Shrinks-finish_job now i st code error outputs tail s h =
    Shrinks-update s _ _ (λ n j hj. inr (finish-count now st code error outputs tail n j h))

pub Shrinks-report :
    (i : ℕ) (st : JobStatus) (step : String) (progress : ℕ) (tail : List ℕ) (s : Store)
    → Shrinks s (update_job_status i st step progress tail s)
unfolding update_job_status
Shrinks-report i st step progress tail s =
    Shrinks-update s (live_with_id i) (report_row st step progress tail)
      (λ n j hj. report-count i st step progress tail n j hj)

pub Shrinks-cancel_job : (now i : ℕ) (s : Store) → Shrinks s (cancel_job now i s).0
unfolding cancel_job active_on
Shrinks-cancel_job now i s = Shrinks-update s _ (cancel_row now) (λ n j hj. inr (ground arith))

pub Shrinks-retry_job : (i : ℕ) (s : Store) → Shrinks s (retry_job i s).0
unfolding retry_job
Shrinks-retry_job i s =
    Shrinks-update s _ (requeue_row 0 none) (λ n j hj. inr (requeue-count n 0 none j))

pub Shrinks-schedule : (i c t : ℕ) (s : Store) → Shrinks s (schedule_job_retry i c t s)
unfolding schedule_job_retry
Shrinks-schedule i c t s =
    Shrinks-update s _ (requeue_row c (some t)) (λ n j hj. inr (requeue-count n c (some t) j))

pub Shrinks-complete :
    (now i : ℕ) (st : JobStatus) (r : Report) (s : Store)
    → Shrinks s (or_same s (finish_job_with_report now i st r s))
unfolding finish_job_with_report
Shrinks-complete now i st r s = elim (Bool-cases (count_where (live_with_id i) s.jobs == 0)) [
  | inl e ↦ rw e (Shrinks-refl s)
  | inr e ↦ rw e (
      Shrinks-update s (live_with_id i) (finish_row_with_report now st r)
        (complete-count i now st r))
]

pub Shrinks-patch_nothing : (s : Store) (o : Option Job) → Shrinks s (patched s (patch_nothing s o))
Shrinks-patch_nothing s none = Shrinks-refl s
Shrinks-patch_nothing s (some j) = Shrinks-refl s

pub Shrinks-patch :
    (i : ℕ) (f : Option ℕ) (p : Option ℤ) (s : Store)
    → Shrinks s (patched s (patch_pending_job i f p s))
unfolding patch_pending_job
Shrinks-patch i none none s = Shrinks-patch_nothing s (get_job i s)
Shrinks-patch i f p s =
    Shrinks-update s (pending_with_id i) (patch_row f p) (λ n j hj. inr (patch-count i f p n j hj))

pub Shrinks-prune : (now : ℕ) (d : ℤ) (s : Store) → Shrinks s (prune_old_jobs now d s).0
unfolding prune_old_jobs
Shrinks-prune now (negsuc d) s = Shrinks-refl s
Shrinks-prune now (pos d) s = elim (Bool-cases (d == 0)) [
  | inl e ↦ rw e (Shrinks-refl s)
  | inr e ↦ rw e (Shrinks-delete s _)
]

pub Shrinks-create : (now : ℕ) (j : Job) (s : Store) → Shrinks s (create_job now j s).0
unfolding create_job active_count
Shrinks-create now j s = record {
  fewer = λ n. le_of_eq (count-append_miss (active_on n) s.jobs _ (create-count n now s.next_id j));
  old = λ m hm. same_nodes s m hm;
}

pub Shrinks-release : (n : ℕ) (s : Store) → Shrinks s (release_node n s)
unfolding release_node
Shrinks-release n s = Shrinks-nodes s _ _ (λ m hm. (refl, refl))

pub Shrinks-write_node : (n : Node) (s : Store) → Shrinks s (update_node n s)
unfolding update_node
Shrinks-write_node n s = Shrinks-nodes s _ _ (λ m hm. (sym ((==_iff m.id n.id).0 hm), refl))

pub Shrinks-remove_node : (i : ℕ) (s : Store) → Shrinks s (delete_node_if_not_busy i s).0
unfolding delete_node_if_not_busy active_count
Shrinks-remove_node i s = record {
  fewer = λ n. le_refl _;
  old = λ m hm. same_nodes s m (Memᴰ-delete_from _ s.nodes hm);
}
