-- ===== src/Jobs/Capacity.antt =====
-- What a successful AssignJob does to the number of active jobs of each node.
use mathlib.Core.List.{Memᴰ}
use encode_system.Prelude.{
  ℕ, ◌+◌, ◌<◌, ◌≡◌, ◌≢◌, ◌⊎◌, inl, inr, sym, ap, ◌∙◌, true, false, some, arith, Bool-cases,
  Option-cases, ◌==◌, leb, ==_iff, if◌then◌else◌,
}
use encode_system.Prelude.Results.{ok}
use encode_system.Table.{count_where, update_where}
use encode_system.Table.Counts.{count-update_gain, count-update_same, select_one-some}
use encode_system.Model.{Job, Node}
use encode_system.Jobs.{
  Store, active_on, active_count, pending_with_id, mark_assigned, set_status_busy, assign_job,
  slots, get_node,
}

-- What AssignJob's guards let through, in one line each.
pub record Assigned (now job_id node_id : ℕ) (s t : Store) : Type 0 where
  pub node : Node
  pub known : get_node node_id s ≡ some node
  pub enabled : node.enabled ≡ true
  pub had_room : active_count node_id s < slots node
  pub one_row : count_where (pending_with_id job_id) s.jobs ≡ 1
  pub rows : t.jobs ≡ update_where (pending_with_id job_id) (mark_assigned now node_id) s.jobs
  pub node_rows :
      (t.nodes ≡ s.nodes) ⊎ (t.nodes ≡ update_where (λ m. m.id == node_id) set_status_busy s.nodes)

pub assign_job-ok :
    (now job_id node_id : ℕ) (s : Store) {t : Store}
    → assign_job now job_id node_id s ≡ ok t
    → Assigned now job_id node_id s t
unfolding assign_job
assign_job-ok now job_id node_id s h = elim (Option-cases (get_node node_id s)) [
  | inl e ↦ absurd (ground (arith, e))
  | inr (n, e) ↦ record {
    node = n;
    known = e;
    enabled = ground (arith, e);
    had_room = ground (arith, e);
    one_row = ground (arith, e);
    rows = ground (arith, e);
    node_rows = elim (Bool-cases (leb (slots n) (active_count node_id s + 1))) [
      | inl full ↦ inr (ground (arith, e))
      | inr room ↦ inl (ground (arith, e))
    ];
  }
]

pub get_node-some :
    (i : ℕ) (s : Store) {n : Node} → get_node i s ≡ some n → (n.id ≡ i) × Memᴰ n s.nodes
unfolding get_node
get_node-some i s {n} h =
    let (e, m) = select_one-some (λ k. k.id == i) s.nodes h in ((==_iff n.id i).0 e, m)

pending-not-active : (n i : ℕ) (j : Job) → pending_with_id i j ≡ true → active_on n j ≡ false
unfolding pending_with_id active_on
pending-not-active n i j h = ground arith

assigned-active : (now n i : ℕ) (j : Job) → active_on n (mark_assigned now n j) ≡ true
unfolding active_on mark_assigned
assigned-active now n i j = ground arith

assigned-other : (now n m : ℕ) (j : Job) → n ≢ m → active_on m (mark_assigned now n j) ≡ false
unfolding active_on mark_assigned
assigned-other now n m j h = ground arith

pub active_count-taken :
    (now job_id node_id : ℕ) (s : Store) {t : Store}
    → assign_job now job_id node_id s ≡ ok t
    → (active_count node_id t ≡ active_count node_id s + 1)
      × ((m : ℕ) → node_id ≢ m → active_count m t ≡ active_count m s)
unfolding active_count
active_count-taken now job_id node_id s h =
    let a = assign_job-ok now job_id node_id s h in
    let p = pending_with_id job_id in
    let f = mark_assigned now node_id in
    (
      rw a.rows (
          count-update_gain (active_on node_id) p f
            (λ j hj. (pending-not-active node_id job_id j hj, assigned-active now node_id job_id j))
            s.jobs
          ∙ ap (λ k. count_where (active_on node_id) s.jobs + k) a.one_row),
      λ m ne. rw a.rows (
          count-update_same (active_on m) p f
            (λ j hj. assigned-other now node_id m j ne ∙ sym (pending-not-active m job_id j hj))
            s.jobs),
    )

-- A successful assignment takes exactly one slot of its node and none of any other node.
pub active_count-assign_job :
    (now job_id node_id : ℕ) (s : Store) {t : Store}
    → assign_job now job_id node_id s ≡ ok t
    → (m : ℕ) → active_count m t ≡ active_count m s + (if m == node_id then 1 else 0)
active_count-assign_job now job_id node_id s h m =
    let (own, others) = active_count-taken now job_id node_id s h in
    elim (Bool-cases (m == node_id)) [
      | inl e ↦ rw e (rw ((==_iff m node_id).0 e) own)
      | inr e ↦ rw e (others m (λ q. ground arith) ∙ ground arith)
    ]
