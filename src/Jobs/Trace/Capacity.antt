-- ===== src/Jobs/Trace/Capacity.antt =====
-- No run of the operations gives a node more active jobs than it has slots.
use mathlib.Core.List.{Memᴰ}
use mathlib.Core.Path.{subst}
use encode_system.Prelude.{
  ℕ, ◌≤◌, ◌≡◌, ◌≢◌, inl, inr, refl, sym, ◌∙◌, List, [], ◌∷◌, true, arith, Bool-cases, ◌==◌, ==_iff,
  All,
}
use encode_system.Prelude.Results.{Result, ok, err}
use encode_system.Model.{Node, terminal}
use encode_system.Jobs.{Store, active_count, set_status_busy, AssignError, assign_job, slots}
use encode_system.Jobs.Capacity.{Assigned, get_node-some, assign_job-ok, active_count-taken}
use encode_system.Jobs.Lifecycle.{delete_job}
use encode_system.Jobs.Trace.{
  Op, create, assign, report, finish, complete, cancel, retry, schedule, delete, prune, patch,
  release, write_node, remove_node, set_slots, apply, run, or_same,
}
use encode_system.Jobs.Trace.Shrinks.{
  Shrinks, same_nodes, Shrinks-delete, Shrinks-nodes, Shrinks-finish_job, Shrinks-report,
  Shrinks-cancel_job, Shrinks-retry_job, Shrinks-schedule, Shrinks-complete, Shrinks-patch,
  Shrinks-prune, Shrinks-create, Shrinks-release, Shrinks-write_node, Shrinks-remove_node,
}

-- Every node has at most as many active jobs as slots; rows of one id (the table's primary key) have
-- the same slots.
pub record WithinCapacity (s : Store) : Type 0 where
  pub fits : (n : Node) → Memᴰ n s.nodes → active_count n.id s ≤ slots n
  pub key : (m n : Node) → Memᴰ m s.nodes → Memᴰ n s.nodes → m.id ≡ n.id → slots m ≡ slots n

-- The operations that the rule is about: all but a change of the slots, and FinishJob with the
-- terminal statuses that its callers pass.
abbrev pub IsOrdinary : Op → Type 0
IsOrdinary (set_slots n m) = ⊥
IsOrdinary (finish i st code error outputs tail) = terminal st ≡ true
IsOrdinary _ = Unit {0}

Shrinks-WithinCapacity : (s t : Store) → Shrinks s t → WithinCapacity s → WithinCapacity t
Shrinks-WithinCapacity s t k v = record {
  fits = λ m hm.
      let (n, hn, e, q) = k.old m hm in
      omega (
        arith,
        k.fewer m.id,
        v.fits n hn,
        subst (λ i. active_count i s ≡ active_count m.id s) (sym e) refl,
        q,
      );
  key = λ a b ha hb e.
      let (m, hm, em, qm) = k.old a ha in
      let (n, hn, en, qn) = k.old b hb in sym qm ∙ v.key m n hm hn (em ∙ e ∙ sym en) ∙ qn;
}

assign-old :
    (now i n : ℕ) (s t : Store)
    → Assigned now i n s t
    → (m : Node) → Memᴰ m t.nodes
    → (o : Node) × Memᴰ o s.nodes × (o.id ≡ m.id) × (slots o ≡ slots m)
unfolding set_status_busy
assign-old now i n s t a m hm = elim a.node_rows [
  | inl e ↦ same_nodes s m (subst (Memᴰ m) e hm)
  | inr e ↦
      (Shrinks-nodes s (λ x. x.id == n) set_status_busy (λ x hx. (refl, refl))).old m
        (subst (Memᴰ m) e hm)
]

assign-room :
    (now i n : ℕ) (s t : Store)
    → assign_job now i n s ≡ ok t
    → WithinCapacity s
    → (k : ℕ) (o : Node) → Memᴰ o s.nodes
    → o.id ≡ k
    → active_count k t ≤ slots o
assign-room now i n s t h v k o ho e =
    let a = assign_job-ok now i n s h in
    let (own, others) = active_count-taken now i n s h in
    let (ie, im) = get_node-some n s a.known in
    let was = v.fits o ho in
    elim (Bool-cases (n == k)) [
      | inl q ↦
          let q' = (==_iff n k).0 q in
          let kk = v.key a.node o im ho (ie ∙ q' ∙ sym e) in
          subst (λ z. active_count z t ≤ slots o) q' (omega (arith, own, a.had_room, kk))
      | inr q ↦
          let ne : n ≢ k = λ z. cc ((==_iff n k).1 z, q) in
          rw (others k ne) (subst (λ z. active_count z s ≤ slots o) e was)
    ]

-- The assignment: its own node had room, the others keep their counts.
assign-WithinCapacity :
    (now i n : ℕ) (s t : Store) → assign_job now i n s ≡ ok t → WithinCapacity s → WithinCapacity t
assign-WithinCapacity now i n s t h v =
    let a = assign_job-ok now i n s h in
    let old = assign-old now i n s t a in
    record {
      fits = λ m hm.
          let (o, ho, e, q) = old m hm in omega (arith, q, assign-room now i n s t h v m.id o ho e);
      key = λ x y hx hy e.
          let (m, hm, em, qm) = old x hx in
          let (o, ho, eo, qo) = old y hy in sym qm ∙ v.key m o hm ho (em ∙ e ∙ sym eo) ∙ qo;
    }

-- Every ordinary operation, whether it succeeds or not, keeps the rule.
pub apply-WithinCapacity :
    (now : ℕ) (op : Op) (s : Store)
    → IsOrdinary op
    → WithinCapacity s
    → WithinCapacity (apply now op s)
unfolding apply
apply-WithinCapacity now (create j) s h v = Shrinks-WithinCapacity s _ (Shrinks-create now j s) v
apply-WithinCapacity now (assign i n) s h v = settle (assign_job now i n s) refl
  where
    settle :
        (r : Result AssignError Store) → assign_job now i n s ≡ r → WithinCapacity (or_same s r)
    settle (ok t) e = assign-WithinCapacity now i n s t e v
    settle (err x) e = v
apply-WithinCapacity now (report i st step p tail) s h v =
    Shrinks-WithinCapacity s _ (Shrinks-report i st step p tail s) v
apply-WithinCapacity now (finish i st code error outputs tail) s h v =
    Shrinks-WithinCapacity s _ (Shrinks-finish_job now i st code error outputs tail s h) v
apply-WithinCapacity now (complete i st r) s h v =
    Shrinks-WithinCapacity s _ (Shrinks-complete now i st r s) v
apply-WithinCapacity now (cancel i) s h v =
    Shrinks-WithinCapacity s _ (Shrinks-cancel_job now i s) v
apply-WithinCapacity now (retry i) s h v = Shrinks-WithinCapacity s _ (Shrinks-retry_job i s) v
apply-WithinCapacity now (schedule i c t) s h v =
    Shrinks-WithinCapacity s _ (Shrinks-schedule i c t s) v
apply-WithinCapacity now (delete i) s h v =
    Shrinks-WithinCapacity s _ (unfold delete_job in Shrinks-delete s _) v
apply-WithinCapacity now (prune d) s h v = Shrinks-WithinCapacity s _ (Shrinks-prune now d s) v
apply-WithinCapacity now (patch i f p) s h v = Shrinks-WithinCapacity s _ (Shrinks-patch i f p s) v
apply-WithinCapacity now (release n) s h v = Shrinks-WithinCapacity s _ (Shrinks-release n s) v
apply-WithinCapacity now (write_node n) s h v =
    Shrinks-WithinCapacity s _ (Shrinks-write_node n s) v
apply-WithinCapacity now (remove_node n) s h v =
    Shrinks-WithinCapacity s _ (Shrinks-remove_node n s) v
apply-WithinCapacity now (set_slots n m) s h v = absurd h

-- From tables in which no node has more active jobs than slots, and rows of one node id agree on
-- the slots, every run of ordinary operations, whichever requests they come from, leads to tables
-- of the same kind. Ordinary is every operation but a change of the slots, and FinishJob with a
-- terminal status.
pub run-WithinCapacity :
    (ops : List (ℕ × Op)) (s : Store)
    → All (λ (op : ℕ × Op). IsOrdinary op.1) ops
    → WithinCapacity s
    → WithinCapacity (run ops s)
unfolding run
run-WithinCapacity [] s h v = v
run-WithinCapacity ((now, op) ∷ ops) s h v =
    run-WithinCapacity ops (apply now op s) h.1 (apply-WithinCapacity now op s h.0 v)
