-- ===== src/Jobs/Queue/Order.antt =====
-- The row that the dispatcher takes: the first of the eligible rows, in an order in which priority
-- comes before steering and steering before age.
use mathlib.Core.List.{Memᴰ}
use encode_system.Prelude.{
  ℕ, ◌≡◌, ◌≤◌, ◌⊎◌, inl, inr, ◌↔◌, ℕ_discrete, refl, ap, true, false, none, some, arith, Bool-cases,
}
use encode_system.Prelude.Int.{ℤ, pos, negsuc, ltbℤ}
use encode_system.Table.{select_where, first_by}
use encode_system.Table.Ordering.{
  first_by-first, first_by-none, Memᴰ-select, Memᴰ-select_of, select-nil, select-nil_of,
}
use encode_system.Model.{Job}
use encode_system.Jobs.{Store}
use encode_system.Jobs.Queue.{before, assignable_for, next_assignable_job_for_node}

ltbℤ-neg_trans : (a b c : ℤ) → ltbℤ b a ≡ false → ltbℤ c b ≡ false → ltbℤ c a ≡ false
ltbℤ-neg_trans (pos a) (pos b) (pos c) h k = ground arith
ltbℤ-neg_trans (pos a) (pos b) (negsuc c) h k = ground arith
ltbℤ-neg_trans (pos a) (negsuc b) c h k = ground arith
ltbℤ-neg_trans (negsuc a) (pos b) (pos c) h k = ground arith
ltbℤ-neg_trans (negsuc a) (pos b) (negsuc c) h k = ground arith
ltbℤ-neg_trans (negsuc a) (negsuc b) (pos c) h k = ground arith
ltbℤ-neg_trans (negsuc a) (negsuc b) (negsuc c) h k = ground arith

before-neg_trans :
    (n : ℕ) (a b c : Job) → before n b a ≡ false → before n c b ≡ false → before n c a ≡ false
unfolding before
before-neg_trans n a b c h k = ground (
  arith,
  ltbℤ-neg_trans a.priority b.priority c.priority,
  ltbℤ-neg_trans c.priority b.priority a.priority,
  ltbℤ-neg_trans b.priority a.priority c.priority,
)

ltbℤ_irrefl : (a : ℤ) → ltbℤ a a ≡ false
ltbℤ_irrefl (pos a) = ground arith
ltbℤ_irrefl (negsuc a) = ground arith

-- No row goes before itself.
before_irrefl : (n : ℕ) (a : Job) → before n a a ≡ false
unfolding before
before_irrefl n a = ground (arith, ltbℤ_irrefl a.priority)

ltbℤ-asym : (a b : ℤ) → ltbℤ a b ≡ true → ltbℤ b a ≡ false
ltbℤ-asym (pos a) (pos b) h = ground arith
ltbℤ-asym (pos a) (negsuc b) h = ground arith
ltbℤ-asym (negsuc a) (pos b) h = ground arith
ltbℤ-asym (negsuc a) (negsuc b) h = ground arith

before-asym : (n : ℕ) (a b : Job) → before n a b ≡ true → before n b a ≡ false
unfolding before
before-asym n a b h =
    ground (arith, ltbℤ-asym a.priority b.priority, ltbℤ-asym b.priority a.priority)

-- the row that is taken, in the terms of `before`
pub next_assignable_least :
    (now n : ℕ) (s : Store) {j : Job}
    → next_assignable_job_for_node now n s ≡ some j
    → Memᴰ j s.jobs
      × (assignable_for now n s j ≡ true)
      × ((k : Job) → Memᴰ k s.jobs → assignable_for now n s k ≡ true → before n k j ≡ false)
unfolding next_assignable_job_for_node
next_assignable_least now n s h =
    let p = assignable_for now n s in
    let (m, first) =
      first_by-first (before n) (before_irrefl n) (before-asym n) (before-neg_trans n)
        (select_where p s.jobs) h in
    let (inside, hit) = Memᴰ-select p s.jobs m in
    (inside, hit, λ k mk hk. first k (Memᴰ-select_of p mk hk))

abbrev pub Steered : ℕ → Job → Type 0
Steered n j = j.last_failed_node_id ≡ n

-- `j` comes no later than `k` on node `n`: by its priority, at the same priority by not having failed
-- last on this node, and at the same of both by its id.
abbrev pub NoLater : ℕ → Job → Job → Type 0
NoLater n j k =
    (ltbℤ k.priority j.priority ≡ true)
    ⊎ ((j.priority ≡ k.priority)
        × (((Steered n j → ⊥) × Steered n k) ⊎ ((Steered n j ↔ Steered n k) × (j.id ≤ k.id))))

ltbℤ-tie : (a b : ℤ) → ltbℤ a b ≡ false → ltbℤ b a ≡ false → a ≡ b
ltbℤ-tie (pos a) (pos b) h k = ap pos (ground arith)
ltbℤ-tie (pos a) (negsuc b) h k = ground arith
ltbℤ-tie (negsuc a) (pos b) h k = ground arith
ltbℤ-tie (negsuc a) (negsuc b) h k = ap negsuc (ground arith)

before-NoLater : (n : ℕ) (j k : Job) → before n k j ≡ false → NoLater n j k
unfolding before
before-NoLater n j k h = elim (Bool-cases (ltbℤ k.priority j.priority)) [
  | inl e ↦ inl e
  | inr e ↦
      let tie : ltbℤ j.priority k.priority ≡ false = ground (arith, h, e) in
      inr (
        ltbℤ-tie _ _ tie e,
        elim (ℕ_discrete j.last_failed_node_id n) [
          | yes p ↦ elim (ℕ_discrete k.last_failed_node_id n) [
            | yes q ↦ inr ((λ x. q, λ x. p), ground (arith, h, e, tie))
            | no q ↦ absurd (ground (arith, h, e, tie))
          ]
          | no p ↦ elim (ℕ_discrete k.last_failed_node_id n) [
            | yes q ↦ inl (p, q)
            | no q ↦ inr ((λ x. absurd (p x), λ x. absurd (q x)), ground (arith, h, e, tie))
          ]
        ],
      )
]

-- The dispatcher takes an eligible row of the table, and no other eligible row comes before it: a row
-- has a lower priority, or the same and failed last on this node when the taken one did not, or is the
-- same in both and no older.
pub next_assignable_first :
    (now n : ℕ) (s : Store) {j : Job}
    → next_assignable_job_for_node now n s ≡ some j
    → (k : Job) → Memᴰ k s.jobs
    → assignable_for now n s k ≡ true
    → Memᴰ j s.jobs × (assignable_for now n s j ≡ true) × NoLater n j k
next_assignable_first now n s h k mk hk =
    let (m, fit, first) = next_assignable_least now n s h in
    (m, fit, before-NoLater n _ k (first k mk hk))

-- The dispatcher finds no row exactly when no row of the table is eligible for the node.
pub next_assignable-none :
    (now n : ℕ) (s : Store)
    → (next_assignable_job_for_node now n s ≡ none)
      ↔ ((k : Job) → Memᴰ k s.jobs → assignable_for now n s k ≡ false)
unfolding next_assignable_job_for_node
next_assignable-none now n s =
    let p = assignable_for now n s in
    (
      λ h k m. select-nil p s.jobs (first_by-none (before n) (select_where p s.jobs) h) m,
      λ h. rw (select-nil_of p s.jobs h) (unfold first_by in refl),
    )
