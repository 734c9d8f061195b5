-- ===== src/Table/Rows.antt =====
-- The row that a SELECT finds, before and after an UPDATE.
use mathlib.Core.List.{Memᴰ}
use encode_system.Prelude.{
  ◌≡◌, inl, inr, refl, sym, List, [], ◌∷◌, ◌++◌, Bool, true, false, Option, none, some, ◌==◌,
  if◌then◌else◌, arith, Bool-cases,
}
use encode_system.Table.{select_one, count_where, update_where, delete_where}
use encode_system.Table.Counts.{Memᴰ-uncons}

module _ {A : Type 0} where
  abbrev pub changed : (A → Bool) → (A → A) → Option A → Option A
  changed q f none = none
  changed q f (some x) = some (if q x then f x else x)

  -- the first row that a test finds, after an update that the test does not see
  pub select_one-update :
      (p q : A → Bool) (f : A → A)
      → ((x : A) → p (f x) ≡ p x)
      → (xs : List A) → select_one p (update_where q f xs) ≡ changed q f (select_one p xs)
  unfolding select_one update_where
  select_one-update p q f same [] = refl
  select_one-update p q f same (x ∷ xs) = elim (Bool-cases (q x)) [
    | inl e ↦ elim (Bool-cases (p x)) [
      | inl h ↦ rw e (rw (same x) (rw h (rw e refl)))
      | inr h ↦ rw e (rw (same x) (rw h (select_one-update p q f same xs)))
    ]
    | inr e ↦ elim (Bool-cases (p x)) [
      | inl h ↦ rw e (rw h (rw e refl))
      | inr h ↦ rw e (rw h (select_one-update p q f same xs))
    ]
  ]

  -- a test that counts a row finds one
  pub count_where-some :
      (p : A → Bool) (xs : List A)
      → (count_where p xs == 0) ≡ false
      → (x : A) × Memᴰ x xs × (p x ≡ true)
  unfolding count_where
  count_where-some p [] h = absurd (ground arith)
  count_where-some p (x ∷ xs) h = elim (Bool-cases (p x)) [
    | inl e ↦ (x, Memᴰ.head refl, e)
    | inr e ↦ let (y, m, hy) = count_where-some p xs (rw e at h) in (y, Memᴰ.tail m, hy)
  ]

  pub select_one-hit :
      (p : A → Bool) (xs : List A) {x : A}
      → Memᴰ x xs
      → p x ≡ true
      → (y : A) × (select_one p xs ≡ some y)
  unfolding select_one
  select_one-hit p [] m h = elim m [ ]
  select_one-hit p (x ∷ xs) (Memᴰ.head e) h = (x, rw (sym e) (rw h refl))
  select_one-hit p (x ∷ xs) (Memᴰ.tail m) h = elim (Bool-cases (p x)) [
    | inl e ↦ (x, rw e refl)
    | inr e ↦ let (y, q) = select_one-hit p xs m h in (y, rw e q)
  ]

  -- a row that a delete leaves fails its test
  pub Memᴰ-delete_kept :
      (p : A → Bool) (xs : List A) {y : A} → Memᴰ y (delete_where p xs) → p y ≡ false
  unfolding delete_where
  Memᴰ-delete_kept p [] m = elim m [ ]
  Memᴰ-delete_kept p (x ∷ xs) m = elim (Bool-cases (p x)) [
    | inl hit ↦ Memᴰ-delete_kept p xs (rw hit at m)
    | inr miss ↦ elim (Memᴰ-uncons (rw miss at m)) [
      | inl e ↦ rw e miss
      | inr t ↦ Memᴰ-delete_kept p xs t
    ]
  ]

  -- a row added at the end does not hide an earlier one
  pub select_one-append :
      (p : A → Bool) (xs ys : List A) {x : A}
      → select_one p xs ≡ some x
      → select_one p (xs ++ ys) ≡ some x
  unfolding select_one
  select_one-append p [] ys h = cc
  select_one-append p (z ∷ zs) ys h = elim (Bool-cases (p z)) [
    | inl e ↦ rw e (rw e at h)
    | inr e ↦ rw e (select_one-append p zs ys (rw e at h))
  ]

  pub select_one-append_new :
      (p : A → Bool) (xs : List A) (y : A)
      → p y ≡ true
      → select_one p xs ≡ none
      → select_one p (xs ++ y ∷ []) ≡ some y
  unfolding select_one
  select_one-append_new p [] y hy h = rw hy refl
  select_one-append_new p (z ∷ zs) y hy h = elim (Bool-cases (p z)) [
    | inl e ↦ absurd (ground (arith, e, h))
    | inr e ↦ rw e (select_one-append_new p zs y hy (rw e at h))
  ]
