-- ===== src/Table/Counts.antt =====
-- How a count over a table changes when its rows do.
use mathlib.Core.List.{Memᴰ}
use mathlib.Core.Path.{subst}
use encode_system.Prelude.{
  ◌+◌, ◌≤◌, ◌≡◌, refl, ◌⊎◌, List, [], ◌∷◌, ◌++◌, Bool, true, false, some, inl, inr, sym, Bool-cases,
  arith, ap, if◌then◌else◌,
}
use encode_system.Table.{select_one, count_where, update_where, delete_where}

module _ {ℓ} {A : Type ℓ} where
  pub Memᴰ-uncons : {x y : A} {xs : List A} → Memᴰ x (y ∷ xs) → (x ≡ y) ⊎ Memᴰ x xs
  Memᴰ-uncons (Memᴰ.head e) = inl e
  Memᴰ-uncons (Memᴰ.tail m) = inr m

  -- rows that the update brings into the count
  pub count-update_gain :
      (q p : A → Bool) (f : A → A)
      → ((x : A) → p x ≡ true → (q x ≡ false) × (q (f x) ≡ true))
      → (xs : List A) → count_where q (update_where p f xs) ≡ count_where q xs + count_where p xs
  unfolding count_where update_where
  count-update_gain q p f h [] = omega arith
  count-update_gain q p f h (x ∷ xs) = ground (arith, h x, count-update_gain q p f h xs)

  pub count-update_same :
      (q p : A → Bool) (f : A → A)
      → ((x : A) → p x ≡ true → q (f x) ≡ q x)
      → (xs : List A) → count_where q (update_where p f xs) ≡ count_where q xs
  unfolding count_where update_where
  count-update_same q p f h [] = refl
  count-update_same q p f h (x ∷ xs) = ground (arith, h x, count-update_same q p f h xs)

  -- an update that brings no row into the count
  pub count-update_le :
      (q p : A → Bool) (f : A → A)
      → ((x : A) → p x ≡ true → (q x ≡ true) ⊎ (q (f x) ≡ false))
      → (xs : List A) → count_where q (update_where p f xs) ≤ count_where q xs
  unfolding count_where update_where
  count-update_le q p f h [] = omega arith
  count-update_le q p f h (x ∷ xs) = ground (arith, h x, count-update_le q p f h xs)

  pub count-delete_le :
      (q p : A → Bool) (xs : List A) → count_where q (delete_where p xs) ≤ count_where q xs
  unfolding count_where delete_where
  count-delete_le q p [] = omega arith
  count-delete_le q p (x ∷ xs) = ground (arith, count-delete_le q p xs)

  pub count-append :
      (q : A → Bool) (xs ys : List A)
      → count_where q (xs ++ ys) ≡ count_where q xs + count_where q ys
  unfolding count_where
  count-append q [] ys = omega arith
  count-append q (x ∷ xs) ys = ground (arith, count-append q xs ys)

  pub count-append_miss :
      (q : A → Bool) (xs : List A) (x : A)
      → q x ≡ false
      → count_where q (xs ++ x ∷ []) ≡ count_where q xs
  unfolding count_where
  count-append_miss q [] x h = rw h refl
  count-append_miss q (y ∷ ys) x h = ground (arith, count-append_miss q ys x h)

  -- a row outside the guard is still there, as it was
  pub Memᴰ-update :
      {x : A} {xs : List A} (p : A → Bool) (f : A → A)
      → p x ≡ false
      → Memᴰ x xs
      → Memᴰ x (update_where p f xs)
  unfolding update_where
  Memᴰ-update {x} p f h (Memᴰ.head {x = y} e) = Memᴰ.head (ground (arith, e))
  Memᴰ-update p f h (Memᴰ.tail m) = Memᴰ.tail (Memᴰ-update p f h m)

  pub Memᴰ-delete :
      {x : A} {xs : List A} (p : A → Bool) → p x ≡ false → Memᴰ x xs → Memᴰ x (delete_where p xs)
  unfolding delete_where
  Memᴰ-delete p h (Memᴰ.head {x = y} {xs = ys} e) =
      let e' : p y ≡ false = subst (λ z. p z ≡ false) e h in rw e' (Memᴰ.head e)
  Memᴰ-delete p h (Memᴰ.tail {x = y} m) = elim (Bool-cases (p y)) [
    | inl hit ↦ rw hit (Memᴰ-delete p h m)
    | inr miss ↦ rw miss (Memᴰ.tail (Memᴰ-delete p h m))
  ]

  pub Memᴰ-append : {x : A} {xs : List A} (ys : List A) → Memᴰ x xs → Memᴰ x (xs ++ ys)
  Memᴰ-append ys (Memᴰ.head e) = Memᴰ.head e
  Memᴰ-append ys (Memᴰ.tail m) = Memᴰ.tail (Memᴰ-append ys m)

  pub select_one-some :
      (p : A → Bool) (xs : List A) {x : A} → select_one p xs ≡ some x → (p x ≡ true) × Memᴰ x xs
  unfolding select_one
  select_one-some p [] h = cc
  select_one-some p (y ∷ ys) {x} h = elim (Bool-cases (p y)) [
    | inl hit ↦ let e : y ≡ x = ground arith in (subst (λ z. p z ≡ true) e hit, Memᴰ.head (sym e))
    | inr miss ↦ let (a, b) = select_one-some p ys (rw miss at h) in (a, Memᴰ.tail b)
  ]

  -- where a row of an updated table comes from
  pub Memᴰ-update_from :
      (p : A → Bool) (f : A → A) (xs : List A) {y : A}
      → Memᴰ y (update_where p f xs)
      → (x : A) × Memᴰ x xs × ((y ≡ x) ⊎ ((p x ≡ true) × (y ≡ f x)))
  unfolding update_where
  Memᴰ-update_from p f [] m = elim m [ ]
  Memᴰ-update_from p f (x ∷ xs) (Memᴰ.head e) = elim (Bool-cases (p x)) [
    | inl hit ↦ (x, Memᴰ.head refl, inr (hit, rw hit at e))
    | inr miss ↦ (x, Memᴰ.head refl, inl (rw miss at e))
  ]
  Memᴰ-update_from p f (x ∷ xs) (Memᴰ.tail m) =
      let (z, mz, e) = Memᴰ-update_from p f xs m in (z, Memᴰ.tail mz, e)

  pub Memᴰ-update_row :
      (p : A → Bool) (f : A → A) (xs : List A) {y : A}
      → Memᴰ y (update_where p f xs)
      → (x : A) × Memᴰ x xs × (y ≡ (if p x then f x else x))
  unfolding update_where
  Memᴰ-update_row p f [] m = elim m [ ]
  Memᴰ-update_row p f (x ∷ xs) (Memᴰ.head e) = (x, Memᴰ.head refl, e)
  Memᴰ-update_row p f (x ∷ xs) (Memᴰ.tail m) =
      let (z, mz, e) = Memᴰ-update_row p f xs m in (z, Memᴰ.tail mz, e)

  -- and where a row goes to
  pub Memᴰ-update_to :
      {x : A} {xs : List A} (p : A → Bool) (f : A → A)
      → Memᴰ x xs
      → Memᴰ (if p x then f x else x) (update_where p f xs)
  unfolding update_where
  Memᴰ-update_to p f (Memᴰ.head e) = Memᴰ.head (ap (λ z. if p z then f z else z) e)
  Memᴰ-update_to p f (Memᴰ.tail m) = Memᴰ.tail (Memᴰ-update_to p f m)

  pub Memᴰ-delete_from :
      (p : A → Bool) (xs : List A) {y : A} → Memᴰ y (delete_where p xs) → Memᴰ y xs
  unfolding delete_where
  Memᴰ-delete_from p [] m = elim m [ ]
  Memᴰ-delete_from p (x ∷ xs) m = elim (Bool-cases (p x)) [
    | inl hit ↦ Memᴰ.tail (Memᴰ-delete_from p xs (rw hit at m))
    | inr miss ↦ elim (Memᴰ-uncons (rw miss at m)) [
      | inl e ↦ Memᴰ.head e
      | inr t ↦ Memᴰ.tail (Memᴰ-delete_from p xs t)
    ]
  ]
