-- ===== src/Table/Deletes.antt =====
-- What a DELETE leaves of a count.
use mathlib.Core.Path.{subst}
use encode_system.Prelude.{
  ◌+◌, ◌≤◌, ◌≡◌, inl, inr, sym, List, [], ◌∷◌, Bool, true, false, some, arith, Bool-cases,
}
use encode_system.Table.{select_one, count_where, delete_where}

module _ {A : Type 0} where
  pub count_mono :
      (p q : A → Bool)
      → ((x : A) → p x ≡ true → q x ≡ true)
      → (xs : List A) → count_where p xs ≤ count_where q xs
  unfolding count_where
  count_mono p q h [] = omega arith
  count_mono p q h (x ∷ xs) = ground (arith, h x, count_mono p q h xs)

  -- a delete takes at most the rows that it names
  pub count-delete_split :
      (p q : A → Bool) (xs : List A)
      → count_where q xs ≤ count_where q (delete_where p xs) + count_where p xs
  unfolding count_where delete_where
  count-delete_split p q [] = omega arith
  count-delete_split p q (x ∷ xs) = ground (arith, count-delete_split p q xs)

  -- and none of another kind, if it names one row
  pub count-delete_other :
      (p q : A → Bool) (xs : List A) {u : A}
      → count_where p xs ≤ 1
      → select_one p xs ≡ some u
      → q u ≡ false
      → count_where q xs ≤ count_where q (delete_where p xs)
  unfolding count_where delete_where select_one
  count-delete_other p q [] one h hq = omega arith
  count-delete_other p q (x ∷ xs) {u} one h hq = elim (Bool-cases (p x)) [
    | inl e ↦
        let same : x ≡ u = ground (arith, h, e) in
        let hx : q x ≡ false = subst (λ z. q z ≡ false) (sym same) hq in
        ground (arith, e, hx, one, count-delete_split p q xs)
    | inr e ↦
        let rest = count-delete_other p q xs (ground (arith, one, e)) (rw e at h) hq in
        ground (arith, e, rest)
  ]
