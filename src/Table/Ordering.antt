-- ===== src/Table/Ordering.antt =====
-- What a SELECT with a WHERE clause, and one with ORDER BY and LIMIT 1, gives.
use mathlib.Core.List.{Memᴰ}
use mathlib.Core.Path.{subst}
use encode_system.Prelude.{
  ◌≡◌, ◌⊎◌, refl, sym, List, Option, [], ◌∷◌, Bool, true, false, none, some, arith, Bool-cases, inl,
  inr,
}
use encode_system.Table.Counts.{Memᴰ-uncons}
use encode_system.Table.{select_where, choose, first_by}

module _ {ℓ} {A : Type ℓ} where
  pub Memᴰ-select :
      (p : A → Bool) (xs : List A) {x : A} → Memᴰ x (select_where p xs) → Memᴰ x xs × (p x ≡ true)
  unfolding select_where
  Memᴰ-select p [] m = elim m [ ]
  Memᴰ-select p (y ∷ ys) {x} m = elim (Bool-cases (p y)) [
    | inl hit ↦ elim (Memᴰ-uncons (rw hit at m)) [
      | inl q ↦ (Memᴰ.head q, subst (λ z. p z ≡ true) (sym q) hit)
      | inr t ↦ let (a, b) = Memᴰ-select p ys t in (Memᴰ.tail a, b)
    ]
    | inr miss ↦ let (a, b) = Memᴰ-select p ys (rw miss at m) in (Memᴰ.tail a, b)
  ]

  pub Memᴰ-select_of :
      (p : A → Bool) {x : A} {xs : List A} → Memᴰ x xs → p x ≡ true → Memᴰ x (select_where p xs)
  unfolding select_where
  Memᴰ-select_of p {x = x} (Memᴰ.head {x = y} {xs = ys} q) h =
      let hit : p y ≡ true = subst (λ z. p z ≡ true) q h in rw hit (Memᴰ.head q)
  Memᴰ-select_of p (Memᴰ.tail {x = y} m) h = elim (Bool-cases (p y)) [
    | inl hit ↦ rw hit (Memᴰ.tail (Memᴰ-select_of p m h))
    | inr miss ↦ rw miss (Memᴰ-select_of p m h)
  ]

  pub select-nil :
      (p : A → Bool) (xs : List A) → select_where p xs ≡ [] → {x : A} → Memᴰ x xs → p x ≡ false
  select-nil p xs h {x} m = elim (Bool-cases (p x)) [
    | inl hit ↦ elim (subst (Memᴰ x) h (Memᴰ-select_of p m hit)) [ ]
    | inr miss ↦ miss
  ]

  pub select-nil_of :
      (p : A → Bool) (xs : List A) → ((x : A) → Memᴰ x xs → p x ≡ false) → select_where p xs ≡ []
  unfolding select_where
  select-nil_of p [] h = refl
  select-nil_of p (x ∷ xs) h =
      rw (h x (Memᴰ.head refl)) (select-nil_of p xs (λ y m. h y (Memᴰ.tail m)))

  module _ (lt : A → A → Bool) (irrefl : (a : A) → lt a a ≡ false)
      (asym : (a b : A) → lt a b ≡ true → lt b a ≡ false)
      (neg_trans : (a b c : A) → lt b a ≡ false → lt c b ≡ false → lt c a ≡ false) where
    -- the row chosen is one of the two, and neither goes before it
    choose_lem :
        (x y : A)
        → ((choose lt x (some y) ≡ x) ⊎ (choose lt x (some y) ≡ y))
          × (lt x (choose lt x (some y)) ≡ false)
          × (lt y (choose lt x (some y)) ≡ false)
    choose_lem x y = elim (Bool-cases (lt y x)) [
      | inl e ↦ rw e (inr refl, asym y x e, irrefl y)
      | inr e ↦ rw e (inl refl, irrefl x, e)
    ]

    -- the row found is in the list, and none goes before it
    first_by-some :
        (x : A) (xs : List A)
        → Memᴰ (choose lt x (first_by lt xs)) (x ∷ xs)
          × ((k : A) → Memᴰ k (x ∷ xs) → lt k (choose lt x (first_by lt xs)) ≡ false)
    unfolding first_by
    first_by-some x [] = (
      Memᴰ.head refl,
      λ k m. elim (Memᴰ-uncons m) [
        | inl q ↦ subst (λ z. lt z x ≡ false) (sym q) (irrefl x)
        | inr t ↦ elim t [ ]
      ],
    )
    first_by-some x (y ∷ ys) =
        let b = choose lt y (first_by lt ys) in
        let (m, first) = first_by-some y ys in
        let (which, over_x, over_b) = choose_lem x b in
        (
          elim which [
            | inl e ↦ Memᴰ.head e
            | inr e ↦ Memᴰ.tail (subst (λ z. Memᴰ z (y ∷ ys)) (sym e) m)
          ],
          λ k mk. elim (Memᴰ-uncons mk) [
            | inl q ↦ subst (λ z. lt z (choose lt x (some b)) ≡ false) (sym q) over_x
            | inr t ↦ neg_trans (choose lt x (some b)) b k over_b (first k t)
          ],
        )

    pub first_by-first :
        (xs : List A) {j : A}
        → first_by lt xs ≡ some j
        → Memᴰ j xs × ((k : A) → Memᴰ k xs → lt k j ≡ false)
    unfolding first_by
    first_by-first [] h = cc
    first_by-first (x ∷ xs) {j} h =
        let e : choose lt x (first_by lt xs) ≡ j = ground arith in
        let (m, first) = first_by-some x xs in
        (subst (λ z. Memᴰ z (x ∷ xs)) e m, λ k mk. subst (λ z. lt k z ≡ false) e (first k mk))

  choose-Memᴰ :
      (lt : A → A → Bool) (x : A) (b : Option A) {j : A}
      → choose lt x b ≡ j
      → (j ≡ x) ⊎ (b ≡ some j)
  choose-Memᴰ lt x none h = inl (sym h)
  choose-Memᴰ lt x (some y) h = ground arith

  -- the row found is in the list, whatever the order
  pub first_by-Memᴰ :
      (lt : A → A → Bool) (xs : List A) {j : A} → first_by lt xs ≡ some j → Memᴰ j xs
  unfolding first_by
  first_by-Memᴰ lt [] h = cc
  first_by-Memᴰ lt (x ∷ xs) {j} h =
      let e : choose lt x (first_by lt xs) ≡ j = ground arith in
      elim (choose-Memᴰ lt x (first_by lt xs) e) [
        | inl q ↦ Memᴰ.head q
        | inr q ↦ Memᴰ.tail (first_by-Memᴰ lt xs q)
      ]

  pub first_by-none : (lt : A → A → Bool) (xs : List A) → first_by lt xs ≡ none → xs ≡ []
  unfolding first_by
  first_by-none lt [] h = refl
  first_by-none lt (x ∷ xs) h = cc
