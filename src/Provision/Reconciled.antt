-- ===== src/Provision/Reconciled.antt =====
-- What the reconciliation at startup does to the runs (backend/internal/provision/engine.go).
use mathlib.Core.List.{Memᴰ}
use mathlib.Core.Path.{subst}
use encode_system.Prelude.{
  ℕ, suc, zero, ◌≤◌, ◌≡◌, ◌↔◌, if_both, ◌⊎◌, inl, inr, refl, sym, ap, ◌∙◌, List, [], ◌∷◌, ◌++◌,
  Bool, true, false, ◌&&◌, some, arith, ◌==◌, ==_iff, ltb, Bool-cases, if◌then◌else◌, length,
}
use encode_system.Table.{update_where}
use encode_system.Table.Counts.{Memᴰ-uncons}
use encode_system.Provision.{
  failed, ProvisionRun, Runs, is_active, insert_newest, newest, limit, list_provision_runs,
  status_row, set_provision_run_status, bounded_log, append_provision_run_log, reconcile_one,
  reconcile_all, reconcile_stale_runs,
}

abbrev pub UniqueRuns : List ProvisionRun → Type 0
UniqueRuns rs = (x y : ProvisionRun) → Memᴰ x rs → Memᴰ y rs → x.id ≡ y.id → x ≡ y

module _ {A : Type 0} where
  update_where_twice :
      (p : A → Bool) (f g : A → A)
      → ((x : A) → p (f x) ≡ p x)
      → (xs : List A) → update_where p g (update_where p f xs) ≡ update_where p (λ x. g (f x)) xs
  unfolding update_where
  update_where_twice p f g same [] = refl
  update_where_twice p f g same (x ∷ xs) = elim (Bool-cases (p x)) [
    | inl e ↦ rw e (rw (same x) (rw e (ap (λ z. g (f x) ∷ z) (update_where_twice p f g same xs))))
    | inr e ↦ rw e (rw e (ap (λ z. x ∷ z) (update_where_twice p f g same xs)))
  ]

  update_where-never : (f : A → A) (xs : List A) → update_where (λ x. false) f xs ≡ xs
  unfolding update_where
  update_where-never f [] = refl
  update_where-never f (x ∷ xs) = ap (λ z. x ∷ z) (update_where-never f xs)

-- the runs listed are rows, and all of them when there are at most 25
insert_newest-Memᴰ :
    (r : ProvisionRun) (xs : List ProvisionRun) {x : ProvisionRun}
    → Memᴰ x (insert_newest r xs) ↔ Memᴰ x (r ∷ xs)
unfolding insert_newest
insert_newest-Memᴰ r [] = (λ m. m, λ m. m)
insert_newest-Memᴰ r (y ∷ ys) {x} = elim (Bool-cases (ltb r.id y.id)) [
  | inr e ↦ rw e (λ m. m, λ m. m)
  | inl e ↦ rw e (
    λ m. elim (Memᴰ-uncons m) [
      | inl q ↦ Memᴰ.tail (Memᴰ.head q)
      | inr t ↦ elim (Memᴰ-uncons ((insert_newest-Memᴰ r ys).0 t)) [
        | inl q ↦ Memᴰ.head q
        | inr k ↦ Memᴰ.tail (Memᴰ.tail k)
      ]
    ],
    λ m. elim (Memᴰ-uncons m) [
      | inl q ↦ Memᴰ.tail ((insert_newest-Memᴰ r ys).1 (Memᴰ.head q))
      | inr t ↦ elim (Memᴰ-uncons t) [
        | inl q ↦ Memᴰ.head q
        | inr k ↦ Memᴰ.tail ((insert_newest-Memᴰ r ys).1 (Memᴰ.tail k))
      ]
    ],
  )
]

newest-Memᴰ : (xs : List ProvisionRun) {x : ProvisionRun} → Memᴰ x (newest xs) ↔ Memᴰ x xs
unfolding newest
newest-Memᴰ [] = (λ m. m, λ m. m)
newest-Memᴰ (r ∷ rs) {x} = (
  λ m. elim (Memᴰ-uncons ((insert_newest-Memᴰ r (newest rs)).0 m)) [
    | inl q ↦ Memᴰ.head q
    | inr t ↦ Memᴰ.tail ((newest-Memᴰ rs).0 t)
  ],
  λ m. elim (Memᴰ-uncons m) [
    | inl q ↦ (insert_newest-Memᴰ r (newest rs)).1 (Memᴰ.head q)
    | inr t ↦ (insert_newest-Memᴰ r (newest rs)).1 (Memᴰ.tail ((newest-Memᴰ rs).1 t))
  ],
)

limit-Memᴰ : (n : ℕ) (xs : List ProvisionRun) {x : ProvisionRun} → Memᴰ x (limit n xs) → Memᴰ x xs
limit-Memᴰ zero xs m = elim m [ ]
limit-Memᴰ (suc n) [] m = elim m [ ]
limit-Memᴰ (suc n) (y ∷ ys) m = elim (Memᴰ-uncons m) [
  | inl q ↦ Memᴰ.head q
  | inr t ↦ Memᴰ.tail (limit-Memᴰ n ys t)
]

limit-all : (n : ℕ) (xs : List ProvisionRun) → length xs ≤ n → limit n xs ≡ xs
limit-all zero [] h = refl
limit-all zero (x ∷ xs) h = absurd (omega (arith, h))
limit-all (suc n) [] h = refl
limit-all (suc n) (x ∷ xs) h = ap (λ z. x ∷ z) (limit-all n xs (omega (arith, h)))

length-insert_newest :
    (r : ProvisionRun) (xs : List ProvisionRun) → length (insert_newest r xs) ≡ suc (length xs)
unfolding insert_newest
length-insert_newest r [] = refl
length-insert_newest r (x ∷ xs) = ground (arith, length-insert_newest r xs)

length-newest : (xs : List ProvisionRun) → length (newest xs) ≡ length xs
unfolding newest
length-newest [] = refl
length-newest (x ∷ xs) = omega (arith, length-insert_newest x (newest xs), length-newest xs)

listed-Memᴰ : (t : Runs) {x : ProvisionRun} → Memᴰ x (list_provision_runs t) → Memᴰ x t.rows
unfolding list_provision_runs
listed-Memᴰ t m = (newest-Memᴰ t.rows).0 (limit-Memᴰ 25 (newest t.rows) m)

listed-all :
    (t : Runs) {x : ProvisionRun}
    → length t.rows ≤ 25
    → Memᴰ x t.rows
    → Memᴰ x (list_provision_runs t)
unfolding list_provision_runs
listed-all t {x} h m =
    subst (Memᴰ x) (sym (limit-all 25 (newest t.rows) (omega (arith, h, length-newest t.rows))))
      ((newest-Memᴰ t.rows).1 m)

module _ (now : ℕ) (note : List ℕ) (cap : ℕ) where
  -- a row that a listed run names
  abbrev interrupted : ProvisionRun → ProvisionRun
  interrupted x =
      status_row now failed "interrupted by controller restart" true
        (record x { log = bounded_log cap (x.log ++ note) })

  abbrev hits : ProvisionRun → ProvisionRun → Bool
  hits r x = is_active r.status && x.id == r.id

  row_after : List ProvisionRun → ProvisionRun → ProvisionRun
  row_after [] x = x
  row_after (r ∷ rs) x = row_after rs (if hits r x then interrupted x else x)

  rows_after : List ProvisionRun → List ProvisionRun → List ProvisionRun
  rows_after rs [] = []
  rows_after rs (x ∷ xs) = row_after rs x ∷ rows_after rs xs

  one-rows :
      (r : ProvisionRun) (t : Runs)
      → (reconcile_one now note cap r t).rows ≡ update_where (hits r) interrupted t.rows
  unfolding set_provision_run_status append_provision_run_log
  one-rows r t = elim (Bool-cases (is_active r.status)) [
    | inl e ↦ rw e (
        update_where_twice (λ x. x.id == r.id) _ _ (λ x. refl) t.rows
        ∙ ap (λ b. update_where (λ x. b && x.id == r.id) interrupted t.rows) (sym e))
    | inr e ↦ rw e (
        sym (update_where-never interrupted t.rows)
        ∙ ap (λ b. update_where (λ x. b && x.id == r.id) interrupted t.rows) (sym e))
  ]

  rows_after-cons :
      (r : ProvisionRun) (rs xs : List ProvisionRun)
      → rows_after rs (update_where (hits r) interrupted xs) ≡ rows_after (r ∷ rs) xs
  unfolding update_where rows_after row_after
  rows_after-cons r rs [] = refl
  rows_after-cons r rs (x ∷ xs) =
      ap (λ z. row_after rs (if hits r x then interrupted x else x) ∷ z) (rows_after-cons r rs xs)

  all-rows :
      (rs : List ProvisionRun) (t : Runs)
      → (reconcile_all now note cap rs t).rows ≡ rows_after rs t.rows
  unfolding reconcile_all rows_after row_after
  all-rows [] t = none_after t.rows
    where
      none_after : (xs : List ProvisionRun) → xs ≡ rows_after [] xs
      none_after [] = refl
      none_after (x ∷ xs) = ap (λ z. x ∷ z) (none_after xs)
  all-rows (r ∷ rs) t =
      all-rows rs (reconcile_one now note cap r t)
      ∙ ap (rows_after rs) (one-rows r t)
      ∙ rows_after-cons r rs t.rows

  rows_after-Memᴰ :
      (rs xs : List ProvisionRun) {y : ProvisionRun}
      → Memᴰ y (rows_after rs xs)
      → (x : ProvisionRun) × Memᴰ x xs × (y ≡ row_after rs x)
  unfolding rows_after
  rows_after-Memᴰ rs [] m = elim m [ ]
  rows_after-Memᴰ rs (x ∷ xs) m = elim (Memᴰ-uncons m) [
    | inl q ↦ (x, Memᴰ.head refl, q)
    | inr t ↦ let (z, mz, q) = rows_after-Memᴰ rs xs t in (z, Memᴰ.tail mz, q)
  ]

  -- the row was ended now
  abbrev pub Ended : ProvisionRun → ProvisionRun → Type 0
  Ended x y = (y.id ≡ x.id) × (y.status ≡ failed) × (y.finished_at ≡ some now)

  row_after-Ended :
      (rs : List ProvisionRun) (x y : ProvisionRun) → Ended x y → Ended x (row_after rs y)
  unfolding row_after
  row_after-Ended [] x y h = h
  row_after-Ended (r ∷ rs) x y (same, h, fin) =
      row_after-Ended rs x (if hits r y then interrupted y else y)
        (if_both (Ended x) (hits r y) (same, refl, refl) (same, h, fin))

  row_after-cases :
      (rs : List ProvisionRun) (x : ProvisionRun)
      → ((row_after rs x ≡ x) × ((r : ProvisionRun) → Memᴰ r rs → hits r x ≡ false))
        ⊎ (((r : ProvisionRun) × Memᴰ r rs × (hits r x ≡ true)) × Ended x (row_after rs x))
  unfolding row_after
  row_after-cases [] x = inl (refl, λ r m. elim m [ ])
  row_after-cases (r ∷ rs) x = elim (Bool-cases (hits r x)) [
    | inl e ↦
        let here : row_after (r ∷ rs) x ≡ row_after rs (interrupted x) =
          ap (λ b. row_after rs (if b then interrupted x else x)) e in
        inr (
          (r, Memᴰ.head refl, e),
          subst (Ended x) (sym here) (row_after-Ended rs x (interrupted x) (refl, refl, refl)),
        )
    | inr e ↦
        let here : row_after (r ∷ rs) x ≡ row_after rs x =
          ap (λ b. row_after rs (if b then interrupted x else x)) e in
        elim (row_after-cases rs x) [
          | inl (same, miss) ↦ inl (
            here ∙ same,
            λ k m. elim (Memᴰ-uncons m) [
              | inl q ↦ subst (λ z. hits z x ≡ false) (sym q) e
              | inr t ↦ miss k t
            ],
          )
          | inr ((k, m, hit), fin) ↦ inr ((k, Memᴰ.tail m, hit), subst (Ended x) (sym here) fin)
        ]
  ]

  -- A row stays as it was and is not a listed run that was active, or it was one and has ended now.
  abbrev pub Settled : Runs → ProvisionRun → Type 0
  Settled t y =
      (x : ProvisionRun) × Memᴰ x t.rows
      × (((y ≡ x) × (Memᴰ x (list_provision_runs t) → is_active x.status ≡ false))
          ⊎ (Memᴰ x (list_provision_runs t) × (is_active x.status ≡ true) × Ended x y))

  is_active-Settled :
      (t : Runs) (y : ProvisionRun) → length t.rows ≤ 25 → Settled t y → is_active y.status ≡ false
  is_active-Settled t y few (x, m, inl (same, inactive)) =
      ap (λ z. is_active z.status) same ∙ inactive (listed-all t few m)
  is_active-Settled t y few (x, m, inr (listed, was, (same, h, fin))) = ap is_active h

  -- When ids are unique, each run after the reconciliation is one from before as it was, which is then not
  -- an active run of the 25 listed, or one of these, which has failed and ended now. So none is left queued
  -- or running when there are at most 25 runs.
  pub reconcile_stale_runs-Settled :
      (t : Runs)
      → UniqueRuns t.rows
      → (y : ProvisionRun) → Memᴰ y (reconcile_stale_runs now note cap t).rows
      → Settled t y × (length t.rows ≤ 25 → is_active y.status ≡ false)
  unfolding reconcile_stale_runs
  reconcile_stale_runs-Settled t unique y m =
      let listed = list_provision_runs t in
      let (x, mx, q) = rows_after-Memᴰ listed t.rows (subst (Memᴰ y) (all-rows listed t) m) in
      let settled : Settled t y = elim (row_after-cases listed x) [
        | inl (same, miss) ↦ (x, mx, inl (q ∙ same, λ ml. ground (arith, miss x ml)))
        | inr ((r, mr, hit), ended) ↦
            let same : r ≡ x =
              unique r x (listed-Memᴰ t mr) mx (sym ((==_iff x.id r.id).0 (ground (arith, hit)))) in
            (
              x,
              mx,
              inr (
                subst (λ z. Memᴰ z listed) same mr,
                subst (λ z. is_active z.status ≡ true) same (ground (arith, hit)),
                subst (Ended x) (sym q) ended,
              ),
            )
      ] in
      (settled, λ few. is_active-Settled t y few settled)
