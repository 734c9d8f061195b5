-- ===== src/Provision/Kept.antt =====
-- What the start of a provisioning run leaves in the table (backend/internal/provision/engine.go).
use mathlib.Core.List.{Memᴰ}
use encode_system.Prelude.{
  ℕ, ◌≡◌, ◌↔◌, ◌⊎◌, inl, inr, refl, String, List, [], ◌∷◌, ◌++◌, true, not, ◌&&◌, none, arith,
  Bool-cases,
}
use encode_system.Table.Counts.{Memᴰ-delete, Memᴰ-delete_from, Memᴰ-append}
use encode_system.Table.Rows.{Memᴰ-delete_kept}
use encode_system.Provision.{
  queued, ProvisionRun, Runs, is_active, newest, limit, is_among, create_provision_run,
  prune_provision_runs, start_run,
}

Memᴰ-last : {A : Type 0} (xs : List A) (y : A) → Memᴰ y (xs ++ y ∷ [])
Memᴰ-last [] y = Memᴰ.head refl
Memᴰ-last (x ∷ xs) y = Memᴰ.tail (Memᴰ-last xs y)

-- the retention deletes exactly the finished runs that are not among the newest
prune-Memᴰ :
    (keep : ℕ) (t : Runs) (r : ProvisionRun)
    → Memᴰ r (prune_provision_runs keep t).rows ↔ (
        Memᴰ r t.rows
        × ((is_active r.status ≡ true) ⊎ (is_among r.id (limit keep (newest t.rows)) ≡ true)))
unfolding prune_provision_runs
prune-Memᴰ keep t r = (
  λ m. (
    Memᴰ-delete_from _ t.rows m,
    elim (Bool-cases (is_active r.status)) [
      | inl e ↦ inl e
      | inr e ↦
          let left =
            Memᴰ-delete_kept
              (λ x. not (is_among x.id (limit keep (newest t.rows))) && not (is_active x.status))
              t.rows m in
          inr (ground (arith, e, left))
    ],
  ),
  λ (m, why). Memᴰ-delete _ (ground (arith, why)) m,
)

-- After the start of a run the table has the run, queued and without an end, and of the others exactly those
-- that are not finished or are among the 50 newest, each as it was.
pub start_run-kept :
    (host node_name : String) (t : Runs)
    → ((r : ProvisionRun) × Memᴰ r (start_run host node_name t).0.rows
        × (r.id ≡ (start_run host node_name t).1)
        × (r.status ≡ queued)
        × (r.finished_at ≡ none))
      × ((r : ProvisionRun)
          → Memᴰ r t.rows
          → Memᴰ r (start_run host node_name t).0.rows ↔ (
              (is_active r.status ≡ true)
              ⊎ (is_among r.id (limit 50 (newest (create_provision_run host node_name t).0.rows))
                  ≡ true)))
unfolding start_run create_provision_run
start_run-kept host node_name t =
    let after = (create_provision_run host node_name t).0 in
    (
      (_, (prune-Memᴰ 50 after _).1 (Memᴰ-last t.rows _, inl refl), refl, refl, refl),
      λ r m. (
        λ k. ((prune-Memᴰ 50 after r).0 k).1,
        λ why. (prune-Memᴰ 50 after r).1 (Memᴰ-append _ m, why),
      ),
    )
