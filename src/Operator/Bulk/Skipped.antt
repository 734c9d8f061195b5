-- ===== src/Operator/Bulk/Skipped.antt =====
-- What a bulk action does to the tables, and which ids it skips (backend/internal/api/handlers_bulk.go).
use encode_system.Prelude.{
  ℕ, suc, ◌+◌, ◌≤◌, ◌<◌, ◌≡◌, ◌⊎◌, inl, inr, refl, sym, ap, ◌∙◌, List, [], ◌∷◌, ◌++◌, Bool, true,
  false, not, ◌||◌, Option, none, some, arith, ◌==◌, ltb, Bool-cases, length,
}
use mathlib.Core.List.{append_assoc, append-nil}
use encode_system.Prelude.Results.{Result, ok, err}
use encode_system.Table.{count_where, update_where, delete_where}
use encode_system.Jobs.{Store, is_some}
use encode_system.Jobs.Lifecycle.{PatchError, cancel_job, retry_job, delete_job, patch_pending_job}
use encode_system.Jobs.Trace.{Op, retry, cancel, delete, patch, apply, run}
use encode_system.Operator.Bulk.{
  BulkRequest, BulkAction, bulk_retry, bulk_cancel, bulk_delete, set_priority, set_flow, BulkReply,
  refused, completed, max_bulk_job_ids, action_of, has_value, bulk_one, bulk_next, bulk_from,
  bulk_checked, handle_bulk_jobs,
}

module _ {ℓ} {A : Type ℓ} where
  -- a statement that affects no row leaves the table as it was
  update_where-none :
      (p : A → Bool) (f : A → A) (xs : List A)
      → ltb 0 (count_where p xs) ≡ false
      → update_where p f xs ≡ xs
  unfolding count_where update_where
  update_where-none p f [] h = refl
  update_where-none p f (x ∷ xs) h = elim (Bool-cases (p x)) [
    | inl e ↦ absurd (ground (arith, e, h))
    | inr e ↦ rw e (ap (λ z. x ∷ z) (update_where-none p f xs (rw e at h)))
  ]

  delete_where-none :
      (p : A → Bool) (xs : List A) → ltb 0 (count_where p xs) ≡ false → delete_where p xs ≡ xs
  unfolding count_where delete_where
  delete_where-none p [] h = refl
  delete_where-none p (x ∷ xs) h = elim (Bool-cases (p x)) [
    | inl e ↦ absurd (ground (arith, e, h))
    | inr e ↦ rw e (ap (λ z. x ∷ z) (delete_where-none p xs (rw e at h)))
  ]

-- the operation of the job store that an action is for one id
abbrev pub bulk_op : BulkAction → ℕ → Op
bulk_op bulk_retry i = retry i
bulk_op bulk_cancel i = cancel i
bulk_op bulk_delete i = delete i
bulk_op (set_priority p) i = patch i none p
bulk_op (set_flow f) i = patch i f none

abbrev pub bulk_ops : ℕ → BulkAction → List ℕ → List (ℕ × Op)
bulk_ops now a [] = []
bulk_ops now a (i ∷ ids) = (now, bulk_op a i) ∷ bulk_ops now a ids

-- Each id of the request, in order, was a hit or was skipped.
pub data Split : List ℕ → List ℕ → List ℕ → Type 0 where
  done : Split [] [] []
  hit : {i : ℕ} {ids hits skips : List ℕ} → Split ids hits skips → Split (i ∷ ids) (i ∷ hits) skips
  skip : {i : ℕ} {ids hits skips : List ℕ} → Split ids hits skips → Split (i ∷ ids) hits (i ∷ skips)

-- the action has the value that it needs
abbrev Filled : BulkAction → Type 0
Filled (set_priority p) = is_some p ≡ true
Filled (set_flow f) = is_some f ≡ true
Filled _ = Unit {0}

-- One store call succeeds with what its operation makes of the tables, which is what they were when it
-- changed no row.
OneDone : ℕ → BulkAction → ℕ → Store → Result PatchError (Store × Bool) → Type 0
OneDone now a i s (err e) = ⊥
OneDone now a i s (ok (t, changed)) = (t ≡ apply now (bulk_op a i) s) × (changed ≡ false → t ≡ s)

bulk_one-OneDone :
    (now : ℕ) (a : BulkAction) (i : ℕ) (s : Store)
    → Filled a
    → OneDone now a i s (bulk_one now a i s)
unfolding bulk_one OneDone apply retry_job cancel_job delete_job patch_pending_job
bulk_one-OneDone now bulk_retry i s f =
    (refl, λ h. ap (λ z. record s { jobs = z }) (update_where-none _ _ s.jobs h))
bulk_one-OneDone now bulk_cancel i s f =
    (refl, λ h. ap (λ z. record s { jobs = z }) (update_where-none _ _ s.jobs h))
bulk_one-OneDone now bulk_delete i s f =
    (refl, λ h. ap (λ z. record s { jobs = z }) (delete_where-none _ s.jobs h))
bulk_one-OneDone now (set_priority (some p)) i s f =
    (refl, λ h. ap (λ z. record s { jobs = z }) (update_where-none _ _ s.jobs h))
bulk_one-OneDone now (set_priority none) i s f = absurd (cc f)
bulk_one-OneDone now (set_flow (some p)) i s f =
    (refl, λ h. ap (λ z. record s { jobs = z }) (update_where-none _ _ s.jobs h))
bulk_one-OneDone now (set_flow none) i s f = absurd (cc f)

-- The loop completes. Its tables are what the operations of all the ids make of them, and also what those
-- of the hits alone do; it counts the hits and lists the others.
abbrev pub Completed : ℕ → BulkAction → List ℕ → ℕ → List ℕ → Store → Store × BulkReply → Type 0
Completed now a ids k skipped s (t, reply) =
    (hits : List ℕ) × (skips : List ℕ) × Split ids hits skips
    × (reply ≡ completed (k + length hits) (skipped ++ skips))
    × (t ≡ run (bulk_ops now a ids) s)
    × (t ≡ run (bulk_ops now a hits) s)

bulk_next-Completed :
    (now : ℕ) (a : BulkAction) (ids : List ℕ)
    → (rest : ℕ → List ℕ → Store → Store × BulkReply)
    → ((k : ℕ) (skipped : List ℕ) (t : Store) → Completed now a ids k skipped t (rest k skipped t))
    → (k : ℕ) (skipped : List ℕ) (i : ℕ) (s : Store) (r : Result PatchError (Store × Bool))
    → OneDone now a i s r
    → Completed now a (i ∷ ids) k skipped s (bulk_next rest k skipped i s r)
unfolding OneDone run
bulk_next-Completed now a ids rest more k skipped i s (err e) one = absurd one
bulk_next-Completed now a ids rest more k skipped i s (ok (t, true)) (written, same) =
    let (hits, skips, split, reply, all, some_of) = more (k + 1) skipped t in
    let sum : (k + 1) + length hits ≡ k + suc (length hits) = omega arith in
    (
      i ∷ hits,
      skips,
      hit split,
      reply ∙ ap (λ n. completed n (skipped ++ skips)) sum,
      all ∙ ap (run (bulk_ops now a ids)) written,
      some_of ∙ ap (run (bulk_ops now a hits)) written,
    )
bulk_next-Completed now a ids rest more k skipped i s (ok (t, false)) (written, same) =
    let (hits, skips, split, reply, all, some_of) = more k (skipped ++ i ∷ []) t in
    (
      hits,
      i ∷ skips,
      skip split,
      reply ∙ ap (λ z. completed (k + length hits) z) (append_assoc skipped (i ∷ []) skips),
      all ∙ ap (run (bulk_ops now a ids)) written,
      some_of ∙ ap (run (bulk_ops now a hits)) (same refl),
    )

bulk_from-Completed :
    (now : ℕ) (a : BulkAction) (ids : List ℕ) (k : ℕ) (skipped : List ℕ) (s : Store)
    → Filled a
    → Completed now a ids k skipped s (bulk_from now a ids k skipped s)
unfolding bulk_from run
bulk_from-Completed now a [] k skipped s f = (
  [],
  [],
  done,
  ap (completed k) (sym (append-nil skipped)) ∙ ap (λ n. completed n (skipped ++ [])) k_zero,
  refl,
  refl,
)
  where
    k_zero : k ≡ k + 0
    k_zero = omega arith
bulk_from-Completed now a (i ∷ ids) k skipped s f =
    bulk_next-Completed now a ids (bulk_from now a ids)
      (λ n sk t. bulk_from-Completed now a ids n sk t f) k skipped i s (bulk_one now a i s)
      (bulk_one-OneDone now a i s f)

has_value-Filled : (s : Store) (a : BulkAction) → has_value s a ≡ true → Filled a
has_value-Filled s bulk_retry h = tt
has_value-Filled s bulk_cancel h = tt
has_value-Filled s bulk_delete h = tt
has_value-Filled s (set_priority p) h = h
has_value-Filled s (set_flow none) h = h
has_value-Filled s (set_flow (some f)) h = refl

abbrev pub BulkDone : ℕ → BulkRequest → Store → Option BulkAction → Store × BulkReply → Type 0
BulkDone now req s found res =
    (res ≡ (s, refused))
    ⊎ ((a : BulkAction) × (found ≡ some a)
        × (0 < length req.ids)
        × (length req.ids ≤ max_bulk_job_ids)
        × Completed now a req.ids 0 [] s res)

bulk_checked-BulkDone :
    (now : ℕ) (req : BulkRequest) (s : Store) (found : Option BulkAction)
    → BulkDone now req s found (bulk_checked now req.ids s found)
bulk_checked-BulkDone now req s none = inl refl
bulk_checked-BulkDone now req s (some a) =
    elim (Bool-cases
      (length req.ids == 0 || ltb max_bulk_job_ids (length req.ids) || not (has_value s a))) [
        | inl e ↦ rw e (inl refl)
        | inr e ↦ rw e (
            inr (
              a,
              refl,
              ground (arith, e),
              ground (arith, e),
              bulk_from-Completed now a req.ids 0 [] s (has_value-Filled s a (ground (arith, e))),
            ))
      ]

-- A bulk request is refused with the tables as they were, or its action is a known one, it has from 1 to
-- 500 ids, and it is answered as completed: its ids, in order, split into hits and skipped ones, of which
-- the reply has the number and the list, and the tables become what the single operation makes of them for
-- all the ids in turn, which is what it makes of them for the hits alone.
pub handle_bulk_jobs-BulkDone :
    (now : ℕ) (req : BulkRequest) (s : Store)
    → BulkDone now req s (action_of req) (handle_bulk_jobs now req s)
unfolding handle_bulk_jobs
handle_bulk_jobs-BulkDone now req s = bulk_checked-BulkDone now req s (action_of req)
