-- ===== src/Operator/Bulk/Retention.antt =====
-- What the retention of finished jobs removes (backend/internal/api/retention.go).
use mathlib.Core.List.{Memᴰ}
use encode_system.Prelude.{
  length, ◌↔◌, ◌≤◌, ℕ, ◌+◌, ◌-◌, ◌*◌, ◌<◌, ◌≡◌, ◌⊎◌, inl, inr, refl, List, [], ◌∷◌, Bool, false,
  ◌&&◌, ◌||◌, Option, none, some, arith, ◌==◌, ltb, Bool-cases,
}
use encode_system.Prelude.Int.{ℤ, pos, negsuc}
use encode_system.Table.{count_where, delete_where}
use encode_system.Table.Rows.{Memᴰ-delete_kept}
use encode_system.Table.Counts.{Memᴰ-delete, Memᴰ-delete_from}
use encode_system.Model.{Job, terminal}
use encode_system.Jobs.{Store}
use encode_system.Jobs.Lifecycle.{prune_old_jobs, finished_before}
use encode_system.Operator.Bulk.{prune_jobs_tick, PruneReply, bad_days, pruned, handle_prune_jobs}

-- finished at least the days ago, and over
abbrev pub is_old : ℕ → ℕ → Job → Bool
is_old now d j = terminal j.status && finished_before (now - d * 86400) j.finished_at

-- the jobs that stay are those that are not old
abbrev pub Retained : ℕ → ℕ → Store → Store → Type 0
Retained now d s t = (j : Job) → Memᴰ j t.jobs ↔ (Memᴰ j s.jobs × (is_old now d j ≡ false))

length-delete :
    {A : Type 0} (p : A → Bool) (xs : List A)
    → count_where p xs + length (delete_where p xs) ≡ length xs
unfolding count_where delete_where
length-delete p [] = omega arith
length-delete p (x ∷ xs) = ground (arith, length-delete p xs)

prune_old_jobs-Retained :
    (now d : ℕ) (s : Store)
    → 0 < d
    → Retained now d s (prune_old_jobs now (pos d) s).0
      × ((prune_old_jobs now (pos d) s).1 + length (prune_old_jobs now (pos d) s).0.jobs
          ≡ length s.jobs)
unfolding prune_old_jobs
prune_old_jobs-Retained now d s h =
    let some_days : (d == 0) ≡ false = ground (arith, h) in
    rw some_days (
      (
        λ j. (
          λ m. (Memᴰ-delete_from (is_old now d) s.jobs m, Memᴰ-delete_kept (is_old now d) s.jobs m),
          λ (m, young). Memᴰ-delete (is_old now d) young m,
        ),
        length-delete (is_old now d) s.jobs,
      ))

abbrev pub Pruned : ℕ → Option ℤ → Store → Store × PruneReply → Type 0
Pruned now days s (t, reply) =
    ((reply ≡ bad_days) × (t ≡ s))
    ⊎ ((d n : ℕ) × (days ≡ some (pos d))
        × (0 < d)
        × (d ≤ 3650)
        × (reply ≡ pruned n)
        × (n + length t.jobs ≡ length s.jobs)
        × Retained now d s t)

-- A manual prune is refused with the tables as they were, or its days are from 1 to 3650: then the jobs
-- that stay are exactly those that are not finished or were finished no longer ago than the days, and the
-- reply has the number of the others.
pub handle_prune_jobs-Pruned :
    (now : ℕ) (days : Option ℤ) (s : Store) → Pruned now days s (handle_prune_jobs now days s)
unfolding handle_prune_jobs
handle_prune_jobs-Pruned now none s = inl (refl, refl)
handle_prune_jobs-Pruned now (some (negsuc n)) s = inl (refl, refl)
handle_prune_jobs-Pruned now (some (pos d)) s = elim (Bool-cases (ltb d 1 || ltb 3650 d)) [
  | inl e ↦ rw e (inl (refl, refl))
  | inr e ↦
      let (kept, sum) = prune_old_jobs-Retained now d s (ground (arith, e)) in
      rw e (
        inr (
          d,
          (prune_old_jobs now (pos d) s).1,
          refl,
          ground (arith, e),
          ground (arith, e),
          refl,
          sum,
          kept,
        ))
]

-- A pass of the loop with days that are not positive changes nothing; with others the jobs that stay are
-- exactly those that are not finished or were finished no longer ago than the days.
pub prune_jobs_tick-Retained :
    (now : ℕ) (days : ℤ) (s : Store)
    → (prune_jobs_tick now days s ≡ s)
      ⊎ ((d : ℕ) × (days ≡ pos d) × (0 < d) × Retained now d s (prune_jobs_tick now days s))
unfolding prune_jobs_tick
prune_jobs_tick-Retained now (negsuc n) s = inl refl
prune_jobs_tick-Retained now (pos d) s = elim (Bool-cases (ltb 0 d)) [
  | inl e ↦
      let h : 0 < d = ground (arith, e) in
      rw e (inr (d, refl, h, (prune_old_jobs-Retained now d s h).0))
  | inr e ↦ rw e (inl refl)
]
