-- ===== src/Operator/Examples.antt =====
-- Requests on tables of one job.
use mathlib.Core.List.{Memᴰ}
use encode_system.Prelude.{ℕ, ◌≡◌, refl, sym, ◌∙◌, [], ◌∷◌, inl, inr, none, some}
use encode_system.Prelude.Int.{pos}
use encode_system.Table.{select_one, count_where, update_where}
use encode_system.Table.Counts.{Memᴰ-uncons}
use encode_system.Model.{Job, JobStatus, running, done, pending}
use encode_system.Jobs.{Store, get_job, pending_with_id}
use encode_system.Jobs.Lifecycle.{
  retryable, requeue_row, retry_job, patch_row, patch_pending_job, delete_job,
}
use encode_system.Jobs.Ids.{UniqueIds}
use encode_system.Operator.{
  success, handle_cancel_job, handle_delete_job, handle_retry_job, handle_patch_job,
}
use encode_system.Operator.Honest.{handle_cancel_job_overtaken}
use encode_system.Samples.{job, store_of}

abbrev one : JobStatus → ℕ → Store
one st n = store_of (job 2 st n ∷ [])

no_row : {j : Job} → Memᴰ j [] → ⊥
no_row m = elim m [ ]

the_row : (st : JobStatus) (n : ℕ) (j : Job) → Memᴰ j (one st n).jobs → j ≡ job 2 st n
the_row st n j m = elim (Memᴰ-uncons m) [ inl q ↦ q | inr r ↦ absurd (no_row r) ]

one-UniqueIds : (st : JobStatus) (n : ℕ) → UniqueIds (one st n).jobs
one-UniqueIds st n j k hj hk e = the_row st n j hj ∙ sym (the_row st n k hk)

found : (st : JobStatus) (n : ℕ) → get_job 2 (one st n) ≡ some (job 2 st n)
unfolding get_job select_one
found st n = refl

-- the job starts to run while the operator's cancel is on its way
handle_cancel_job_overtaken_example :
    ((handle_cancel_job 9 2 (λ s. one running 1) (one pending 0)).1 ≡ success none)
    × (get_job 2 (handle_cancel_job 9 2 (λ s. one running 1) (one pending 0)).0
        ≡ some (job 2 running 1))
handle_cancel_job_overtaken_example =
    handle_cancel_job_overtaken 9 2 (λ s. one running 1) (one pending 0) (job 2 pending 0)
      (job 2 running 1) (found pending 0) refl (found running 1) refl

delete_run : (handle_delete_job 2 (λ s. s) (one done 1)).1 ≡ success none
unfolding handle_delete_job get_job select_one delete_job count_where
delete_run = refl

abbrev waiting : Job
waiting = record (job 2 pending 0) { next_retry_at = none }

retry_run : (handle_retry_job 2 (one done 1)).1 ≡ success (some waiting)
unfolding handle_retry_job get_job select_one retry_job count_where update_where retryable
    requeue_row
retry_run = refl

abbrev urgent : Job
urgent = record (job 2 pending 0) { priority = pos 5 }

patch_run :
    (handle_patch_job 2 none (some (pos 5)) (λ s. s) (one pending 0)).1 ≡ success (some urgent)
unfolding handle_patch_job get_job select_one patch_pending_job count_where update_where
    pending_with_id patch_row
patch_run = refl
