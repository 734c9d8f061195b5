-- ===== src/Complete/Examples.antt =====
-- Reports on a table with one running job.
use mathlib.Core.List.{Memᴰ}
use encode_system.Prelude.{◌≡◌, ◌≢◌, refl, sym, ◌∙◌, [], ◌∷◌, inl, inr, arith}
use encode_system.Table.{select_one, count_where}
use encode_system.Table.Counts.{Memᴰ-uncons}
use encode_system.Model.{Job, running}
use encode_system.Jobs.{Store, get_job, finish_job_with_report, live_with_id}
use encode_system.Jobs.Ids.{UniqueIds}
use encode_system.Complete.{Outcome, recorded, handle_job_complete}
use encode_system.Complete.Outcomes.{
  Settled, handle_job_complete-recorded, handle_job_complete_again,
}
use encode_system.Samples.{job, node, store_of, env, report}

abbrev one_running : Store
one_running = store_of (job 1 running 1 ∷ [])

no_row : {j : Job} → Memᴰ j [] → ⊥
no_row m = elim m [ ]

the_row : (j : Job) → Memᴰ j one_running.jobs → j ≡ job 1 running 1
the_row j m = elim (Memᴰ-uncons m) [ inl q ↦ q | inr r ↦ absurd (no_row r) ]

one_running-UniqueIds : UniqueIds one_running.jobs
one_running-UniqueIds j k hj hk e = the_row j hj ∙ sym (the_row k hk)

abbrev first_report : Outcome
first_report = handle_job_complete (env 20) 1 report (node 1 2) (λ t. t) one_running

recorded_run : first_report.answer ≡ recorded
unfolding handle_job_complete get_job select_one finish_job_with_report count_where live_with_id
recorded_run = refl

handle_job_complete-recorded_example : Settled 1 report first_report
handle_job_complete-recorded_example =
    handle_job_complete-recorded (env 20) 1 report (node 1 2) (λ t. t) one_running
      one_running-UniqueIds recorded_run

handle_job_complete_again_example :
    ((handle_job_complete (env 9) 1 report (node 1 2) (λ t. t) first_report.store).store
      ≡ first_report.store)
    × ((handle_job_complete (env 9) 1 report (node 1 2) (λ t. t) first_report.store).effects ≡ [])
    × ((handle_job_complete (env 9) 1 report (node 1 2) (λ t. t) first_report.store).answer
        ≢ recorded)
handle_job_complete_again_example =
    handle_job_complete_again (env 20) (env 9) 1 report report (node 1 2) (λ t. t) one_running
      (omega arith) one_running-UniqueIds recorded_run
