-- ===== src/Operator/Bulk/Examples.antt =====
-- Bulk requests on tables of one job.
use encode_system.Prelude.{◌≡◌, refl, [], ◌∷◌, none}
use encode_system.Model.{done}
use encode_system.Jobs.{Store}
use encode_system.Jobs.Lifecycle.{retry_job}
use encode_system.Table.{count_where, update_where}
use encode_system.Samples.{job, store_of}
use encode_system.Operator.Bulk.{BulkRequest, completed, action_of, bulk_one, handle_bulk_jobs}
use encode_system.Operator.Bulk.Skipped.{BulkDone, handle_bulk_jobs-BulkDone}

abbrev tables : Store
tables = store_of (job 2 done 0 ∷ [])

abbrev retry_three : BulkRequest
retry_three = record { action = "retry"; ids = 2 ∷ 2 ∷ 7 ∷ []; priority = none; flow_id = none }

-- the second retry finds the job pending already, and no job has the third id
skipped_test : (handle_bulk_jobs 9 retry_three tables).1 ≡ completed 1 (2 ∷ 7 ∷ [])
unfolding handle_bulk_jobs bulk_one retry_job count_where update_where
skipped_test = refl

handle_bulk_jobs-BulkDone_example :
    BulkDone 9 retry_three tables (action_of retry_three) (handle_bulk_jobs 9 retry_three tables)
handle_bulk_jobs-BulkDone_example = handle_bulk_jobs-BulkDone 9 retry_three tables
