-- ===== src/Operator/Bulk.antt =====
-- The bulk actions on jobs and the retention of finished ones (backend/internal/api/handlers_bulk.go and
-- retention.go). The bodies are decoded and the audit entries are left out; each store call is one
-- statement, and another request that comes between two of them is not modelled.
pub mod Skipped
pub mod Retention
mod Examples
use encode_system.Prelude.{
  ℕ, zero, suc, ◌+◌, String, List, [], ◌∷◌, ◌++◌, Bool, true, false, not, ◌&&◌, ◌||◌, Option, none,
  some, ◌==◌, ltb, ◌=s=◌, if◌then◌else◌, length,
}
use encode_system.Prelude.Int.{ℤ, pos, ltbℤ}
use encode_system.Prelude.Results.{Result, ok, err, ◌>>◌, guard}
use encode_system.Jobs.{Store, get_flow, is_some}
use encode_system.Jobs.Lifecycle.{
  PatchError, cancel_job, retry_job, delete_job, patch_pending_job, prune_old_jobs,
}

abbrev pub max_bulk_job_ids : ℕ
max_bulk_job_ids = 500

pub record BulkRequest : Type 0 where
  pub action : String
  pub ids : List ℕ
  pub priority : Option ℤ
  pub flow_id : Option ℕ

-- the action with the field that it reads
pub data BulkAction : Type 0 where
  bulk_retry bulk_cancel bulk_delete : BulkAction
  set_priority : Option ℤ → BulkAction
  set_flow : Option ℕ → BulkAction

pub data BulkReply : Type 0 where
  refused : BulkReply
  -- a store call failed: 500 with what was done until then
  interrupted : ℕ → List ℕ → BulkReply
  completed : ℕ → List ℕ → BulkReply

abbrev pub action_of : BulkRequest → Option BulkAction
action_of req =
    if req.action =s= "retry"
    then some bulk_retry
    else if req.action =s= "cancel"
    then some bulk_cancel
    else if req.action =s= "delete"
    then some bulk_delete
    else if req.action =s= "set_priority"
    then some (set_priority req.priority)
    else if req.action =s= "set_flow"
    then some (set_flow req.flow_id)
    else none

-- a priority, or a flow that exists
abbrev pub has_value : Store → BulkAction → Bool
has_value s (set_priority p) = is_some p
has_value s (set_flow none) = false
has_value s (set_flow (some f)) = is_some (get_flow f s)
has_value s _ = true

abbrev by_count : Store × ℕ → Result PatchError (Store × Bool)
by_count (s, n) = ok (s, ltb 0 n)

-- the store call for one id, and whether it changed a row
unfoldable pub bulk_one : ℕ → BulkAction → ℕ → Store → Result PatchError (Store × Bool)
bulk_one now bulk_retry i s = by_count (retry_job i s)
bulk_one now bulk_cancel i s = by_count (cancel_job now i s)
bulk_one now bulk_delete i s = ok (delete_job i s)
bulk_one now (set_priority p) i s = patch_pending_job i none p s
bulk_one now (set_flow f) i s = patch_pending_job i f none s

-- one turn of the loop, with what it has by_count so far; `rest` is the loop over the other ids
abbrev pub bulk_next :
    (ℕ → List ℕ → Store → Store × BulkReply)
    → ℕ
    → List ℕ
    → ℕ
    → Store
    → Result PatchError (Store × Bool)
    → Store × BulkReply
bulk_next rest affected skipped i s (err e) = (s, interrupted affected skipped)
bulk_next rest affected skipped i s (ok (t, true)) = rest (affected + 1) skipped t
bulk_next rest affected skipped i s (ok (t, false)) = rest affected (skipped ++ i ∷ []) t

unfoldable pub bulk_from : ℕ → BulkAction → List ℕ → ℕ → List ℕ → Store → Store × BulkReply
bulk_from now a [] affected skipped s = (s, completed affected skipped)
bulk_from now a (i ∷ ids) affected skipped s =
    bulk_next (bulk_from now a ids) affected skipped i s (bulk_one now a i s)

abbrev pub bulk_checked : ℕ → List ℕ → Store → Option BulkAction → Store × BulkReply
bulk_checked now ids s none = (s, refused)
bulk_checked now ids s (some a) =
    if length ids == 0 || ltb max_bulk_job_ids (length ids) || not (has_value s a)
    then (s, refused)
    else bulk_from now a ids 0 [] s

unfoldable pub handle_bulk_jobs : ℕ → BulkRequest → Store → Store × BulkReply
unfolding bulk_from
handle_bulk_jobs now req s = bulk_checked now req.ids s (action_of req)

-- pruneJobsTick, with the settings' JobRetentionDays
unfoldable pub prune_jobs_tick : ℕ → ℤ → Store → Store
prune_jobs_tick now days s = if ltbℤ (pos 0) days then (prune_old_jobs now days s).0 else s

pub data PruneReply : Type 0 where
  bad_days : PruneReply
  pruned : ℕ → PruneReply

abbrev pub prune_replied : Store × ℕ → Store × PruneReply
prune_replied (s, n) = (s, pruned n)

unfoldable pub handle_prune_jobs : ℕ → Option ℤ → Store → Store × PruneReply
handle_prune_jobs now none s = (s, bad_days)
handle_prune_jobs now (some days) s =
    if ltbℤ days (pos 1) || ltbℤ (pos 3650) days
    then (s, bad_days)
    else prune_replied (prune_old_jobs now days s)
