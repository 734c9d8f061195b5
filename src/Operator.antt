-- ===== src/Operator.antt =====
-- The operator's job handlers of backend/internal/api/handlers.go: handleRetryJob, handlePatchJob,
-- handleCancelJob and handleDeleteJob. The read and the guarded write of a handler are two statements:
-- what other requests do between them is the argument `between`. The audit entry is not modelled.
pub mod Honest
pub mod Written
pub mod Bulk
mod Examples
use encode_system.Prelude.{
  ℕ, Bool, true, false, not, ◌&&◌, Option, none, some, ◌==◌, ltb, if◌then◌else◌,
}
use encode_system.Prelude.Int.{ℤ}
use encode_system.Prelude.Results.{Result, ok, err}
use encode_system.Model.{Job, JobStatus, pending, assigned, terminal}
use encode_system.Jobs.{Store, get_job, get_flow, is_pending, is_some}
use encode_system.Jobs.Lifecycle.{
  retry_job, patch_pending_job, PatchError, cancellable, cancel_job, release_node, delete_job,
}

-- the HTTP status: 400, 404, 409, 500, and 200 with the row where the reply has one
pub data OperatorReply : Type 0 where
  bad_request missing conflict failure : OperatorReply
  success : Option Job → OperatorReply

abbrev pub reread : Store → Option Job → Store × OperatorReply
reread s none = (s, missing)
reread s (some j) = (s, success (some j))

abbrev pub retry_counted : ℕ → Store × ℕ → Store × OperatorReply
retry_counted i (s, n) = if n == 0 then (s, conflict) else reread s (get_job i s)

unfoldable pub handle_retry_job : ℕ → Store → Store × OperatorReply
handle_retry_job i s = retry_counted i (retry_job i s)

abbrev pub patch_counted : ℕ → Store → Result PatchError (Store × Bool) → Store × OperatorReply
patch_counted i s (err e) = (s, failure)
patch_counted i s (ok (t, false)) = (t, conflict)
patch_counted i s (ok (t, true)) = reread t (get_job i t)

-- the flow that a patch names must exist
abbrev pub flow_missing : Option ℕ → Store → Bool
flow_missing none s = false
flow_missing (some f) s = not (is_some (get_flow f s))

abbrev pub patch_found :
    ℕ → Option ℕ → Option ℤ → (Store → Store) → Store → Option Job → Store × OperatorReply
patch_found i flow_id priority between s none = (s, missing)
patch_found i flow_id priority between s (some j) =
    if not (is_pending j.status)
    then (s, conflict)
    else if flow_missing flow_id s
    then (s, bad_request)
    else patch_counted i (between s) (patch_pending_job i flow_id priority (between s))

unfoldable pub handle_patch_job :
    ℕ → Option ℕ → Option ℤ → (Store → Store) → Store → Store × OperatorReply
handle_patch_job i none none between s = (s, bad_request)
handle_patch_job i flow_id priority between s =
    patch_found i flow_id priority between s (get_job i s)

abbrev pub is_assigned : JobStatus → Bool
is_assigned assigned = true
is_assigned _ = false

abbrev pub cancel_counted : Job → Store × ℕ → Store × OperatorReply
cancel_counted j (s, n) =
    if is_assigned j.status && ltb 0 n
    then (release_node j.node_id s, success none)
    else (s, success none)

abbrev pub cancel_found : ℕ → ℕ → (Store → Store) → Store → Option Job → Store × OperatorReply
cancel_found now i between s none = (s, missing)
cancel_found now i between s (some j) =
    if cancellable j.status then cancel_counted j (cancel_job now i (between s)) else (s, conflict)

unfoldable pub handle_cancel_job : ℕ → ℕ → (Store → Store) → Store → Store × OperatorReply
handle_cancel_job now i between s = cancel_found now i between s (get_job i s)

abbrev pub delete_counted : Store × Bool → Store × OperatorReply
delete_counted (s, deleted) = if deleted then (s, success none) else (s, conflict)

abbrev pub delete_found : ℕ → (Store → Store) → Store → Option Job → Store × OperatorReply
delete_found i between s none = (s, missing)
delete_found i between s (some j) =
    if terminal j.status then delete_counted (delete_job i (between s)) else (s, conflict)

unfoldable pub handle_delete_job : ℕ → (Store → Store) → Store → Store × OperatorReply
handle_delete_job i between s = delete_found i between s (get_job i s)
