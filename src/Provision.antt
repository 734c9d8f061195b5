-- ===== src/Provision.antt =====
-- Provisioning runs (backend/internal/provision/engine.go and the provision_runs table of
-- backend/internal/store/store_ext.go): the life of a run, the reconciliation at startup and the retention.
-- The ansible run itself is its outcome, an argument; run logs are lists of characters.
pub mod Request
pub mod Valid
pub mod Reconciled
pub mod Kept
mod Examples
use encode_system.Prelude.{
  ℕ, zero, suc, ◌+◌, ◌-◌, String, List, [], ◌∷◌, ◌++◌, Bool, true, false, not, ◌&&◌, ◌||◌, Option,
  none, some, ◌==◌, ltb, if◌then◌else◌, length, drop,
}
use encode_system.Table.{select_one, update_where, delete_where}

-- queued | running | success | failed
pub data RunStatus : Type 0 where
  queued running success failed : RunStatus

pub record ProvisionRun : Type 0 where
  pub id : ℕ
  pub host : String
  pub node_name : String
  pub status : RunStatus
  pub log : List ℕ
  pub error : String
  pub finished_at : Option ℕ

pub record Runs : Type 0 where
  pub rows : List ProvisionRun
  pub next_id : ℕ

abbrev pub is_active : RunStatus → Bool
is_active queued = true
is_active running = true
is_active _ = false

-- ORDER BY id DESC
unfoldable pub insert_newest : ProvisionRun → List ProvisionRun → List ProvisionRun
insert_newest r [] = r ∷ []
insert_newest r (x ∷ xs) =
    let rest = insert_newest r xs in if ltb r.id x.id then x ∷ rest else r ∷ x ∷ xs

unfoldable pub newest : List ProvisionRun → List ProvisionRun
unfolding insert_newest
newest [] = []
newest (r ∷ rs) = insert_newest r (newest rs)

-- LIMIT
abbrev pub limit : ℕ → List ProvisionRun → List ProvisionRun
limit zero rs = []
limit (suc n) [] = []
limit (suc n) (r ∷ rs) = r ∷ limit n rs

unfoldable pub create_provision_run : String → String → Runs → Runs × ℕ
create_provision_run host node_name t = (
  record {
    rows =
        t.rows
        ++ record {
          id = t.next_id;
          host = host;
          node_name = node_name;
          status = queued;
          log = [];
          error = "";
          finished_at = none;
        }
          ∷ [];
    next_id = t.next_id + 1;
  },
  t.next_id,
)

unfoldable pub list_provision_runs : Runs → List ProvisionRun
unfolding newest
list_provision_runs t = limit 25 (newest t.rows)

abbrev pub status_row : ℕ → RunStatus → String → Bool → ProvisionRun → ProvisionRun
status_row now status error true r = record r {
  status = status;
  error = error;
  finished_at = some now;
}
status_row now status error false r = record r { status = status }

unfoldable pub set_provision_run_status : ℕ → ℕ → RunStatus → String → Bool → Runs → Runs
set_provision_run_status now i status error finished t = record t {
  rows = update_where (λ r. r.id == i) (status_row now status error finished) t.rows;
}

-- substr(log || chunk, -cap) keeps the last characters; a cap of 0 keeps all
abbrev pub bounded_log : ℕ → List ℕ → List ℕ
bounded_log cap log = if ltb 0 cap then drop (length log - cap) log else log

unfoldable pub append_provision_run_log : ℕ → List ℕ → ℕ → Runs → Runs
append_provision_run_log i chunk cap t = record t {
  rows =
      update_where (λ r. r.id == i) (λ r. record r { log = bounded_log cap (r.log ++ chunk) })
        t.rows;
}

abbrev pub is_among : ℕ → List ProvisionRun → Bool
is_among i [] = false
is_among i (r ∷ rs) = r.id == i || is_among i rs

-- DELETE of the finished runs that are not among the newest
unfoldable pub prune_provision_runs : ℕ → Runs → Runs
prune_provision_runs keep t = record t {
  rows =
      delete_where
        (λ r. not (is_among r.id (limit keep (newest t.rows))) && not (is_active r.status)) t.rows;
}

-- the loop of ReconcileStaleRuns over the runs listed; `note` is what it appends to a run's log
abbrev pub reconcile_one : ℕ → List ℕ → ℕ → ProvisionRun → Runs → Runs
reconcile_one now note cap r t =
    if is_active r.status
    then set_provision_run_status now r.id failed "interrupted by controller restart" true
        (append_provision_run_log r.id note cap t)
    else t

unfoldable pub reconcile_all : ℕ → List ℕ → ℕ → List ProvisionRun → Runs → Runs
unfolding set_provision_run_status append_provision_run_log
reconcile_all now note cap [] t = t
reconcile_all now note cap (r ∷ rs) t =
    reconcile_all now note cap rs (reconcile_one now note cap r t)

unfoldable pub reconcile_stale_runs : ℕ → List ℕ → ℕ → Runs → Runs
unfolding reconcile_all list_provision_runs
reconcile_stale_runs now note cap t = reconcile_all now note cap (list_provision_runs t) t

-- Engine.Start behind its checks: the row, and then the retention
unfoldable pub start_run : String → String → Runs → Runs × ℕ
unfolding create_provision_run prune_provision_runs
start_run host node_name t = (
  prune_provision_runs 50 (create_provision_run host node_name t).0,
  (create_provision_run host node_name t).1,
)

-- Engine.run: the run begins when it has the mutex, and ends with the outcome of execute, none or an error
-- text, after the last line of its log
unfoldable pub begin_run : ℕ → ℕ → Runs → Runs
unfolding set_provision_run_status
begin_run now i t = set_provision_run_status now i running "" false t

abbrev pub end_status : Option String → RunStatus
end_status none = success
end_status (some e) = failed

abbrev pub end_error : Option String → String
end_error none = ""
end_error (some e) = e

unfoldable pub end_run : ℕ → ℕ → List ℕ → ℕ → Option String → Runs → Runs
unfolding set_provision_run_status append_provision_run_log
end_run now i note cap outcome t =
    set_provision_run_status now i (end_status outcome) (end_error outcome) true
      (append_provision_run_log i note cap t)
