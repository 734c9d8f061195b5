-- ===== src/Provision/Examples.antt =====
-- Requests and runs.
use mathlib.Core.List.{Memᴰ}
use encode_system.Prelude.{
  ℕ, zero, suc, ◌≡◌, ◌≤◌, inl, inr, refl, sym, ◌∙◌, String, List, [], ◌∷◌, ◌++◌, false, Option,
  none, some, length,
}
use encode_system.Prelude.Int.{pos}
use encode_system.Prelude.Results.{ok}
use encode_system.Table.{update_where}
use encode_system.Table.Counts.{Memᴰ-uncons}
use encode_system.Provision.{
  RunStatus, queued, running, failed, ProvisionRun, Runs, is_active, newest, reconcile_stale_runs,
  list_provision_runs, reconcile_all, insert_newest, set_provision_run_status,
  append_provision_run_log,
}
use encode_system.Provision.Request.{ProvisionRequest, all_chars, validate}
use encode_system.Provision.Valid.{Valid, validate-Valid}
use encode_system.Provision.Reconciled.{UniqueRuns, Settled, reconcile_stale_runs-Settled}

abbrev asked : ProvisionRequest
asked = record {
  host = "10.0.0.7";
  port = pos 0;
  scheme = "";
  cert_validation = "";
  winrm_user = "";
  winrm_password = "secret";
  node_name = "node-7";
  platform = "";
  ssh_user = "";
  ssh_password = "";
  ssh_key_file = "";
}

abbrev filled : ProvisionRequest
filled = record asked {
  port = pos 5985;
  scheme = "http";
  cert_validation = "ignore";
  winrm_user = "Administrator";
  platform = "windows";
}

abbrev same_text : String → String
same_text s = s

validate-Valid_example :
    Valid same_text same_text filled × (validate same_text same_text filled ≡ ok filled)
unfolding validate all_chars
validate-Valid_example =
    validate-Valid same_text same_text asked filled
      (refl, (refl, (refl, (refl, (refl, (refl, tt)))))) refl

abbrev run_row : ℕ → RunStatus → ProvisionRun
run_row i st = record {
  id = i;
  host = "10.0.0.7";
  node_name = "node-7";
  status = st;
  log = [];
  error = "";
  finished_at = none;
}

abbrev one_run : Runs
one_run = record { rows = run_row 1 running ∷ []; next_id = 2 }

no_run : {x : ProvisionRun} → Memᴰ x [] → ⊥
no_run m = elim m [ ]

only_run : (x : ProvisionRun) → Memᴰ x one_run.rows → x ≡ run_row 1 running
only_run x m = elim (Memᴰ-uncons m) [ inl q ↦ q | inr t ↦ absurd (no_run t) ]

one_run-UniqueRuns : UniqueRuns one_run.rows
one_run-UniqueRuns x y mx my e = only_run x mx ∙ sym (only_run y my)

abbrev ended : ProvisionRun
ended = record (run_row 1 failed) {
  error = "interrupted by controller restart";
  finished_at = some 9;
  log = 10 ∷ [];
}

ended-Memᴰ : Memᴰ ended (reconcile_stale_runs 9 (10 ∷ []) 100 one_run).rows
unfolding reconcile_stale_runs reconcile_all list_provision_runs newest insert_newest
    set_provision_run_status append_provision_run_log update_where
ended-Memᴰ = Memᴰ.head refl

reconcile_stale_runs-Settled_example :
    Settled 9 (10 ∷ []) 100 one_run ended
    × (length one_run.rows ≤ 25 → is_active ended.status ≡ false)
reconcile_stale_runs-Settled_example =
    reconcile_stale_runs-Settled 9 (10 ∷ []) 100 one_run one_run-UniqueRuns ended ended-Memᴰ

-- 26 runs wait when the controller restarts
abbrev waiting : ℕ → List ProvisionRun
waiting zero = []
waiting (suc n) = waiting n ++ run_row n queued ∷ []

abbrev first_status : List ProvisionRun → Option RunStatus
first_status [] = none
first_status (r ∷ rs) = some r.status

-- the oldest of them is not among the 25 that are listed
left_behind_test :
    first_status (reconcile_stale_runs 9 [] 100 (record { rows = waiting 26; next_id = 26 })).rows
    ≡ some queued
unfolding reconcile_stale_runs reconcile_all list_provision_runs newest insert_newest
    set_provision_run_status append_provision_run_log update_where
left_behind_test = refl
