-- ===== src/Update/Examples.antt =====
-- A second release, taken back.
use encode_system.Prelude.{ℕ, ◌≡◌, refl, String, List, [], ◌∷◌, none, some, zero, suc}
use encode_system.Prelude.Results.{ok}
use encode_system.Update.{
  windows, UpdateStore, put_slot, publish_agent, recover_slot, rollback_agent,
}
use encode_system.Update.Rollback.{published, publish-rollback}

-- one byte tells these payloads apart
abbrev hash : List ℕ → String
hash [] = "empty"
hash (zero ∷ c) = "zero"
hash (suc n ∷ c) = "other"

abbrev store : UpdateStore
store = record {
  windows_agent = record {
    version = "1.0";
    sha = "zero";
    prev_version = "";
    prev_sha = "";
    payload = some (0 ∷ []);
    prev_payload = none;
  };
  linux_agent = record {
    version = "";
    sha = "";
    prev_version = "";
    prev_sha = "";
    payload = none;
    prev_payload = none;
  };
  lib = record { version = 0; sha = ""; size = 0; payload = none };
  bin = record { version = 0; sha = ""; size = 0; payload = none };
}

publish-rollback_example :
    (t : UpdateStore) × (publish_agent hash windows "1.1" (1 ∷ []) store ≡ ok t)
    × (rollback_agent windows t
        ≡ ok (put_slot windows (published "1.0" (0 ∷ []) "1.1" (1 ∷ []) "zero" "zero") store))
    × (rollback_agent windows
          (put_slot windows (published "1.0" (0 ∷ []) "1.1" (1 ∷ []) "zero" "zero") store)
        ≡ ok (put_slot windows (published "1.1" (1 ∷ []) "1.0" (0 ∷ []) "zero" "zero") store))
    × (recover_slot hash (published "1.1" (1 ∷ []) "1.0" (0 ∷ []) "zero" "zero")
        ≡ published "1.1" (1 ∷ []) "1.0" (0 ∷ []) "other" "zero")
publish-rollback_example =
    publish-rollback hash windows "1.1" (1 ∷ []) (0 ∷ []) store refl refl refl refl
