-- ===== src/Accounts/Examples.antt =====
-- An administrator, a viewer, two sessions, two API tokens, and a pairing code.
use mathlib.Core.Path.{subst}
use Prim.Native.String.{◌++◌ as ◌++ˢ◌}
use encode_system.Prelude.{
  ◌≡◌, refl, sym, inl, inr, arith, String, [], ◌∷◌, true, false, none, some, ◌==◌, ◌=s=◌,
}
use encode_system.Prelude.Results.{Result, ok, err}
use encode_system.Table.{select_one, count_where, update_where, delete_where}
use encode_system.Table.Counts.{Memᴰ-uncons}
use encode_system.Accounts.{Accounts, Session, Outside, session_by_token_hash}
use encode_system.Accounts.Access.{
  HttpError, too_many, panicked, Request, by_session, with_admin, with_any_user,
}
use encode_system.Accounts.Login.{handle_login, handle_me}
use encode_system.Accounts.Users.{
  handle_create_user, handle_delete_user, handle_reset_user_password,
}
use encode_system.Accounts.Allowed.{Guarded, with_admin-Allowed}
use encode_system.Accounts.Revoked.{Hashed, reset-revokes}
use encode_system.Accounts.Admins.{Administered}
use encode_system.Accounts.Admins.Trace.{AccountStep, AccountSteps, steps-Administered}
use encode_system.Accounts.Pairing.{Registry, handle_agent_pair}
use encode_system.Accounts.Pairing.OneShot.{Paired, handle_agent_pair-Paired}

abbrev outside : Outside
outside = record {
  now = 1000;
  hash_token = λ s. "t:" ++ˢ s;
  new_token = some "new";
  matches = λ h p. h =s= "h:" ++ˢ p;
  hash_password = λ p. some ("h:" ++ˢ p);
  trim_space = λ s. s;
}

abbrev accounts : Accounts
accounts = record {
  users =
      record { id = 1; username = "root"; role = "admin"; password_hash = "h:secret-secret" }
      ∷ record { id = 2; username = "guest"; role = "viewer"; password_hash = "h:guest-guest" }
      ∷ [];
  next_user_id = 3;
  sessions =
      record { token_hash = "t:abc"; user_id = 1; expires_at = 2000 }
      ∷ record { token_hash = "t:xyz"; user_id = 2; expires_at = 2000 }
      ∷ [];
  tokens =
      record { id = 1; name = "ci"; scope = "read"; token_hash = "t:rrr"; last_used_at = none }
      ∷ record { id = 2; name = "ops"; scope = "admin"; token_hash = "t:ooo"; last_used_at = none }
      ∷ [];
  next_token_id = 3;
  audit = [];
  throttle = record { failures = 0; locked_until = 0 };
}

abbrev root_session : Session
root_session = record {
  token_hash = "t:abc";
  user_id = 1;
  username = "root";
  role = "admin";
  expires_at = 2000;
}

abbrev deletion : Request
deletion = record { method = "DELETE"; bearer = "abc" }

with_admin-Allowed_example :
    Guarded
      (handle_delete_user 2)
      outside
      deletion
      accounts
      (with_admin (handle_delete_user 2) outside deletion accounts)
with_admin-Allowed_example = with_admin-Allowed (handle_delete_user 2) outside deletion accounts

-- a token of the admin scope manages users
token_creates_test :
    (with_admin
      (handle_create_user outside
        (record { username = "new"; password = "long-enough"; role = "admin" }))
      outside
      (record { method = "POST"; bearer = "ooo" })
      accounts).1
    ≡ ok (record { id = 3; username = "new"; role = "admin"; password_hash = "h:long-enough" })
unfolding with_admin handle_create_user select_one
token_creates_test = refl

-- and its request for /api/auth/me reads a session that is not there
token_me_test :
    (with_any_user handle_me outside (record { method = "GET"; bearer = "ooo" }) accounts).1
    ≡ err panicked
unfolding with_any_user handle_me select_one
token_me_test = refl

abbrev try_login : String → Accounts → Accounts
try_login password a = (handle_login outside "root" password a).0

-- the sixth login is not tried, with the right password too
lockout_test :
    (handle_login outside "root" "secret-secret"
      (try_login "a" (try_login "b" (try_login "c" (try_login "d" (try_login "e" accounts)))))).1
    ≡ err too_many
unfolding handle_login select_one
lockout_test = refl

accounts-Hashed : Hashed accounts
accounts-Hashed row m = elim (Memᴰ-uncons m) [
  | inl q ↦ subst (λ z. (z.token_hash =s= "") ≡ false) (sym q) refl
  | inr t ↦ elim (Memᴰ-uncons t) [
    | inl q ↦ subst (λ z. (z.token_hash =s= "") ≡ false) (sym q) refl
    | inr n ↦ elim n [ ]
  ]
]

abbrev reset_guest : Accounts × Result HttpError (Unit {0})
reset_guest = handle_reset_user_password outside 2 "another-long" (by_session root_session) accounts

reset_guest-ok : reset_guest.1 ≡ ok tt
unfolding handle_reset_user_password select_one
reset_guest-ok = refl

root_still_in : session_by_token_hash 1500 "t:abc" reset_guest.0 ≡ some root_session
unfolding handle_reset_user_password session_by_token_hash select_one delete_where update_where
root_still_in = refl

reset-revokes_example : (root_session.user_id == 2) ≡ false
reset-revokes_example =
    reset-revokes outside 2 1500 "another-long" (by_session root_session) accounts "t:abc"
      root_session accounts-Hashed reset_guest-ok root_still_in

accounts-Administered : Administered accounts
unfolding count_where
accounts-Administered = record { admins = omega arith; unique = λ id. ground arith; fresh = refl }

abbrev after_delete : Accounts
after_delete = (handle_delete_user 2 (by_session root_session) accounts).0

steps-Administered_example : Administered after_delete
steps-Administered_example =
    steps-Administered
      (AccountSteps.then (AccountSteps.stay accounts)
        (AccountStep.delete 2 (by_session root_session) accounts))
      accounts-Administered

abbrev registry : Registry
registry = record {
  codes =
      record { id = 1; code_hash = "t:c0de"; name_hint = ""; expires_at = 2000; used_by = 0 } ∷ [];
  next_code_id = 2;
  nodes = [];
  next_node_id = 1;
}

abbrev pair_hash : String → String
pair_hash s = "t:" ++ˢ s

handle_agent_pair-Paired_example :
    Paired pair_hash "c0de" registry
      (handle_agent_pair 1000 pair_hash (λ s. true) (some "tok") "node1" "c0de" registry)
handle_agent_pair-Paired_example =
    handle_agent_pair-Paired 1000 pair_hash "c0de" registry (omega arith) (λ s. true) (some "tok")
      "node1"
