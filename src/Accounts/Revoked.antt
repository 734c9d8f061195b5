-- ===== src/Accounts/Revoked.antt =====
-- Which sessions a password reset leaves (backend/internal/api/handlers_users.go).
use mathlib.Core.List.{Memᴰ}
use mathlib.Core.Path.{subst}
use encode_system.Prelude.{
  ℕ, ◌≡◌, inl, inr, refl, String, false, not, ◌||◌, Option, none, some, arith, ◌==◌, ◌=s=◌,
  Bool-cases,
}
use encode_system.Prelude.Results.{Result, ok, err}
use encode_system.Table.Rows.{Memᴰ-delete_kept}
use encode_system.Table.Counts.{Memᴰ-delete_from}
use encode_system.Accounts.{
  Accounts, User, SessionRow, Session, Outside, other_session, session_by_token_hash, user_by_id,
  update_user_password, delete_user_sessions,
}
use encode_system.Accounts.Access.{HttpError, bad_request, Identity, audited}
use encode_system.Accounts.Login.{length_ok}
use encode_system.Accounts.Users.{handle_reset_user_password, set_password, reset_target}
use encode_system.Accounts.Allowed.{session-parts}

-- no session has an empty token hash
abbrev pub Hashed : Accounts → Type 0
Hashed a = (row : SessionRow) → Memᴰ row a.sessions → (row.token_hash =s= "") ≡ false

-- what is left of the sessions of one user
session-revoked :
    (a b : Accounts) (id now : ℕ) (hash : String) (sess : Session)
    → Hashed a
    → b.sessions ≡ (delete_user_sessions id "" a).sessions
    → session_by_token_hash now hash b ≡ some sess
    → (sess.user_id == id) ≡ false
unfolding delete_user_sessions
session-revoked a b id now hash sess hashed e h =
    let (row, u, m, hh, he, mu, hu, role, same) = session-parts now hash b sess h in
    let m' = subst (Memᴰ row) e m in
    let kept = Memᴰ-delete_kept (other_session id "") a.sessions m' in
    let named = hashed row (Memᴰ-delete_from (other_session id "") a.sessions m') in
    ground (arith, kept, named, same)

set_password-revokes :
    (id now : ℕ) (who : Identity) (new : Option String) (a : Accounts) (hash : String)
    (sess : Session)
    → Hashed a
    → (set_password id who new a).1 ≡ ok tt
    → session_by_token_hash now hash (set_password id who new a).0 ≡ some sess
    → (sess.user_id == id) ≡ false
unfolding audited update_user_password
set_password-revokes id now who none a hash sess hashed done h = cc
set_password-revokes id now who (some new) a hash sess hashed done h =
    session-revoked (update_user_password id new a) _ id now hash sess hashed refl h

reset_target-revokes :
    (id now : ℕ) (who : Identity) (u : Option User) (new : Option String) (a : Accounts)
    (hash : String) (sess : Session)
    → Hashed a
    → (reset_target id who u new a).1 ≡ ok tt
    → session_by_token_hash now hash (reset_target id who u new a).0 ≡ some sess
    → (sess.user_id == id) ≡ false
reset_target-revokes id now who none new a hash sess hashed done h = cc
reset_target-revokes id now who (some u) new a hash sess hashed done h =
    set_password-revokes id now who new a hash sess hashed done h

-- After a password reset that succeeds, no credential is a session of that user, whenever it is
-- presented, given that no stored session has an empty token hash.
pub reset-revokes :
    (o : Outside) (id now : ℕ) (password : String) (who : Identity) (a : Accounts) (hash : String)
    (sess : Session)
    → Hashed a
    → (handle_reset_user_password o id password who a).1 ≡ ok tt
    → session_by_token_hash now hash (handle_reset_user_password o id password who a).0 ≡ some sess
    → (sess.user_id == id) ≡ false
unfolding handle_reset_user_password
reset-revokes o id now password who a hash sess hashed done h =
    elim (Bool-cases (id == 0 || not (length_ok password))) [
      | inl q ↦
          let refused : ◌≡◌ {A = Result HttpError (Unit {0})} (err bad_request) (ok tt) =
            rw q at done in
          absurd (cc refused)
      | inr q ↦
          reset_target-revokes id now who (user_by_id id a) (o.hash_password password) a hash sess
            hashed (rw q at done) (rw q at h)
    ]
