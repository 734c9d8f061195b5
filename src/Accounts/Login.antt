-- ===== src/Accounts/Login.antt =====
-- Login, logout and the change of one's password (backend/internal/api/auth_handlers.go).
use Prim.Native.String.{len}
use encode_system.Prelude.{
  ℕ, ◌+◌, String, Bool, not, ◌&&◌, ◌||◌, Option, none, some, ltb, leb, ◌=s=◌, if◌then◌else◌,
}
use encode_system.Prelude.Results.{Result, ok, err}
use encode_system.Accounts.{
  Accounts, User, Session, Throttle, Outside, user_by_username, create_session, prune_sessions,
  delete_session, delete_user_sessions, update_user_password,
}
use encode_system.Accounts.{AuditObject}
use encode_system.Accounts.Access.{
  HttpError, bad_request, unauthorized, too_many, internal, panicked, Request, Identity, by_session,
  by_token, session_ttl, audited,
}

abbrev pub max_failed_logins : ℕ
max_failed_logins = 5

abbrev pub lockout : ℕ
lockout = 30

unfoldable pub allow : ℕ → Throttle → Bool
allow now t = not (ltb now t.locked_until)

unfoldable pub fail : ℕ → Throttle → Throttle
fail now t =
    if leb max_failed_logins (t.failures + 1)
    then record { failures = 0; locked_until = now + lockout }
    else record t { failures = t.failures + 1 }

unfoldable pub reset : Throttle → Throttle
reset t = record t { failures = 0 }

abbrev pub with_throttle : (Throttle → Throttle) → Accounts → Accounts
with_throttle f a = record a { throttle = f a.throttle }

pub record LoginReply : Type 0 where
  pub token : String
  pub username : String
  pub expires_at : ℕ

abbrev pub opened :
    Outside → User → String → Accounts → Option Accounts → Accounts × Result HttpError LoginReply
opened o u tok a none = (a, err internal)
opened o u tok a (some b) = (
  prune_sessions o.now b,
  ok (record { token = tok; username = u.username; expires_at = o.now + session_ttl }),
)

-- a login with the right password
abbrev pub open_session :
    Outside → User → Option String → Accounts → Accounts × Result HttpError LoginReply
open_session o u none a = (a, err internal)
open_session o u (some tok) a =
    opened o u tok a (create_session (o.hash_token tok) u.id (o.now + session_ttl) a)

abbrev pub checked_login :
    Outside → Option User → String → Accounts → Accounts × Result HttpError LoginReply
checked_login o none password a = (with_throttle (fail o.now) a, err unauthorized)
checked_login o (some u) password a =
    if o.matches u.password_hash password
    then open_session o u o.new_token (with_throttle reset a)
    else (with_throttle (fail o.now) a, err unauthorized)

unfoldable pub handle_login :
    Outside → String → String → Accounts → Accounts × Result HttpError LoginReply
unfolding allow fail reset user_by_username create_session prune_sessions
handle_login o username password a =
    if username =s= ""
    then (a, err bad_request)
    else if not (allow o.now a.throttle)
    then (a, err too_many)
    else checked_login o (user_by_username username a) password a

-- with no credential nothing is revoked
unfoldable pub handle_logout : Outside → Request → Accounts → Accounts
unfolding delete_session
handle_logout o r a = if r.bearer =s= "" then a else delete_session (o.hash_token r.bearer) a

-- handleMe reads the session of the context, which a token's request does not have.
unfoldable pub handle_me : Identity → Accounts → Accounts × Result HttpError Session
handle_me (by_session sess) a = (a, ok sess)
handle_me (by_token t) a = (a, err panicked)

abbrev pub min_password_len : ℕ
min_password_len = 10

abbrev pub max_password_bytes : ℕ
max_password_bytes = 72

-- `len` counts bytes, as Go's does
unfoldable pub length_ok : String → Bool
length_ok password = leb min_password_len (len password) && leb (len password) max_password_bytes

-- the revoked sessions, the caller's kept
abbrev pub revoke_others : Outside → Request → ℕ → Accounts → Accounts
revoke_others o r id a =
    if r.bearer =s= "" then a else delete_user_sessions id (o.hash_token r.bearer) a

abbrev pub store_password :
    Outside
    → Request
    → Identity
    → User
    → Option String
    → Accounts
    → Accounts × Result HttpError (Unit {0})
store_password o r who u none a = (a, err internal)
store_password o r who u (some hash) a = (
  audited who "auth.password_change" (AuditObject.user_named u.username)
      (revoke_others o r u.id (update_user_password u.id hash a)),
  ok tt,
)

abbrev pub checked_change :
    Outside
    → Request
    → Identity
    → Option User
    → String
    → String
    → Accounts
    → Accounts × Result HttpError (Unit {0})
checked_change o r who none current new a = (a, err internal)
checked_change o r who (some u) current new a =
    if o.matches u.password_hash current
    then store_password o r who u (o.hash_password new) a
    else (with_throttle (fail o.now) a, err unauthorized)

-- the checks of the request's body
unfoldable pub is_change_ok : String → String → Bool
unfolding length_ok
is_change_ok current new =
    not (current =s= "" || new =s= "") && length_ok new && not (new =s= current)

-- the user is the session's: a token's request has none
abbrev pub change_as :
    Outside
    → Request
    → Identity
    → String
    → String
    → Accounts
    → Accounts × Result HttpError (Unit {0})
change_as o r (by_token t) current new a = (a, err panicked)
change_as o r (by_session sess) current new a =
    checked_change o r (by_session sess) (user_by_username sess.username a) current new a

unfoldable pub handle_change_password :
    Outside
    → Request
    → String
    → String
    → Identity
    → Accounts
    → Accounts × Result HttpError (Unit {0})
unfolding allow fail is_change_ok user_by_username update_user_password delete_user_sessions audited
handle_change_password o r current new who a =
    if not (allow o.now a.throttle)
    then (a, err too_many)
    else if not (is_change_ok current new)
    then (a, err bad_request)
    else change_as o r who current new a
