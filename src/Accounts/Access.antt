-- ===== src/Accounts/Access.antt =====
-- Who may call a management handler: bearer credentials, sessions and API tokens
-- (backend/internal/api/tokens.go, auth_handlers.go, handlers_users.go, audit.go).
use encode_system.Prelude.{
  ℕ, ◌+◌, String, Bool, not, ◌&&◌, ◌||◌, Option, none, some, ◌=s=◌, if◌then◌else◌,
}
use Prim.Native.String.{◌++◌ as ◌++ˢ◌}
use encode_system.Prelude.Results.{Result, err}
use encode_system.Accounts.{
  Accounts, Session, ApiToken, AuditObject, Outside, role_admin, session_by_token_hash,
  slide_session, api_token_by_hash, touch_api_token, append_audit,
}

-- `panicked` is a nil pointer that the handler reads: the server drops the connection.
pub data HttpError : Type 0 where
  bad_request unauthorized forbidden not_found conflict too_many internal panicked : HttpError

pub record Request : Type 0 where
  pub method : String
  -- the credential that bearer finds, empty if there is none
  pub bearer : String

-- What the middleware puts into the request's context.
pub data Identity : Type 0 where
  by_session : Session → Identity
  by_token : ApiToken → Identity

abbrev pub Handler : Type 0 → Type 0
Handler B = Identity → Accounts → Accounts × Result HttpError B

abbrev pub session_ttl : ℕ
session_ttl = 86400

-- a session slides; a token is looked up after it
abbrev pub resolved : Outside → String → Accounts → Option Session → Accounts × Option Identity
resolved o hash a (some sess) = (slide_session hash (o.now + session_ttl) a, some (by_session sess))
resolved o hash a none =
    (a, elim (api_token_by_hash hash a) [ none ↦ none | some t ↦ some (by_token t) ])

unfoldable pub authenticate_bearer : Outside → Request → Accounts → Accounts × Option Identity
unfolding session_by_token_hash slide_session api_token_by_hash
authenticate_bearer o r a =
    if r.bearer =s= ""
    then (a, none)
    else resolved o (o.hash_token r.bearer) a
        (session_by_token_hash o.now (o.hash_token r.bearer) a)

abbrev pub is_safe : String → Bool
is_safe method = method =s= "GET" || method =s= "HEAD"

module _ {B : Type 0} (h : Handler B) (o : Outside) (r : Request) where
  -- the part that both middlewares share: the scope of a token
  unfoldable pub call_with_token : ApiToken → Accounts → Accounts × Result HttpError B
  unfolding touch_api_token
  call_with_token t a =
      if t.scope =s= "read" && not (is_safe r.method)
      then (a, err forbidden)
      else h (by_token t) (touch_api_token o.now t.id a)

  abbrev pub call_as_admin : Accounts × Option Identity → Accounts × Result HttpError B
  call_as_admin (a, none) = (a, err unauthorized)
  call_as_admin (a, some (by_token t)) = call_with_token t a
  call_as_admin (a, some (by_session sess)) =
      if sess.role =s= role_admin then h (by_session sess) a else (a, err forbidden)

  abbrev pub call_as_any : Accounts × Option Identity → Accounts × Result HttpError B
  call_as_any (a, none) = (a, err unauthorized)
  call_as_any (a, some (by_token t)) = call_with_token t a
  call_as_any (a, some (by_session sess)) = h (by_session sess) a

  unfoldable pub with_admin : Accounts → Accounts × Result HttpError B
  unfolding authenticate_bearer call_with_token
  with_admin a = call_as_admin (authenticate_bearer o r a)

  unfoldable pub with_any_user : Accounts → Accounts × Result HttpError B
  unfolding authenticate_bearer call_with_token
  with_any_user a = call_as_any (authenticate_bearer o r a)

unfoldable pub actor_of : Identity → String
actor_of (by_session sess) = if sess.username =s= "" then "unknown" else sess.username
actor_of (by_token t) = "api-token:" ++ˢ t.name

-- Server.audit
unfoldable pub audited : Identity → String → AuditObject → Accounts → Accounts
unfolding actor_of append_audit
audited who action object a = append_audit (actor_of who) action object a
