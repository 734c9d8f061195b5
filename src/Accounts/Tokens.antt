-- ===== src/Accounts/Tokens.antt =====
-- The handlers of the API tokens (backend/internal/api/tokens.go).
use Prim.Native.String.{len}
use encode_system.Prelude.{
  ℕ, String, List, Bool, not, ◌&&◌, ◌||◌, Option, none, some, ◌==◌, leb, ◌=s=◌, if◌then◌else◌,
}
use encode_system.Prelude.Results.{Result, ok, err}
use encode_system.Table.{select_one}
use encode_system.Accounts.{
  Accounts, ApiToken, AuditObject, Outside, create_api_token, delete_api_token,
}
use encode_system.Accounts.Access.{
  HttpError, bad_request, forbidden, not_found, conflict, internal, Identity, by_session, by_token,
  audited,
}

-- `if req.Scope == "" { req.Scope = TokenScopeRead }`
abbrev pub scope_or_read : String → String
scope_or_read scope = if scope =s= "" then "read" else scope

pub record TokenReply : Type 0 where
  pub id : ℕ
  pub name : String
  pub scope : String
  pub token : String

abbrev pub minted :
    Identity
    → String
    → String
    → String
    → Option (Accounts × ℕ)
    → Accounts
    → Accounts × Result HttpError TokenReply
minted who name scope tok none a = (a, err conflict)
minted who name scope tok (some (b, id)) a = (
  audited who "token.create" (AuditObject.on_token id) b,
  ok (record { id = id; name = name; scope = scope; token = tok }),
)

abbrev pub mint :
    Outside
    → Identity
    → String
    → String
    → Option String
    → Accounts
    → Accounts × Result HttpError TokenReply
mint o who name scope none a = (a, err internal)
mint o who name scope (some tok) a =
    minted who name scope tok (create_api_token name scope (o.hash_token tok) a) a

unfoldable pub is_token_request_ok : String → String → Bool
is_token_request_ok name scope =
    not (name =s= "") && (scope =s= "admin" || scope =s= "read") && leb (len name) 64

unfoldable pub handle_create_api_token :
    Outside → String → String → Identity → Accounts → Accounts × Result HttpError TokenReply
unfolding is_token_request_ok create_api_token audited
handle_create_api_token o name scope (by_token t) a = (a, err forbidden)
handle_create_api_token o name scope (by_session sess) a =
    if not (is_token_request_ok name (scope_or_read scope))
    then (a, err bad_request)
    else mint o (by_session sess) name (scope_or_read scope) o.new_token a

unfoldable pub handle_list_api_tokens :
    Identity → Accounts → Accounts × Result HttpError (List ApiToken)
handle_list_api_tokens (by_token t) a = (a, err forbidden)
handle_list_api_tokens (by_session sess) a = (a, ok a.tokens)

abbrev pub revoke_found :
    ℕ → Identity → Option ApiToken → Accounts → Accounts × Result HttpError (Unit {0})
revoke_found id who none a = (a, err not_found)
revoke_found id who (some t) a =
    (audited who "token.delete" (AuditObject.on_token id) (delete_api_token id a), ok tt)

unfoldable pub handle_delete_api_token :
    ℕ → Identity → Accounts → Accounts × Result HttpError (Unit {0})
unfolding delete_api_token audited
handle_delete_api_token id (by_token t) a = (a, err forbidden)
handle_delete_api_token id (by_session sess) a =
    revoke_found id (by_session sess) (select_one (λ t. t.id == id) a.tokens) a
