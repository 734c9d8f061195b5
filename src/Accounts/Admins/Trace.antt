-- ===== src/Accounts/Admins/Trace.antt =====
-- The account operations as steps (backend/internal/api: auth_handlers.go, handlers_users.go,
-- tokens.go), and what every sequence of them keeps.
use encode_system.Prelude.{ℕ, String, ◌=s=◌, if_both}
use encode_system.Accounts.{Accounts, Outside, delete_session, session_by_token_hash}
use encode_system.Accounts.Access.{Identity, Request, authenticate_bearer}
use encode_system.Accounts.Login.{handle_login, handle_logout, handle_change_password}
use encode_system.Accounts.Users.{
  CreateUserRequest, handle_create_user, handle_delete_user, handle_reset_user_password,
}
use encode_system.Accounts.Tokens.{handle_create_api_token, handle_delete_api_token}
use encode_system.Accounts.Admins.{Administered}
use encode_system.Accounts.Admins.Kept.{
  After, resolved-Administered, login-Administered, change_password-Administered,
  create-Administered, delete-Administered, reset-Administered, create_token-Administered,
  delete_token-Administered,
}

-- One request's effect on the accounts; `who` is any caller that the middleware let through.
pub data AccountStep : Accounts → Accounts → Type 0 where
  authenticate :
      (o : Outside) (r : Request) (a : Accounts) → AccountStep a (authenticate_bearer o r a).0
  login :
      (o : Outside) (username password : String) (a : Accounts)
      → AccountStep a (handle_login o username password a).0
  logout : (o : Outside) (r : Request) (a : Accounts) → AccountStep a (handle_logout o r a)
  change_password :
      (o : Outside) (r : Request) (current new : String) (who : Identity) (a : Accounts)
      → AccountStep a (handle_change_password o r current new who a).0
  create :
      (o : Outside) (req : CreateUserRequest) (who : Identity) (a : Accounts)
      → AccountStep a (handle_create_user o req who a).0
  delete : (id : ℕ) (who : Identity) (a : Accounts) → AccountStep a (handle_delete_user id who a).0
  reset_password :
      (o : Outside) (id : ℕ) (password : String) (who : Identity) (a : Accounts)
      → AccountStep a (handle_reset_user_password o id password who a).0
  create_token :
      (o : Outside) (name scope : String) (who : Identity) (a : Accounts)
      → AccountStep a (handle_create_api_token o name scope who a).0
  delete_token :
      (id : ℕ) (who : Identity) (a : Accounts) → AccountStep a (handle_delete_api_token id who a).0

pub data AccountSteps : Accounts → Accounts → Type 0 where
  stay : (a : Accounts) → AccountSteps a a
  then : {a b c : Accounts} → AccountSteps a b → AccountStep b c → AccountSteps a c

step-Administered : {a b : Accounts} → AccountStep a b → Administered a → Administered b
unfolding authenticate_bearer handle_logout delete_session
step-Administered (AccountStep.authenticate o r a) h = if_both After (r.bearer =s= "") h (
    resolved-Administered o (o.hash_token r.bearer) a
      (session_by_token_hash o.now (o.hash_token r.bearer) a) h)
step-Administered (AccountStep.login o username password a) h =
    login-Administered o username password a h
step-Administered (AccountStep.logout o r a) h = if_both (λ b. Administered b) (r.bearer =s= "") h h
step-Administered (AccountStep.change_password o r current new who a) h =
    change_password-Administered o r current new who a h
step-Administered (AccountStep.create o req who a) h = create-Administered o req who a h
step-Administered (AccountStep.delete id who a) h = delete-Administered id who a h
step-Administered (AccountStep.reset_password o id password who a) h =
    reset-Administered o id password who a h
step-Administered (AccountStep.create_token o name scope who a) h =
    create_token-Administered o name scope who a h
step-Administered (AccountStep.delete_token id who a) h = delete_token-Administered id who a h

-- In every sequence of account operations, one after another, that begins with an admin, with unique
-- ids and with fresh new ids, the same holds at its end: the last admin is never deleted.
pub steps-Administered : {a b : Accounts} → AccountSteps a b → Administered a → Administered b
steps-Administered (AccountSteps.stay a) h = h
steps-Administered (AccountSteps.then steps step) h =
    step-Administered step (steps-Administered steps h)
