-- ===== src/Accounts/Users.antt =====
-- The administration of accounts (backend/internal/api/handlers_users.go) and the account that the
-- server seeds at its start (seedAdminUser of server.go).
use encode_system.Prelude.{
  ℕ, String, Bool, false, not, ◌&&◌, ◌||◌, Option, none, some, ◌==◌, leb, ◌=s=◌, if◌then◌else◌,
}
use encode_system.Prelude.Results.{Result, ok, err}
use encode_system.Accounts.{
  Accounts, User, AuditObject, Outside, role_admin, role_viewer, user_by_username, user_by_id,
  count_users_by_role, create_user, update_user_password, delete_user, delete_user_sessions,
}
use encode_system.Accounts.Access.{
  HttpError, bad_request, not_found, conflict, internal, Identity, by_session, by_token, audited,
}
use encode_system.Accounts.Login.{length_ok}

pub record CreateUserRequest : Type 0 where
  pub username : String
  pub password : String
  pub role : String

abbrev pub role_or_viewer : String → String
role_or_viewer role = if role =s= "" then role_viewer else role

abbrev pub inserted :
    Identity → Option (Accounts × User) → Accounts → Accounts × Result HttpError User
inserted who none a = (a, err conflict)
inserted who (some (b, u)) a = (audited who "user.create" (AuditObject.on_user u.id) b, ok u)

abbrev pub insert_hashed :
    Identity → String → String → Option String → Accounts → Accounts × Result HttpError User
insert_hashed who name role none a = (a, err internal)
insert_hashed who name role (some hash) a = inserted who (create_user name hash role a) a

abbrev pub insert_unless :
    Identity
    → String
    → String
    → Option String
    → Accounts
    → Option User
    → Accounts × Result HttpError User
insert_unless who name role hash a (some u) = (a, err conflict)
insert_unless who name role hash a none = insert_hashed who name role hash a

unfoldable pub is_creatable : String → String → String → Bool
unfolding length_ok
is_creatable name role password =
    not (name =s= "") && (role =s= role_admin || role =s= role_viewer) && length_ok password

unfoldable pub handle_create_user :
    Outside → CreateUserRequest → Identity → Accounts → Accounts × Result HttpError User
unfolding is_creatable user_by_username create_user audited
handle_create_user o req who a =
    let name = o.trim_space req.username in
    let role = role_or_viewer req.role in
    if not (is_creatable name role req.password)
    then (a, err bad_request)
    else insert_unless who name role (o.hash_password req.password) a (user_by_username name a)

-- `sess != nil && sess.UserID == id`
abbrev pub is_self : ℕ → Identity → Bool
is_self id (by_session sess) = sess.user_id == id
is_self id (by_token t) = false

-- `target.Role == RoleAdmin` and the count is at most 1
unfoldable pub is_last_admin : User → Accounts → Bool
unfolding count_users_by_role
is_last_admin u a = u.role =s= role_admin && leb (count_users_by_role role_admin a) 1

abbrev pub delete_target :
    ℕ → Identity → Option User → Accounts → Accounts × Result HttpError (Unit {0})
delete_target id who none a = (a, err not_found)
delete_target id who (some u) a =
    if is_self id who
    then (a, err conflict)
    else if is_last_admin u a
    then (a, err conflict)
    else (audited who "user.delete" (AuditObject.on_user id) (delete_user id a), ok tt)

unfoldable pub handle_delete_user : ℕ → Identity → Accounts → Accounts × Result HttpError (Unit {0})
unfolding user_by_id is_last_admin delete_user audited
handle_delete_user id who a =
    if id == 0 then (a, err bad_request) else delete_target id who (user_by_id id a) a

abbrev pub set_password :
    ℕ → Identity → Option String → Accounts → Accounts × Result HttpError (Unit {0})
set_password id who none a = (a, err internal)
set_password id who (some hash) a = (
  audited who "user.password_reset" (AuditObject.on_user id)
      (delete_user_sessions id "" (update_user_password id hash a)),
  ok tt,
)

abbrev pub reset_target :
    ℕ → Identity → Option User → Option String → Accounts → Accounts × Result HttpError (Unit {0})
reset_target id who none hash a = (a, err not_found)
reset_target id who (some u) hash a = set_password id who hash a

unfoldable pub handle_reset_user_password :
    Outside → ℕ → String → Identity → Accounts → Accounts × Result HttpError (Unit {0})
unfolding length_ok user_by_id update_user_password delete_user_sessions audited
handle_reset_user_password o id password who a =
    if id == 0 || not (length_ok password)
    then (a, err bad_request)
    else reset_target id who (user_by_id id a) (o.hash_password password) a

-- What the configuration says of the seeded account.
pub record AdminConfig : Type 0 where
  pub username : String
  pub password : String
  pub force : Bool

abbrev pub seeded : String → Option String → Accounts → Option Accounts
seeded name none a = none
seeded name (some hash) a = elim (create_user name hash role_admin a) [
  | none ↦ none
  | some (b, u) ↦ some b
]

abbrev pub forced : ℕ → Option String → Accounts → Option Accounts
forced id none a = none
forced id (some hash) a = some (delete_user_sessions id "" (update_user_password id hash a))

abbrev pub seed_existing : Outside → AdminConfig → Option User → String → Accounts → Option Accounts
seed_existing o cfg none name a =
    if cfg.password =s= "" then none else seeded name (o.hash_password cfg.password) a
seed_existing o cfg (some u) name a =
    if cfg.force && not (cfg.password =s= "")
    then forced u.id (o.hash_password cfg.password) a
    else some a

-- seedAdminUser: `none` is an error, which stops the server
unfoldable pub seed_admin_user : Outside → AdminConfig → Accounts → Option Accounts
unfolding user_by_username create_user update_user_password delete_user_sessions
seed_admin_user o cfg a =
    let name = if cfg.username =s= "" then "admin" else cfg.username in
    seed_existing o cfg (user_by_username name a) name a
