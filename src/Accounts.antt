-- ===== src/Accounts.antt =====
-- The tables of the management accounts (users, sessions, API tokens, pairing codes, audit events) and
-- the store methods on them (backend/internal/store/store_ext.go), with what a request sees of the
-- outside. SHA-256, bcrypt and the random source are parameters.
pub mod Access
pub mod Login
pub mod Users
pub mod Tokens
pub mod Pairing
pub mod Allowed
pub mod Revoked
pub mod Admins
mod Examples
use encode_system.Prelude.{
  ℕ, ◌+◌, String, List, [], ◌∷◌, ◌++◌, Bool, true, false, not, ◌&&◌, ◌||◌, Option, none, some, ◌==◌,
  ltb, leb, ◌=s=◌, if◌then◌else◌,
}
use encode_system.Prelude.Results.{Result, ok, err, ◌>>=◌, ◌>>◌, guard, or_err}
use encode_system.Table.{select_one, select_where, count_where, update_where, delete_where}

pub record User : Type 0 where
  pub id : ℕ
  pub username : String
  pub role : String
  pub password_hash : String

-- a row of the sessions table
pub record SessionRow : Type 0 where
  pub token_hash : String
  pub user_id : ℕ
  pub expires_at : ℕ

-- model.Session: the row joined with its user
pub record Session : Type 0 where
  pub token_hash : String
  pub user_id : ℕ
  pub username : String
  pub role : String
  pub expires_at : ℕ

pub record ApiToken : Type 0 where
  pub id : ℕ
  pub name : String
  pub scope : String
  pub token_hash : String
  pub last_used_at : Option ℕ

-- the object of an audit event, "kind:id" or "user:name"
pub data AuditObject : Type 0 where
  on_user on_token : ℕ → AuditObject
  user_named : String → AuditObject

pub record AuditEvent : Type 0 where
  pub actor : String
  pub action : String
  pub object : AuditObject

-- loginThrottle
pub record Throttle : Type 0 where
  pub failures : ℕ
  pub locked_until : ℕ

pub record Accounts : Type 0 where
  pub users : List User
  -- AUTOINCREMENT
  pub next_user_id : ℕ
  pub sessions : List SessionRow
  pub tokens : List ApiToken
  pub next_token_id : ℕ
  pub audit : List AuditEvent
  pub throttle : Throttle

-- What a request reads besides the tables. `matches hash password` is CompareHashAndPassword,
-- `hash_password` GenerateFromPassword and `new_token` NewToken, `none` an error.
pub record Outside : Type 0 where
  pub now : ℕ
  pub hash_token : String → String
  pub new_token : Option String
  pub matches : String → String → Bool
  pub hash_password : String → Option String
  pub trim_space : String → String

abbrev pub role_admin : String
role_admin = "admin"

abbrev pub role_viewer : String
role_viewer = "viewer"

unfoldable pub user_by_username : String → Accounts → Option User
user_by_username name a = select_one (λ u. u.username =s= name) a.users

unfoldable pub user_by_id : ℕ → Accounts → Option User
user_by_id id a = select_one (λ u. u.id == id) a.users

abbrev pub has_role : String → User → Bool
has_role role u = u.role =s= role

unfoldable pub count_users_by_role : String → Accounts → ℕ
count_users_by_role role a = count_where (has_role role) a.users

abbrev pub new_user : ℕ → String → String → String → User
new_user id name hash role = record { id = id; username = name; role = role; password_hash = hash }

abbrev pub insert_user :
    String → String → String → Accounts → Option User → Option (Accounts × User)
insert_user name hash role a (some u) = none
insert_user name hash role a none =
    let u = new_user a.next_user_id name hash role in
    some (record a { users = a.users ++ u ∷ []; next_user_id = a.next_user_id + 1 }, u)

-- INSERT INTO users; `none` is the violated unique constraint
unfoldable pub create_user : String → String → String → Accounts → Option (Accounts × User)
unfolding user_by_username
create_user name hash role a = insert_user name hash role a (user_by_username name a)

unfoldable pub update_user_password : ℕ → String → Accounts → Accounts
update_user_password id hash a = record a {
  users = update_where (λ u. u.id == id) (λ u. record u { password_hash = hash }) a.users;
}

-- DELETE FROM users, with the sessions of the row (ON DELETE CASCADE)
unfoldable pub delete_user : ℕ → Accounts → Accounts
delete_user id a = record a {
  users = delete_where (λ u. u.id == id) a.users;
  sessions = delete_where (λ r. r.user_id == id) a.sessions;
}

-- INSERT INTO sessions; `none` is a token hash that is there already
unfoldable pub create_session : String → ℕ → ℕ → Accounts → Option Accounts
create_session hash user_id expires a =
    if ltb 0 (count_where (λ r. r.token_hash =s= hash) a.sessions)
    then none
    else some (record a {
      sessions =
          a.sessions ++ record { token_hash = hash; user_id = user_id; expires_at = expires } ∷ [];
    })

abbrev pub joined : SessionRow → Option User → Option Session
joined r none = none
joined r (some u) = some (record {
  token_hash = r.token_hash;
  user_id = r.user_id;
  username = u.username;
  role = u.role;
  expires_at = r.expires_at;
})

abbrev pub with_user : Accounts → Option SessionRow → Option Session
with_user a none = none
with_user a (some r) = joined r (user_by_id r.user_id a)

-- s.token_hash = ? AND s.expires_at > datetime('now')
abbrev pub open_with_hash : ℕ → String → SessionRow → Bool
open_with_hash now hash r = r.token_hash =s= hash && ltb now r.expires_at

unfoldable pub session_by_token_hash : ℕ → String → Accounts → Option Session
unfolding user_by_id
session_by_token_hash now hash a = with_user a (select_one (open_with_hash now hash) a.sessions)

unfoldable pub slide_session : String → ℕ → Accounts → Accounts
slide_session hash expires a = record a {
  sessions =
      update_where (λ r. r.token_hash =s= hash) (λ r. record r { expires_at = expires }) a.sessions;
}

unfoldable pub delete_session : String → Accounts → Accounts
delete_session hash a = record a { sessions = delete_where (λ r. r.token_hash =s= hash) a.sessions }

unfoldable pub prune_sessions : ℕ → Accounts → Accounts
prune_sessions now a = record a { sessions = delete_where (λ r. leb r.expires_at now) a.sessions }

-- user_id = ? AND token_hash <> ?
abbrev pub other_session : ℕ → String → SessionRow → Bool
other_session id keep r = r.user_id == id && not (r.token_hash =s= keep)

unfoldable pub delete_user_sessions : ℕ → String → Accounts → Accounts
delete_user_sessions id keep a = record a {
  sessions = delete_where (other_session id keep) a.sessions;
}

-- `name` and `token_hash` are unique
unfoldable pub create_api_token : String → String → String → Accounts → Option (Accounts × ℕ)
create_api_token name scope hash a =
    if ltb 0 (count_where (λ t. t.name =s= name || t.token_hash =s= hash) a.tokens)
    then none
    else some (
      record a {
        tokens =
            a.tokens
            ++ record {
              id = a.next_token_id;
              name = name;
              scope = scope;
              token_hash = hash;
              last_used_at = none;
            }
              ∷ [];
        next_token_id = a.next_token_id + 1;
      },
      a.next_token_id,
    )

unfoldable pub api_token_by_hash : String → Accounts → Option ApiToken
api_token_by_hash hash a = select_one (λ t. t.token_hash =s= hash) a.tokens

unfoldable pub delete_api_token : ℕ → Accounts → Accounts
delete_api_token id a = record a { tokens = delete_where (λ t. t.id == id) a.tokens }

unfoldable pub touch_api_token : ℕ → ℕ → Accounts → Accounts
touch_api_token now id a = record a {
  tokens = update_where (λ t. t.id == id) (λ t. record t { last_used_at = some now }) a.tokens;
}

unfoldable pub append_audit : String → String → AuditObject → Accounts → Accounts
append_audit actor action object a = record a {
  audit = a.audit ++ record { actor = actor; action = action; object = object } ∷ [];
}
