-- ===== src/Accounts/Admins/Kept.antt =====
-- What each account operation keeps of the administrators (backend/internal/api: auth_handlers.go,
-- handlers_users.go, tokens.go).
use encode_system.Prelude.{
  ℕ, ◌≡◌, inl, inr, refl, String, not, ◌||◌, Option, none, some, ◌==◌, ltb, ◌=s=◌, Bool-cases,
  if_both,
}
use encode_system.Table.{select_one, count_where}
use encode_system.Accounts.{
  Accounts, User, Session, ApiToken, Outside, user_by_username, user_by_id, insert_user,
  create_user, update_user_password, delete_user, delete_user_sessions, create_session,
  prune_sessions, slide_session, create_api_token, delete_api_token,
}
use encode_system.Accounts.Access.{Identity, by_session, by_token, Request, resolved, audited}
use encode_system.Accounts.Login.{
  allow, fail, reset, with_throttle, opened, open_session, checked_login, handle_login, length_ok,
  is_change_ok, store_password, checked_change, change_as, handle_change_password,
}
use encode_system.Accounts.Users.{
  CreateUserRequest, role_or_viewer, is_creatable, handle_create_user, handle_delete_user,
  handle_reset_user_password, is_last_admin, delete_target, is_self, reset_target, inserted,
  insert_unless,
}
use encode_system.Accounts.Tokens.{
  minted, mint, is_token_request_ok, scope_or_read, revoke_found, handle_create_api_token,
  handle_delete_api_token,
}
use encode_system.Accounts.Admins.{
  Administered, HasAdmin-append, HasAdmin-password, HasAdmin-delete,
}

abbrev pub After : {B : Type 0} → Accounts × B → Type 0
After res = Administered res.0

pub resolved-Administered :
    (o : Outside) (hash : String) (a : Accounts) (found : Option Session)
    → Administered a
    → Administered (resolved o hash a found).0
unfolding slide_session
resolved-Administered o hash a none h = h
resolved-Administered o hash a (some sess) h = h

open_session-Administered :
    (o : Outside) (u : User) (tok : Option String) (a : Accounts)
    → Administered a
    → Administered (open_session o u tok a).0
unfolding create_session prune_sessions
open_session-Administered o u none a h = h
open_session-Administered o u (some tok) a h =
    if_both (λ found. Administered (opened o u tok a found).0)
      (ltb 0 (count_where (λ r. r.token_hash =s= o.hash_token tok) a.sessions)) h h

checked_login-Administered :
    (o : Outside) (found : Option User) (password : String) (a : Accounts)
    → Administered a
    → Administered (checked_login o found password a).0
unfolding fail reset
checked_login-Administered o none password a h = h
checked_login-Administered o (some u) password a h =
    if_both After (o.matches u.password_hash password)
      (open_session-Administered o u o.new_token (with_throttle reset a) h) h

pub login-Administered :
    (o : Outside) (username password : String) (a : Accounts)
    → Administered a
    → Administered (handle_login o username password a).0
unfolding handle_login
login-Administered o username password a h = if_both After (username =s= "") h (
    if_both After (not (allow o.now a.throttle)) h
      (checked_login-Administered o (user_by_username username a) password a h))

store_password-Administered :
    (o : Outside) (r : Request) (who : Identity) (u : User) (new : Option String) (a : Accounts)
    → Administered a
    → Administered (store_password o r who u new a).0
unfolding update_user_password delete_user_sessions audited
store_password-Administered o r who u none a h = h
store_password-Administered o r who u (some hash) a h =
    let k = HasAdmin-password a.users a.next_user_id u.id hash h in
    if_both (λ b. Administered b) (r.bearer =s= "") k k

checked_change-Administered :
    (o : Outside) (r : Request) (who : Identity) (found : Option User) (current new : String)
    (a : Accounts)
    → Administered a
    → Administered (checked_change o r who found current new a).0
unfolding fail
checked_change-Administered o r who none current new a h = h
checked_change-Administered o r who (some u) current new a h =
    if_both After (o.matches u.password_hash current)
      (store_password-Administered o r who u (o.hash_password new) a h) h

change_as-Administered :
    (o : Outside) (r : Request) (who : Identity) (current new : String) (a : Accounts)
    → Administered a
    → Administered (change_as o r who current new a).0
change_as-Administered o r (by_token t) current new a h = h
change_as-Administered o r (by_session sess) current new a h =
    checked_change-Administered o r (by_session sess) (user_by_username sess.username a) current new
      a h

pub change_password-Administered :
    (o : Outside) (r : Request) (current new : String) (who : Identity) (a : Accounts)
    → Administered a
    → Administered (handle_change_password o r current new who a).0
unfolding handle_change_password
change_password-Administered o r current new who a h =
    if_both After (not (allow o.now a.throttle)) h (
      if_both After (not (is_change_ok current new)) h
        (change_as-Administered o r who current new a h))

inserted-Administered :
    (who : Identity) (name hash role : String) (a : Accounts) (found : Option User)
    → Administered a
    → Administered (inserted who (insert_user name hash role a found) a).0
unfolding audited
inserted-Administered who name hash role a (some u) h = h
inserted-Administered who name hash role a none h =
    HasAdmin-append a.users a.next_user_id name hash role h

insert_unless-Administered :
    (who : Identity) (name role : String) (new : Option String) (a : Accounts) (found : Option User)
    → Administered a
    → Administered (insert_unless who name role new a found).0
unfolding create_user
insert_unless-Administered who name role new a (some u) h = h
insert_unless-Administered who name role none a none h = h
insert_unless-Administered who name role (some hash) a none h =
    inserted-Administered who name hash role a (user_by_username name a) h

pub create-Administered :
    (o : Outside) (req : CreateUserRequest) (who : Identity) (a : Accounts)
    → Administered a
    → Administered (handle_create_user o req who a).0
unfolding handle_create_user
create-Administered o req who a h =
    let name = o.trim_space req.username in
    let role = role_or_viewer req.role in
    if_both After (not (is_creatable name role req.password)) h (
      insert_unless-Administered who name role (o.hash_password req.password) a
        (user_by_username name a) h)

delete_target-Administered :
    (id : ℕ) (who : Identity) (found : Option User) (a : Accounts)
    → user_by_id id a ≡ found
    → Administered a
    → Administered (delete_target id who found a).0
unfolding delete_user user_by_id is_last_admin audited
delete_target-Administered id who none a e h = h
delete_target-Administered id who (some u) a e h =
    if_both After (is_self id who) h (elim (Bool-cases (is_last_admin u a)) [
      | inl last ↦ rw last h
      | inr more ↦ rw more (HasAdmin-delete a.users a.next_user_id id u e more h)
    ])

pub delete-Administered :
    (id : ℕ) (who : Identity) (a : Accounts)
    → Administered a
    → Administered (handle_delete_user id who a).0
unfolding handle_delete_user
delete-Administered id who a h =
    if_both After (id == 0) h (delete_target-Administered id who (user_by_id id a) a refl h)

reset_target-Administered :
    (id : ℕ) (who : Identity) (found : Option User) (new : Option String) (a : Accounts)
    → Administered a
    → Administered (reset_target id who found new a).0
unfolding update_user_password delete_user_sessions audited
reset_target-Administered id who none new a h = h
reset_target-Administered id who (some u) none a h = h
reset_target-Administered id who (some u) (some hash) a h =
    HasAdmin-password a.users a.next_user_id id hash h

pub reset-Administered :
    (o : Outside) (id : ℕ) (password : String) (who : Identity) (a : Accounts)
    → Administered a
    → Administered (handle_reset_user_password o id password who a).0
unfolding handle_reset_user_password
reset-Administered o id password who a h =
    if_both After (id == 0 || not (length_ok password)) h
      (reset_target-Administered id who (user_by_id id a) (o.hash_password password) a h)

mint-Administered :
    (o : Outside) (who : Identity) (name scope : String) (tok : Option String) (a : Accounts)
    → Administered a
    → Administered (mint o who name scope tok a).0
unfolding create_api_token audited
mint-Administered o who name scope none a h = h
mint-Administered o who name scope (some tok) a h =
    if_both (λ found. Administered (minted who name scope tok found a).0)
      (ltb 0 (count_where (λ t. t.name =s= name || t.token_hash =s= o.hash_token tok) a.tokens)) h h

pub create_token-Administered :
    (o : Outside) (name scope : String) (who : Identity) (a : Accounts)
    → Administered a
    → Administered (handle_create_api_token o name scope who a).0
unfolding handle_create_api_token
create_token-Administered o name scope (by_token t) a h = h
create_token-Administered o name scope (by_session sess) a h =
    if_both After (not (is_token_request_ok name (scope_or_read scope))) h
      (mint-Administered o (by_session sess) name (scope_or_read scope) o.new_token a h)

revoke_found-Administered :
    (id : ℕ) (who : Identity) (found : Option ApiToken) (a : Accounts)
    → Administered a
    → Administered (revoke_found id who found a).0
unfolding delete_api_token audited
revoke_found-Administered id who none a h = h
revoke_found-Administered id who (some t) a h = h

pub delete_token-Administered :
    (id : ℕ) (who : Identity) (a : Accounts)
    → Administered a
    → Administered (handle_delete_api_token id who a).0
unfolding handle_delete_api_token
delete_token-Administered id (by_token t) a h = h
delete_token-Administered id (by_session sess) a h =
    revoke_found-Administered id (by_session sess) (select_one (λ t. t.id == id) a.tokens) a h
