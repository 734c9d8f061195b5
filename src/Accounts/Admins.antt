-- ===== src/Accounts/Admins.antt =====
-- The last administrator (backend/internal/api/handlers_users.go): no sequence of account operations
-- removes it. The requests run one after another.
pub mod Kept
pub mod Trace
use encode_system.Prelude.{
  ℕ, suc, ◌+◌, ◌≤◌, ◌≡◌, ◌⊎◌, inl, inr, refl, sym, ap, ◌∙◌, String, List, [], ◌∷◌, ◌++◌, Bool, true,
  false, not, ◌&&◌, ◌||◌, Option, none, some, arith, ◌==◌, ltb, leb, ◌=s=◌, if◌then◌else◌,
  Bool-cases, Option-cases, ==_iff,
}
use mathlib.Core.Path.{subst}
use encode_system.Prelude.Results.{Result, ok, err}
use encode_system.Table.{select_one, count_where, update_where, delete_where}
use encode_system.Table.Counts.{count-append, count-update_same, count-delete_le}
use encode_system.Table.Deletes.{count_mono, count-delete_split, count-delete_other}
use encode_system.Accounts.{
  Accounts, User, Outside, has_role, role_admin, new_user, user_by_username, user_by_id,
  count_users_by_role, create_user, update_user_password, delete_user, delete_user_sessions,
  create_session, prune_sessions, slide_session, delete_session, touch_api_token, create_api_token,
  delete_api_token,
}
use encode_system.Accounts.Access.{
  Identity, by_session, by_token, Request, authenticate_bearer, resolved, audited,
}
use encode_system.Accounts.Login.{handle_login, handle_logout, handle_change_password}
use encode_system.Accounts.Users.{
  CreateUserRequest, handle_create_user, handle_delete_user, handle_reset_user_password,
  is_last_admin, delete_target, is_self, set_password, reset_target, inserted, insert_hashed,
}
use encode_system.Accounts.Tokens.{handle_create_api_token, handle_delete_api_token}

abbrev with_id : ℕ → User → Bool
with_id id u = u.id == id

abbrev beyond : ℕ → User → Bool
beyond id u = leb id u.id

-- There is an admin, an id names one account, and new ids are fresh.
pub record HasAdmin (users : List User) (next : ℕ) : Type 0 where
  pub admins : 1 ≤ count_where (has_role role_admin) users
  pub unique : (id : ℕ) → count_where (with_id id) users ≤ 1
  pub fresh : count_where (beyond next) users ≡ 0

abbrev pub Administered : Accounts → Type 0
Administered a = HasAdmin a.users a.next_user_id

HasAdmin-append :
    (users : List User) (next : ℕ) (name hash role : String)
    → HasAdmin users next
    → HasAdmin (users ++ new_user next name hash role ∷ []) (next + 1)
unfolding count_where
HasAdmin-append users next name hash role h =
    let row = new_user next name hash role in
    record {
      admins = ground (arith, h.admins, count-append (has_role role_admin) users (row ∷ []));
      unique = λ id.
          let below = count_mono (with_id next) (beyond next) (λ u e. ground (arith, e)) users in
          ground (
            arith,
            h.unique id,
            h.unique next,
            h.fresh,
            below,
            count-append (with_id id) users (row ∷ []),
          );
      fresh =
          let above =
            count_mono (beyond (next + 1)) (beyond next) (λ u e. ground (arith, e)) users in
          ground (arith, h.fresh, above, count-append (beyond (next + 1)) users (row ∷ []));
    }

HasAdmin-password :
    (users : List User) (next id : ℕ) (hash : String)
    → HasAdmin users next
    → HasAdmin (update_where (with_id id) (λ u. record u { password_hash = hash }) users) next
HasAdmin-password users next id hash h =
    let f : User → User = λ u. record u { password_hash = hash } in
    let a = count-update_same (has_role role_admin) (with_id id) f (λ u e. refl) users in
    let c = count-update_same (beyond next) (with_id id) f (λ u e. refl) users in
    record {
      admins = omega (arith, h.admins, a);
      unique = λ i.
          let b = count-update_same (with_id i) (with_id id) f (λ u e. refl) users in
          omega (arith, h.unique i, b);
      fresh = omega (arith, h.fresh, c);
    }

HasAdmin-delete :
    (users : List User) (next id : ℕ) (u : User)
    → select_one (with_id id) users ≡ some u
    → (u.role =s= role_admin && leb (count_where (has_role role_admin) users) 1) ≡ false
    → HasAdmin users next
    → HasAdmin (delete_where (with_id id) users) next
HasAdmin-delete users next id u found guarded h = record {
  admins = elim (Bool-cases (u.role =s= role_admin)) [
    | inl e ↦
        let split = count-delete_split (with_id id) (has_role role_admin) users in
        ground (arith, e, guarded, split, h.unique id)
    | inr e ↦
        let kept =
          count-delete_other (with_id id) (has_role role_admin) users (h.unique id) found e in
        omega (arith, kept, h.admins)
  ];
  unique = λ i. omega (arith, h.unique i, count-delete_le (with_id i) (with_id id) users);
  fresh = omega (arith, h.fresh, count-delete_le (beyond next) (with_id id) users);
}
