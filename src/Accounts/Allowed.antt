-- ===== src/Accounts/Allowed.antt =====
-- Who reaches a handler behind withAdmin (backend/internal/api/auth_handlers.go).
use mathlib.Core.List.{Memᴰ}
use mathlib.Core.Path.{subst}
use encode_system.Prelude.{
  ℕ, ◌+◌, ◌≡◌, ◌⊎◌, inl, inr, refl, sym, ap, ◌∙◌, String, true, false, not, ◌&&◌, Option, none,
  some, arith, ◌==◌, ltb, ◌=s=◌, Bool-cases, Option-cases,
}
use encode_system.Prelude.Results.{Result, err}
use encode_system.Table.{select_one}
use encode_system.Table.Counts.{select_one-some}
use encode_system.Accounts.{
  Accounts, User, SessionRow, Session, ApiToken, Outside, role_admin, joined, with_user,
  open_with_hash, user_by_id, session_by_token_hash, slide_session, api_token_by_hash,
  touch_api_token,
}
use encode_system.Accounts.Access.{
  HttpError, unauthorized, forbidden, Request, Identity, by_session, by_token, Handler, session_ttl,
  resolved, authenticate_bearer, is_safe, call_with_token, call_as_admin, with_admin,
}

-- The credential is an open session of an admin, or an API token whose scope lets the method pass.
pub data Allowed (o : Outside) (r : Request) (a : Accounts) : Identity → Type 0 where
  admin_session :
      (sess : Session) (row : SessionRow) (u : User)
      → Memᴰ row a.sessions
      → (row.token_hash =s= o.hash_token r.bearer) ≡ true
      → ltb o.now row.expires_at ≡ true
      → Memᴰ u a.users
      → (u.id == row.user_id) ≡ true
      → (u.role =s= "admin") ≡ true
      → sess.user_id ≡ row.user_id
      → Allowed o r a (by_session sess)
  scoped_token :
      (t : ApiToken)
      → Memᴰ t a.tokens
      → (t.token_hash =s= o.hash_token r.bearer) ≡ true
      → ((t.scope =s= "read") ≡ false) ⊎ (is_safe r.method ≡ true)
      → Allowed o r a (by_token t)

-- Refused with the users and tokens as they were, or what the handler does for an allowed caller.
abbrev pub Guarded :
    {B : Type 0} → Handler B → Outside → Request → Accounts → Accounts × Result HttpError B → Type 0
Guarded h o r a res =
    (((res.1 ≡ err unauthorized) ⊎ (res.1 ≡ err forbidden))
      × (res.0.users ≡ a.users)
      × (res.0.tokens ≡ a.tokens))
    ⊎ ((who : Identity) × (b : Accounts) × Allowed o r a who
        × (b.users ≡ a.users)
        × (res ≡ h who b))

session_or : Session → Option Session → Session
session_or d none = d
session_or d (some sess) = sess

-- the parts of a session that was found
pub session-parts :
    (now : ℕ) (hash : String) (a : Accounts) (sess : Session)
    → session_by_token_hash now hash a ≡ some sess
    → (row : SessionRow) × (u : User) × Memᴰ row a.sessions
      × ((row.token_hash =s= hash) ≡ true)
      × (ltb now row.expires_at ≡ true)
      × Memᴰ u a.users
      × ((u.id == row.user_id) ≡ true)
      × (sess.role ≡ u.role)
      × (sess.user_id ≡ row.user_id)
unfolding session_by_token_hash user_by_id session_or
session-parts now hash a sess h =
    elim (Option-cases (select_one (open_with_hash now hash) a.sessions)) [
      | inl n ↦ absurd (cc (ap (with_user a) n, h))
      | inr (row, q) ↦ elim (Option-cases (user_by_id row.user_id a)) [
        | inl n ↦ absurd (cc (ap (with_user a) q, ap (joined row) n, h))
        | inr (u, qu) ↦
            let e : some sess ≡ joined row (some u) =
              sym h ∙ ap (with_user a) q ∙ ap (joined row) qu in
            let (matched, mrow) = select_one-some (open_with_hash now hash) a.sessions q in
            let (hu, mu) = select_one-some (λ v. v.id == row.user_id) a.users qu in
            (
              row,
              u,
              mrow,
              ground (arith, matched),
              ground (arith, matched),
              mu,
              hu,
              ap (λ z. (session_or sess z).role) e,
              ap (λ z. (session_or sess z).user_id) e,
            )
      ]
    ]

module _ {B : Type 0} (h : Handler B) (o : Outside) (r : Request) where
  token-Guarded :
      (a : Accounts) (t : ApiToken)
      → Memᴰ t a.tokens
      → (t.token_hash =s= o.hash_token r.bearer) ≡ true
      → Guarded h o r a (call_with_token h o r t a)
  unfolding call_with_token touch_api_token
  token-Guarded a t m e = elim (Bool-cases (t.scope =s= "read" && not (is_safe r.method))) [
    | inl q ↦ rw q (inl (inr refl, refl, refl))
    | inr q ↦ rw q (
        inr (
          by_token t,
          touch_api_token o.now t.id a,
          Allowed.scoped_token t m e (ground (arith, q)),
          refl,
          refl,
        ))
  ]

  session-Guarded :
      (a : Accounts) (sess : Session)
      → session_by_token_hash o.now (o.hash_token r.bearer) a ≡ some sess
      → Guarded h o r a (
          call_as_admin h o r
            (slide_session (o.hash_token r.bearer) (o.now + session_ttl) a, some (by_session sess)))
  unfolding slide_session
  session-Guarded a sess q = elim (Bool-cases (sess.role =s= role_admin)) [
    | inl x ↦
        let (row, u, mrow, hh, he, mu, hu, role, id) =
          session-parts o.now (o.hash_token r.bearer) a sess q in
        rw x (
          inr (
            by_session sess,
            slide_session (o.hash_token r.bearer) (o.now + session_ttl) a,
            Allowed.admin_session sess row u mrow hh he mu hu
                (subst (λ z. (z =s= "admin") ≡ true) role x) id,
            refl,
            refl,
          ))
    | inr x ↦ rw x (inl (inr refl, refl, refl))
  ]

  resolved-Guarded :
      (a : Accounts) (found : Option Session)
      → session_by_token_hash o.now (o.hash_token r.bearer) a ≡ found
      → Guarded h o r a (call_as_admin h o r (resolved o (o.hash_token r.bearer) a found))
  unfolding api_token_by_hash
  resolved-Guarded a (some sess) q = session-Guarded a sess q
  resolved-Guarded a none q = elim (Option-cases (api_token_by_hash (o.hash_token r.bearer) a)) [
    | inl n ↦ rw n (inl (inl refl, refl, refl))
    | inr (t, e) ↦
        let (ht, mt) = select_one-some (λ t. t.token_hash =s= o.hash_token r.bearer) a.tokens e in
        rw e (token-Guarded a t mt ht)
  ]

  -- A request behind withAdmin is refused as unauthorized or forbidden, with the users and the API
  -- tokens as they were, or the answer is the handler's: then the credential is that of an unexpired
  -- session of a user with the role admin, or of an API token that is not of the read scope unless the
  -- method is GET or HEAD, and the handler sees the same users.
  pub with_admin-Allowed : (a : Accounts) → Guarded h o r a (with_admin h o r a)
  unfolding with_admin authenticate_bearer
  with_admin-Allowed a = elim (Bool-cases (r.bearer =s= "")) [
    | inl e ↦ rw e (inl (inl refl, refl, refl))
    | inr e ↦ rw e (resolved-Guarded a (session_by_token_hash o.now (o.hash_token r.bearer) a) refl)
  ]
