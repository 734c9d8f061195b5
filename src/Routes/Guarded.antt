-- ===== src/Routes/Guarded.antt =====
-- Which requests can change something (backend/internal/api/server.go).
use mathlib.Core.List.{Memᴰ}
use mathlib.Core.Path.{subst}
use encode_system.Prelude.{
  ◌≡◌, ◌⊎◌, inl, inr, refl, sym, ap, String, List, [], ◌∷◌, Bool, true, false, ◌&&◌, ◌||◌, Option,
  none, some, arith, ◌=s=◌, Bool-cases, eq_iff,
}
use encode_system.Table.{select_one}
use encode_system.Table.Counts.{Memᴰ-uncons}
use encode_system.Table.Ordering.{Memᴰ-select, first_by-Memᴰ}
use encode_system.Accounts.{Accounts, Outside}
use encode_system.Accounts.Access.{Request, Handler, is_safe, with_any_user}
use encode_system.Accounts.Allowed.{Guarded, with_admin-Allowed}
use encode_system.Routes.{
  Served, no_route, method_not_allowed, to_open, to_node, answered, more_specific, matches_method,
  matches_path, matches_route, route_for, refusal, serve_access, serve_found, serve,
}
use encode_system.Routes.Table.{
  Access, open_to_all, node_token, any_user, admin_only, Route, routes,
}

-- What a route of a changing method may be: a management route of the administrators, or one of five.
abbrev is_gated_by : Access → String → Bool
is_gated_by admin_only h = true
is_gated_by open_to_all h = h =s= "handleLogin" || h =s= "handleAgentPair"
is_gated_by node_token h = h =s= "handleHeartbeat" || h =s= "handleJobComplete"
is_gated_by any_user h = h =s= "handleLogout"

abbrev is_gated : Route → Bool
is_gated rt = is_safe rt.method || is_gated_by rt.access rt.handler

abbrev all_gated : List Route → Bool
all_gated [] = true
all_gated (rt ∷ rts) = is_gated rt && all_gated rts

all_gated-Memᴰ :
    (rts : List Route) {rt : Route} → all_gated rts ≡ true → Memᴰ rt rts → is_gated rt ≡ true
all_gated-Memᴰ [] h m = elim m [ ]
all_gated-Memᴰ (x ∷ rts) {rt} h m = elim (Memᴰ-uncons m) [
  | inl e ↦ subst (λ z. is_gated z ≡ true) (sym e) (ground (arith, h))
  | inr t ↦ all_gated-Memᴰ rts (ground (arith, h)) t
]

routes-gated : all_gated routes ≡ true
routes-gated = refl

-- what the mux found
route_for-some :
    (method : String) (path : List String) {rt : Route}
    → route_for method path ≡ some rt
    → Memᴰ rt routes × (matches_route method path rt ≡ true)
unfolding route_for
route_for-some method path h =
    Memᴰ-select (matches_route method path) routes (first_by-Memᴰ more_specific _ h)

unsafe_method :
    (pattern method : String)
    → is_safe method ≡ false
    → matches_method pattern method ≡ true
    → is_safe pattern ≡ false
unsafe_method pattern method h e = elim (Bool-cases (pattern =s= method)) [
  | inl q ↦ subst (λ z. is_safe z ≡ false) (sym ((eq_iff pattern method).0 q)) h
  | inr q ↦ absurd (ground (arith, h, e, q))
]

module _ {B : Type 0} (call : String → Handler B) (o : Outside) (r : Request) where
  -- The mux refuses, one of five handlers that are not for administrators is called, or the answer is that
  -- of a management handler behind its guard.
  abbrev pub ByAdmin : Accounts → Served B → Type 0
  ByAdmin a no_route = Unit {0}
  ByAdmin a method_not_allowed = Unit {0}
  ByAdmin a (to_open h) = (h ≡ "handleLogin") ⊎ (h ≡ "handleAgentPair")
  ByAdmin a (to_node h) = (h ≡ "handleHeartbeat") ⊎ (h ≡ "handleJobComplete")
  ByAdmin a (answered res) =
      (res ≡ with_any_user (call "handleLogout") o r a)
      ⊎ ((h : String) × Guarded (call h) o r a res)

  serve_access-ByAdmin :
      (access : Access) (h : String) (a : Accounts)
      → is_gated_by access h ≡ true
      → ByAdmin a (serve_access call o r access h a)
  serve_access-ByAdmin open_to_all h a g = elim (Bool-cases (h =s= "handleLogin")) [
    | inl e ↦ inl ((eq_iff h "handleLogin").0 e)
    | inr e ↦ inr ((eq_iff h "handleAgentPair").0 (ground (arith, e, g)))
  ]
  serve_access-ByAdmin node_token h a g = elim (Bool-cases (h =s= "handleHeartbeat")) [
    | inl e ↦ inl ((eq_iff h "handleHeartbeat").0 e)
    | inr e ↦ inr ((eq_iff h "handleJobComplete").0 (ground (arith, e, g)))
  ]
  serve_access-ByAdmin any_user h a g =
      inl (ap (λ z. with_any_user (call z) o r a) ((eq_iff h "handleLogout").0 g))
  serve_access-ByAdmin admin_only h a g = inr (h, with_admin-Allowed (call h) o r a)

  refusal-ByAdmin : (a : Accounts) (found : Option Route) → ByAdmin a (refusal found)
  refusal-ByAdmin a none = tt
  refusal-ByAdmin a (some rt) = tt

  serve_found-ByAdmin :
      (path : List String) (a : Accounts) (found : Option Route)
      → is_safe r.method ≡ false
      → route_for r.method path ≡ found
      → ByAdmin a (serve_found call o r path a found)
  serve_found-ByAdmin path a (some rt) h e =
      let (m, q) = route_for-some r.method path e in
      let unsafe = unsafe_method rt.method r.method h (ground (arith, q)) in
      let gated = all_gated-Memᴰ routes routes-gated m in
      serve_access-ByAdmin rt.access rt.handler a (ground (arith, gated, unsafe))
  serve_found-ByAdmin path a none h e =
      refusal-ByAdmin a (select_one (λ rt. matches_path rt.path path) routes)

  -- A request whose method is neither GET nor HEAD is refused by the mux, goes to the login, the pairing
  -- or one of the two handlers of the agents, is the logout of a caller that withAnyUser lets in, or is
  -- answered behind withAdmin: unauthorized or forbidden with the users and the API tokens as they were,
  -- or by the handler for an administrator's session or an API token that is not of the read scope.
  pub serve-ByAdmin :
      (path : List String) (a : Accounts)
      → is_safe r.method ≡ false
      → ByAdmin a (serve call o r path a)
  unfolding serve
  serve-ByAdmin path a h = serve_found-ByAdmin path a (route_for r.method path) h refl
