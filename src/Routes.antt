-- ===== src/Routes.antt =====
-- The dispatch of a request to a handler through its middleware (Routes and withNodeAuth of
-- backend/internal/api/server.go). http.ServeMux takes the most specific pattern that matches, and a
-- pattern of GET also for HEAD; a path is the list of its parts, without an empty one or a dot among them.
pub mod Table
pub mod Guarded
mod Examples
use encode_system.Prelude.{
  ℕ, String, List, [], ◌∷◌, Bool, true, false, not, ◌&&◌, ◌||◌, Option, none, some, ◌==◌, ◌=s=◌,
  if◌then◌else◌,
}
use encode_system.Prelude.Results.{Result, err}
use encode_system.Table.{select_one, select_where, first_by}
use encode_system.Accounts.{Accounts, Outside}
use encode_system.Accounts.Access.{
  HttpError, unauthorized, Request, Handler, with_admin, with_any_user,
}
use encode_system.Accounts.Pairing.{NodeKey, Registry, node_by_token_hash}
use Table.{Segment, lit, wild, Access, open_to_all, node_token, any_user, admin_only, Route, routes}

abbrev pub matches_path : List Segment → List String → Bool
matches_path [] [] = true
matches_path [] (p ∷ ps) = false
matches_path (s ∷ ss) [] = false
matches_path (lit t ∷ ss) (p ∷ ps) = t =s= p && matches_path ss ps
matches_path (wild ∷ ss) (p ∷ ps) = matches_path ss ps

abbrev pub matches_method : String → String → Bool
matches_method pattern method = pattern =s= method || (pattern =s= "GET" && method =s= "HEAD")

-- every part of the first pattern is a text where the second has one
abbrev pub covers_path : List Segment → List Segment → Bool
covers_path (wild ∷ ss) (lit t ∷ ts) = false
covers_path (s ∷ ss) (t ∷ ts) = covers_path ss ts
covers_path _ _ = true

-- the first of two patterns that match a path is more specific
abbrev pub more_specific : Route → Route → Bool
more_specific a b = covers_path a.path b.path && not (covers_path b.path a.path)

abbrev pub matches_route : String → List String → Route → Bool
matches_route method path rt = matches_path rt.path path && matches_method rt.method method

unfoldable pub route_for : String → List String → Option Route
route_for method path = first_by more_specific (select_where (matches_route method path) routes)

abbrev pub as_node :
    {B : Type 0}
    → (NodeKey → Registry → Registry × Result HttpError B)
    → Registry
    → Option NodeKey
    → Registry × Result HttpError B
as_node h s none = (s, err unauthorized)
as_node h s (some n) = h n s

unfoldable pub with_node_auth :
    {B : Type 0}
    → (NodeKey → Registry → Registry × Result HttpError B)
    → Outside
    → Request
    → Registry
    → Registry × Result HttpError B
with_node_auth h o r s =
    if r.bearer =s= ""
    then (s, err unauthorized)
    else as_node h s (node_by_token_hash (o.hash_token r.bearer) s)

-- What becomes of a request: the mux's own 404 and 405, a call of a handler that no account guards, or
-- the answer of a handler behind withAdmin or withAnyUser.
pub data Served (B : Type 0) : Type 0 where
  no_route method_not_allowed : Served B
  to_open to_node : String → Served B
  answered : Accounts × Result HttpError B → Served B

-- 404, or 405 where another method would match
abbrev pub refusal : {B : Type 0} → Option Route → Served B
refusal none = no_route
refusal (some rt) = method_not_allowed

module _ {B : Type 0} (call : String → Handler B) (o : Outside) (r : Request) where
  abbrev pub serve_access : Access → String → Accounts → Served B
  serve_access open_to_all h a = to_open h
  serve_access node_token h a = to_node h
  serve_access any_user h a = answered (with_any_user (call h) o r a)
  serve_access admin_only h a = answered (with_admin (call h) o r a)

  abbrev pub serve_found : List String → Accounts → Option Route → Served B
  serve_found path a (some rt) = serve_access rt.access rt.handler a
  serve_found path a none = refusal (select_one (λ rt. matches_path rt.path path) routes)

  unfoldable pub serve : List String → Accounts → Served B
  unfolding route_for
  serve path a = serve_found path a (route_for r.method path)
