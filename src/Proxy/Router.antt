-- ===== src/Proxy/Router.antt =====
-- crates/g2-proxy/src/router.rs: the routing table, and which route of it serves a path.
--
-- A route is its API and its prefix; the chain that it carries plays no part here. `Route::build`,
-- which validates a definition and loads its plugins, is a parameter, as is the flag of the
-- definition.
pub mod Sorted
pub mod Matching
pub mod Table
pub mod Tests
use g2way.Common.{
  ℕ, Bool, true, false, ◌||◌, List, [], ◌∷◌, Option, none, some, Text, ltb, ◌==◌, if◌then◌else◌,
  find, is_empty, length, strip_prefix, Result, ok, err, ◌>>=◌, ◌>>◌,
}

pub record Route : Type 0 where
  pub api_id : Text
  pub listen_prefix : Text

-- `rest.starts_with('/')`.
abbrev pub starts_with_slash : Text → Bool
starts_with_slash [] = false
starts_with_slash (c ∷ rest) = c == 47

-- A prefix that ends where a segment does; the empty one needs no boundary.
unfoldable pub matches : Route → Text → Bool
matches route path =
    if is_empty route.listen_prefix then true else elim (strip_prefix route.listen_prefix path) [
      | none ↦ false
      | some rest ↦ is_empty rest || starts_with_slash rest
    ]

-- `str::cmp`, as whether the first text is not the greater.
abbrev pub text_le : Text → Text → Bool
text_le [] t = true
text_le (x ∷ s) [] = false
text_le (x ∷ s) (y ∷ t) = let rest = text_le s t in if x == y then rest else ltb x y

-- The order of the table: longer prefixes first, equally long ones by their text.
pub goes_before : Route → Route → Bool
goes_before a b =
    let m = length a.listen_prefix in
    let n = length b.listen_prefix in
    if m == n then text_le a.listen_prefix b.listen_prefix else ltb n m

-- `sort_by`, which is stable.
pub insert_route : Route → List Route → List Route
unfolding goes_before
insert_route r [] = r ∷ []
insert_route r (x ∷ routes) =
    let rest = insert_route r routes in if goes_before r x then r ∷ x ∷ routes else x ∷ rest

pub sort : List Route → List Route
unfolding insert_route
sort [] = []
sort (r ∷ routes) = insert_route r (sort routes)

module _ {Def Error : Type 0} (route_build : Def → Result Route Error) (active : Def → Bool) where
  -- The loop of `RouteTable::build`: every definition is built, the active ones are kept.
  pub build_routes : List Def → Result (List Route) Error
  build_routes [] = ok []
  build_routes (def ∷ defs) = do
    let rest = build_routes defs
    route ← route_build def
    routes ← rest
    ok (if active def then route ∷ routes else routes)

  pub build : List Def → Result (List Route) Error
  unfolding build_routes sort
  build defs = do routes ← build_routes defs; ok (sort routes)

unfoldable pub match_path : List Route → Text → Option Route
unfolding matches
match_path routes path = find (λ r. matches r path) routes
