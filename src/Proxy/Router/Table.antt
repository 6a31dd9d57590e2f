-- ===== src/Proxy/Router/Table.antt =====
-- What the table that router.rs builds from a list of definitions serves.
use g2way.Common.{
  ◌≡◌, ◌⊎◌, inl, inr, refl, subst, Bool, true, false, List, [], ◌∷◌, Option, none, some, Text,
  arith, All, Any, Bool-cases, Result, ok, err, if◌then◌else◌,
}
use g2way.Proxy.Router.{Route, matches, sort, build_routes, build, match_path}
use g2way.Proxy.Router.Sorted.{sort-All, sort-Any, sort-LongestFirst}
use g2way.Proxy.Router.Matching.{Yields, find-Yields}

none-All :
    (path : Text) (routes : List Route)
    → match_path routes path ≡ none
    → All (λ r. matches r path ≡ false) routes
unfolding match_path
none-All path [] e = tt
none-All path (r ∷ routes) e = ground (arith, none-All path routes)

module _ {Def Error : Type 0} (route_build : Def → Result Route Error) (active : Def → Bool) where
  -- A definition that is not active, or whose route has a property.
  abbrev pub IsIdleOr : (Route → Type 0) → Def → Type 0
  IsIdleOr P def = (active def ≡ false) ⊎ ((r : Route) × (route_build def ≡ ok r) × P r)

  abbrev pub IsActive : (Route → Type 0) → Def → Type 0
  IsActive P def = (active def ≡ true) × ((r : Route) × (route_build def ≡ ok r) × P r)

  build_routes_cons :
      (def : Def) (defs : List Def) (routes : List Route)
      → build_routes route_build active (def ∷ defs) ≡ ok routes
      → (r : Route) × (rest : List Route) × (route_build def ≡ ok r)
        × (build_routes route_build active defs ≡ ok rest)
        × (routes ≡ (if active def then r ∷ rest else rest))
  unfolding build_routes
  build_routes_cons def defs routes e =
      go (route_build def) (build_routes route_build active defs) refl refl e
    where
      go :
          (one : Result Route Error) (more : Result (List Route) Error)
          → route_build def ≡ one
          → build_routes route_build active defs ≡ more
          → build_routes route_build active (def ∷ defs) ≡ ok routes
          → (r : Route) × (rest : List Route) × (route_build def ≡ ok r)
            × (build_routes route_build active defs ≡ ok rest)
            × (routes ≡ (if active def then r ∷ rest else rest))
      go (err x) more a b e = let stuck = rw a at e in cc
      go (ok r) (err x) a b e = let stuck = rw (a, b) at e in cc
      go (ok r) (ok rest) a b e = let same = rw (a, b) at e in (r, rest, a, b, ground arith)

  build_routes-All :
      (P : Route → Type 0) (defs : List Def) (routes : List Route)
      → build_routes route_build active defs ≡ ok routes
      → All P routes
      → All (IsIdleOr P) defs
  build_routes-All P [] routes e h = tt
  build_routes-All P (def ∷ defs) routes e h =
      let (r, rest, one, more, same) = build_routes_cons def defs routes e in
      elim (Bool-cases (active def)) [
        | inl on ↦
            let (p, ps) = rw (same, on) at h in
            (inr (r, one, p), build_routes-All P defs rest more ps)
        | inr off ↦ (inl off, build_routes-All P defs rest more (rw (same, off) at h))
      ]

  build_routes-Any :
      (P : Route → Type 0) (defs : List Def) (routes : List Route)
      → build_routes route_build active defs ≡ ok routes
      → Any P routes
      → Any (IsActive P) defs
  unfolding build_routes
  build_routes-Any P [] routes e h =
      let nobody : routes ≡ [] = ground arith in subst (Any P) nobody h
  build_routes-Any P (def ∷ defs) routes e h =
      let (r, rest, one, more, same) = build_routes_cons def defs routes e in
      elim (Bool-cases (active def)) [
        | inl on ↦ elim (rw (same, on) at h) [
          | inl p ↦ inl (on, (r, one, p))
          | inr ps ↦ inr (build_routes-Any P defs rest more ps)
        ]
        | inr off ↦ inr (build_routes-Any P defs rest more (rw (same, off) at h))
      ]

  -- What a path owes to the definitions: nobody serves it, or the best route does.
  abbrev pub Outcome : List Def → Text → Option Route → Type 0
  Outcome defs path none = All (IsIdleOr (λ r. matches r path ≡ false)) defs
  Outcome defs path (some best) =
      Any (IsActive (λ r. r ≡ best)) defs
      × (matches best path ≡ true)
      × All (IsIdleOr (Yields best path)) defs

-- A table that is built finds for a path the route of an active definition that serves it, such
-- that every other active definition does not serve the path, or has a shorter prefix or the same
-- one; and it finds none only if no active definition serves the path.
pub build-match_path :
    {Def Error : Type 0} (route_build : Def → Result Route Error) (active : Def → Bool)
    (defs : List Def) (table : List Route) (path : Text)
    → build route_build active defs ≡ ok table
    → Outcome route_build active defs path (match_path table path)
unfolding build
build-match_path {Def = Def} {Error = Error} route_build active defs table path e =
    go (build_routes route_build active defs) refl (match_path table path) refl
  where
    sorted :
        (routes : List Route)
        → build_routes route_build active defs ≡ ok routes
        → table ≡ sort routes
    sorted routes b = let same = rw b at e in ground arith

    go :
        (built : Result (List Route) Error)
        → build_routes route_build active defs ≡ built
        → (found : Option Route) → match_path table path ≡ found
        → Outcome route_build active defs path found
    go (err x) b found f = let stuck = rw b at e in cc
    go (ok routes) b none f =
        build_routes-All route_build active _ defs routes b
          ((sort-All _ routes).0 (none-All path (sort routes) (rw (sorted routes b) at f)))
    go (ok routes) b (some best) f =
        let (at, m, h) =
          find-Yields path (sort routes) best (sort-LongestFirst routes)
            (rw (sorted routes b) at f) in
        (
          build_routes-Any route_build active _ defs routes b (sort-Any _ routes at),
          m,
          build_routes-All route_build active _ defs routes b ((sort-All _ routes).0 h),
        )
