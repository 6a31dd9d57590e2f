-- ===== src/Proxy/Router/Sorted.antt =====
-- The order of the table of router.rs.
use g2way.Common.{ℕ, ◌↔◌, ◌⊎◌, ◌≤◌, List, [], ◌∷◌, arith, All, Any, length, Bool-cases, inl, inr}
use g2way.Proxy.Router.{Route, goes_before, insert_route, sort}

abbrev pub size : Route → ℕ
size r = length r.listen_prefix

-- No route stands behind one with a shorter prefix.
abbrev pub LongestFirst : List Route → Type 0
LongestFirst [] = Unit
LongestFirst (r ∷ routes) = All (λ x. size x ≤ size r) routes × LongestFirst routes

insert_route-All :
    (P : Route → Type 0) (r : Route) (routes : List Route)
    → All P (insert_route r routes) ↔ (P r × All P routes)
unfolding insert_route
insert_route-All P r [] = ((λ h. h), λ h. h)
insert_route-All P r (x ∷ routes) = ground (arith, insert_route-All P r routes)

pub sort-All : (P : Route → Type 0) (routes : List Route) → All P (sort routes) ↔ All P routes
unfolding sort
sort-All P [] = ((λ h. h), λ h. h)
sort-All P (r ∷ routes) = ground (arith, sort-All P routes, insert_route-All P r (sort routes))

insert_route-Any :
    (P : Route → Type 0) (r : Route) (routes : List Route)
    → Any P (insert_route r routes)
    → P r ⊎ Any P routes
unfolding insert_route
insert_route-Any P r [] h = h
insert_route-Any P r (x ∷ routes) h = ground (arith, insert_route-Any P r routes)

pub sort-Any : (P : Route → Type 0) (routes : List Route) → Any P (sort routes) → Any P routes
unfolding sort
sort-Any P [] h = h
sort-Any P (r ∷ routes) h = ground (arith, sort-Any P routes, insert_route-Any P r (sort routes))

shorter-All :
    (a b : ℕ) (routes : List Route)
    → a ≤ b
    → All (λ x. size x ≤ a) routes
    → All (λ x. size x ≤ b) routes
shorter-All a b [] le h = tt
shorter-All a b (x ∷ routes) le (h, hs) = (omega arith, shorter-All a b routes le hs)

insert_route-LongestFirst :
    (r : Route) (routes : List Route) → LongestFirst routes → LongestFirst (insert_route r routes)
unfolding insert_route goes_before
insert_route-LongestFirst r [] h = (tt, tt)
insert_route-LongestFirst r (x ∷ routes) (h, hs) = elim (Bool-cases (goes_before r x)) [
  | inl first ↦
      let le : size x ≤ size r = ground arith in
      rw first ((le, shorter-All (size x) (size r) routes le h), (h, hs))
  | inr later ↦
      let le : size r ≤ size x = ground arith in
      rw later (
        (insert_route-All (λ y. size y ≤ size x) r routes).1 (le, h),
        insert_route-LongestFirst r routes hs,
      )
]

pub sort-LongestFirst : (routes : List Route) → LongestFirst (sort routes)
unfolding sort
sort-LongestFirst [] = tt
sort-LongestFirst (r ∷ routes) =
    insert_route-LongestFirst r (sort routes) (sort-LongestFirst routes)
