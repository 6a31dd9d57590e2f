-- ===== src/Proxy/Router/Tests.antt =====
-- The routing table of router.rs at concrete inputs.
use g2way.Common.{
  ◌≡◌, refl, Bool, true, false, List, [], ◌∷◌, Text, codes, Result, ok, strip_prefix,
}
use g2way.Proxy.Router.{
  Route, matches, sort, insert_route, goes_before, build_routes, build, match_path,
}
use g2way.Proxy.Router.Table.{Outcome, build-match_path}

router : Unit {0}
unfolding matches strip_prefix sort insert_route goes_before build_routes build match_path
router = tt

abbrev root_api : Route
root_api = record { api_id = codes "r"; listen_prefix = [] }

abbrev users_api : Route
users_api = record { api_id = codes "u"; listen_prefix = codes "/users" }

abbrev admin_api : Route
admin_api = record { api_id = codes "a"; listen_prefix = codes "/users/admin" }

-- A definition is its route and whether it is active, and each builds.
abbrev Def : Type 0
Def = Route × Bool

abbrev build_one : Def → Result Route Text
build_one (route, on) = ok route

abbrev is_active : Def → Bool
is_active (route, on) = on

abbrev defs : List Def
defs = (root_api, true) ∷ (users_api, true) ∷ (admin_api, false) ∷ []

built : build build_one is_active defs ≡ ok (users_api ∷ root_api ∷ [])
unfolding router
built = refl

boundaries :
    (matches users_api (codes "/users") ≡ true)
    × (matches users_api (codes "/users/42") ≡ true)
    × (matches users_api (codes "/users2") ≡ false)
    × (matches root_api (codes "/x") ≡ true)
unfolding router
boundaries = (refl, refl, refl, refl)

build-match_path_example :
    Outcome build_one is_active defs
      (codes "/users/admin")
      (match_path (users_api ∷ root_api ∷ []) (codes "/users/admin"))
build-match_path_example =
    build-match_path build_one is_active defs (users_api ∷ root_api ∷ []) (codes "/users/admin")
      built
