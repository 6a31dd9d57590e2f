-- ===== src/Middleware/PathPolicy/Tests.antt =====
-- The path lists of path_policy.rs at concrete inputs.
use g2way.Common.{
  ◌≡◌, ◌↔◌, ◌⊎◌, refl, true, false, List, [], ◌∷◌, Option, none, some, Text, codes, text_eq,
  is_empty, ok, err,
}
use g2way.Middleware.Rules.{bad_regex}
use g2way.Middleware.PathPolicy.{
  PathRule, PolicyState, forbidden, forwards, compile, compile_list, compile_lists, from_config,
  any_match, call,
}
use g2way.Middleware.PathPolicy.Decision.{Covers, from_config-call}

policy : Unit {0}
unfolding from_config compile_lists compile_list compile any_match call text_eq
policy = tt

-- A pattern is a text that matches itself; the empty one does not compile.
abbrev regex_new : Text → Option Text
regex_new [] = none
regex_new (c ∷ t) = some (c ∷ t)

abbrev admin_posts : List PathRule
admin_posts = record { pattern = codes "/admin"; methods = codes "post" ∷ [] } ∷ []

abbrev health : List PathRule
health = record { pattern = codes "/health"; methods = [] } ∷ []

abbrev state : PolicyState Text
state = record {
  allow = [];
  block = record { regex = codes "/admin"; methods = codes "POST" ∷ [] } ∷ [];
  ignore = record { regex = codes "/health"; methods = [] } ∷ [];
}

compiled : from_config regex_new some [] admin_posts health ≡ ok (some state)
unfolding policy
compiled = refl

answers :
    (call text_eq state (codes "POST") (codes "/admin") false ≡ forbidden)
    × (call text_eq state (codes "GET") (codes "/admin") false ≡ forwards false)
    × (call text_eq state (codes "GET") (codes "/health") false ≡ forwards true)
    × (from_config regex_new some [] [] (record { pattern = []; methods = [] } ∷ [])
        ≡ err (bad_regex []))
unfolding policy
answers = (refl, refl, refl, refl)

from_config-call_example :
    ((call text_eq state (codes "POST") (codes "/admin") false ≡ forbidden) ↔ (
      Covers regex_new text_eq some admin_posts (codes "POST") (codes "/admin")
      ⊎ ((is_empty {A = PathRule} [] ≡ false)
          × ¬ (Covers regex_new text_eq some [] (codes "POST") (codes "/admin")))))
    × ((call text_eq state (codes "POST") (codes "/admin") false ≡ forwards true) ↔ (
        ¬ (call text_eq state (codes "POST") (codes "/admin") false ≡ forbidden)
        × ((false ≡ true) ⊎ Covers regex_new text_eq some health (codes "POST") (codes "/admin"))))
from_config-call_example =
    from_config-call regex_new text_eq some [] admin_posts health state (codes "POST")
      (codes "/admin") false compiled
