-- ===== src/Middleware/IpFilter/Tests.antt =====
-- The client lists of ip_filter.rs at concrete inputs.
use g2way.Common.{
  ℕ, ◌≡◌, ◌↔◌, ◌⊎◌, refl, Bool, true, false, [], ◌∷◌, Option, none, some, Text, codes, is_empty, ok,
  err, Any, leb, ◌&&◌, length,
}
use g2way.Middleware.IpFilter.{
  FilterState, parse_ip_entry, parse_list, parse_lists, from_config, permits, call,
}
use g2way.Middleware.IpFilter.Decision.{Names, from_config-call_permits}

filter : Unit {0}
unfolding from_config parse_lists parse_list parse_ip_entry permits call
filter = tt

-- An address is a number and a network a range: "n…" is the net of all below its length, a text of
-- digits the address of its length.
abbrev Range : Type 0
Range = ℕ × ℕ

abbrev net_from_str : Text → Option Range
net_from_str [] = none
net_from_str (c ∷ t) = elim (leb 110 c) [ true ↦ some (0, length t) | false ↦ none ]

abbrev ip_from_str : Text → Option ℕ
ip_from_str [] = none
ip_from_str (c ∷ t) = some (length (c ∷ t))

abbrev host : ℕ → Range
host n = (n, n)

abbrev holds : Range → ℕ → Bool
holds (low, high) n = leb low n && leb n high

abbrev itself : ℕ → ℕ
itself n = n

abbrev state : FilterState Range
state = record { allow = (0, 5) ∷ []; block = (3, 3) ∷ [] }

parsed :
    from_config net_from_str ip_from_str host (codes "n12345" ∷ []) (codes "123" ∷ [])
    ≡ ok (some state)
unfolding filter
parsed = refl

answers :
    (call itself holds state (some 2) ≡ true)
    × (call itself holds state (some 3) ≡ false)
    × (call itself holds state (some 6) ≡ false)
    × (call itself holds state none ≡ false)
    × (from_config net_from_str ip_from_str host ([] ∷ []) [] ≡ err [])
unfolding filter
answers = (refl, refl, refl, refl, refl)

from_config-call_permits_example : (call itself holds state (some 3) ≡ true) ↔ (
    (ip : ℕ) × (some 3 ≡ some ip)
    × ¬ (Any (λ entry. Names net_from_str ip_from_str host holds entry ip) (codes "123" ∷ []))
    × ((is_empty (codes "n12345" ∷ []) ≡ true)
        ⊎ Any (λ entry. Names net_from_str ip_from_str host holds entry ip) (codes "n12345" ∷ [])))
from_config-call_permits_example =
    from_config-call_permits net_from_str ip_from_str host itself holds (codes "n12345" ∷ [])
      (codes "123" ∷ []) state (some 3) parsed
