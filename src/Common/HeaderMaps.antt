-- ===== src/Common/HeaderMaps.antt =====
-- A `HeaderMap`, as the list of its entries with names in lower case.
use mathlib.Core.Path.{◌≡◌}
use mathlib.Core.Bool.{not}
use mathlib.Core.List.{List, [], ◌∷◌}
use mathlib.Core.Option.{Option, none, some}
use native.Mathlib.Omega.{arith}
use g2way.Common.Tests.{if◌then◌else◌}
use g2way.Common.Lists.{keep}
use g2way.Common.Strings.{Text, text_eq, text_eq_iff}

abbrev pub HeaderMap : Type 0
HeaderMap = List (Text × Text)

-- `HeaderMap::{remove, insert, append, get, get_all}`.
abbrev pub remove_header : Text → HeaderMap → HeaderMap
remove_header name hs = keep (λ h. not (text_eq name h.0)) hs

abbrev pub insert_header : Text → Text → HeaderMap → HeaderMap
insert_header name value hs = (name, value) ∷ remove_header name hs

abbrev pub get_header : Text → HeaderMap → Option Text
get_header name [] = none
get_header name ((n, v) ∷ hs) =
    let rest = get_header name hs in if text_eq name n then some v else rest

abbrev pub get_all : Text → HeaderMap → List Text
get_all name [] = []
get_all name ((n, v) ∷ hs) = let rest = get_all name hs in if text_eq name n then v ∷ rest else rest

pub get_header-remove :
    (name other : Text) (hs : HeaderMap)
    → get_header other (remove_header name hs)
      ≡ (if text_eq name other then none else get_header other hs)
get_header-remove name other [] = ground arith
get_header-remove name other ((n, v) ∷ hs) = ground (
  arith,
  get_header-remove name other hs,
  text_eq_iff name n,
  text_eq_iff other n,
  text_eq_iff name other,
)

pub get_header-insert :
    (name value other : Text) (hs : HeaderMap)
    → get_header other (insert_header name value hs)
      ≡ (if text_eq name other then some value else get_header other hs)
get_header-insert name value other hs =
    ground (arith, get_header-remove name other hs, text_eq_iff name other, text_eq_iff other name)
