-- ===== src/Proxy/Router/Matching.antt =====
-- Which route of router.rs serves a path.
use g2way.Common.{
  ◌≡◌, ◌↔◌, ◌⊎◌, inl, inr, refl, sym, subst, ◌∙◌, ◌≤◌, ◌<◌, true, false, List, [], ◌∷◌, ◌++◌, some,
  Text, arith, All, Any, length, Bool-cases, Option-cases, strip_prefix, strip_prefix-append,
  eq_of_strip_prefix, is_empty, ◌||◌,
}
use native.Mathlib.Decide.{dec_lt}
use g2way.Proxy.Router.{Route, matches, starts_with_slash, match_path}
use g2way.Proxy.Router.Sorted.{size, LongestFirst}

-- The rest of a path behind a whole number of segments.
abbrev pub IsBoundary : Text → Type 0
IsBoundary rest = (rest ≡ []) ⊎ ((more : Text) × (rest ≡ 47 ∷ more))

IsBoundary-iff :
    (rest : Text) → ((is_empty rest || starts_with_slash rest) ≡ true) ↔ IsBoundary rest
IsBoundary-iff [] = ((λ h. inl refl), λ h. refl)
IsBoundary-iff (c ∷ rest) =
    (λ h. inr (rest, ground arith), λ h. elim h [ inl e ↦ cc | inr (more, e) ↦ ground arith ])

-- A route with a prefix serves exactly the paths that are its prefix, and then nothing or a '/'.
pub matches_iff :
    (route : Route) (path : Text)
    → is_empty route.listen_prefix ≡ false
    → (matches route path ≡ true)
      ↔ ((rest : Text) × (path ≡ route.listen_prefix ++ rest) × IsBoundary rest)
unfolding matches
matches_iff route path h = (
  λ m. elim (Option-cases (strip_prefix route.listen_prefix path)) [
    | inl e ↦ let stuck = rw (h, e) at m in cc
    | inr (rest, e) ↦
        (rest, eq_of_strip_prefix _ path rest e, (IsBoundary-iff rest).0 (rw (h, e) at m))
  ],
  λ (rest, e, b).
      rw (h, e) (rw (strip_prefix-append route.listen_prefix rest) ((IsBoundary-iff rest).1 b)),
)

prefix_of_matches :
    (route : Route) (path : Text)
    → matches route path ≡ true
    → (rest : Text) × (path ≡ route.listen_prefix ++ rest)
prefix_of_matches route path m = elim (Bool-cases (is_empty route.listen_prefix)) [
  | inl e ↦ (path, ground (arith, empty_lem route.listen_prefix e))
  | inr e ↦ let (rest, split, b) = (matches_iff route path e).0 m in (rest, split)
]
  where
    empty_lem : (p : Text) → is_empty p ≡ true → p ≡ []
    empty_lem [] h = refl
    empty_lem (c ∷ p) h = cc

same_prefix : (p q s t : Text) → length p ≡ length q → p ++ s ≡ q ++ t → p ≡ q
same_prefix [] [] s t l e = refl
same_prefix [] (y ∷ q) s t l e = absurd (omega arith)
same_prefix (x ∷ p) [] s t l e = absurd (omega arith)
same_prefix (x ∷ p) (y ∷ q) s t l e =
    ground (arith, same_prefix p q s t (omega arith) (ground arith))

-- Of the routes that serve a path, one of the longest prefix; the others have a shorter one or the same.
abbrev pub Yields : Route → Text → Route → Type 0
Yields best path r =
    (matches r path ≡ false) ⊎ ((size r < size best) ⊎ (r.listen_prefix ≡ best.listen_prefix))

later-Yields :
    (best : Route) (path : Text) (routes : List Route)
    → matches best path ≡ true
    → All (λ x. size x ≤ size best) routes
    → All (Yields best path) routes
later-Yields best path [] m h = tt
later-Yields best path (x ∷ routes) m (h, hs) =
    (one (Bool-cases (matches x path)), later-Yields best path routes m hs)
  where
    one : (matches x path ≡ true) ⊎ (matches x path ≡ false) → Yields best path x
    one (inr no_match) = inl no_match
    one (inl m') = elim (dec_lt (size x) (size best)) [
      | yes lt ↦ inr (inl lt)
      | no same ↦
          let (s, e) = prefix_of_matches x path m' in
          let (t, e') = prefix_of_matches best path m in
          inr (inr (same_prefix _ _ s t (omega arith) (sym e ∙ e')))
    ]

pub find-Yields :
    (path : Text) (routes : List Route) (best : Route)
    → LongestFirst routes
    → match_path routes path ≡ some best
    → Any (λ r. r ≡ best) routes × (matches best path ≡ true) × All (Yields best path) routes
unfolding match_path
find-Yields path [] best l e = cc
find-Yields path (r ∷ routes) best (l, ls) e = elim (Bool-cases (matches r path)) [
  | inl m ↦
      let same : r ≡ best = ground arith in
      subst
        (λ b.
          Any (λ x. x ≡ b) (r ∷ routes)
          × (matches b path ≡ true)
          × All (Yields b path) (r ∷ routes))
        same (inl refl, m, (inr (inr refl), later-Yields r path routes m l))
  | inr m ↦
      let (at, m', h) = find-Yields path routes best ls (ground arith) in (inr at, m', (inl m, h))
]
