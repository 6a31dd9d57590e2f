-- ===== src/Middleware/Cors/Asked.antt =====
-- What a preflight of cors.rs asks for, and whether the configuration lists it.
use g2way.Common.{
  ◌≡◌, ℕ, refl, sym, subst, Bool, true, false, not, ◌||◌, List, [], ◌∷◌, map, Option, none, some,
  Text, arith, any, all, keep, is_empty, text_eq, ok, ok_or, ok_or_ok, ok_injective, collect,
  collect_cons, HeaderMap, get_header, split, trim, to_ascii_lowercase, eq_ignore_ascii_case,
  and_then,
}
use g2way.Middleware.Rules.{to_ascii_uppercase}
use g2way.Middleware.Cors.{
  CorsConfig, CorsState, bad_method, request_method, request_headers, names_allowed,
  preflight_method_allowed, preflight_headers_allowed,
}
use g2way.Middleware.Cors.Granted.{IsFrom, lower_twice}

module _ (to_str method_from_bytes : Text → Option Text) where
  abbrev pub is_method : Text → Option Text → Bool
  is_method m none = false
  is_method m (some allowed) = text_eq allowed m

  -- A method that is one, and that the configuration has, in either case.
  abbrev pub method_listed : List Text → Option Text → Bool
  method_listed methods none = false
  method_listed methods (some m) =
      any (λ a. is_method m (method_from_bytes (to_ascii_uppercase a))) methods

  abbrev pub as_method : Option Text → Option Text
  as_method none = none
  as_method (some raw) = method_from_bytes raw

  abbrev pub method_granted : CorsConfig → HeaderMap → Bool
  method_granted config hs =
      method_listed config.allowed_methods (as_method (get_header request_method hs))

  abbrev pub name_listed : List Text → Text → Bool
  name_listed names name = any (λ a. eq_ignore_ascii_case a name) names

  -- Every piece between commas that is not blank.
  abbrev pub names_listed : List Text → Option Text → Bool
  names_listed names none = false
  names_listed names (some asked) =
      all (λ piece. is_empty (trim piece) || name_listed names (trim piece)) (split 44 asked)

  -- A configuration without names allows any.
  abbrev pub headers_listed : List Text → Option Text → Bool
  headers_listed [] asked = true
  headers_listed (name ∷ names) none = true
  headers_listed (name ∷ names) (some raw) = names_listed (name ∷ names) (to_str raw)

  abbrev pub headers_granted : CorsConfig → HeaderMap → Bool
  headers_granted config hs = headers_listed config.allowed_headers (get_header request_headers hs)

  collect-any :
      (m : Text) (methods compiled : List Text)
      → collect (λ a. ok_or (method_from_bytes (to_ascii_uppercase a)) bad_method) methods
        ≡ ok compiled
      → any (λ allowed. text_eq allowed m) compiled ≡ method_listed methods (some m)
  collect-any m [] compiled h = let e = ok_injective h in rw (sym e) refl
  collect-any m (a ∷ methods) compiled h =
      let (one, rest, first, more, is) =
        collect_cons (λ a. ok_or (method_from_bytes (to_ascii_uppercase a)) bad_method) a methods
          compiled h in
      let named = ok_or_ok (method_from_bytes (to_ascii_uppercase a)) bad_method one first in
      rw (is, named, collect-any m methods rest more) refl

  any_lower :
      (name : Text) (names : List Text)
      → any (λ a. eq_ignore_ascii_case a name) (map to_ascii_lowercase names)
        ≡ name_listed names name
  any_lower name [] = refl
  any_lower name (a ∷ names) = rw (lower_twice a, any_lower name names) refl

  all_asked :
      (names pieces : List Text)
      → all
          (λ name. any (λ a. eq_ignore_ascii_case a name) (map to_ascii_lowercase names))
          (keep (λ name. not (is_empty name)) (map trim pieces))
        ≡ all (λ piece. is_empty (trim piece) || name_listed names (trim piece)) pieces
  all_asked names [] = refl
  all_asked names (piece ∷ pieces) =
      ground (arith, all_asked names pieces, any_lower (trim piece) names)

  names_allowed-listed :
      (names : List Text) (asked : Option Text)
      → names_allowed to_str method_from_bytes (map to_ascii_lowercase names) asked
        ≡ names_listed names asked
  names_allowed-listed names none = refl
  names_allowed-listed names (some asked) = all_asked names (split 44 asked)

  module _ (header_value : Text → Option Text) (digits : ℕ → Text) (config : CorsConfig)
      (st : CorsState) (h : IsFrom header_value method_from_bytes digits config st) where
    pub preflight_method_allowed-granted :
        (hs : HeaderMap)
        → preflight_method_allowed to_str method_from_bytes st hs ≡ method_granted config hs
    unfolding preflight_method_allowed
    preflight_method_allowed-granted hs = by_raw (get_header request_method hs)
      where
        by_method :
            (o : Option Text)
            → (elim o [ none ↦ false | some m ↦ any (λ a. text_eq a m) st.allowed_methods ])
              ≡ method_listed config.allowed_methods o
        by_method none = refl
        by_method (some m) = collect-any m config.allowed_methods st.allowed_methods h.methods

        by_raw :
            (o : Option Text)
            → (elim (and_then o method_from_bytes) [
              | none ↦ false
              | some m ↦ any (λ a. text_eq a m) st.allowed_methods
            ])
              ≡ method_listed config.allowed_methods (as_method o)
        by_raw none = refl
        by_raw (some raw) = by_method (method_from_bytes raw)

    pub preflight_headers_allowed-granted :
        (hs : HeaderMap)
        → preflight_headers_allowed to_str method_from_bytes st hs ≡ headers_granted config hs
    unfolding preflight_headers_allowed
    preflight_headers_allowed-granted hs =
        subst
          (λ lower.
            (is_empty lower || elim (get_header request_headers hs) [
              | none ↦ true
              | some raw ↦ names_allowed to_str method_from_bytes lower (to_str raw)
            ])
            ≡ headers_granted config hs)
          (sym h.headers) (by_names config.allowed_headers (get_header request_headers hs))
      where
        by_names :
            (names : List Text) (o : Option Text)
            → (is_empty (map to_ascii_lowercase names) || elim o [
              | none ↦ true
              | some raw ↦
                  names_allowed to_str method_from_bytes (map to_ascii_lowercase names) (to_str raw)
            ])
              ≡ headers_listed names o
        by_names [] o = refl
        by_names (name ∷ names) none = refl
        by_names (name ∷ names) (some raw) = names_allowed-listed (name ∷ names) (to_str raw)
