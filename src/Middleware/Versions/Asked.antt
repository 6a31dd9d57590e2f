-- ===== src/Middleware/Versions/Asked.antt =====
-- What version a request asks versioning.rs for, by the configuration of the API.
use g2way.Common.{
  HeaderMap, get_header, split, split_once, trim, find_map, and_then, ◌≡◌, refl, sym, ap, ◌∙◌, inl,
  inr, List, [], ◌∷◌, Option, none, some, Text, text_eq, if◌then◌else◌, ok, ok_or_ok, ok_injective,
  Bool-cases,
}
use g2way.Middleware.Versions.{
  header, query_param, VersionLocation, named_value, carried, some_name, VersioningConfig,
  VersionRequest, bad_key, selector_name, requested,
}

abbrev pub own_value : Text → Option (Text × Text) → Option Text → Option Text
own_value key none rest = rest
own_value key (some (k, v)) rest = if text_eq k key then some (trim v) else rest

-- The specification of what a request asks for: the first value of the parameter in a query.
abbrev pub first_value : Text → List Text → Option Text
first_value key [] = none
first_value key (pair ∷ pairs) =
    let rest = first_value key pairs in own_value key (split_once 61 pair) rest

abbrev pub unless_blank : Option Text → Option Text
unless_blank none = none
unless_blank (some []) = none
unless_blank (some (c ∷ name)) = some (c ∷ name)

module _ (to_str header_name : Text → Option Text) where
  abbrev pub header_text : Option Text → Option Text
  header_text none = none
  header_text (some raw) = elim (to_str raw) [ none ↦ none | some value ↦ some (trim value) ]

  abbrev pub header_value_of : Option Text → HeaderMap → Option Text
  header_value_of none hs = none
  header_value_of (some name) hs = header_text (get_header name hs)

  abbrev pub query_text : Text → Option Text → Option Text
  query_text key none = none
  query_text key (some query) = first_value key (split 38 query)

  -- The version that a request names in the header, or else the query parameter, that the API
  -- configures.
  abbrev pub asked_at : VersionLocation → Text → VersionRequest → Option Text
  asked_at header key req = header_value_of (header_name key) req.headers
  asked_at query_param key req = query_text key req.query

  abbrev pub asked : VersioningConfig → VersionRequest → Option Text
  asked config req = unless_blank (asked_at config.location config.key req)

  find_map-first_value :
      (key : Text) (pairs : List Text) → find_map (named_value key) pairs ≡ first_value key pairs
  find_map-first_value key [] = refl
  find_map-first_value key (pair ∷ pairs) =
      by_pair (split_once 61 pair) (find_map-first_value key pairs)
    where
      by_pair :
          (o : Option (Text × Text))
          → find_map (named_value key) pairs ≡ first_value key pairs
          → (elim (and_then o (λ (k, v). if text_eq k key then some (trim v) else none)) [
            | none ↦ find_map (named_value key) pairs
            | some y ↦ some y
          ])
            ≡ own_value key o (first_value key pairs)
      by_pair none ih = ih
      by_pair (some (k, v)) ih = elim (Bool-cases (text_eq k key)) [
        | inl own ↦ rw own refl
        | inr other ↦ rw other ih
      ]

  carried-asked_at :
      (location : VersionLocation) (key name : Text) (req : VersionRequest)
      → selector_name header_name location key ≡ ok name
      → carried to_str location name req ≡ asked_at location key req
  carried-asked_at header key name req h =
      rw (ok_or_ok (header_name key) bad_key name h) (by_value (get_header name req.headers))
    where
      by_text :
          (o : Option Text)
          → and_then o (λ value. some (trim value))
            ≡ elim o [ none ↦ none | some value ↦ some (trim value) ]
      by_text none = refl
      by_text (some value) = refl

      by_value :
          (o : Option Text)
          → and_then o (λ raw. and_then (to_str raw) (λ value. some (trim value))) ≡ header_text o
      by_value none = refl
      by_value (some raw) = by_text (to_str raw)
  carried-asked_at query_param key name req h =
      let same : key ≡ name = ok_injective h in rw (sym same) (by_query req.query)
    where
      by_query :
          (o : Option Text)
          → and_then o (λ query. find_map (named_value key) (split 38 query)) ≡ query_text key o
      by_query none = refl
      by_query (some query) = find_map-first_value key (split 38 query)

  pub requested-asked :
      (config : VersioningConfig) (name : Text) (req : VersionRequest)
      → selector_name header_name config.location config.key ≡ ok name
      → requested to_str config.location name req ≡ asked config req
  unfolding requested
  requested-asked config name req h =
      ap (λ o. and_then o some_name) (carried-asked_at config.location config.key name req h)
      ∙ not_blank (asked_at config.location config.key req)
    where
      not_blank : (o : Option Text) → and_then o some_name ≡ unless_blank o
      not_blank none = refl
      not_blank (some []) = refl
      not_blank (some (c ∷ name)) = refl
