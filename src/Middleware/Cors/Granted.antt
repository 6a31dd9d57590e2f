-- ===== src/Middleware/Cors/Granted.antt =====
-- Which cross-origin requests cors.rs grants, from the configuration to the response.
use g2way.Common.{
  ◌≡◌, refl, ap, subst, ◌∙◌, ℕ, Bool, true, false, not, ◌||◌, List, [], ◌∷◌, ◌++◌, map, Option,
  none, some, Text, codes, arith, if◌then◌else◌, any, keep, text_eq, ok, >>=-ok, ok_injective,
  ok_or, collect, HeaderMap, get_header, insert_header, get_header-insert, to_lower,
  to_ascii_lowercase, eq_ignore_ascii_case,
}
use g2way.Middleware.Rules.{to_ascii_uppercase}
use g2way.Middleware.Cors.{
  CorsConfig, CorsState, CorsRequest, CorsResponse, origin_header, allow_origin, allow_methods,
  allow_headers, allow_credentials, max_age_header, expose_headers, vary, request_headers,
  insert_some, insert_if, or_else, listed_in, origin_allowed, allow_origin_value, approve, decorate,
  finish, bad_method, from_config, joined, joined_some, age_value,
}

pub lower_twice : (t : Text) → to_ascii_lowercase (to_ascii_lowercase t) ≡ to_ascii_lowercase t
lower_twice [] = refl
lower_twice (c ∷ t) = rw (lower_twice t, byte c) refl
  where
    byte : (c : ℕ) → to_lower (to_lower c) ≡ to_lower c
    byte c = ground arith

-- The star and the listed origins, as one search of the configured list.
any_origin :
    (p : Text → Bool) (o : Text) (xs : List Text)
    → (any p xs
        || any (λ a. eq_ignore_ascii_case a o) (map to_ascii_lowercase (keep (λ x. not (p x)) xs)))
      ≡ any (λ x. p x || eq_ignore_ascii_case x o) xs
any_origin p o [] = refl
any_origin p o (x ∷ xs) = ground (arith, any_origin p o xs, lower_twice x)

module _ (header_value method_from_bytes : Text → Option Text) (digits : ℕ → Text) where
  -- The fields of a state that the decisions read.
  pub record IsFrom (config : CorsConfig) (st : CorsState) : Type 0 where
    pub wildcard : st.wildcard ≡ any (λ o. text_eq o (codes "*")) config.allowed_origins
    pub origins :
        st.origins
        ≡ map to_ascii_lowercase (keep (λ o. not (text_eq o (codes "*"))) config.allowed_origins)
    pub methods :
        collect
          (λ m. ok_or (method_from_bytes (to_ascii_uppercase m)) bad_method)
          config.allowed_methods
        ≡ ok st.allowed_methods
    pub headers : st.allowed_headers_lower ≡ map to_ascii_lowercase config.allowed_headers
    pub credentials : st.credentials ≡ config.allow_credentials
    pub passthrough : st.options_passthrough ≡ config.options_passthrough

  pub from_config-IsFrom :
      (config : CorsConfig) (st : CorsState)
      → from_config header_value method_from_bytes digits config ≡ ok st
      → IsFrom config st
  unfolding from_config
  from_config-IsFrom config st h =
      let (methods, e1, k1) = >>=-ok (collect _ config.allowed_methods) _ st h in
      let (value, e2, k2) =
        >>=-ok (joined header_value method_from_bytes digits _ methods) _ st k1 in
      let (headers, e3, k3) =
        >>=-ok (joined_some header_value method_from_bytes digits _ config.allowed_headers) _ st
          k2 in
      let (expose, e4, k4) =
        >>=-ok (joined_some header_value method_from_bytes digits _ config.exposed_headers) _ st
          k3 in
      let (age, e5, k5) =
        >>=-ok (age_value header_value method_from_bytes digits config.max_age_secs) _ st k4 in
      subst (IsFrom config) (ok_injective k5) (record {
        wildcard = refl;
        origins = refl;
        methods = e1;
        headers = refl;
        credentials = refl;
        passthrough = refl;
      })

-- The specification: who may read a response, and what the browser is told.
abbrev pub granted : CorsConfig → Option Text → Bool
granted config none = any (λ a. text_eq a (codes "*")) config.allowed_origins
granted config (some o) =
    any (λ a. text_eq a (codes "*") || eq_ignore_ascii_case a o) config.allowed_origins

abbrev pub told_origin : CorsConfig → Text → Text
told_origin config origin =
    if any (λ a. text_eq a (codes "*")) config.allowed_origins then codes "*" else origin

get_header-insert_some :
    (name other : Text) (v : Option Text) (hs : HeaderMap)
    → text_eq name other ≡ false
    → get_header other (insert_some name v hs) ≡ get_header other hs
get_header-insert_some name other none hs e = refl
get_header-insert_some name other (some v) hs e = get_header-insert name v other hs ∙ rw e refl

get_header-insert_if :
    (b : Bool) (name v other : Text) (hs : HeaderMap)
    → text_eq name other ≡ false
    → get_header other (insert_if b name v hs) ≡ get_header other hs
get_header-insert_if false name v other hs e = refl
get_header-insert_if true name v other hs e = get_header-insert name v other hs ∙ rw e refl

get_header-append :
    (name other v : Text) (hs : HeaderMap)
    → text_eq other name ≡ false
    → get_header other (hs ++ ((name, v) ∷ [])) ≡ get_header other hs
get_header-append name other v [] e = rw e refl
get_header-append name other v ((n, w) ∷ hs) e = rw (get_header-append name other v hs e) refl

module _ (to_str method_from_bytes : Text → Option Text) where
  pub approve-allow_origin :
      (st : CorsState) (req : CorsRequest) (origin : Text) (hs : HeaderMap)
      → get_header allow_origin (approve to_str method_from_bytes st req origin hs)
        ≡ some (allow_origin_value to_str method_from_bytes st origin)
  unfolding approve text_eq
  approve-allow_origin st req origin hs =
      let h1 =
        insert_header allow_origin (allow_origin_value to_str method_from_bytes st origin) hs in
      let h2 = insert_header allow_methods st.allow_methods_value h1 in
      let asked = or_else st.allow_headers_value (get_header request_headers req.headers) in
      let h3 = insert_some allow_headers asked h2 in
      let h4 = insert_if st.credentials allow_credentials (codes "true") h3 in
      get_header-insert_some max_age_header allow_origin st.max_age h4 refl
      ∙ get_header-insert_if st.credentials allow_credentials (codes "true") allow_origin h3 refl
      ∙ get_header-insert_some allow_headers allow_origin asked h2 refl
      ∙ get_header-insert allow_methods st.allow_methods_value allow_origin h1
      ∙ get_header-insert allow_origin _ allow_origin hs

  decorate-allow_origin :
      (st : CorsState) (origin : Text) (hs : HeaderMap)
      → get_header allow_origin (decorate to_str method_from_bytes st origin hs)
        ≡ some (allow_origin_value to_str method_from_bytes st origin)
  unfolding decorate text_eq
  decorate-allow_origin st origin hs =
      let h1 =
        insert_header allow_origin (allow_origin_value to_str method_from_bytes st origin) hs in
      let h2 = insert_if st.credentials allow_credentials (codes "true") h1 in
      get_header-insert_some expose_headers allow_origin st.expose_headers_value h2 refl
      ∙ get_header-insert_if st.credentials allow_credentials (codes "true") allow_origin h1 refl
      ∙ get_header-insert allow_origin _ allow_origin hs

  -- The two choices of `finish`, whichever way they go.
  choices :
      (allowed wildcard : Bool) (hs decorated : HeaderMap) (v : Text)
      → get_header allow_origin decorated ≡ some v
      → get_header allow_origin (
          let headers = (if allowed then decorated else hs) in
          if wildcard then headers else headers ++ ((vary, origin_header) ∷ []))
        ≡ (if allowed then some v else get_header allow_origin hs)
  unfolding text_eq
  choices true true hs decorated v e = e
  choices true false hs decorated v e =
      get_header-append vary allow_origin origin_header decorated refl ∙ e
  choices false true hs decorated v e = refl
  choices false false hs decorated v e = get_header-append vary allow_origin origin_header hs refl

  pub finish-allow_origin :
      (st : CorsState) (origin : Text) (resp : CorsResponse)
      → get_header allow_origin (finish to_str method_from_bytes st origin resp).headers ≡ (
          if origin_allowed to_str method_from_bytes st origin
          then some (allow_origin_value to_str method_from_bytes st origin)
          else get_header allow_origin resp.headers)
  finish-allow_origin st origin resp =
      choices (origin_allowed to_str method_from_bytes st origin) st.wildcard resp.headers _ _
        (decorate-allow_origin st origin resp.headers)

  pub origin_allowed-granted :
      (header_value : Text → Option Text) (digits : ℕ → Text) (config : CorsConfig) (st : CorsState)
      (origin : Text)
      → IsFrom header_value method_from_bytes digits config st
      → origin_allowed to_str method_from_bytes st origin ≡ granted config (to_str origin)
  unfolding origin_allowed
  origin_allowed-granted header_value digits config st origin h = by_text (to_str origin)
    where
      if_or : (b x : Bool) → (if b then true else x) ≡ (b || x)
      if_or b x = ground arith

      by_text :
          (o : Option Text)
          → (if st.wildcard then true else listed_in st.origins o) ≡ granted config o
      by_text none = if_or st.wildcard false ∙ ap (λ b. b || false) h.wildcard ∙ or_false _
        where
          or_false : (b : Bool) → (b || false) ≡ b
          or_false b = ground arith
      by_text (some o) =
          if_or st.wildcard (listed_in st.origins (some o))
          ∙ ap (λ b. b || listed_in st.origins (some o)) h.wildcard
          ∙ ap
              (λ xs.
                any (λ a. text_eq a (codes "*")) config.allowed_origins || listed_in xs (some o))
              h.origins
          ∙ any_origin (λ a. text_eq a (codes "*")) o config.allowed_origins
