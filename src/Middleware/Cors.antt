-- ===== src/Middleware/Cors.antt =====
-- crates/g2-middleware/src/cors.rs: the CORS layer of an API.
--
-- The checks of header values and of method names are parameters, as is the service below, which
-- changes a state of its own.
pub mod Granted
pub mod Asked
pub mod Answers
pub mod Tests
use g2way.Common.{
  ℕ, Bool, true, false, not, ◌&&◌, ◌||◌, List, [], ◌∷◌, ◌++◌, map, Option, none, some, Text, codes,
  if◌then◌else◌, any, all, keep, is_empty, text_eq, Result, ok, err, ok_or, ◌>>=◌, collect,
  HeaderMap, get_header, insert_header, split, trim, join, to_ascii_lowercase, eq_ignore_ascii_case,
  and_then,
}
use g2way.Core.Session.{is_some}
use g2way.Middleware.Rules.{to_ascii_uppercase}

pub record CorsConfig : Type 0 where
  pub allowed_origins : List Text
  pub allowed_methods : List Text
  pub allowed_headers : List Text
  pub exposed_headers : List Text
  pub allow_credentials : Bool
  pub max_age_secs : Option ℕ
  pub options_passthrough : Bool

pub record CorsState : Type 0 where
  pub wildcard : Bool
  pub origins : List Text
  pub allowed_methods : List Text
  pub allow_methods_value : Text
  pub allow_headers_value : Option Text
  pub allowed_headers_lower : List Text
  pub expose_headers_value : Option Text
  pub credentials : Bool
  pub max_age : Option Text
  pub options_passthrough : Bool

pub record CorsRequest : Type 0 where
  pub method : Text
  pub headers : HeaderMap

pub record CorsResponse : Type 0 where
  pub status : ℕ
  pub headers : HeaderMap

pub data CorsError : Type 0 where
  bad_method bad_methods_value bad_headers_value bad_expose_value bad_max_age : CorsError

abbrev pub origin_header : Text
origin_header = codes "origin"

abbrev pub allow_origin : Text
allow_origin = codes "access-control-allow-origin"

abbrev pub allow_methods : Text
allow_methods = codes "access-control-allow-methods"

abbrev pub allow_headers : Text
allow_headers = codes "access-control-allow-headers"

abbrev pub allow_credentials : Text
allow_credentials = codes "access-control-allow-credentials"

abbrev pub request_method : Text
request_method = codes "access-control-request-method"

abbrev pub request_headers : Text
request_headers = codes "access-control-request-headers"

abbrev pub max_age_header : Text
max_age_header = codes "access-control-max-age"

abbrev pub expose_headers : Text
expose_headers = codes "access-control-expose-headers"

abbrev pub vary : Text
vary = codes "vary"

abbrev pub preflight_vary : Text
preflight_vary = codes "origin, access-control-request-method, access-control-request-headers"

-- `if let Some(value) = o { headers.insert(name, value) }`.
abbrev pub insert_some : Text → Option Text → HeaderMap → HeaderMap
insert_some name none hs = hs
insert_some name (some v) hs = insert_header name v hs

abbrev pub insert_if : Bool → Text → Text → HeaderMap → HeaderMap
insert_if b name v hs = if b then insert_header name v hs else hs

abbrev pub or_else : Option Text → Option Text → Option Text
or_else none other = other
or_else (some t) other = some t

-- Whether an origin is listed; one that is no text is not.
abbrev pub listed_in : List Text → Option Text → Bool
listed_in origins none = false
listed_in origins (some o) = any (λ allowed. eq_ignore_ascii_case allowed o) origins

module _ (to_str method_from_bytes : Text → Option Text) where
  unfoldable pub origin_allowed : CorsState → Text → Bool
  origin_allowed st origin = if st.wildcard then true else listed_in st.origins (to_str origin)

  unfoldable pub allow_origin_value : CorsState → Text → Text
  allow_origin_value st origin = if st.wildcard then codes "*" else origin

  unfoldable pub preflight_method_allowed : CorsState → HeaderMap → Bool
  preflight_method_allowed st headers =
      elim (and_then (get_header request_method headers) method_from_bytes) [
        | none ↦ false
        | some m ↦ any (λ allowed. text_eq allowed m) st.allowed_methods
      ]

  -- The names that a preflight asks for.
  abbrev pub requested_names : Text → List Text
  requested_names requested = keep (λ name. not (is_empty name)) (map trim (split 44 requested))

  abbrev pub names_allowed : List Text → Option Text → Bool
  names_allowed allowed none = false
  names_allowed allowed (some requested) =
      all (λ name. any (λ a. eq_ignore_ascii_case a name) allowed) (requested_names requested)

  unfoldable pub preflight_headers_allowed : CorsState → HeaderMap → Bool
  preflight_headers_allowed st headers =
      is_empty st.allowed_headers_lower || elim (get_header request_headers headers) [
        | none ↦ true
        | some raw ↦ names_allowed st.allowed_headers_lower (to_str raw)
      ]

  -- What an approved preflight is told.
  unfoldable pub approve : CorsState → CorsRequest → Text → HeaderMap → HeaderMap
  unfolding allow_origin_value
  approve st req origin headers =
      let h1 = insert_header allow_origin (allow_origin_value st origin) headers in
      let h2 = insert_header allow_methods st.allow_methods_value h1 in
      let asked = or_else st.allow_headers_value (get_header request_headers req.headers) in
      let h3 = insert_some allow_headers asked h2 in
      let h4 = insert_if st.credentials allow_credentials (codes "true") h3 in
      insert_some max_age_header st.max_age h4

  unfoldable pub preflight_response : CorsState → CorsRequest → Text → CorsResponse
  preflight_response st req origin =
      let headers = insert_header vary preflight_vary [] in
      record {
        status = 204;
        headers =
            if not (origin_allowed st origin)
              || not (preflight_method_allowed st req.headers)
              || not (preflight_headers_allowed st req.headers)
            then headers
            else approve st req origin headers;
      }

  unfoldable pub decorate : CorsState → Text → HeaderMap → HeaderMap
  decorate st origin headers =
      let h1 = insert_header allow_origin (allow_origin_value st origin) headers in
      let h2 = insert_if st.credentials allow_credentials (codes "true") h1 in
      insert_some expose_headers st.expose_headers_value h2

  abbrev pub is_preflight : CorsRequest → Bool
  is_preflight req =
      text_eq req.method (codes "OPTIONS") && is_some (get_header request_method req.headers)

  -- `append` puts a value behind those that are there.
  abbrev pub finish : CorsState → Text → CorsResponse → CorsResponse
  finish st origin resp =
      let headers =
        (if origin_allowed st origin then decorate st origin resp.headers else resp.headers) in
      record resp {
        headers = if st.wildcard then headers else headers ++ ((vary, origin_header) ∷ []);
      }

  module _ {S : Type 0} (inner : CorsRequest → S → CorsResponse × S) where
    abbrev pub call_with : CorsState → CorsRequest → Option Text → S → CorsResponse × S
    call_with st req none s = inner req s
    call_with st req (some origin) s =
        let (resp, s') = inner req s in
        if is_preflight req && not st.options_passthrough
        then (preflight_response st req origin, s)
        else (finish st origin resp, s')

    unfoldable pub call : CorsState → CorsRequest → S → CorsResponse × S
    call st req s = call_with st req (get_header origin_header req.headers) s

-- `HeaderValue::from_str`, `Method::from_bytes` and the decimal digits of a number.
module _ (header_value method_from_bytes : Text → Option Text) (digits : ℕ → Text) where
  abbrev pub joined : CorsError → List Text → Result Text CorsError
  joined e names = ok_or (header_value (join (codes ", ") names)) e

  abbrev pub joined_some : CorsError → List Text → Result (Option Text) CorsError
  joined_some e names =
      if is_empty names then ok none else joined e names >>= λ value. ok (some value)

  abbrev pub age_value : Option ℕ → Result (Option Text) CorsError
  age_value none = ok none
  age_value (some secs) =
      ok_or (header_value (digits secs)) bad_max_age >>= λ value. ok (some value)

  unfoldable pub from_config : CorsConfig → Result CorsState CorsError
  from_config config = do
    methods ←
        collect (λ m. ok_or (method_from_bytes (to_ascii_uppercase m)) bad_method)
          config.allowed_methods
    methods_value ← joined bad_methods_value methods
    headers_value ← joined_some bad_headers_value config.allowed_headers
    expose_value ← joined_some bad_expose_value config.exposed_headers
    age ← age_value config.max_age_secs
    ok (record {
      wildcard = any (λ o. text_eq o (codes "*")) config.allowed_origins;
      origins =
          map to_ascii_lowercase (keep (λ o. not (text_eq o (codes "*"))) config.allowed_origins);
      allowed_methods = methods;
      allow_methods_value = methods_value;
      allow_headers_value = headers_value;
      allowed_headers_lower = map to_ascii_lowercase config.allowed_headers;
      expose_headers_value = expose_value;
      credentials = config.allow_credentials;
      max_age = age;
      options_passthrough = config.options_passthrough;
    })
