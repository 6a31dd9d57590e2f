-- ===== src/Middleware/Auth/Tokens.antt =====
-- The credentials of auth.rs: where a token may stand in a request, and the `Basic` scheme.
--
-- `HeaderValue::to_str`, which lets ASCII text through only, and base64 and UTF-8 decoding are
-- parameters.
use g2way.Common.{
  Bool, not, ◌&&◌, Option, none, some, Text, codes, if◌then◌else◌, is_empty, text_eq, HeaderMap,
  get_header, get_all, split, split_once, split_at_checked, trim_start, trim, eq_ignore_ascii_case,
  find_map, and_then,
}

-- What the layer reads of a request.
pub record AuthRequest : Type 0 where
  pub method : Text
  pub path_and_query : Text
  pub query : Option Text
  pub headers : HeaderMap
  pub client_cert_fingerprint : Option Text
  pub auth_bypass : Bool

unfoldable pub strip_bearer : Text → Text
strip_bearer value = elim (split_at_checked 7 value) [
  | none ↦ value
  | some (scheme, rest) ↦
      if eq_ignore_ascii_case scheme (codes "bearer ") then trim_start rest else value
]

unfoldable pub strip_basic : Text → Option Text
strip_basic value = elim (split_at_checked 6 value) [
  | none ↦ none
  | some (scheme, rest) ↦
      if eq_ignore_ascii_case scheme (codes "basic ") then some (trim rest) else none
]

-- The value of a `k=v` piece that has the name and a value.
unfoldable pub pair_value : Text → Text → Option Text
unfolding split_once
pair_value name piece = elim (split_once 61 piece) [
  | none ↦ none
  | some (k, v) ↦ if text_eq k name && not (is_empty v) then some v else none
]

abbrev pub or_else : Option Text → Option Text → Option Text
or_else none other = other
or_else (some t) other = some t

module _ (to_str : Text → Option Text) where
  unfoldable pub header_token : Text → HeaderMap → Option Text
  unfolding strip_bearer
  header_token header headers = and_then (get_header header headers) λ raw.
      and_then (to_str raw) λ value.
        let token = strip_bearer (trim value) in if is_empty token then none else some token

  unfoldable pub query_token : Option Text → Option Text → Option Text
  query_token query_param query =
      and_then query_param λ param. and_then query λ q. find_map (pair_value param) (split 38 q)

  unfoldable pub cookie_token : Option Text → HeaderMap → Option Text
  cookie_token cookie headers = and_then cookie λ name.
      find_map
        (λ raw.
          and_then (to_str raw)
            λ value. find_map (λ part. pair_value name (trim part)) (split 59 value))
        (get_all (codes "cookie") headers)

  unfoldable pub extract_token : Text → Option Text → Option Text → AuthRequest → Option Text
  unfolding header_token query_token cookie_token
  extract_token header query_param cookie req =
      or_else (header_token header req.headers)
        (or_else (query_token query_param req.query) (cookie_token cookie req.headers))

module _ (to_str decode from_utf8 : Text → Option Text) where
  unfoldable pub extract_basic_credentials : AuthRequest → Option (Text × Text)
  unfolding strip_basic split_once
  extract_basic_credentials req = and_then (get_header (codes "authorization") req.headers) λ raw.
      and_then (to_str raw) λ value. and_then (strip_basic (trim value)) λ encoded.
        and_then (decode encoded) λ bytes. and_then (from_utf8 bytes) λ decoded.
          and_then (split_once 58 decoded)
            λ (username, password). if is_empty username then none else some (username, password)
