-- ===== src/Middleware/Auth/Tests.antt =====
-- The auth layer of auth.rs at concrete inputs.
use g2way.Common.{
  ◌≡◌, ◌↔◌, refl, ℕ, true, false, List, [], ◌∷◌, none, some, Text, codes, ok, err, lookup, text_eq,
  split_once, if◌then◌else◌,
}
use g2way.Core.Session.{
  KeySession, default, is_expired, allows_api, session_storage_key, session_key_prefix,
}
use g2way.Core.Policy.{Policy, policy_key_prefix, policy_storage_key, apply_policy}
use g2way.Middleware.Reads.{◌>>=◌, ◌>>◌, some_or, reject_if, Ends}
use g2way.Middleware.Auth.{
  forbidden, Backend, Codec, Api, hash_key, read, fetch_active_policy, resolve_policy, admit,
  authenticate_stored_token,
}
use g2way.Middleware.Auth.Tokens.{
  AuthRequest, strip_bearer, strip_basic, pair_value, header_token, query_token, cookie_token,
  extract_token, extract_basic_credentials,
}
use g2way.Middleware.Auth.Decision.{
  Granted, Refused, authenticate_stored_token-Ends, authenticate_stored_token-Granted,
}
use g2way.Middleware.Auth.Owners.{IsAnswer}
use g2way.Middleware.Auth.Secrets.{
  hmac_sha256, Verifiers, as_str, dummy_bcrypt_hash, dummy_hmac_secret, basic_challenge_error,
  find_algorithm, date_is_fresh, signature_params, read_session, authenticate_basic,
  authenticate_hmac,
}
use g2way.Middleware.Auth.Verified.{
  OwnsPassword, OwnsSignature, authenticate_basic-OwnsPassword, authenticate_hmac-OwnsSignature,
}
use g2way.Middleware.Auth.Claims.{
  JsonTokens, claimed_session, resolve_jwks_key, verify_jwt_claims, authenticate_jwt, map_policy,
  build_oidc_session,
}
use g2way.Middleware.Auth.Modes.{basic, Clocks, authenticate, bypassed, answered, call}
use g2way.Middleware.Auth.Answers.{IsFor, authenticate-IsAnswer}

runs : Unit {0}
unfolding hash_key read fetch_active_policy resolve_policy admit authenticate_stored_token
    strip_bearer strip_basic pair_value header_token query_token cookie_token extract_token
    extract_basic_credentials as_str dummy_bcrypt_hash dummy_hmac_secret basic_challenge_error
    find_algorithm date_is_fresh signature_params read_session authenticate_basic authenticate_hmac
    claimed_session resolve_jwks_key verify_jwt_claims authenticate_jwt map_policy
    build_oidc_session authenticate call ◌>>=◌ ◌>>◌ some_or reject_if default is_expired allows_api
    session_storage_key session_key_prefix policy_key_prefix policy_storage_key apply_policy lookup
    text_eq split_once
runs = tt

-- A store is a list of records; the text of a session or a policy is its name.
abbrev Store : Type 0
Store = List (Text × Text)

abbrev shop : Api
shop = record { api_id = codes "shop"; org_id = codes "acme" }

abbrev gold : Policy
gold = record {
  policy_id = codes "gold";
  name = codes "Gold";
  org_id = codes "acme";
  active = true;
  rate = none;
  quota = none;
  access = [];
}

abbrev alice : KeySession
alice = record {
  org_id = codes "acme";
  alias = none;
  rate = none;
  quota = none;
  expires_at = some 500;
  active = true;
  access = [];
  basic_auth = some (codes "pw");
  hmac = some (codes "k");
  apply_policies = codes "gold" ∷ [];
}

abbrev toy_backend : Backend Store ℕ
toy_backend = record { get = λ key s. (ok (lookup key s), s); key_for = λ kid s. (some 7, s) }

abbrev toy_codec : Codec
toy_codec = record {
  parse_session = λ t. if text_eq t (codes "alice") then some alice else none;
  parse_policy = λ t. if text_eq t (codes "gold") then some gold else none;
  sha256_hex = λ t. t;
}

-- Passwords stand for their hashes, signatures for their secrets, dates for no time at all.
abbrev toy_verifiers : Verifiers
toy_verifiers = record {
  to_str = λ t. some t;
  base64_decode = λ t. some t;
  from_utf8 = λ t. some t;
  parse_http_date = λ t. some 100;
  bcrypt_verify = λ password hash. some (some (text_eq password hash));
  verify_mac = λ a secret message signature. text_eq secret signature;
}

abbrev toy_tokens : JsonTokens ℕ Text
toy_tokens = record {
  decode_header = λ t. some (some t);
  decode = λ key validation t. some t;
  get_str = λ claim t. some t;
  get_u64 = λ claim t. some 900;
}

abbrev store : Store
store =
    (codes "g2:acme:apikey:tok", codes "alice")
    ∷ (codes "g2:acme:apikey:basic:al", codes "alice")
    ∷ (codes "g2:acme:apikey:hmac:id", codes "alice")
    ∷ (codes "g2:acme:policy:gold", codes "gold")
    ∷ []

abbrev with_header : Text → AuthRequest
with_header value = record {
  method = codes "GET";
  path_and_query = codes "/a";
  query = some (codes "x=1&token=tok");
  headers = (codes "authorization", value) ∷ (codes "date", codes "now") ∷ [];
  client_cert_fingerprint = none;
  auth_bypass = false;
}

abbrev signed_header : Text
signed_header = codes "Signature keyId=\"id\",algorithm=\"hmac-sha256\",signature=\"k\""

abbrev at_100 : Clocks
at_100 = record { skew_now = 100; expiry_now = 100 }

-- A token in a header, with and without the scheme, and one in the query.
bearer-tok :
    extract_token
      (λ t. some t)
      (codes "authorization")
      none
      none
      (with_header (codes " bEARER  tok"))
    ≡ some (codes "tok")
unfolding runs
bearer-tok = refl

query-tok :
    extract_token (λ t. some t) (codes "x-key") (some (codes "token")) none (with_header [])
    ≡ some (codes "tok")
unfolding runs
query-tok = refl

password_with_colon :
    extract_basic_credentials
      (λ t. some t)
      (λ t. some t)
      (λ t. some t)
      (with_header (codes "basic al:p:w"))
    ≡ some (codes "al", codes "p:w")
unfolding runs
password_with_colon = refl

-- The session lives until 500; afterwards the same token is refused.
tok-passes :
    (authenticate_stored_token toy_backend toy_codec shop 499 (codes "tok") store).0
    ≡ ok (record { key_hash = codes "tok"; session = apply_policy alice gold })
unfolding runs
tok-passes = refl

tok-expires :
    authenticate_stored_token toy_backend toy_codec shop 500 (codes "tok") store
    ≡ (err forbidden, store)
unfolding runs
tok-expires = refl

wrong_password :
    call toy_backend toy_codec toy_verifiers toy_tokens shop at_100
      (basic (codes "c"))
      (with_header (codes "Basic al:no"))
      store
    ≡ (answered forbidden, store)
unfolding runs
wrong_password = refl

bypass-passes :
    call toy_backend toy_codec toy_verifiers toy_tokens shop at_100
      (basic (codes "c"))
      (record (with_header []) { auth_bypass = true })
      store
    ≡ (bypassed, store)
unfolding runs
bypass-passes = refl

authenticate_stored_token-Granted_example :
    (authenticate_stored_token toy_backend toy_codec shop 100 (codes "tok") store
      ≡ (ok (record { key_hash = codes "tok"; session = apply_policy alice gold }), store))
    ↔ Granted toy_backend toy_codec shop 100
        (codes "tok")
        store
        (record { key_hash = codes "tok"; session = apply_policy alice gold })
        store
authenticate_stored_token-Granted_example =
    authenticate_stored_token-Granted toy_backend toy_codec shop 100 (codes "tok") store
      (record { key_hash = codes "tok"; session = apply_policy alice gold }) store

authenticate_stored_token-Ends_example :
    Ends
      (Granted toy_backend toy_codec shop 500 (codes "tok") store)
      (Refused toy_backend toy_codec shop 500 (codes "tok") store)
      (authenticate_stored_token toy_backend toy_codec shop 500 (codes "tok") store)
authenticate_stored_token-Ends_example =
    authenticate_stored_token-Ends toy_backend toy_codec shop 500 (codes "tok") store

authenticate_basic-OwnsPassword_example :
    Ends
      (OwnsPassword toy_backend toy_codec toy_verifiers shop 100
        (with_header (codes "Basic al:pw"))
        store)
      IsAnswer
      (authenticate_basic toy_backend toy_codec toy_verifiers shop 100
        (codes "c")
        (with_header (codes "Basic al:pw"))
        store)
authenticate_basic-OwnsPassword_example =
    authenticate_basic-OwnsPassword toy_backend toy_codec toy_verifiers shop 100 (codes "c")
      (with_header (codes "Basic al:pw")) store

authenticate_hmac-OwnsSignature_example :
    Ends
      (OwnsSignature toy_backend toy_codec toy_verifiers shop 100 100
        (hmac_sha256 ∷ [])
        (some 30)
        (with_header signed_header)
        store)
      IsAnswer
      (authenticate_hmac toy_backend toy_codec toy_verifiers shop 100 100
        (hmac_sha256 ∷ [])
        (some 30)
        (with_header signed_header)
        store)
authenticate_hmac-OwnsSignature_example =
    authenticate_hmac-OwnsSignature toy_backend toy_codec toy_verifiers shop 100 100
      (hmac_sha256 ∷ []) (some 30) (with_header signed_header) store

authenticate-IsAnswer_example : Ends (IsFor shop) IsAnswer (
    authenticate toy_backend toy_codec toy_verifiers toy_tokens shop at_100
      (basic (codes "c"))
      (with_header (codes "Basic al:pw"))
      store)
authenticate-IsAnswer_example =
    authenticate-IsAnswer toy_backend toy_codec toy_verifiers toy_tokens shop at_100
      (basic (codes "c")) (with_header (codes "Basic al:pw")) store
