-- ===== src/Middleware/Auth/Config.antt =====
-- The layer that `AuthLayer::from_config` of auth.rs builds for an API's `auth` block.
--
-- The parsers of header names and values and of PEM keys are parameters. The task that refreshes a
-- key cache is left to the runtime: what it is started with is part of the result.
pub mod Strict
pub mod Tests
use g2way.Common.{
  ok_or, ℕ, Bool, List, [], ◌∷◌, ◌++◌, Option, none, some, Text, codes, is_empty, Result, ok, err,
  ◌>>=◌, if◌then◌else◌,
}
use g2way.Middleware.Jwks.{JwksEndpoint, url, discovery}
use g2way.Middleware.Auth.{Api}
use g2way.Middleware.Auth.Secrets.{HmacAlgorithm}
use g2way.Middleware.Auth.Claims.{Algorithm, hs256, rs256, Validation, PolicyMapping}
use g2way.Middleware.Auth.Modes.{JwtKeys, static, jwks, Mode, token, jwt, oidc, basic, mtls, hmac}

pub data JwtSigningMethod : Type 0 where
  hs256_method rs256_method : JwtSigningMethod

pub record JwtConfig : Type 0 where
  pub signing_method : JwtSigningMethod
  pub secret : Option Text
  pub public_key_pem : Option Text
  pub jwks_url : Option Text
  pub jwks_refresh_secs : Option ℕ
  pub header : Text
  pub identity_claim : Text

pub record OidcConfig : Type 0 where
  pub issuer_url : Text
  pub audiences : List Text
  pub jwks_url : Option Text
  pub jwks_refresh_secs : Option ℕ
  pub header : Text
  pub identity_claim : Text
  pub policy_claim : Text
  pub policy_map : List (Text × Text)

pub data AuthConfig : Type 0 where
  keyless : AuthConfig
  auth_token : (header : Text) (query_param cookie : Option Text) → AuthConfig
  jwt_auth : JwtConfig → AuthConfig
  oidc_auth : OidcConfig → AuthConfig
  basic_auth : (realm : Text) → AuthConfig
  mtls_auth : AuthConfig
  hmac_auth : List HmacAlgorithm → (allowed_clock_skew_secs : Option ℕ) → AuthConfig

-- The reasons of `Error::InvalidApiDefinition`.
pub data ConfigError : Type 0 where
  bad_header no_secret no_public_key bad_public_key no_fetcher bad_realm : ConfigError

-- A mode, and the endpoint and the interval that a key cache is refreshed with.
pub record AuthLayer (Key : Type 0) : Type 0 where
  pub api : Api
  pub mode : Mode Key
  pub cache : Option (JwksEndpoint × ℕ)

pub record ConfigParsers (Key : Type 0) : Type 0 where
  pub header_name : Text → Option Text
  pub header_value : Text → Option Text
  pub from_secret : Text → Key
  pub from_rsa_pem : Text → Option Key

abbrev pub default_jwks_refresh_secs : ℕ
default_jwks_refresh_secs = 300

abbrev pub unwrap_or : Option ℕ → ℕ → ℕ
unwrap_or none d = d
unwrap_or (some n) d = n

abbrev pub jwt_validation : Algorithm → Validation
jwt_validation algorithm = record {
  algorithm = algorithm;
  issuer = none;
  audience = none;
  required_spec_claims = codes "exp" ∷ [];
}

abbrev pub challenge_text : Text → Text
challenge_text realm = codes "Basic realm=\"" ++ (realm ++ codes "\"")

abbrev pub layer_of :
    {Key : Type 0} → Api → Option (Mode Key × Option (JwksEndpoint × ℕ)) → Option (AuthLayer Key)
layer_of api none = none
layer_of api (some (mode, cache)) = some (record { api = api; mode = mode; cache = cache })

abbrev pub ok_layer :
    {Key : Type 0}
    → Api
    → Option (Mode Key × Option (JwksEndpoint × ℕ))
    → Result (Option (AuthLayer Key)) ConfigError
ok_layer api built = ok (layer_of api built)

module _ {Key : Type 0} (parsers : ConfigParsers Key) (has_fetcher : Bool) where
  abbrev pub fetcher_or_err : Result (Unit {0}) ConfigError
  fetcher_or_err = if has_fetcher then ok tt else err no_fetcher

  abbrev pub refresher : Text → Option ℕ → JwksEndpoint × ℕ
  refresher u secs = (url u, unwrap_or secs default_jwks_refresh_secs)

  -- The algorithm and the keys of a JWT configuration.
  abbrev pub jwt_keys :
      JwtConfig
      → JwtSigningMethod
      → Option Text
      → Result (Algorithm × JwtKeys Key × Option (JwksEndpoint × ℕ)) ConfigError
  jwt_keys cfg hs256_method u =
      ok_or cfg.secret no_secret >>= λ secret. ok (hs256, static (parsers.from_secret secret), none)
  jwt_keys cfg rs256_method none = ok_or cfg.public_key_pem no_public_key >>= λ pem.
      ok_or (parsers.from_rsa_pem pem) bad_public_key >>= λ key. ok (rs256, static key, none)
  jwt_keys cfg rs256_method (some u) =
      fetcher_or_err >>= λ there. ok (rs256, jwks, some (refresher u cfg.jwks_refresh_secs))

  abbrev pub oidc_endpoint : OidcConfig → Option Text → JwksEndpoint
  oidc_endpoint cfg (some u) = url u
  oidc_endpoint cfg none = discovery cfg.issuer_url

  abbrev pub oidc_validation : OidcConfig → Validation
  oidc_validation cfg = record {
    algorithm = rs256;
    issuer = some cfg.issuer_url;
    audience = some cfg.audiences;
    required_spec_claims = codes "exp" ∷ codes "iss" ∷ codes "aud" ∷ [];
  }

  abbrev pub oidc_mapping : OidcConfig → Option PolicyMapping
  oidc_mapping cfg =
      if is_empty cfg.policy_map
      then none
      else some (record { claim = cfg.policy_claim; map = cfg.policy_map })

  -- The mode of a configuration and its key cache; none for an API without keys.
  unfoldable pub mode_of :
      AuthConfig → Result (Option (Mode Key × Option (JwksEndpoint × ℕ))) ConfigError
  mode_of keyless = ok none
  mode_of (auth_token header query_param cookie) =
      ok_or (parsers.header_name header) bad_header >>= λ name.
      ok (some (token name query_param cookie, none))
  mode_of (jwt_auth cfg) = do
    (algorithm, keys, cache) ← jwt_keys cfg cfg.signing_method cfg.jwks_url
    name ← ok_or (parsers.header_name cfg.header) bad_header
    ok (some (jwt name keys (jwt_validation algorithm) cfg.identity_claim, cache))
  mode_of (oidc_auth cfg) = do
    there ← fetcher_or_err
    name ← ok_or (parsers.header_name cfg.header) bad_header
    ok (
        some (
          oidc name (oidc_validation cfg) cfg.identity_claim (oidc_mapping cfg),
          some (
            oidc_endpoint cfg cfg.jwks_url,
            unwrap_or cfg.jwks_refresh_secs default_jwks_refresh_secs,
          ),
        ))
  mode_of (basic_auth realm) =
      ok_or (parsers.header_value (challenge_text realm)) bad_realm >>= λ challenge.
      ok (some (basic challenge, none))
  mode_of mtls_auth = ok (some (mtls, none))
  mode_of (hmac_auth algorithms skew) = ok (some (hmac algorithms skew, none))

  unfoldable pub from_config : Api → AuthConfig → Result (Option (AuthLayer Key)) ConfigError
  from_config api cfg = mode_of cfg >>= ok_layer api
