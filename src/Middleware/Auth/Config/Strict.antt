-- ===== src/Middleware/Auth/Config/Strict.antt =====
-- What the layer of auth.rs insists on, by its configuration.
use g2way.Common.{
  ok_or, ◌≡◌, refl, subst, ℕ, Bool, true, false, not, is_empty, [], ◌∷◌, Option, none, some, Text,
  codes, ok, >>=-ok, ok_injective, arith,
}
use g2way.Middleware.Jwks.{JwksEndpoint}
use g2way.Middleware.Auth.{Api}
use g2way.Middleware.Auth.Claims.{Algorithm, hs256, rs256, PolicyMapping}
use g2way.Middleware.Auth.Modes.{JwtKeys, Mode, token, jwt, oidc, basic, mtls, hmac}
use g2way.Middleware.Auth.Config.{
  JwtSigningMethod, hs256_method, rs256_method, JwtConfig, OidcConfig, AuthConfig, keyless,
  auth_token, jwt_auth, oidc_auth, basic_auth, mtls_auth, hmac_auth, AuthLayer, ConfigParsers,
  fetcher_or_err, jwt_keys, challenge_text, layer_of, ok_layer, oidc_mapping, mode_of, from_config,
}

-- The algorithm that a signing method stands for.
abbrev pub algorithm_of : JwtSigningMethod → Algorithm
algorithm_of hs256_method = hs256
algorithm_of rs256_method = rs256

abbrev pub has_mapping : Option PolicyMapping → Bool
has_mapping none = false
has_mapping (some m) = true

-- The mode that belongs to a configuration, with what it must check.
abbrev pub IsStrict : {Key : Type 0} → AuthConfig → Mode Key → Type 0
IsStrict (auth_token _ query_param cookie) (token _ q c) = (q ≡ query_param) × (c ≡ cookie)
IsStrict (jwt_auth cfg) (jwt _ keys validation claim) =
    (validation.algorithm ≡ algorithm_of cfg.signing_method)
    × (validation.required_spec_claims ≡ codes "exp" ∷ [])
    × (claim ≡ cfg.identity_claim)
IsStrict (oidc_auth cfg) (oidc _ validation claim mapping) =
    (validation.algorithm ≡ rs256)
    × (validation.issuer ≡ some cfg.issuer_url)
    × (validation.audience ≡ some cfg.audiences)
    × (validation.required_spec_claims ≡ codes "exp" ∷ codes "iss" ∷ codes "aud" ∷ [])
    × (has_mapping mapping ≡ not (is_empty cfg.policy_map))
    × (claim ≡ cfg.identity_claim)
IsStrict (basic_auth _) (basic _) = Unit
IsStrict mtls_auth mtls = Unit
IsStrict (hmac_auth algorithms skew) (hmac a s) = (a ≡ algorithms) × (s ≡ skew)
IsStrict _ _ = ⊥

abbrev pub IsBuilt : {Key : Type 0} → AuthConfig → Option (AuthLayer Key) → Type 0
IsBuilt cfg none = cfg ≡ keyless
IsBuilt cfg (some layer) = IsStrict cfg layer.mode

module _ {Key : Type 0} (parsers : ConfigParsers Key) (has_fetcher : Bool) where
  jwt_keys-algorithm :
      (cfg : JwtConfig) (m : JwtSigningMethod) (u : Option Text)
      (r : Algorithm × JwtKeys Key × Option (JwksEndpoint × ℕ))
      → jwt_keys parsers has_fetcher cfg m u ≡ ok r
      → r.0 ≡ algorithm_of m
  jwt_keys-algorithm cfg hs256_method u r h =
      let (secret, e, k) = >>=-ok (ok_or cfg.secret _) _ _ h in ground arith
  jwt_keys-algorithm cfg rs256_method none r h =
      let (pem, e, k) = >>=-ok (ok_or cfg.public_key_pem _) _ _ h in
      let (key, f, l) = >>=-ok (ok_or (parsers.from_rsa_pem pem) _) _ _ k in ground arith
  jwt_keys-algorithm cfg rs256_method (some u) r h =
      let (there, e, k) = >>=-ok (fetcher_or_err parsers has_fetcher) _ _ h in ground arith

  mapping_kept :
      (cfg : OidcConfig)
      → has_mapping (oidc_mapping parsers has_fetcher cfg) ≡ not (is_empty cfg.policy_map)
  mapping_kept cfg = ground arith

  mode_of-IsBuilt :
      (api : Api) (cfg : AuthConfig) (built : Option (Mode Key × Option (JwksEndpoint × ℕ)))
      → mode_of parsers has_fetcher cfg ≡ ok built
      → IsBuilt cfg (layer_of api built)
  unfolding mode_of
  mode_of-IsBuilt api keyless built h = ground arith
  mode_of-IsBuilt api (auth_token header query_param cookie) built h =
      let (name, e, k) = >>=-ok (ok_or (parsers.header_name header) _) _ _ h in
      subst (λ b. IsBuilt (auth_token header query_param cookie) (layer_of api b)) (ok_injective k)
        (refl, refl)
  mode_of-IsBuilt api (jwt_auth cfg) built h =
      let (r, e, k) =
        >>=-ok (jwt_keys parsers has_fetcher cfg cfg.signing_method cfg.jwks_url) _ _ h in
      let (name, f, l) = >>=-ok (ok_or (parsers.header_name cfg.header) _) _ _ k in
      subst (λ b. IsBuilt (jwt_auth cfg) (layer_of api b)) (ok_injective l)
        (jwt_keys-algorithm cfg cfg.signing_method cfg.jwks_url r e, refl, refl)
  mode_of-IsBuilt api (oidc_auth cfg) built h =
      let (there, e, k) = >>=-ok (fetcher_or_err parsers has_fetcher) _ _ h in
      let (name, f, l) = >>=-ok (ok_or (parsers.header_name cfg.header) _) _ _ k in
      subst (λ b. IsBuilt (oidc_auth cfg) (layer_of api b)) (ok_injective l)
        (refl, refl, refl, refl, mapping_kept cfg, refl)
  mode_of-IsBuilt api (basic_auth realm) built h =
      let (challenge, e, k) =
        >>=-ok (ok_or (parsers.header_value (challenge_text realm)) _) _ _ h in
      subst (λ b. IsBuilt (basic_auth realm) (layer_of api b)) (ok_injective k) tt
  mode_of-IsBuilt api mtls_auth built h =
      subst (λ b. IsBuilt mtls_auth (layer_of api b)) (ok_injective h) tt
  mode_of-IsBuilt api (hmac_auth algorithms skew) built h =
      subst (λ b. IsBuilt (hmac_auth algorithms skew) (layer_of api b)) (ok_injective h)
        (refl, refl)

  -- A configuration that is accepted builds no layer only if it says that the API is open, and else
  -- the layer of its own mode: a token must name its end, an OpenID token also the issuer and one
  -- of the audiences that are configured, and the algorithm is the configured one, whatever the
  -- token says.
  pub from_config-IsBuilt :
      (api : Api) (cfg : AuthConfig) (built : Option (AuthLayer Key))
      → from_config parsers has_fetcher api cfg ≡ ok built
      → IsBuilt cfg built
  unfolding from_config
  from_config-IsBuilt api cfg built h =
      let (b, e, k) = >>=-ok (mode_of parsers has_fetcher cfg) _ _ h in
      subst (IsBuilt cfg) (layered b k) (mode_of-IsBuilt api cfg b e)
    where
      layered :
          (b : Option (Mode Key × Option (JwksEndpoint × ℕ)))
          → ok_layer api b ≡ ok built
          → layer_of api b ≡ built
      layered none k = ok_injective k
      layered (some (mode, cache)) k = ok_injective k
