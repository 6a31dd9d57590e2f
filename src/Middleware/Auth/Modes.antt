-- ===== src/Middleware/Auth/Modes.antt =====
-- The dispatch of auth.rs over its modes, the layer that it builds for a configuration, and what the
-- layer does to a request.
use g2way.Common.{ℕ, List, ◌++◌, Option, none, Text, codes, if◌then◌else◌, Result, ok, err}
use g2way.Middleware.RateLimit.{SessionContext}
use g2way.Middleware.Reads.{Reads, ◌>>=◌, some_or}
use g2way.Middleware.Auth.{Refusal, json_error, Backend, Codec, Api, authenticate_stored_token}
use g2way.Middleware.Auth.Tokens.{AuthRequest, extract_token}
use g2way.Middleware.Auth.Secrets.{HmacAlgorithm, Verifiers, authenticate_basic, authenticate_hmac}
use g2way.Middleware.Auth.Claims.{
  Validation, JsonTokens, PolicyMapping, resolve_jwks_key, verify_jwt_claims, authenticate_jwt,
  build_oidc_session,
}

pub data JwtKeys (Key : Type 0) : Type 0 where
  static : Key → JwtKeys Key
  jwks : JwtKeys Key

-- The store and the key cache of a mode are those of the backend.
pub data Mode (Key : Type 0) : Type 0 where
  token : (header : Text) (query_param cookie : Option Text) → Mode Key
  jwt : (header : Text) → JwtKeys Key → Validation → (identity_claim : Text) → Mode Key
  oidc : (header : Text) → Validation → (identity_claim : Text) → Option PolicyMapping → Mode Key
  basic : (challenge : Text) → Mode Key
  mtls : Mode Key
  hmac : List HmacAlgorithm → (allowed_clock_skew : Option ℕ) → Mode Key

abbrev pub field_missing : Refusal
field_missing = json_error 401 (codes "authorization field missing")

abbrev pub certificate_required : Refusal
certificate_required = json_error 401 (codes "client certificate required")

-- The clock is read by the skew check and again by the expiry check.
pub record Clocks : Type 0 where
  pub skew_now : ℕ
  pub expiry_now : ℕ

-- What the layer does to a request: it hands it on, as it is or with a session, or answers.
pub data Passage : Type 0 where
  bypassed : Passage
  forwarded : SessionContext → Passage
  answered : Refusal → Passage

abbrev pub passage : {S : Type 0} → Result SessionContext Refusal × S → Passage × S
passage (ok ctx, s) = (forwarded ctx, s)
passage (err r, s) = (answered r, s)

module _ {S Key Value : Type 0} (backend : Backend S Key) (codec : Codec) (libs : Verifiers)
    (tokens : JsonTokens Key Value) (api : Api) (clocks : Clocks) where
  abbrev pub with_keys : JwtKeys Key → Validation → Text → Text → Reads S Refusal SessionContext
  with_keys (static key) validation identity_claim token' =
      authenticate_jwt backend codec tokens api key validation identity_claim token'
  with_keys jwks validation identity_claim token' =
      resolve_jwks_key backend codec tokens token' >>= λ key.
      authenticate_jwt backend codec tokens api key validation identity_claim token'

  unfoldable pub authenticate : Mode Key → AuthRequest → Reads S Refusal SessionContext
  authenticate (token header query_param cookie) req =
      some_or (extract_token libs.to_str header query_param cookie req) field_missing
      >>= authenticate_stored_token backend codec api clocks.expiry_now
  authenticate (jwt header keys validation identity_claim) req =
      some_or (extract_token libs.to_str header none none req) field_missing
      >>= with_keys keys validation identity_claim
  authenticate (oidc header validation identity_claim policy_mapping) req = do
    token' ← some_or (extract_token libs.to_str header none none req) field_missing
    key ← resolve_jwks_key backend codec tokens token'
    claims ← verify_jwt_claims backend codec tokens key validation token'
    build_oidc_session backend codec tokens api claims identity_claim policy_mapping
  authenticate (basic challenge) req =
      authenticate_basic backend codec libs api clocks.expiry_now challenge req
  authenticate mtls req =
      some_or req.client_cert_fingerprint certificate_required >>= λ fingerprint.
      authenticate_stored_token backend codec api clocks.expiry_now (codes "mtls:" ++ fingerprint)
  authenticate (hmac allowed_algorithms allowed_clock_skew) req =
      authenticate_hmac backend codec libs api clocks.skew_now clocks.expiry_now allowed_algorithms
        allowed_clock_skew req

  unfoldable pub call : Mode Key → AuthRequest → S → Passage × S
  call mode req s = if req.auth_bypass then (bypassed, s) else passage (authenticate mode req s)
