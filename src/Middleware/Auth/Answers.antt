-- ===== src/Middleware/Auth/Answers.antt =====
-- What the auth layer of auth.rs lets through and how it refuses, over all of its modes.
use g2way.Common.{◌≡◌, refl, ℕ, true, Option, none, some, Text, arith, lookup, text_eq_refl}
use g2way.Core.Session.{KeySession, allows_api, default}
use g2way.Middleware.RateLimit.{SessionContext}
use g2way.Middleware.Reads.{some_or, Ends, >>=-Ends, some_or-Ends, reject_if-Ends, Ends-map}
use g2way.Middleware.Auth.{Refusal, Backend, Codec, Api, authenticate_stored_token}
use g2way.Middleware.Auth.Tokens.{AuthRequest}
use g2way.Middleware.Auth.Stored.{InForce, Unfit, fetch_active_policy-Ends}
use g2way.Middleware.Auth.Decision.{Granted, Refused, authenticate_stored_token-Ends}
use g2way.Middleware.Auth.Decision
use g2way.Middleware.Auth.Owners.{
  IsAnswer, no_credential, denied, store_down, broken, Unfit-IsAnswer, Excluded-IsAnswer,
}
use g2way.Middleware.Auth.Verified.{
  authenticate_basic-OwnsPassword, authenticate_hmac-OwnsSignature,
}
use g2way.Middleware.Auth.Secrets.{Verifiers}
use g2way.Middleware.Auth.Claims.{
  Validation, JsonTokens, PolicyMapping, claimed_session, resolve_jwks_key, verify_jwt_claims,
  authenticate_jwt, map_policy, mapped, build_oidc_session, keyed,
}
use g2way.Middleware.Auth.Modes.{
  JwtKeys, static, jwks, Mode, token, jwt, oidc, basic, mtls, hmac, Clocks, with_keys, authenticate,
  field_missing, certificate_required,
}

-- Whether a session goes with the API that it is used for.
abbrev pub IsFor : {S : Type 0} → Api → SessionContext → S → Type 0
IsFor api ctx s' = allows_api ctx.session api.api_id ≡ true

claimed_session-allows :
    (api : Api) (identity : Text) (expires_at : Option ℕ)
    → allows_api (claimed_session api identity expires_at) api.api_id ≡ true
unfolding claimed_session allows_api lookup default
claimed_session-allows api identity expires_at = rw (text_eq_refl api.api_id) refl

module _ {S Key : Type 0} (backend : Backend S Key) (codec : Codec) where
  authenticate_stored_token-IsAnswer :
      (api : Api) (now : ℕ) (token' : Text) (s : S)
      → Ends (IsFor api) IsAnswer (authenticate_stored_token backend codec api now token' s)
  authenticate_stored_token-IsAnswer api now token' s =
      Ends-map (Granted backend codec api now token' s) (IsFor api)
        (Refused backend codec api now token' s) IsAnswer (λ ctx s' h. h.admitted.granted) answer _
        (authenticate_stored_token-Ends backend codec api now token' s)
    where
      answer : (r : Refusal) → Refused backend codec api now token' s r → IsAnswer r
      answer _ (Decision.down e s' g) = store_down
      answer _ (Decision.unknown s' g) = denied
      answer _ (Decision.garbled t s' g p) = broken _ refl
      answer _ (Decision.dead session s' g h) = denied
      answer r (Decision.excluded session s' r' g why) =
          Excluded-IsAnswer backend codec api session s' r' why

module _ {S Key Value : Type 0} (backend : Backend S Key) (codec : Codec)
    (tokens : JsonTokens Key Value) (api : Api) where
  resolve_jwks_key-IsAnswer :
      (token' : Text) (s : S)
      → Ends (λ key s'. Unit) IsAnswer (resolve_jwks_key backend codec tokens token' s)
  unfolding resolve_jwks_key some_or
  resolve_jwks_key-IsAnswer token' s =
      some_or-Ends _ IsAnswer _ _ _ s (λ e. denied)
        (λ header e.
          some_or-Ends _ IsAnswer _ _ _ s (λ e. denied) (λ kid e. found (backend.key_for kid s)))
    where
      found :
          (r : Option Key × S)
          → Ends (λ (key : Key) (s' : S). Unit) IsAnswer (keyed backend codec tokens r s)
      found (none, s') = denied
      found (some key, s') = tt

  authenticate_jwt-IsAnswer :
      (key : Key) (validation : Validation) (claim token' : Text) (s : S)
      → Ends
          (IsFor api)
          IsAnswer
          (authenticate_jwt backend codec tokens api key validation claim token' s)
  unfolding authenticate_jwt verify_jwt_claims
  authenticate_jwt-IsAnswer key validation claim token' s =
      some_or-Ends (IsFor api) IsAnswer _ _ _ s (λ e. denied)
        (λ claims e.
          some_or-Ends (IsFor api) IsAnswer _ _ _ s (λ e. denied)
            (λ identity e. claimed_session-allows api identity _))

  mapped-IsAnswer :
      (session : KeySession) (claims : Value) (mapping : Option PolicyMapping) (s : S)
      → allows_api session api.api_id ≡ true
      → Ends
          (λ (final : KeySession) (s' : S). allows_api final api.api_id ≡ true)
          IsAnswer
          (mapped backend codec tokens api session claims mapping s)
  unfolding map_policy
  mapped-IsAnswer session claims none s h = h
  mapped-IsAnswer session claims (some mapping) s h =
      let Good = (λ (final : KeySession) (s' : S). allows_api final api.api_id ≡ true) in
      some_or-Ends Good IsAnswer _ _ _ s (λ e. denied)
        (λ client_id e.
          some_or-Ends Good IsAnswer _ _ _ s (λ e. denied)
            (λ policy_id e.
              >>=-Ends (InForce backend codec session.org_id policy_id s) Good IsAnswer _ _ s
                (Ends-map (InForce backend codec session.org_id policy_id s)
                  (InForce backend codec session.org_id policy_id s)
                  (Unfit backend codec session.org_id policy_id s) IsAnswer (λ p s' h. h)
                  (Unfit-IsAnswer backend codec session.org_id policy_id s) _
                  (fetch_active_policy-Ends backend codec session.org_id policy_id s))
                (λ policy s' force.
                  reject_if-Ends Good IsAnswer _ _ _ s' (λ off. denied) (λ on. ground arith))))

  build_oidc_session-IsAnswer :
      (claims : Value) (claim : Text) (mapping : Option PolicyMapping) (s : S)
      → Ends
          (IsFor api)
          IsAnswer
          (build_oidc_session backend codec tokens api claims claim mapping s)
  unfolding build_oidc_session
  build_oidc_session-IsAnswer claims claim mapping s =
      some_or-Ends (IsFor api) IsAnswer _ _ _ s (λ e. denied)
        (λ identity e.
          >>=-Ends (λ final s'. allows_api final api.api_id ≡ true) (IsFor api) IsAnswer _ _ s
            (mapped-IsAnswer _ claims mapping s (claimed_session-allows api identity _))
            (λ final s' h. h))

module _ {S Key Value : Type 0} (backend : Backend S Key) (codec : Codec) (libs : Verifiers)
    (tokens : JsonTokens Key Value) (api : Api) (clocks : Clocks) where
  with_keys-IsAnswer :
      (keys : JwtKeys Key) (validation : Validation) (claim token' : Text) (s : S)
      → Ends
          (IsFor api)
          IsAnswer
          (with_keys backend codec libs tokens api clocks keys validation claim token' s)
  with_keys-IsAnswer (static key) validation claim token' s =
      authenticate_jwt-IsAnswer backend codec tokens api key validation claim token' s
  with_keys-IsAnswer jwks validation claim token' s =
      >>=-Ends (λ key s'. Unit) (IsFor api) IsAnswer _ _ s
        (resolve_jwks_key-IsAnswer backend codec tokens api token' s)
        (λ key s' h.
          authenticate_jwt-IsAnswer backend codec tokens api key validation claim token' s')

  -- Whatever the mode and whatever the store holds, a request that authentication lets through
  -- carries a session that may use the API, and one that it refuses is answered 401, with the one
  -- 403 that does not say why, with the 503 of a failing store, or with a 500.
  pub authenticate-IsAnswer :
      (mode : Mode Key) (req : AuthRequest) (s : S)
      → Ends (IsFor api) IsAnswer (authenticate backend codec libs tokens api clocks mode req s)
  unfolding authenticate verify_jwt_claims
  authenticate-IsAnswer (token header query_param cookie) req s =
      some_or-Ends (IsFor api) IsAnswer _ _ _ s (λ e. no_credential field_missing refl)
        (λ t e. authenticate_stored_token-IsAnswer backend codec api clocks.expiry_now t s)
  authenticate-IsAnswer (jwt header keys validation claim) req s =
      some_or-Ends (IsFor api) IsAnswer _ _ _ s (λ e. no_credential field_missing refl)
        (λ t e. with_keys-IsAnswer keys validation claim t s)
  authenticate-IsAnswer (oidc header validation claim mapping) req s =
      some_or-Ends (IsFor api) IsAnswer _ _ _ s (λ e. no_credential field_missing refl)
        (λ t e.
          >>=-Ends (λ key s'. Unit) (IsFor api) IsAnswer _ _ s
            (resolve_jwks_key-IsAnswer backend codec tokens api t s)
            (λ key s' h.
              some_or-Ends (IsFor api) IsAnswer _ _ _ s' (λ e. denied)
                (λ claims e.
                  build_oidc_session-IsAnswer backend codec tokens api claims claim mapping s')))
  authenticate-IsAnswer (basic challenge) req s =
      Ends-map _ (IsFor api) IsAnswer IsAnswer (λ ctx s' h. h.owner.admitted.granted) (λ r h. h) _
        (authenticate_basic-OwnsPassword backend codec libs api clocks.expiry_now challenge req s)
  authenticate-IsAnswer mtls req s =
      some_or-Ends (IsFor api) IsAnswer _ _ _ s (λ e. no_credential certificate_required refl)
        (λ t e. authenticate_stored_token-IsAnswer backend codec api clocks.expiry_now _ s)
  authenticate-IsAnswer (hmac allowed skew) req s =
      Ends-map _ (IsFor api) IsAnswer IsAnswer (λ ctx s' h. h.owner.admitted.granted) (λ r h. h) _
        (authenticate_hmac-OwnsSignature backend codec libs api clocks.skew_now clocks.expiry_now
          allowed skew req s)
