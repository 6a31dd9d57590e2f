-- ===== src/Middleware/Auth/Claims.antt =====
-- The two modes of auth.rs that verify a signed token: JWT and OpenID Connect.
--
-- The signature, the claims that a `Validation` requires and the JSON of the claims belong to the
-- jsonwebtoken and serde_json crates and are parameters.
use g2way.Common.{ℕ, false, not, List, [], ◌∷◌, ◌++◌, Option, none, some, Text, codes, lookup}
use g2way.Core.Session.{KeySession, ApiAccess, default, allows_api}
use g2way.Core.Policy.{apply_policy}
use g2way.Middleware.RateLimit.{SessionContext}
use g2way.Middleware.Reads.{Reads, ◌>>=◌, ◌>>◌, return_ok, some_or, reject_if}
use g2way.Middleware.Auth.{Refusal, forbidden, Backend, Codec, Api, hash_key, fetch_active_policy}

pub data Algorithm : Type 0 where
  hs256 rs256 : Algorithm

-- What `jsonwebtoken::Validation` is told: the issuer and the audiences only where they are set.
pub record Validation : Type 0 where
  pub algorithm : Algorithm
  pub issuer : Option Text
  pub audience : Option (List Text)
  pub required_spec_claims : List Text

-- `decode_header` gives the key id of a token whose header can be read, if it names one.
pub record JsonTokens (Key Value : Type 0) : Type 0 where
  pub decode_header : Text → Option (Option Text)
  pub decode : Key → Validation → Text → Option Value
  pub get_str : Text → Value → Option Text
  pub get_u64 : Text → Value → Option ℕ

pub record PolicyMapping : Type 0 where
  pub claim : Text
  pub map : List (Text × Text)

abbrev pub default_access : ApiAccess
default_access = record {
  allowed_types = [];
  restricted_types = [];
  disable_introspection = false;
  max_query_depth = none;
}

-- The session of a verified identity: this API only, until the token expires.
unfoldable pub claimed_session : Api → Text → Option ℕ → KeySession
unfolding default
claimed_session api identity expires_at = record default {
  org_id = api.org_id;
  alias = some identity;
  expires_at = expires_at;
  access = (api.api_id, default_access) ∷ [];
}

module _ {S Key Value : Type 0} (backend : Backend S Key) (codec : Codec)
    (tokens : JsonTokens Key Value) where
  abbrev pub keyed : Option Key × S → Reads S Refusal Key
  keyed (key, s') = λ s. some_or key forbidden s'

  unfoldable pub resolve_jwks_key : Text → Reads S Refusal Key
  resolve_jwks_key token = do
    header ← some_or (tokens.decode_header token) forbidden
    kid ← some_or header forbidden
    λ s. keyed (backend.key_for kid s) s

  unfoldable pub verify_jwt_claims : Key → Validation → Text → Reads S Refusal Value
  verify_jwt_claims key validation token = some_or (tokens.decode key validation token) forbidden

  unfoldable pub authenticate_jwt :
      Api → Key → Validation → Text → Text → Reads S Refusal SessionContext
  authenticate_jwt api key validation identity_claim token = do
    claims ← verify_jwt_claims key validation token
    identity ← some_or (tokens.get_str identity_claim claims) forbidden
    return_ok (record {
      key_hash = hash_key codec (codes "jwt:" ++ identity);
      session = claimed_session api identity (tokens.get_u64 (codes "exp") claims);
    })

  -- The client id's policy in place of the session's own grants.
  unfoldable pub map_policy : Api → KeySession → Value → PolicyMapping → Reads S Refusal KeySession
  map_policy api session claims mapping = do
    client_id ← some_or (tokens.get_str mapping.claim claims) forbidden
    policy_id ← some_or (lookup client_id mapping.map) forbidden
    policy ← fetch_active_policy backend codec session.org_id policy_id
    reject_if (not (allows_api (apply_policy session policy) api.api_id)) forbidden
    return_ok (apply_policy session policy)

  abbrev pub mapped : Api → KeySession → Value → Option PolicyMapping → Reads S Refusal KeySession
  mapped api session claims none = return_ok session
  mapped api session claims (some mapping) = map_policy api session claims mapping

  unfoldable pub build_oidc_session :
      Api → Value → Text → Option PolicyMapping → Reads S Refusal SessionContext
  build_oidc_session api claims identity_claim policy_mapping = do
    identity ← some_or (tokens.get_str identity_claim claims) forbidden
    session ←
        mapped api (claimed_session api identity (tokens.get_u64 (codes "exp") claims)) claims
          policy_mapping
    return_ok (record { key_hash = hash_key codec (codes "oidc:" ++ identity); session = session })
