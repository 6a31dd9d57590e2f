-- ===== src/Middleware/Auth.antt =====
-- crates/g2-middleware/src/auth.rs: what a credential gets a request, from the stored records.
--
-- The store and the key cache are behind an interface, their state passed along. Hashes, parsers
-- and the verification of signatures belong to other crates and are the fields of a parameter.
pub mod Tokens
pub mod Stored
pub mod Decision
pub mod Signature
pub mod Secrets
pub mod Claims
pub mod Modes
pub mod Config
pub mod Owners
pub mod Verified
pub mod Answers
pub mod Tests
use g2way.Common.{
  ℕ, Bool, true, false, not, ◌&&◌, ◌||◌, List, [], ◌∷◌, ◌++◌, Option, none, some, Text, codes,
  Result, ok, err, text_eq,
}
use g2way.Core.Session.{KeySession, session_storage_key, is_expired, allows_api}
use g2way.Core.Policy.{Policy, policy_storage_key, apply_policy}
use g2way.Storage.{StorageError}
use g2way.Middleware.RateLimit.{SessionContext}
use g2way.Middleware.Reads.{Reads, ◌>>=◌, ◌>>◌, return_ok, reject, some_or, reject_if}

-- A response of this layer, with its `WWW-Authenticate` header where it has one.
pub record Refusal : Type 0 where
  pub status : ℕ
  pub message : Text
  pub challenge : Option Text

abbrev pub json_error : ℕ → Text → Refusal
json_error status message = record { status = status; message = message; challenge = none }

-- FORBIDDEN_MSG, and the other responses that several places share.
abbrev pub forbidden : Refusal
forbidden = json_error 403 (codes "access to this API has been disallowed")

abbrev pub unavailable : Refusal
unavailable = json_error 503 (codes "key storage unavailable")

abbrev pub malformed_session : Refusal
malformed_session = json_error 500 (codes "malformed key session record")

abbrev pub malformed_policy : Refusal
malformed_policy = json_error 500 (codes "malformed policy record")

-- `SharedStorage` and `JwksCache`, as this layer calls them.
pub record Backend (S Key : Type 0) : Type 0 where
  pub get : Text → S → Result (Option Text) StorageError × S
  pub key_for : Text → S → Option Key × S

-- Serde's reading of the two records, and the SHA-256 of a text as lower-case hex.
pub record Codec : Type 0 where
  pub parse_session : Text → Option KeySession
  pub parse_policy : Text → Option Policy
  pub sha256_hex : Text → Text

-- `AuthState` without its mode.
pub record Api : Type 0 where
  pub api_id : Text
  pub org_id : Text

abbrev pub or_unavailable :
    {S : Type 0} → Result (Option Text) StorageError × S → Result (Option Text) Refusal × S
or_unavailable (err e, s) = (err unavailable, s)
or_unavailable (ok found, s) = (ok found, s)

unfoldable pub hash_key : Codec → Text → Text
hash_key codec raw_key = codec.sha256_hex raw_key

module _ {S Key : Type 0} (backend : Backend S Key) (codec : Codec) where
  -- `storage.get(key).await.map_err(..)?`.
  unfoldable pub read : Text → Reads S Refusal (Option Text)
  read key s = or_unavailable (backend.get key s)

  unfoldable pub fetch_active_policy : Text → Text → Reads S Refusal Policy
  unfolding read
  fetch_active_policy org_id policy_id = do
    found ← read (policy_storage_key org_id policy_id)
    text ← some_or found forbidden
    policy ← some_or (codec.parse_policy text) malformed_policy
    reject_if (not (text_eq policy.org_id org_id) || not (text_eq policy.policy_id policy_id))
        malformed_policy
    reject_if (not policy.active) forbidden
    return_ok policy

  -- The match on the list of the session's policies.
  abbrev pub resolve_ids : KeySession → List Text → Reads S Refusal KeySession
  resolve_ids session [] = return_ok session
  resolve_ids session (policy_id ∷ []) = fetch_active_policy session.org_id policy_id >>= λ policy.
      return_ok (apply_policy session policy)
  resolve_ids session (first ∷ second ∷ more) = reject malformed_session

  unfoldable pub resolve_policy : KeySession → Reads S Refusal KeySession
  resolve_policy session = resolve_ids session session.apply_policies

  -- The end that the three stored-credential modes share.
  unfoldable pub admit : Api → Text → KeySession → Reads S Refusal SessionContext
  unfolding resolve_policy
  admit api key_hash session = do
    resolved ← resolve_policy session
    reject_if (not (allows_api resolved api.api_id)) forbidden
    return_ok (record { key_hash = key_hash; session = resolved })

  unfoldable pub authenticate_stored_token : Api → ℕ → Text → Reads S Refusal SessionContext
  unfolding hash_key read admit
  authenticate_stored_token api now token = do
    found ← read (session_storage_key api.org_id (hash_key codec token))
    text ← some_or found forbidden
    session ← some_or (codec.parse_session text) malformed_session
    reject_if (not session.active || is_expired session now) forbidden
    admit api (hash_key codec token) session
