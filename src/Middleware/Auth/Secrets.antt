-- ===== src/Middleware/Auth/Secrets.antt =====
-- The two modes of auth.rs that check a stored secret: basic auth and HMAC signatures.
use g2way.Common.{
  ℕ, ◌-◌, Bool, true, false, not, ◌&&◌, List, ◌++◌, Option, none, some, Text, codes, ltb, leb,
  if◌then◌else◌, any, find, text_eq, HeaderMap, get_header, eq_ignore_ascii_case, and_then,
}
use g2way.Core.Session.{KeySession, session_storage_key, is_expired, is_some}
use g2way.Middleware.RateLimit.{SessionContext}
use g2way.Middleware.Reads.{Reads, ◌>>=◌, ◌>>◌, return_ok, some_or, reject_if}
use g2way.Middleware.Auth.{
  Refusal, json_error, forbidden, malformed_session, Backend, Codec, Api, hash_key, read, admit,
}
use g2way.Middleware.Auth.Tokens.{AuthRequest, extract_basic_credentials}
use g2way.Middleware.Auth.Signature.{SignatureParams, parse_signature_header, build_signing_string}

pub data HmacAlgorithm : Type 0 where
  hmac_sha256 hmac_sha384 hmac_sha512 : HmacAlgorithm

unfoldable pub as_str : HmacAlgorithm → Text
as_str hmac_sha256 = codes "hmac-sha256"
as_str hmac_sha384 = codes "hmac-sha384"
as_str hmac_sha512 = codes "hmac-sha512"

-- What the two modes call of other crates. The outer option of `bcrypt_verify` is the task that it
-- runs in, the inner one its own error.
pub record Verifiers : Type 0 where
  pub to_str : Text → Option Text
  pub base64_decode : Text → Option Text
  pub from_utf8 : Text → Option Text
  pub parse_http_date : Text → Option ℕ
  pub bcrypt_verify : Text → Text → Option (Option Bool)
  pub verify_mac : HmacAlgorithm → Text → Text → Text → Bool

unfoldable pub dummy_bcrypt_hash : Text
dummy_bcrypt_hash = codes "$2b$12$3neaCJyNondMOTlK7AuGBOMBGI0j/gZ3YsMVx1VJl.1cBJI5DVA32"

unfoldable pub dummy_hmac_secret : Text
dummy_hmac_secret = codes "g2way-dummy-hmac-secret"

-- `basic_challenge_error`.
unfoldable pub basic_challenge_error : Text → Refusal
basic_challenge_error challenge = record (json_error 401 (codes "invalid basic auth credentials")) {
  challenge = some challenge;
}

abbrev pub verification_failed : Refusal
verification_failed = json_error 500 (codes "auth verification failed")

abbrev pub signature_missing : Refusal
signature_missing = json_error 401 (codes "invalid signature authorization header")

abbrev pub or_dummy : Option Text → Text → Text
or_dummy none dummy = dummy
or_dummy (some secret) dummy = secret

abbrev pub secret_of : (KeySession → Option Text) → Option KeySession → Option Text
secret_of field session = and_then session field

abbrev pub abs_diff : ℕ → ℕ → ℕ
abs_diff a b = if ltb a b then b - a else a - b

unfoldable pub find_algorithm : List HmacAlgorithm → Text → Option HmacAlgorithm
find_algorithm allowed name = find (λ a. eq_ignore_ascii_case (as_str a) name) allowed

module _ (libs : Verifiers) where
  -- Whether the signed `Date` is near enough, where the API asks for that.
  unfoldable pub date_is_fresh : Option ℕ → ℕ → List Text → HeaderMap → Bool
  date_is_fresh none now names headers = true
  date_is_fresh (some max_skew) now names headers =
      let date_secs =
        (and_then (get_header (codes "date") headers)
          λ raw. and_then (libs.to_str raw) libs.parse_http_date) in
      any (λ name. text_eq name (codes "date")) names
      && elim date_secs [ none ↦ false | some secs ↦ leb (abs_diff now secs) max_skew ]

  unfoldable pub signature_params : AuthRequest → Option SignatureParams
  signature_params req =
      and_then (get_header (codes "authorization") req.headers)
        λ raw. and_then (libs.to_str raw) (parse_signature_header libs.base64_decode libs.from_utf8)

module _ {S Key : Type 0} (backend : Backend S Key) (codec : Codec) where
  abbrev pub parsed_or : Option Text → Reads S Refusal (Option KeySession)
  parsed_or none = return_ok none
  parsed_or (some text) =
      some_or (codec.parse_session text) malformed_session >>= λ session. return_ok (some session)

  -- The session under a name, if there is one.
  unfoldable pub read_session : Api → Text → Reads S Refusal (Option KeySession)
  read_session api key_hash =
      read backend codec (session_storage_key api.org_id key_hash) >>= parsed_or

module _ {S Key : Type 0} (backend : Backend S Key) (codec : Codec) (libs : Verifiers) where
  unfoldable pub authenticate_basic : Api → ℕ → Text → AuthRequest → Reads S Refusal SessionContext
  authenticate_basic api now challenge req = do
    (username, password) ←
        some_or (extract_basic_credentials libs.to_str libs.base64_decode libs.from_utf8 req)
          (basic_challenge_error challenge)
    let key_hash = hash_key codec (codes "basic:" ++ username)
    session ← read_session backend codec api key_hash
    let stored_hash = or_dummy (secret_of (λ s. s.basic_auth) session) dummy_bcrypt_hash
    verify ← some_or (libs.bcrypt_verify password stored_hash) verification_failed
    password_matches ← some_or verify verification_failed
    found ← some_or session forbidden
    reject_if
        (not (
          password_matches
          && is_some found.basic_auth
          && found.active
          && not (is_expired found now)))
        forbidden
    admit backend codec api key_hash found

  unfoldable pub authenticate_hmac :
      Api → ℕ → ℕ → List HmacAlgorithm → Option ℕ → AuthRequest → Reads S Refusal SessionContext
  authenticate_hmac api skew_now now allowed_algorithms allowed_clock_skew req = do
    params ← some_or (signature_params libs req) signature_missing
    algorithm ← some_or (find_algorithm allowed_algorithms params.algorithm) forbidden
    reject_if (not (date_is_fresh libs allowed_clock_skew skew_now params.headers req.headers))
        forbidden
    signing_string ←
        some_or
          (build_signing_string libs.to_str req.method req.path_and_query req.headers
            params.headers)
          forbidden
    let key_hash = hash_key codec (codes "hmac:" ++ params.key_id)
    session ← read_session backend codec api key_hash
    let secret = or_dummy (secret_of (λ s. s.hmac) session) dummy_hmac_secret
    let verified = libs.verify_mac algorithm secret signing_string params.signature
    found ← some_or session forbidden
    reject_if (not (verified && is_some found.hmac && found.active && not (is_expired found now)))
        forbidden
    admit backend codec api key_hash found
