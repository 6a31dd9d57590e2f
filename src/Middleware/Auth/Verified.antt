-- ===== src/Middleware/Auth/Verified.antt =====
-- Who passes basic auth and the HMAC mode of auth.rs: the owner of a stored secret, never the
-- dummy that an unknown name is checked against.
use g2way.Common.{◌≡◌, refl, ap, ◌∙◌, ℕ, true, List, ◌++◌, Option, some, Text, codes, arith}
use g2way.Core.Session.{session_storage_key}
use g2way.Middleware.RateLimit.{SessionContext}
use g2way.Middleware.Reads.{Ends, >>=-Ends, some_or-Ends, reject_if-Ends, Ends-map}
use g2way.Middleware.Auth.{Backend, Codec, Api, hash_key}
use g2way.Middleware.Auth.Tokens.{AuthRequest, extract_basic_credentials}
use g2way.Middleware.Auth.Signature.{SignatureParams, build_signing_string}
use g2way.Middleware.Auth.Owners.{
  IsAnswer, no_credential, denied, broken, IsRead, read_session-Ends, Owns, guarded-Owns,
}
use g2way.Middleware.Auth.Secrets.{
  HmacAlgorithm, Verifiers, dummy_bcrypt_hash, dummy_hmac_secret, basic_challenge_error,
  verification_failed, signature_missing, date_is_fresh, signature_params, find_algorithm,
  authenticate_basic, authenticate_hmac,
}

module _ {S Key : Type 0} (backend : Backend S Key) (codec : Codec) (libs : Verifiers) where
  -- The password of a stored user, verified against the user's own hash.
  pub record OwnsPassword (api : Api) (now : ℕ) (req : AuthRequest) (s : S) (ctx : SessionContext)
      (s' : S) : Type 0 where
    pub username : Text
    pub password : Text
    pub presented :
        extract_basic_credentials libs.to_str libs.base64_decode libs.from_utf8 req
        ≡ some (username, password)
    pub owner :
        Owns backend codec
          (λ u. u.basic_auth)
          (λ hash. libs.bcrypt_verify password hash ≡ some (some true))
          api
          now
          (hash_key codec (codes "basic:" ++ username))
          s
          ctx
          s'

  -- A signature over the named parts of the request by a stored key, with an algorithm that the API
  -- allows and a date that is near enough where the API asks for that.
  pub record OwnsSignature (api : Api) (skew_now now : ℕ) (allowed : List HmacAlgorithm)
      (allowed_clock_skew : Option ℕ) (req : AuthRequest) (s : S) (ctx : SessionContext) (s' : S)
      : Type 0 where
    pub params : SignatureParams
    pub algorithm : HmacAlgorithm
    pub signing_string : Text
    pub presented : signature_params libs req ≡ some params
    pub allowed_algorithm : find_algorithm allowed params.algorithm ≡ some algorithm
    pub fresh : date_is_fresh libs allowed_clock_skew skew_now params.headers req.headers ≡ true
    pub covers :
        build_signing_string libs.to_str req.method req.path_and_query req.headers params.headers
        ≡ some signing_string
    pub owner :
        Owns backend codec
          (λ u. u.hmac)
          (λ secret. libs.verify_mac algorithm secret signing_string params.signature ≡ true)
          api
          now
          (hash_key codec (codes "hmac:" ++ params.key_id))
          s
          ctx
          s'

module _ {S Key : Type 0} (backend : Backend S Key) (codec : Codec) (libs : Verifiers) where
  -- A basic-auth request is let through only for a user that the store knows, on the password that
  -- matches the user's own hash, the session being active and unexpired and the API granted; an
  -- unknown user, and a user without a hash, is refused although a dummy hash is checked. Every
  -- refusal is a 401, the one 403, a 500 or the 503 of a failing store.
  pub authenticate_basic-OwnsPassword :
      (api : Api) (now : ℕ) (challenge : Text) (req : AuthRequest) (s : S)
      → Ends
          (OwnsPassword backend codec libs api now req s)
          IsAnswer
          (authenticate_basic backend codec libs api now challenge req s)
  unfolding authenticate_basic basic_challenge_error
  authenticate_basic-OwnsPassword api now challenge req s =
      let Good = OwnsPassword backend codec libs api now req s in
      some_or-Ends Good IsAnswer _ _ _ s (λ e. no_credential (basic_challenge_error challenge) refl)
        (λ (username, password) presented.
          let key_hash = hash_key codec (codes "basic:" ++ username) in
          >>=-Ends (IsRead backend codec (session_storage_key api.org_id key_hash) s) Good IsAnswer
            _ _ s (read_session-Ends backend codec api key_hash s)
            (λ o s' is_read.
              some_or-Ends Good IsAnswer _ _ _ s' (λ e. broken verification_failed refl)
                (λ verify v.
                  some_or-Ends Good IsAnswer verify _ _ s' (λ e. broken verification_failed refl)
                    (λ matches m.
                      Ends-map _ Good IsAnswer IsAnswer
                        (λ ctx s'' owner. record {
                          username = username;
                          password = password;
                          presented = presented;
                          owner = owner;
                        })
                        (λ r h. h) _
                        (guarded-Owns backend codec (λ u. u.basic_auth)
                          (λ hash. libs.bcrypt_verify password hash ≡ some (some true)) api now
                          key_hash dummy_bcrypt_hash matches o s s'
                          (λ yes_. v ∙ ap some (m ∙ ap some yes_)) is_read)))))

  -- An HMAC request is let through only for a key id that the store knows, on a signature that
  -- verifies under the key's own secret over the parts of the request that its header names, by an
  -- algorithm that the API allows, with a signed date within the allowed skew where one is set, the
  -- session being active and unexpired and the API granted; an unknown key id, and a session
  -- without a secret, is refused although a dummy secret is checked. Every refusal is a 401, the
  -- one 403, a 500 or the 503 of a failing store.
  pub authenticate_hmac-OwnsSignature :
      (api : Api) (skew_now now : ℕ) (allowed : List HmacAlgorithm) (skew : Option ℕ)
      (req : AuthRequest) (s : S)
      → Ends
          (OwnsSignature backend codec libs api skew_now now allowed skew req s)
          IsAnswer
          (authenticate_hmac backend codec libs api skew_now now allowed skew req s)
  unfolding authenticate_hmac
  authenticate_hmac-OwnsSignature api skew_now now allowed skew req s =
      let Good = OwnsSignature backend codec libs api skew_now now allowed skew req s in
      some_or-Ends Good IsAnswer _ _ _ s (λ e. no_credential signature_missing refl)
        (λ params presented.
          some_or-Ends Good IsAnswer _ _ _ s (λ e. denied)
            (λ algorithm allows.
              reject_if-Ends Good IsAnswer _ _ _ s (λ stale. denied)
                (λ fresh.
                  some_or-Ends Good IsAnswer _ _ _ s (λ e. denied)
                    (λ signing_string covers.
                      let key_hash = hash_key codec (codes "hmac:" ++ params.key_id) in
                      >>=-Ends (IsRead backend codec (session_storage_key api.org_id key_hash) s)
                        Good IsAnswer _ _ s (read_session-Ends backend codec api key_hash s)
                        (λ o s' is_read.
                          Ends-map _ Good IsAnswer IsAnswer
                            (λ ctx s'' owner. record {
                              params = params;
                              algorithm = algorithm;
                              signing_string = signing_string;
                              presented = presented;
                              allowed_algorithm = allows;
                              fresh = ground arith;
                              covers = covers;
                              owner = owner;
                            })
                            (λ r h. h) _
                            (guarded-Owns backend codec (λ u. u.hmac) _ api now key_hash
                              dummy_hmac_secret _ o s s' (λ yes_. yes_) is_read))))))
