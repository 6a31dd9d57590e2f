-- ===== src/Middleware/Auth/Owners.antt =====
-- The end of the basic-auth and HMAC modes of auth.rs, which only the owner of a stored secret
-- passes, and the answers that the layer gives.
use g2way.Common.{
  ◌≡◌, refl, subst, inl, inr, ℕ, Bool, true, false, not, ◌&&◌, Option, none, some, Text, arith, ok,
  Option-cases,
}
use g2way.Core.Session.{KeySession, session_storage_key, is_expired, is_some}
use g2way.Middleware.RateLimit.{SessionContext}
use g2way.Middleware.Reads.{
  ◌>>=◌, ◌>>◌, some_or, reject_if, Ends, some_or-Ends, reject_if-Ends, Ends-map,
}
use g2way.Middleware.Auth.{
  Refusal, forbidden, unavailable, malformed_session, malformed_policy, Backend, Codec, Api, admit,
}
use g2way.Middleware.Auth.Stored.{Unfit, Unresolved, Excluded, Admitted, read-Ends, admit-Ends}
use g2way.Middleware.Auth.Stored
use g2way.Middleware.Auth.Decision.{Stands}
use g2way.Middleware.Auth.Secrets.{or_dummy, secret_of, parsed_or, read_session}

-- Every answer that authentication gives: 401 to a request without a credential of the mode, the
-- one 403, 503 where the store fails, and 500 where a record or a check is broken.
pub data IsAnswer : Refusal → Type 0 where
  no_credential : (r : Refusal) → r.status ≡ 401 → IsAnswer r
  denied : IsAnswer forbidden
  store_down : IsAnswer unavailable
  broken : (r : Refusal) → r.status ≡ 500 → IsAnswer r

module _ {S Key : Type 0} (backend : Backend S Key) (codec : Codec) where
  pub Unfit-IsAnswer :
      (org_id policy_id : Text) (s : S) (r : Refusal)
      → Unfit backend codec org_id policy_id s r
      → IsAnswer r
  Unfit-IsAnswer org_id policy_id s _ (Stored.down e s' g) = store_down
  Unfit-IsAnswer org_id policy_id s _ (Stored.missing s' g) = denied
  Unfit-IsAnswer org_id policy_id s _ (Stored.garbled t s' g p) = broken malformed_policy refl
  Unfit-IsAnswer org_id policy_id s _ (Stored.misfiled t p s' g h k) = broken malformed_policy refl
  Unfit-IsAnswer org_id policy_id s _ (Stored.inactive t p s' g h k) = denied

  pub Excluded-IsAnswer :
      (api : Api) (session : KeySession) (s : S) (r : Refusal)
      → Excluded backend codec api session s r
      → IsAnswer r
  Excluded-IsAnswer api session s _ (Stored.not_granted final s' h off) = denied
  Excluded-IsAnswer api session s r (Stored.unresolved r' why) = by_cause r' why
    where
      by_cause : (r : Refusal) → Unresolved backend codec session s r → IsAnswer r
      by_cause _ (Stored.several a b more e) = broken malformed_session refl
      by_cause r (Stored.unfit policy_id r' e why) =
          Unfit-IsAnswer session.org_id policy_id s r' why

  -- What the read of a named session has found.
  abbrev pub IsRead : Text → S → Option KeySession → S → Type 0
  IsRead key s none s' = backend.get key s ≡ (ok none, s')
  IsRead key s (some session) s' = Stands backend codec key s session s'

  pub read_session-Ends :
      (api : Api) (key_hash : Text) (s : S)
      → Ends
          (IsRead (session_storage_key api.org_id key_hash) s)
          IsAnswer
          (read_session backend codec api key_hash s)
  unfolding read_session
  read_session-Ends api key_hash s =
      let Good = IsRead (session_storage_key api.org_id key_hash) s in
      read-Ends backend codec Good IsAnswer _ _ s (λ e s' g. store_down) (found api key_hash s)
    where
      found :
          (api : Api) (key_hash : Text) (s : S) (o : Option Text) (s' : S)
          → backend.get (session_storage_key api.org_id key_hash) s ≡ (ok o, s')
          → Ends
              (IsRead (session_storage_key api.org_id key_hash) s)
              IsAnswer
              (parsed_or backend codec o s')
      found api key_hash s none s' g = g
      found api key_hash s (some text) s' g =
          some_or-Ends (IsRead (session_storage_key api.org_id key_hash) s) IsAnswer _ _ _ s'
            (λ e. broken malformed_session refl)
            (λ session parsed. record { text = text; found = g; parsed = parsed })

-- The guard of both modes, taken apart.
all_hold :
    (verified has_secret active expired : Bool)
    → not (verified && has_secret && active && not expired) ≡ false
    → (verified ≡ true) × (has_secret ≡ true) × (active ≡ true) × (expired ≡ false)
all_hold verified has_secret active expired h = ground arith

-- A session with a secret is checked against that secret.
own_secret_lem :
    (field : KeySession → Option Text) (o : Option KeySession) (session : KeySession) (dummy : Text)
    → o ≡ some session
    → is_some (field session) ≡ true
    → (secret : Text) × (field session ≡ some secret)
      × (or_dummy (secret_of field o) dummy ≡ secret)
own_secret_lem field o session dummy e h = elim (Option-cases (field session)) [
  | inl none_ ↦ cc (none_, h)
  | inr (secret, there) ↦ (secret, there, rw (e, there) refl)
]

module _ {S Key : Type 0} (backend : Backend S Key) (codec : Codec) where
  -- The session of a name, verified against a secret of its own.
  pub record Owns (field : KeySession → Option Text) (verifies : Text → Type 0) (api : Api)
      (now : ℕ) (key_hash : Text) (s : S) (ctx : SessionContext) (s' : S) : Type 0 where
    pub session : KeySession
    pub secret : Text
    pub middle : S
    pub stored : Stands backend codec (session_storage_key api.org_id key_hash) s session middle
    pub own_secret : field session ≡ some secret
    pub verified : verifies secret
    pub active : session.active ≡ true
    pub unexpired : is_expired session now ≡ false
    pub admitted : Admitted backend codec api key_hash session middle ctx s'

module _ {S Key : Type 0} (backend : Backend S Key) (codec : Codec) where
  -- The guard and the admission that end both modes.
  pub guarded-Owns :
      (field : KeySession → Option Text) (verifies : Text → Type 0) (api : Api) (now : ℕ)
      (key_hash dummy : Text) (verified : Bool) (o : Option KeySession) (s s' : S)
      → (verified ≡ true → verifies (or_dummy (secret_of field o) dummy))
      → IsRead backend codec (session_storage_key api.org_id key_hash) s o s'
      → Ends (Owns backend codec field verifies api now key_hash s) IsAnswer (
          (some_or o forbidden >>= λ found.
          reject_if
            (not (verified && is_some (field found) && found.active && not (is_expired found now)))
            forbidden
          >> admit backend codec api key_hash found)
            s')
  guarded-Owns field verifies api now key_hash dummy verified o s s' sound is_read =
      let Good = Owns backend codec field verifies api now key_hash s in
      some_or-Ends Good IsAnswer o _ _ s' (λ e. denied)
        (λ session e.
          reject_if-Ends Good IsAnswer _ _ _ s' (λ off. denied)
            (λ on.
              let (checked, some_, active, unexpired) = all_hold _ _ _ _ on in
              let (secret, own, used) = own_secret_lem field o session dummy e some_ in
              Ends-map _ Good _ IsAnswer
                (λ ctx s'' admitted. record {
                  session = session;
                  secret = secret;
                  middle = s';
                  stored = rw e at is_read;
                  own_secret = own;
                  verified = subst verifies used (sound checked);
                  active = active;
                  unexpired = unexpired;
                  admitted = admitted;
                })
                (Excluded-IsAnswer backend codec api session s') _
                (admit-Ends backend codec api key_hash session s')))
