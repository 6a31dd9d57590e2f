-- ===== src/Middleware/Auth/Decision.antt =====
-- Who passes the token and certificate modes of auth.rs, and why anybody else is refused.
use g2way.Common.{
  ◌≡◌, refl, sym, ap, subst, ◌∙◌, ◌↔◌, ℕ, true, false, not, ◌||◌, Option, none, some, Text, arith,
  ok, err, text_eq_refl,
}
use g2way.Core.Session.{KeySession, session_storage_key, is_expired}
use g2way.Core.Policy.{Policy}
use g2way.Storage.{StorageError}
use g2way.Middleware.RateLimit.{SessionContext}
use g2way.Middleware.Reads.{
  Ends, some_or-Ends, reject_if-Ends, Ends-map, >>=-ok, some_or-ok, reject_if-ok,
}
use g2way.Middleware.Auth.{
  Refusal, forbidden, unavailable, malformed_session, Backend, Codec, Api, hash_key, read,
  fetch_active_policy, resolve_ids, resolve_policy, admit, authenticate_stored_token,
}
use g2way.Middleware.Auth.Stored.{
  InForce, own, by_policy, Resolved, Admitted, Excluded, read-Ends, admit-Ends,
}

module _ {S Key : Type 0} (backend : Backend S Key) (codec : Codec) where
  -- The session that stands under a storage key.
  pub record Stands (key : Text) (s : S) (session : KeySession) (s' : S) : Type 0 where
    pub text : Text
    pub found : backend.get key s ≡ (ok (some text), s')
    pub parsed : codec.parse_session text ≡ some session

  -- The token of an active, unexpired session that the API is granted to, under its policy.
  pub record Granted (api : Api) (now : ℕ) (token : Text) (s : S) (ctx : SessionContext) (s' : S)
      : Type 0 where
    pub session : KeySession
    pub middle : S
    pub stored : Stands (session_storage_key api.org_id (hash_key codec token)) s session middle
    pub active : session.active ≡ true
    pub unexpired : is_expired session now ≡ false
    pub admitted : Admitted backend codec api (hash_key codec token) session middle ctx s'

  pub data Refused (api : Api) (now : ℕ) (token : Text) (s : S) : Refusal → Type 0 where
    down :
        (e : StorageError) (s' : S)
        → backend.get (session_storage_key api.org_id (hash_key codec token)) s ≡ (err e, s')
        → Refused api now token s unavailable
    unknown :
        (s' : S)
        → backend.get (session_storage_key api.org_id (hash_key codec token)) s ≡ (ok none, s')
        → Refused api now token s forbidden
    garbled :
        (text : Text) (s' : S)
        → backend.get (session_storage_key api.org_id (hash_key codec token)) s
          ≡ (ok (some text), s')
        → codec.parse_session text ≡ none
        → Refused api now token s malformed_session
    dead :
        (session : KeySession) (s' : S)
        → Stands (session_storage_key api.org_id (hash_key codec token)) s session s'
        → (not session.active || is_expired session now) ≡ true
        → Refused api now token s forbidden
    excluded :
        (session : KeySession) (s' : S) (r : Refusal)
        → Stands (session_storage_key api.org_id (hash_key codec token)) s session s'
        → Excluded backend codec api session s' r
        → Refused api now token s r

module _ {S Key : Type 0} (backend : Backend S Key) (codec : Codec) where
  -- A stored-token request that is let through presented the token of an active and unexpired
  -- session, whose one policy, if it has one, is in force and grants the API in its place, and
  -- carries that session on; one that is refused gets 503 only when the store fails, 500 only when
  -- a record is malformed, misfiled or names several policies, and the one 403 otherwise.
  pub authenticate_stored_token-Ends :
      (api : Api) (now : ℕ) (token : Text) (s : S)
      → Ends
          (Granted backend codec api now token s)
          (Refused backend codec api now token s)
          (authenticate_stored_token backend codec api now token s)
  unfolding authenticate_stored_token
  authenticate_stored_token-Ends api now token s =
      let Good = Granted backend codec api now token s in
      let Bad = Refused backend codec api now token s in
      read-Ends backend codec Good Bad _ _ s down (λ o s' found.
        some_or-Ends Good Bad o _ _ s' (λ e. unknown s' (rw e at found))
          (λ text e.
            let found' = rw e at found in
            some_or-Ends Good Bad _ _ _ s' (garbled text s' found') (λ session parsed.
              let stored : Stands backend codec
                  (session_storage_key api.org_id (hash_key codec token)) s session s' =
                record { text = text; found = found'; parsed = parsed } in
              reject_if-Ends Good Bad _ _ _ s' (dead session s' stored) (λ alive.
                Ends-map _ Good _ Bad
                  (λ ctx s'' admitted. record {
                    session = session;
                    middle = s';
                    stored = stored;
                    active = ground arith;
                    unexpired = ground arith;
                    admitted = admitted;
                  })
                  (λ r. excluded session s' r stored) _
                  (admit-Ends backend codec api (hash_key codec token) session s')))))

  read-ok :
      (key : Text) (s : S) (o : Option Text) (s' : S)
      → backend.get key s ≡ (ok o, s')
      → read backend codec key s ≡ (ok o, s')
  unfolding read
  read-ok key s o s' e = rw e refl

  fetch_active_policy-InForce :
      (org_id policy_id : Text) (s : S) (p : Policy) (s' : S)
      → InForce backend codec org_id policy_id s p s'
      → fetch_active_policy backend codec org_id policy_id s ≡ (ok p, s')
  unfolding fetch_active_policy
  fetch_active_policy-InForce org_id policy_id s p s' h =
      >>=-ok _ _ s _ s' (read-ok _ s _ s' h.found)
      ∙ some_or-ok _ _ _ s' _ refl
      ∙ some_or-ok _ _ _ s' p h.parsed
      ∙ reject_if-ok _ _ _ s'
          (rw (h.own_org, h.own_id, text_eq_refl org_id, text_eq_refl policy_id) refl)
      ∙ reject_if-ok _ _ _ s' (rw h.active refl)

  resolve_policy-Resolved :
      (session : KeySession) (s : S) (final : KeySession) (s' : S)
      → Resolved backend codec session s final s'
      → resolve_policy backend codec session s ≡ (ok final, s')
  unfolding resolve_policy
  resolve_policy-Resolved session s _ _ (own none_) =
      ap (λ ids. resolve_ids backend codec session ids s) none_
  resolve_policy-Resolved session s _ s' (by_policy policy_id p _ one force) =
      ap (λ ids. resolve_ids backend codec session ids s) one
      ∙ >>=-ok _ _ s p s' (fetch_active_policy-InForce session.org_id policy_id s p s' force)

  admit-Admitted :
      (api : Api) (key_hash : Text) (session : KeySession) (s : S) (ctx : SessionContext) (s' : S)
      → Admitted backend codec api key_hash session s ctx s'
      → admit backend codec api key_hash session s ≡ (ok ctx, s')
  unfolding admit
  admit-Admitted api key_hash session s ctx s' h =
      >>=-ok _ _ s ctx.session s' (resolve_policy-Resolved session s ctx.session s' h.resolved)
      ∙ reject_if-ok _ _ _ s' (rw h.granted refl)
      ∙ ap (λ k. (ok (record { key_hash = k; session = ctx.session }), s')) (sym h.same_key)

  -- A stored-token request is let through, with the context `ctx`, exactly when the store holds
  -- what grants it: an active and unexpired session under the hash of the token, its policy in
  -- force where it names one, and the API among what the policy, or else the session, grants.
  pub authenticate_stored_token-Granted :
      (api : Api) (now : ℕ) (token : Text) (s : S) (ctx : SessionContext) (s' : S)
      → (authenticate_stored_token backend codec api now token s ≡ (ok ctx, s'))
        ↔ Granted backend codec api now token s ctx s'
  unfolding authenticate_stored_token
  authenticate_stored_token-Granted api now token s ctx s' = (
    λ e.
        subst (Ends (Granted backend codec api now token s) (Refused backend codec api now token s))
          e (authenticate_stored_token-Ends api now token s),
    granted,
  )
    where
      granted :
          Granted backend codec api now token s ctx s'
          → authenticate_stored_token backend codec api now token s ≡ (ok ctx, s')
      granted h =
          let key = session_storage_key api.org_id (hash_key codec token) in
          >>=-ok _ _ s _ h.middle (read-ok key s _ h.middle h.stored.found)
          ∙ some_or-ok _ _ _ h.middle _ refl
          ∙ some_or-ok _ _ _ h.middle h.session h.stored.parsed
          ∙ reject_if-ok _ _ _ h.middle (let a = h.active in let u = h.unexpired in ground arith)
          ∙ admit-Admitted api (hash_key codec token) h.session h.middle ctx s' h.admitted
