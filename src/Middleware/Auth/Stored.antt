-- ===== src/Middleware/Auth/Stored.antt =====
-- The stored-credential path of auth.rs: who passes, and what each refusal says of the store.
use g2way.Common.{
  ◌≡◌, refl, true, false, not, ◌||◌, List, [], ◌∷◌, Option, none, some, Text, arith, Result, ok,
  err, text_eq, text_eq_iff,
}
use g2way.Core.Session.{KeySession, allows_api}
use g2way.Core.Policy.{Policy, policy_storage_key, apply_policy}
use g2way.Storage.{StorageError}
use g2way.Middleware.RateLimit.{SessionContext}
use g2way.Middleware.Reads.{Reads, ◌>>=◌, Ends, >>=-Ends, some_or-Ends, reject_if-Ends, Ends-map}
use g2way.Middleware.Auth.{
  Refusal, forbidden, unavailable, malformed_session, malformed_policy, Backend, Codec, Api,
  or_unavailable, read, fetch_active_policy, resolve_ids, resolve_policy, admit,
}

module _ {S Key : Type 0} (backend : Backend S Key) (codec : Codec) where
  -- A policy that stands in the store under its own name and is in force.
  pub record InForce (org_id policy_id : Text) (s : S) (p : Policy) (s' : S) : Type 0 where
    pub text : Text
    pub found : backend.get (policy_storage_key org_id policy_id) s ≡ (ok (some text), s')
    pub parsed : codec.parse_policy text ≡ some p
    pub own_org : p.org_id ≡ org_id
    pub own_id : p.policy_id ≡ policy_id
    pub active : p.active ≡ true

  -- Why a policy is not to be had.
  pub data Unfit (org_id policy_id : Text) (s : S) : Refusal → Type 0 where
    down :
        (e : StorageError) (s' : S)
        → backend.get (policy_storage_key org_id policy_id) s ≡ (err e, s')
        → Unfit org_id policy_id s unavailable
    missing :
        (s' : S)
        → backend.get (policy_storage_key org_id policy_id) s ≡ (ok none, s')
        → Unfit org_id policy_id s forbidden
    garbled :
        (text : Text) (s' : S)
        → backend.get (policy_storage_key org_id policy_id) s ≡ (ok (some text), s')
        → codec.parse_policy text ≡ none
        → Unfit org_id policy_id s malformed_policy
    misfiled :
        (text : Text) (p : Policy) (s' : S)
        → backend.get (policy_storage_key org_id policy_id) s ≡ (ok (some text), s')
        → codec.parse_policy text ≡ some p
        → (not (text_eq p.org_id org_id) || not (text_eq p.policy_id policy_id)) ≡ true
        → Unfit org_id policy_id s malformed_policy
    inactive :
        (text : Text) (p : Policy) (s' : S)
        → backend.get (policy_storage_key org_id policy_id) s ≡ (ok (some text), s')
        → codec.parse_policy text ≡ some p
        → p.active ≡ false
        → Unfit org_id policy_id s forbidden

  pub read-Ends :
      {B : Type 0} (Good : B → S → Type 0) (Bad : Refusal → Type 0) (key : Text)
      (k : Option Text → Reads S Refusal B) (s : S)
      → ((e : StorageError) (s' : S) → backend.get key s ≡ (err e, s') → Bad unavailable)
      → ((o : Option Text) (s' : S) → backend.get key s ≡ (ok o, s') → Ends Good Bad (k o s'))
      → Ends Good Bad ((read backend codec key >>= k) s)
  unfolding read
  read-Ends Good Bad key k s bad good =
      >>=-Ends (λ o s'. backend.get key s ≡ (ok o, s')) Good Bad (read backend codec key) k s
        (by_result (backend.get key s) refl) good
    where
      by_result :
          (r : Result (Option Text) StorageError × S)
          → backend.get key s ≡ r
          → Ends (λ o s'. backend.get key s ≡ (ok o, s')) Bad (or_unavailable r)
      by_result (ok o, s') e = e
      by_result (err x, s') e = bad x s' e

  pub fetch_active_policy-Ends :
      (org_id policy_id : Text) (s : S)
      → Ends
          (InForce org_id policy_id s)
          (Unfit org_id policy_id s)
          (fetch_active_policy backend codec org_id policy_id s)
  unfolding fetch_active_policy
  fetch_active_policy-Ends org_id policy_id s =
      let Good = InForce org_id policy_id s in
      let Bad = Unfit org_id policy_id s in
      read-Ends Good Bad _ _ s down (λ o s' found.
        some_or-Ends Good Bad o _ _ s' (λ none_. missing s' (rw none_ at found))
          (λ text e.
            let found' = rw e at found in
            some_or-Ends Good Bad _ _ _ s' (garbled text s' found') (λ p parsed.
              reject_if-Ends Good Bad _ _ _ s' (misfiled text p s' found' parsed) (λ own.
                reject_if-Ends Good Bad _ _ _ s'
                  (λ off. inactive text p s' found' parsed (ground arith))
                  (λ on. record {
                    text = text;
                    found = found';
                    parsed = parsed;
                    own_org = ground (arith, text_eq_iff p.org_id org_id);
                    own_id = ground (arith, text_eq_iff p.policy_id policy_id);
                    active = ground arith;
                  })))))

  -- What a session is worth once its policy has been applied.
  pub data Resolved (session : KeySession) (s : S) : KeySession → S → Type 0 where
    own : session.apply_policies ≡ [] → Resolved session s session s
    by_policy :
        (policy_id : Text) (p : Policy) (s' : S)
        → session.apply_policies ≡ policy_id ∷ []
        → InForce session.org_id policy_id s p s'
        → Resolved session s (apply_policy session p) s'

  pub data Unresolved (session : KeySession) (s : S) : Refusal → Type 0 where
    several :
        (first second : Text) (more : List Text)
        → session.apply_policies ≡ first ∷ second ∷ more
        → Unresolved session s malformed_session
    unfit :
        (policy_id : Text) (r : Refusal)
        → session.apply_policies ≡ policy_id ∷ []
        → Unfit session.org_id policy_id s r
        → Unresolved session s r

  resolve_policy-Ends :
      (session : KeySession) (s : S)
      → Ends (Resolved session s) (Unresolved session s) (resolve_policy backend codec session s)
  unfolding resolve_policy
  resolve_policy-Ends session s = by_list session.apply_policies refl
    where
      by_list :
          (ids : List Text)
          → session.apply_policies ≡ ids
          → Ends
              (Resolved session s)
              (Unresolved session s)
              (resolve_ids backend codec session ids s)
      by_list [] e = own e
      by_list (policy_id ∷ []) e =
          let Good = Resolved session s in
          let Bad = Unresolved session s in
          let Mid = InForce session.org_id policy_id s in
          >>=-Ends Mid Good Bad _ _ s
            (Ends-map Mid Mid (Unfit session.org_id policy_id s) Bad (λ p s' h. h)
              (λ r. unfit policy_id r e) _ (fetch_active_policy-Ends session.org_id policy_id s))
            (λ p s'. by_policy policy_id p s' e)
      by_list (first ∷ second ∷ more) e = several first second more e

  -- What admission to the API rests on, and what may be in its way.
  pub record Admitted (api : Api) (key_hash : Text) (session : KeySession) (s : S)
      (ctx : SessionContext) (s' : S) : Type 0 where
    pub resolved : Resolved session s ctx.session s'
    pub granted : allows_api ctx.session api.api_id ≡ true
    pub same_key : ctx.key_hash ≡ key_hash

  pub data Excluded (api : Api) (session : KeySession) (s : S) : Refusal → Type 0 where
    unresolved : (r : Refusal) → Unresolved session s r → Excluded api session s r
    not_granted :
        (final : KeySession) (s' : S)
        → Resolved session s final s'
        → allows_api final api.api_id ≡ false
        → Excluded api session s forbidden

  pub admit-Ends :
      (api : Api) (key_hash : Text) (session : KeySession) (s : S)
      → Ends
          (Admitted api key_hash session s)
          (Excluded api session s)
          (admit backend codec api key_hash session s)
  unfolding admit
  admit-Ends api key_hash session s =
      let Good = Admitted api key_hash session s in
      let Bad = Excluded api session s in
      >>=-Ends (Resolved session s) Good Bad _ _ s
        (Ends-map (Resolved session s) (Resolved session s) (Unresolved session s) Bad (λ p s' h. h)
          unresolved _ (resolve_policy-Ends session s))
        (λ final s' resolved.
          reject_if-Ends Good Bad _ _ _ s' (λ off. not_granted final s' resolved (ground arith))
            (λ on. record { resolved = resolved; granted = ground arith; same_key = refl }))
