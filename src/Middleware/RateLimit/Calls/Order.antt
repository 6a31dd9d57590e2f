-- ===== src/Middleware/RateLimit/Calls/Order.antt =====
-- In which order the layer of rate_limit.rs asks the store, and when it stops.
use g2way.Common.{
  ℕ, ◌≡◌, sym, ◌∙◌, ◌↔◌, refl, Bool, true, false, ◌&&◌, List, [], ◌∷◌, ◌++◌, Option, none, some,
  Text, arith, if◌then◌else◌, Result,
}
use mathlib.Core.List.{append-nil, append_assoc}
use g2way.Core.Session.{RateLimit, Quota}
use g2way.Storage.{StorageError, LimitDecision}
use g2way.Middleware.Spike.{SpikeGuard}
use g2way.Middleware.RateLimit.{
  Verdict, proceeds, panics, rejects, Clock, CompiledEndpointLimit, SessionContext, Request, World,
  judge, and_then, first_match, spike_limit, enforce_rate, enforce_quota, enforce_spike,
  enforce_session_rate, enforce_session_quota, enforce_allowances, enforce_session,
  enforce_endpoint, enforce,
}
use g2way.Middleware.RateLimit.Calls.{
  Call, rate_call, quota_call, recorder, up_to_denied, none_denied, endpoint_calls, rate_calls,
  quota_calls, allowance_calls, session_calls, guard_takes, passes_guard,
}

module _ (answer : Call → Result LimitDecision StorageError) (clock : Clock) where
  -- A stage that makes the calls of a plan up to a denial, and lets the request on if there is none
  -- and `takes` says so.
  abbrev Did : List Call → Bool → List Call → Verdict × World (List Call) → Type 0
  Did plan takes before (verdict, w) =
      (w.store ≡ before ++ up_to_denied answer plan)
      × ((verdict ≡ proceeds) ↔ ((none_denied answer plan && takes) ≡ true))

  up_to_denied-append :
      (p q : List Call)
      → up_to_denied answer (p ++ q)
        ≡ (if none_denied answer p then p ++ up_to_denied answer q else up_to_denied answer p)
  up_to_denied-append [] q = refl
  up_to_denied-append (c ∷ p) q = ground (arith, up_to_denied-append p q)

  up_to_denied_all : (p : List Call) → none_denied answer p ≡ true → up_to_denied answer p ≡ p
  up_to_denied_all [] h = refl
  up_to_denied_all (c ∷ p) h = ground (arith, up_to_denied_all p)

  none_denied-append :
      (p q : List Call)
      → none_denied answer (p ++ q) ≡ (none_denied answer p && none_denied answer q)
  none_denied-append [] q = refl
  none_denied-append (c ∷ p) q = ground (arith, none_denied-append p q)

  and_then-Did :
      (p q : List Call) (takes : Bool) (before : List Call) (r : Verdict × World (List Call))
      (k : World (List Call) → Verdict × World (List Call))
      → Did p true before r
      → Did q takes r.1.store (k r.1)
      → Did (p ++ q) takes before (and_then r k)
  and_then-Did p q takes before (proceeds, w) k (e, (to, from)) (e', (to', from')) =
      let all : none_denied answer p ≡ true = ground arith in
      rw (up_to_denied-append p q, none_denied-append p q, all)
        (
          e' ∙ rw (e, up_to_denied_all p all) (append_assoc before p (up_to_denied answer q)),
          (to', from'),
        )
  and_then-Did p q takes before (panics, w) k (e, (to, from)) d =
      let some_denied : none_denied answer p ≡ false = ground arith in
      rw (up_to_denied-append p q, none_denied-append p q, some_denied) (e, (λ h. cc, λ h. cc))
  and_then-Did p q takes before (rejects x, w) k (e, (to, from)) d =
      let some_denied : none_denied answer p ≡ false = ground arith in
      rw (up_to_denied-append p q, none_denied-append p q, some_denied) (e, (λ h. cc, λ h. cc))

  spike-Did :
      (hash_one : Text → ℕ) (identity : Text) (limit : ℕ) (calls : List Call)
      (guard : Option SpikeGuard)
      → Did [] (guard_takes hash_one clock identity guard) calls (
          enforce_spike
            (recorder answer)
            clock
            hash_one
            identity
            limit
            (record { store = calls; spike_guard = guard }))
  unfolding enforce_spike
  spike-Did hash_one identity limit calls none = (sym (append-nil calls), (λ h. refl, λ h. refl))
  spike-Did hash_one identity limit calls (some guard) = ground (arith, append-nil calls)

  rate-Did :
      (key : Text) (limit window : ℕ) (w : World (List Call))
      → Did
          (rate_call key limit window ∷ [])
          true
          w.store
          (enforce_rate (recorder answer) clock key limit window w)
  unfolding enforce_rate judge
  rate-Did key limit window w = ground arith

  quota-Did :
      (key : Text) (max period : ℕ) (w : World (List Call))
      → Did
          (quota_call key max period ∷ [])
          true
          w.store
          (enforce_quota (recorder answer) clock key max period w)
  unfolding enforce_quota judge
  quota-Did key max period w = ground arith

  session_rate-Did :
      (org_id identity : Text) (rate : Option RateLimit) (w : World (List Call))
      → Did
          (rate_calls org_id identity rate)
          true
          w.store
          (enforce_session_rate (recorder answer) clock org_id identity rate w)
  unfolding enforce_session_rate
  session_rate-Did org_id identity none w = (sym (append-nil w.store), (λ h. refl, λ h. refl))
  session_rate-Did org_id identity (some r) w = rate-Did _ _ _ w

  session_quota-Did :
      (org_id identity : Text) (quota : Option Quota) (w : World (List Call))
      → Did
          (quota_calls org_id identity quota)
          true
          w.store
          (enforce_session_quota (recorder answer) clock org_id identity quota w)
  unfolding enforce_session_quota
  session_quota-Did org_id identity none w = (sym (append-nil w.store), (λ h. refl, λ h. refl))
  session_quota-Did org_id identity (some q) w = quota-Did _ _ _ w

  endpoint-Did :
      {R : Type 0} (rule : Option (CompiledEndpointLimit R)) (w : World (List Call))
      → Did (endpoint_calls rule) true w.store (enforce_endpoint (recorder answer) clock rule w)
        × ((enforce_endpoint (recorder answer) clock rule w).1.spike_guard ≡ w.spike_guard)
  unfolding enforce_endpoint enforce_rate
  endpoint-Did none w = ((sym (append-nil w.store), (λ h. refl, λ h. refl)), refl)
  endpoint-Did (some r) w = (rate-Did _ _ _ w, refl)

  -- With the guard asked first: where it says no, no call follows.
  guarded-Did :
      (q : List Call) (takes : Bool) (before : List Call) (r : Verdict × World (List Call))
      (k : World (List Call) → Verdict × World (List Call))
      → Did [] takes before r
      → Did q true r.1.store (k r.1)
      → Did (if takes then q else []) takes before (and_then r k)
  guarded-Did q true before r k d d' = and_then-Did [] q true before r k d d'
  guarded-Did q false before (proceeds, w) k (e, (to, from)) d' = absurd (ground arith)
  guarded-Did q false before (panics, w) k d d' = d
  guarded-Did q false before (rejects x, w) k d d' = d

  allowances-Did :
      (hash_one : Text → ℕ) (org_id identity : Text) (rate : Option RateLimit)
      (quota : Option Quota) (w : World (List Call))
      → let takes = guard_takes hash_one clock identity w.spike_guard in
        Did
          (if takes then allowance_calls org_id identity rate quota else [])
          takes
          w.store
          (enforce_allowances (recorder answer) clock hash_one org_id identity rate quota w)
  allowances-Did hash_one org_id identity rate quota w =
      guarded-Did _ _ w.store _ _
        (spike-Did hash_one identity (spike_limit rate quota) w.store w.spike_guard)
        (and_then-Did _ _ true _ _ _ (session_rate-Did org_id identity rate _)
          (session_quota-Did org_id identity quota _))

  session-Did :
      (hash_one : Text → ℕ) (context : Option SessionContext) (w : World (List Call))
      → let takes = passes_guard hash_one clock context w.spike_guard in
        Did
          (if takes then session_calls context else [])
          takes
          w.store
          (enforce_session (recorder answer) clock hash_one context w)
  unfolding enforce_session
  session-Did hash_one none w = (sym (append-nil w.store), (λ h. refl, λ h. refl))
  session-Did hash_one (some ctx) w = go ctx.session.rate ctx.session.quota refl refl
    where
      go :
          (rate : Option RateLimit) (quota : Option Quota)
          → ctx.session.rate ≡ rate
          → ctx.session.quota ≡ quota
          → let takes = passes_guard hash_one clock (some ctx) w.spike_guard in
            Did
              (if takes then session_calls (some ctx) else [])
              takes
              w.store
              (enforce_session (recorder answer) clock hash_one (some ctx) w)
      go none none e e' = rw (e, e') (sym (append-nil w.store), (λ h. refl, λ h. refl))
      go (some r) quota e e' =
          rw (e, e') (allowances-Did hash_one ctx.session.org_id ctx.key_hash (some r) quota w)
      go none (some q) e e' =
          rw (e, e') (allowances-Did hash_one ctx.session.org_id ctx.key_hash none (some q) w)

-- The layer calls the store for the first matching endpoint rule, then, if the guard lets the
-- session through, for its rate and its quota, up to the first denial and not beyond; and the
-- request proceeds exactly when none of these is denied and the guard does not say no. A call that
-- fails denies nothing.
pub enforce-calls :
    {R : Type 0} (answer : Call → Result LimitDecision StorageError) (clock : Clock)
    (is_match : R → Text → Bool) (hash_one : Text → ℕ) (rules : List (CompiledEndpointLimit R))
    (req : Request) (guard : Option SpikeGuard)
    → let takes = passes_guard hash_one clock req.context guard in
      let planned =
        endpoint_calls (first_match is_match rules req.method req.path)
        ++ (if takes then session_calls req.context else []) in
      let (verdict, w) =
        enforce
          (recorder answer)
          clock
          is_match
          hash_one
          rules
          req
          (record { store = []; spike_guard = guard }) in
      (w.store ≡ up_to_denied answer planned)
      × ((verdict ≡ proceeds) ↔ ((none_denied answer planned && takes) ≡ true))
unfolding enforce
enforce-calls answer clock is_match hash_one rules req guard =
    let w : World (List Call) = record { store = []; spike_guard = guard } in
    let rule = first_match is_match rules req.method req.path in
    let (did, same) = endpoint-Did answer clock rule w in
    let after = (enforce_endpoint (recorder answer) clock rule w).1 in
    and_then-Did answer clock _ _ _ [] _ _ did
      (rw same at (session-Did answer clock hash_one req.context after))
