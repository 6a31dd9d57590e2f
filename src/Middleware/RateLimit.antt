-- ===== src/Middleware/RateLimit.antt =====
-- crates/g2-middleware/src/rate_limit.rs: what the rate-limit layer does to one request.
--
-- The store is behind its interface, its state passed along with the buckets of the spike guard.
-- Regular expressions and the hash of the guard are parameters. The three clocks that a request
-- reads are an argument.
pub mod Endpoints
pub mod Calls
pub mod Response
pub mod Stages
pub mod Sessions
pub mod Tests
use g2way.Common.{
  ℕ, ◌+◌, ◌/◌, max, Bool, false, List, Option, none, some, Text, codes, ltb, if◌then◌else◌, find,
  Result, ok, err, u64_mod, u64_max, saturating_add64,
}
use g2way.Core.Session.{RateLimit, Quota, KeySession, rate_limit_storage_key, quota_storage_key}
use g2way.Storage.{StorageError, LimitDecision, from_secs, Limiter}
use g2way.Middleware.Spike.{SpikeGuard, try_acquire_at}
use g2way.Middleware.Rules.{rule_matches}

-- A response that this layer makes itself: a status, a message and the four headers.
pub record Rejection : Type 0 where
  pub status : ℕ
  pub message : Text
  pub limit : ℕ
  pub remaining : ℕ
  pub reset : ℕ
  pub retry_after : ℕ

-- What comes of `enforce`. The guard indexes its buckets, which panics out of range.
pub data Verdict : Type 0 where
  proceeds panics : Verdict
  rejects : Rejection → Verdict

pub record Clock : Type 0 where
  pub now : ℕ
  pub now_secs : ℕ
  pub unix_now_secs : ℕ

pub record CompiledEndpointLimit (R : Type 0) : Type 0 where
  pub regex : R
  pub methods : List Text
  pub requests : ℕ
  pub window : ℕ
  pub storage_key : Text

-- The session that the auth layer put on a request, under the hash of its key.
pub record SessionContext : Type 0 where
  pub key_hash : Text
  pub session : KeySession

pub record Request : Type 0 where
  pub method : Text
  pub path : Text
  pub context : Option SessionContext

pub record World (S : Type 0) : Type 0 where
  pub store : S
  pub spike_guard : Option SpikeGuard

-- `as_millis().div_ceil(1000)`, in a `u64` and at least 1.
pub whole_secs : ℕ → ℕ
whole_secs reset_after =
    let secs = (reset_after / 1000000 + 999) / 1000 in
    max (if ltb secs u64_mod then secs else u64_max) 1

pub limit_response :
    (status : ℕ) (message : Text) (limit unix_now_secs : ℕ) → LimitDecision → Rejection
unfolding whole_secs
limit_response status message limit unix_now_secs decision =
    let reset_secs = whole_secs decision.reset_after in
    record {
      status = status;
      message = message;
      limit = limit;
      remaining = decision.remaining;
      reset = saturating_add64 unix_now_secs reset_secs;
      retry_after = reset_secs;
    }

abbrev pub rate_message : Text
rate_message = codes "rate limit exceeded"

abbrev pub quota_message : Text
quota_message = codes "quota exceeded"

-- A check's result: a denial rejects, and an error of the store lets the request on.
pub judge :
    (status : ℕ) (message : Text) (limit unix_now_secs : ℕ)
    → Result LimitDecision StorageError
    → Verdict
unfolding limit_response
judge status message limit unix_now_secs (err e) = proceeds
judge status message limit unix_now_secs (ok decision) =
    if decision.allowed
    then proceeds
    else rejects (limit_response status message limit unix_now_secs decision)

-- The early return of a rejection.
abbrev pub and_then : {W : Type 0} → Verdict × W → (W → Verdict × W) → Verdict × W
and_then (proceeds, w) k = k w
and_then (panics, w) k = (panics, w)
and_then (rejects r, w) k = (rejects r, w)

pub spike_limit : Option RateLimit → Option Quota → ℕ
spike_limit (some rate) quota = rate.requests
spike_limit none (some quota) = quota.max
spike_limit none none = 0

module _ {R : Type 0} (is_match : R → Text → Bool) where
  pub first_match : List (CompiledEndpointLimit R) → Text → Text → Option (CompiledEndpointLimit R)
  first_match rules method path =
      find (λ r. rule_matches is_match r.methods r.regex method path) rules

module _ {S : Type 0} (storage : Limiter S) (clock : Clock) where
  -- The check of a rule: an endpoint's, or a session's rate.
  pub enforce_rate : Text → ℕ → ℕ → World S → Verdict × World S
  unfolding judge
  enforce_rate key requests window w =
      let (result, store) = storage.check_rate key requests window clock.now w.store in
      (judge 429 rate_message requests clock.unix_now_secs result, record w { store = store })

  pub enforce_quota : Text → ℕ → ℕ → World S → Verdict × World S
  unfolding judge
  enforce_quota key max period w =
      let (result, store) = storage.check_quota key max period clock.now w.store in
      (judge 403 quota_message max clock.unix_now_secs result, record w { store = store })

  -- The guard knows no shared state: it answers with a retry hint of one second.
  pub enforce_spike : (Text → ℕ) → Text → ℕ → World S → Verdict × World S
  unfolding limit_response
  enforce_spike hash_one identity limit w = elim w.spike_guard [
    | none ↦ (proceeds, w)
    | some guard ↦ elim (try_acquire_at hash_one guard identity clock.now_secs) [
      | none ↦ (panics, w)
      | some (taken, guard') ↦
          let denial : LimitDecision = record {
            allowed = false;
            remaining = 0;
            reset_after = from_secs 1;
          } in
          (
            if taken
                then proceeds
                else rejects (limit_response 429 rate_message limit clock.unix_now_secs denial),
            record w { spike_guard = some guard' },
          )
    ]
  ]

  pub enforce_session_rate : Text → Text → Option RateLimit → World S → Verdict × World S
  unfolding enforce_rate
  enforce_session_rate org_id identity none w = (proceeds, w)
  enforce_session_rate org_id identity (some rate) w =
      enforce_rate (rate_limit_storage_key org_id identity) rate.requests
        (from_secs rate.per_seconds) w

  pub enforce_session_quota : Text → Text → Option Quota → World S → Verdict × World S
  unfolding enforce_quota
  enforce_session_quota org_id identity none w = (proceeds, w)
  enforce_session_quota org_id identity (some quota) w =
      enforce_quota (quota_storage_key org_id identity) quota.max
        (from_secs quota.renewal_rate_secs) w

  -- The checks of a session that has an allowance.
  abbrev pub enforce_allowances :
      (Text → ℕ) → Text → Text → Option RateLimit → Option Quota → World S → Verdict × World S
  enforce_allowances hash_one org_id identity rate quota w =
      and_then (enforce_spike hash_one identity (spike_limit rate quota) w) λ w1.
        and_then (enforce_session_rate org_id identity rate w1)
          λ w2. enforce_session_quota org_id identity quota w2

  abbrev pub allowances :
      (Text → ℕ) → Text → Text → Option RateLimit → Option Quota → World S → Verdict × World S
  allowances hash_one org_id identity none none w = (proceeds, w)
  allowances hash_one org_id identity (some rate) quota w =
      enforce_allowances hash_one org_id identity (some rate) quota w
  allowances hash_one org_id identity none (some quota) w =
      enforce_allowances hash_one org_id identity none (some quota) w

  pub enforce_session : (Text → ℕ) → Option SessionContext → World S → Verdict × World S
  unfolding enforce_spike enforce_session_rate enforce_session_quota spike_limit
  enforce_session hash_one none w = (proceeds, w)
  enforce_session hash_one (some ctx) w =
      allowances hash_one ctx.session.org_id ctx.key_hash ctx.session.rate ctx.session.quota w

  pub enforce_endpoint :
      {R : Type 0} → Option (CompiledEndpointLimit R) → World S → Verdict × World S
  unfolding enforce_rate
  enforce_endpoint none w = (proceeds, w)
  enforce_endpoint (some rule) w = enforce_rate rule.storage_key rule.requests rule.window w

  -- `endpoint_limits` is the API's list of rules, empty where it declares none.
  pub enforce :
      {R : Type 0}
      → (R → Text → Bool)
      → (Text → ℕ)
      → List (CompiledEndpointLimit R)
      → Request
      → World S
      → Verdict × World S
  unfolding enforce_endpoint enforce_session first_match
  enforce is_match hash_one endpoint_limits req w =
      and_then (enforce_endpoint (first_match is_match endpoint_limits req.method req.path) w)
        λ w1. enforce_session hash_one req.context w1
