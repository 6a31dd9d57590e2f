-- ===== src/Middleware/RateLimit/Calls.antt =====
-- The calls of the store that the layer of rate_limit.rs may make for a request.
pub mod Order
use g2way.Common.{
  ℕ, ◌≡◌, sym, ◌∙◌, ◌↔◌, refl, Bool, true, false, not, ◌&&◌, List, [], ◌∷◌, ◌++◌, Option, none,
  some, Text, arith, if◌then◌else◌, Result, ok, err, is_empty,
}
use mathlib.Core.List.{append-nil, append_assoc}
use g2way.Core.Session.{RateLimit, Quota, rate_limit_storage_key, quota_storage_key}
use g2way.Storage.{StorageError, LimitDecision, from_secs, Limiter}
use g2way.Middleware.Spike.{SpikeGuard, try_acquire_at}
use g2way.Middleware.RateLimit.{
  Verdict, proceeds, panics, rejects, Clock, CompiledEndpointLimit, SessionContext, Request, World,
  judge, and_then, first_match, spike_limit, enforce_rate, enforce_quota, enforce_spike,
  enforce_session_rate, enforce_session_quota, enforce_allowances, enforce_session,
  enforce_endpoint, enforce,
}

-- A call of the store: a key, an allowance and a window, of a rate or of a quota.
pub data Call : Type 0 where
  rate_call quota_call : Text → ℕ → ℕ → Call

module _ (answer : Call → Result LimitDecision StorageError) where
  -- A store whose state is the list of the calls that it has answered.
  abbrev pub recorder : Limiter (List Call)
  recorder = record {
    check_rate = λ key limit window now calls.
        (answer (rate_call key limit window), calls ++ rate_call key limit window ∷ []);
    check_quota = λ key max period now calls.
        (answer (quota_call key max period), calls ++ quota_call key max period ∷ []);
  }

  abbrev pub denies : Result LimitDecision StorageError → Bool
  denies (ok d) = not d.allowed
  denies (err e) = false

  abbrev pub IsDenied : Call → Type 0
  IsDenied c = denies (answer c) ≡ true

  -- The calls up to the first that is denied, that one included.
  abbrev pub up_to_denied : List Call → List Call
  up_to_denied [] = []
  up_to_denied (c ∷ calls) =
      let rest = up_to_denied calls in if denies (answer c) then c ∷ [] else c ∷ rest

  abbrev pub none_denied : List Call → Bool
  none_denied [] = true
  none_denied (c ∷ calls) = not (denies (answer c)) && none_denied calls

-- The calls that a request may need, in their order.
abbrev pub endpoint_calls : {R : Type 0} → Option (CompiledEndpointLimit R) → List Call
endpoint_calls none = []
endpoint_calls (some rule) = rate_call rule.storage_key rule.requests rule.window ∷ []

abbrev pub rate_calls : Text → Text → Option RateLimit → List Call
rate_calls org_id identity none = []
rate_calls org_id identity (some r) =
    rate_call (rate_limit_storage_key org_id identity) r.requests (from_secs r.per_seconds) ∷ []

abbrev pub quota_calls : Text → Text → Option Quota → List Call
quota_calls org_id identity none = []
quota_calls org_id identity (some q) =
    quota_call (quota_storage_key org_id identity) q.max (from_secs q.renewal_rate_secs) ∷ []

abbrev pub allowance_calls : Text → Text → Option RateLimit → Option Quota → List Call
allowance_calls org_id identity rate quota =
    rate_calls org_id identity rate ++ quota_calls org_id identity quota

abbrev pub session_calls : Option SessionContext → List Call
session_calls none = []
session_calls (some ctx) =
    allowance_calls ctx.session.org_id ctx.key_hash ctx.session.rate ctx.session.quota

-- Whether the guard, where there is one, lets the identity through.
abbrev pub guard_takes : (Text → ℕ) → Clock → Text → Option SpikeGuard → Bool
guard_takes hash_one clock identity none = true
guard_takes hash_one clock identity (some guard) =
    elim (try_acquire_at hash_one guard identity clock.now_secs) [
      | none ↦ false
      | some (taken, guard') ↦ taken
    ]

-- Whether the guard lets the request through: it is asked for a session with an allowance only.
abbrev pub passes_guard : (Text → ℕ) → Clock → Option SessionContext → Option SpikeGuard → Bool
passes_guard hash_one clock none guard = true
passes_guard hash_one clock (some ctx) guard =
    if is_empty (session_calls (some ctx))
    then true
    else guard_takes hash_one clock ctx.key_hash guard
