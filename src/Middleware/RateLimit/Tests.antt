-- ===== src/Middleware/RateLimit/Tests.antt =====
-- The layer of rate_limit.rs at concrete inputs.
use g2way.Common.{
  ℕ, ◌+◌, ◌*◌, ◌≡◌, ◌↔◌, ◌⊎◌, inr, refl, ◌≤◌, ◌<◌, true, false, List, [], ◌∷◌, none, some, Text,
  codes, arith, text_eq, lookup, insert, Result, ok, err, if◌then◌else◌, ◌==◌,
}
use g2way.Core.Session.{RateLimit, default, rate_limit_storage_key, quota_storage_key}
use g2way.Storage.{StorageError, LimitDecision, backend}
use g2way.Storage.Memory.{MemoryStorage, limiter, new, check_rate, check_quota}
use g2way.Middleware.RateLimit.{
  proceeds, rejects, Clock, CompiledEndpointLimit, SessionContext, Request, World, limit_response,
  whole_secs, first_match, enforce,
}
use g2way.Middleware.RateLimit.Endpoints.{
  EndpointRateLimit, digits, endpoint_rate_limit_storage_key, compile_endpoint, from_config,
}
use g2way.Middleware.RateLimit.Endpoints.Keys.{configured-Spaced}
use g2way.Middleware.RateLimit.Calls.{Call, rate_call, quota_call, recorder}
use g2way.Middleware.RateLimit.Calls.Order.{enforce-calls}
use g2way.Middleware.RateLimit.Response.{limit_response-wait}
use g2way.Middleware.RateLimit.Sessions.{let_through, enforce-Spaced}

layer : Unit {0}
unfolding enforce check_rate check_quota new lookup insert text_eq default limit_response
    rate_limit_storage_key quota_storage_key
layer = tt

abbrev one_per_second : RateLimit
one_per_second = record { requests = 1; per_seconds = 1 }

-- A key with one request per second and a quota of five.
abbrev key1 : SessionContext
key1 = record {
  key_hash = codes "k";
  session = record default {
    rate = some one_per_second;
    quota = some (record { max = 5; renewal_rate_secs = 60 });
  };
}

abbrev request : Request
request = record { method = codes "GET"; path = codes "/users"; context = some key1 }

abbrev at : ℕ → Clock
at now = record { now = now; now_secs = 0; unix_now_secs = 100 }

-- Every pattern is a text that matches itself.
abbrev users_rule : CompiledEndpointLimit Text
users_rule = record {
  regex = codes "/users";
  methods = [];
  requests = 9;
  window = 1000000000;
  storage_key = codes "g2:default:endpointrl:users:0";
}

abbrev no_hash : Text → ℕ
no_hash t = 0

abbrev idle : World MemoryStorage
idle = record { store = new; spike_guard = none }

abbrev requests : List (Request × Clock)
requests = (request, at 0) ∷ (request, at 5) ∷ (request, at 1000000000) ∷ []

-- The second comes too early; it answers 429 and asks for a second's wait.
second :
    (let_through text_eq no_hash (users_rule ∷ []) (codes "g2:default:ratelimit:k") requests idle
      ≡ 0 ∷ 1000000000 ∷ [])
    × ((enforce limiter
          (at 5)
          text_eq
          no_hash
          []
          request
          (enforce limiter (at 0) text_eq no_hash [] request idle).1).0
        ≡ rejects (record {
          status = 429;
          message = codes "rate limit exceeded";
          limit = 1;
          remaining = 0;
          reset = 101;
          retry_after = 1;
        }))
unfolding layer
second = (refl, refl)

enforce-Spaced_example : 0 + 1 * 1000000000 ≤ 1000000000
unfolding layer
enforce-Spaced_example =
    enforce-Spaced text_eq no_hash (users_rule ∷ []) (codes "g2:default:ratelimit:k") one_per_second
      requests idle (refl, tt) (omega arith) (inr refl, (inr refl, (inr refl, tt))) refl 0 0
      1000000000 refl refl

-- A store that fails on the endpoint's counter, allows the rate and denies the quota.
abbrev answers : Call → Result LimitDecision StorageError
answers (rate_call key requests window) =
    if requests == 9
    then err (backend [])
    else ok (record { allowed = true; remaining = 0; reset_after = 7 })
answers (quota_call key max period) =
    ok (record { allowed = false; remaining = 0; reset_after = 7 })

enforce-calls_example :
    ((enforce
        (recorder answers)
        (at 0)
        text_eq
        no_hash
        (users_rule ∷ [])
        request
        (record { store = []; spike_guard = none })).1.store
      ≡ rate_call (codes "g2:default:endpointrl:users:0") 9 1000000000
        ∷ rate_call (codes "g2:default:ratelimit:k") 1 (1 * 1000000000)
        ∷ quota_call (codes "g2:default:quota:k") 5 (60 * 1000000000)
        ∷ [])
    × ((◌≡◌
          (enforce
            (recorder answers)
            (at 0)
            text_eq
            no_hash
            (users_rule ∷ [])
            request
            (record { store = []; spike_guard = none })).0
          proceeds)
        ↔ (false ≡ true))
unfolding layer first_match
enforce-calls_example = enforce-calls answers (at 0) text_eq no_hash (users_rule ∷ []) request none

abbrev long_wait : LimitDecision
long_wait = record { allowed = false; remaining = 0; reset_after = 1000000001 }

-- The wait of a second and a nanosecond is answered with a second.
short : whole_secs long_wait.reset_after ≡ 1
unfolding whole_secs
short = refl

limit_response-wait_example :
    (1 ≤ 1)
    × (1000000001 < 1 * 1000000000 + 1000000)
    × (◌⊎◌ (◌≡◌ {A = ℕ} 1 1) (1 * 1000000000 < 1000000001 + 1000000000))
    × (101 ≡ 100 + 1)
unfolding layer
limit_response-wait_example = limit_response-wait 429 [] 1 100 long_wait (omega arith)

abbrev users_config : EndpointRateLimit
users_config = record {
  pattern = codes "/users";
  methods = codes "get" ∷ [];
  rate = record { requests = 9; per_seconds = 1 };
}

abbrev compiled_users : CompiledEndpointLimit Text
compiled_users = record users_rule { methods = codes "GET" ∷ [] }

compiled :
    from_config some some (codes "default") (codes "users") 0 (users_config ∷ [])
    ≡ ok (compiled_users ∷ [])
unfolding from_config compile_endpoint endpoint_rate_limit_storage_key digits
compiled = refl

configured-Spaced_example : 0 + 1 * 1000000000 ≤ 1000000000
unfolding layer
configured-Spaced_example =
    configured-Spaced some some text_eq no_hash (codes "default") (codes "default") (codes "users")
      (codes "k") (users_config ∷ []) (compiled_users ∷ []) one_per_second requests idle
      (omega arith) (omega arith) compiled (omega arith) (inr refl, (inr refl, (inr refl, tt))) refl
      0 0 1000000000 refl refl
