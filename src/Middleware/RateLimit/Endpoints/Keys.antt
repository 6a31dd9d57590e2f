-- ===== src/Middleware/RateLimit/Endpoints/Keys.antt =====
-- That the counters of endpoint rules of rate_limit.rs do not meet the counters of sessions.
use g2way.Common.{
  ℕ, ◌+◌, ◌≡◌, ◌≢◌, refl, sym, ◌∙◌, Bool, false, none, lookup, List, [], ◌∷◌, ◌++◌, Option, Text,
  codes, arith, All, text_eq, text_eq_iff, Bool-cases, inl, inr, Result, ok, err,
}
use g2way.Storage.{from_secs}
use g2way.Storage.Memory.{MemoryStorage}
use g2way.Storage.Memory.Window.{Spaced}
use g2way.Middleware.RateLimit.Sessions.{let_through, Ordered, HasRate, enforce-Spaced}
use g2way.Core.Session.{RateLimit, rate_limit_storage_key, quota_storage_key}
use g2way.Core.Session.Keys.{HasNoColon, storage_key-injective}
use g2way.Middleware.Rules.{BadRule, compile_regex, compile_methods}
use g2way.Middleware.RateLimit.{CompiledEndpointLimit, Request, Clock, World}
use g2way.Middleware.RateLimit.Endpoints.{
  decimal, endpoint_rate_limit_storage_key, EndpointRateLimit, compile_endpoint, from_config,
}

abbrev endpointrl : Text
endpointrl = codes "endpointrl"

-- With organizations whose ids have no ':', no endpoint rule counts on the rate or the quota of a
-- session, whatever its scope and the session's key.
pub endpoint_keys_apart :
    (org org' scope hash : Text) (index : ℕ)
    → HasNoColon org
    → HasNoColon org'
    → (endpoint_rate_limit_storage_key org scope index ≢ rate_limit_storage_key org' hash)
      × (endpoint_rate_limit_storage_key org scope index ≢ quota_storage_key org' hash)
unfolding endpoint_rate_limit_storage_key rate_limit_storage_key quota_storage_key
endpoint_keys_apart org org' scope hash index o o' =
    let apart = λ (kind : Text) (k : HasNoColon kind).
      storage_key-injective org org' endpointrl kind (scope ++ (58 ∷ decimal index)) hash o o'
        (omega arith) k in
    (
      λ e. ground (arith, (apart (codes "ratelimit") (omega arith) e).1),
      λ e. ground (arith, (apart (codes "quota") (omega arith) e).1),
    )

module _ {R : Type 0} (regex_new : Text → Option R) (from_bytes : Text → Option Text)
    (org scope : Text) where
  compile_endpoint-key :
      (index : ℕ) (rule : EndpointRateLimit) (c : CompiledEndpointLimit R)
      → compile_endpoint regex_new from_bytes org scope index rule ≡ ok c
      → c.storage_key ≡ endpoint_rate_limit_storage_key org scope index
  unfolding compile_endpoint
  compile_endpoint-key index rule c e =
      go (compile_regex regex_new rule.pattern) (compile_methods from_bytes rule.methods) refl refl
    where
      go :
          (regex : Result R BadRule) (methods : Result (List Text) BadRule)
          → compile_regex regex_new rule.pattern ≡ regex
          → compile_methods from_bytes rule.methods ≡ methods
          → c.storage_key ≡ endpoint_rate_limit_storage_key org scope index
      go (err x) m a b = let stuck = rw a at e in cc
      go (ok r) (err x) a b = let stuck = rw (a, b) at e in cc
      go (ok r) (ok ms) a b = let same = rw (a, b) at e in ground arith

  from_config-keys :
      (org' hash : Text) (index : ℕ) (rules : List EndpointRateLimit)
      (compiled : List (CompiledEndpointLimit R))
      → HasNoColon org
      → HasNoColon org'
      → from_config regex_new from_bytes org scope index rules ≡ ok compiled
      → All (λ r. text_eq r.storage_key (rate_limit_storage_key org' hash) ≡ false) compiled
  unfolding from_config
  from_config-keys org' hash index [] compiled o o' e =
      let nothing : compiled ≡ [] = ground arith in rw nothing tt
  from_config-keys org' hash index (rule ∷ rules) compiled o o' e =
      go (compile_endpoint regex_new from_bytes org scope index rule)
        (from_config regex_new from_bytes org scope (index + 1) rules) refl refl
        (λ cs. from_config-keys org' hash (index + 1) rules cs o o')
    where
      apart :
          (c : CompiledEndpointLimit R)
          → compile_endpoint regex_new from_bytes org scope index rule ≡ ok c
          → text_eq c.storage_key (rate_limit_storage_key org' hash) ≡ false
      apart c a =
          let key = compile_endpoint-key index rule c a in
          elim (Bool-cases (text_eq c.storage_key (rate_limit_storage_key org' hash))) [
            | inl same ↦ absurd (
                (endpoint_keys_apart org org' scope hash index o o').0
                  (sym key ∙ (text_eq_iff _ _).0 same))
            | inr other ↦ other
          ]

      go :
          (one : Result (CompiledEndpointLimit R) BadRule)
          (more : Result (List (CompiledEndpointLimit R)) BadRule)
          → compile_endpoint regex_new from_bytes org scope index rule ≡ one
          → from_config regex_new from_bytes org scope (index + 1) rules ≡ more
          → ((cs : List (CompiledEndpointLimit R))
              → from_config regex_new from_bytes org scope (index + 1) rules ≡ ok cs
              → All (λ r. text_eq r.storage_key (rate_limit_storage_key org' hash) ≡ false) cs)
          → All (λ r. text_eq r.storage_key (rate_limit_storage_key org' hash) ≡ false) compiled
      go (err x) more a b rest = let stuck = rw a at e in cc
      go (ok c) (err x) a b rest = let stuck = rw (a, b) at e in cc
      go (ok c) (ok cs) a b rest =
          let same : compiled ≡ c ∷ cs = (let it = rw (a, b) at e in ground arith) in
          rw same (apart c a, rest cs b)

-- The rules that an API's configuration compiles to never count on the rate of a session, so that
-- the rate of a session is its own: of the requests with the session of a key that are not answered
-- 429, the request number `requests` after any other comes at least `per_seconds` later, if
-- neither organization has a ':' in its id, the key has no log at the start, the session keeps its
-- rate, and the clock does not go back.
pub configured-Spaced :
    {R : Type 0} (regex_new : Text → Option R) (from_bytes : Text → Option Text)
    (is_match : R → Text → Bool) (hash_one : Text → ℕ) (org org' scope hash : Text)
    (rules : List EndpointRateLimit) (compiled : List (CompiledEndpointLimit R)) (rate : RateLimit)
    (requests : List (Request × Clock)) (w : World MemoryStorage)
    → HasNoColon org
    → HasNoColon org'
    → from_config regex_new from_bytes org scope 0 rules ≡ ok compiled
    → Ordered 0 requests
    → All (HasRate (rate_limit_storage_key org' hash) rate) requests
    → lookup (rate_limit_storage_key org' hash) w.store.windows ≡ none
    → Spaced rate.requests
        (from_secs rate.per_seconds)
        (let_through is_match hash_one compiled (rate_limit_storage_key org' hash) requests w)
configured-Spaced regex_new from_bytes is_match hash_one org org' scope hash rules compiled rate
      requests w o o' e t u k =
    enforce-Spaced is_match hash_one compiled (rate_limit_storage_key org' hash) rate requests w
      (from_config-keys regex_new from_bytes org scope org' hash 0 rules compiled o o' e) t u k
