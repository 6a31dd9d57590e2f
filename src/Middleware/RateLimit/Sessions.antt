-- ===== src/Middleware/RateLimit/Sessions.antt =====
-- The layer of rate_limit.rs over the in-memory store of memory.rs: what a session gets through.
use g2way.Common.{
  ℕ, ◌≡◌, ◌⊎◌, inl, inr, refl, ◌≤◌, Bool, true, false, ◌&&◌, List, [], ◌∷◌, ◌++◌, Option, none,
  some, Text, if◌then◌else◌, All, lookup, text_eq, find, Bool-cases,
}
use mathlib.Core.List.{append-nil, append_assoc}
use g2way.Core.Session.{RateLimit, rate_limit_storage_key}
use g2way.Core.Session.Valid.{Given}
use g2way.Storage.{from_secs}
use g2way.Storage.Memory.{MemoryStorage, limiter}
use g2way.Storage.Memory.Window.{Spaced}
use g2way.Storage.Memory.Rate.{fresh-Logs}
use g2way.Middleware.RateLimit.{
  Verdict, Clock, CompiledEndpointLimit, SessionContext, Request, World, first_match,
  enforce_session, enforce_endpoint, enforce,
}
use g2way.Middleware.RateLimit.Stages.{
  passes, is_of, Step, Keeps, Inv, gate-Step, same_log-Step, session-Step, session-Keeps,
  endpoint-Keeps, and_then-Keeps, kept-Inv, Step-Inv,
}

find-All :
    {A : Type 0} (P : A → Type 0) (p : A → Bool) (xs : List A) → All P xs → Given P (find p xs)
find-All P p [] h = tt
find-All P p (x ∷ xs) (h, hs) = elim (Bool-cases (p x)) [
  | inl found ↦ rw found h
  | inr other ↦ rw other (find-All P p xs hs)
]

module _ {R : Type 0} (is_match : R → Text → Bool) (hash_one : Text → ℕ)
    (rules : List (CompiledEndpointLimit R)) where
  abbrev serve : Request × Clock → World MemoryStorage → Verdict × World MemoryStorage
  serve (req, clock) w = enforce limiter clock is_match hash_one rules req w

  -- The times of the requests with the session of a key that were not answered 429.
  abbrev pub let_through : Text → List (Request × Clock) → World MemoryStorage → List ℕ
  let_through key [] w = []
  let_through key ((req, clock) ∷ requests) w =
      let (verdict, w') = serve (req, clock) w in
      let later = let_through key requests w' in
      if is_of key req && passes verdict then clock.now ∷ later else later

-- The store's clock does not go back.
abbrev pub Ordered : ℕ → List (Request × Clock) → Type 0
Ordered start [] = Unit
Ordered start ((req, clock) ∷ requests) = (start ≤ clock.now) × Ordered clock.now requests

-- The requests that carry the session of a key carry the same rate.
abbrev pub HasRate : Text → RateLimit → Request × Clock → Type 0
HasRate key rate (req, clock) =
    Given
      (λ ctx.
        (text_eq (rate_limit_storage_key ctx.session.org_id ctx.key_hash) key ≡ false)
        ⊎ (ctx.session.rate ≡ some rate))
      req.context

module _ {R : Type 0} (is_match : R → Text → Bool) (hash_one : Text → ℕ)
    (rules : List (CompiledEndpointLimit R)) (key : Text) (rate : RateLimit)
    (apart : All (λ r. text_eq r.storage_key key ≡ false) rules) where
  -- What a request does to the log of the key, by whether it carries the session of the key.
  others-Keeps :
      (clock : Clock) (req : Request) (w : World MemoryStorage)
      → is_of key req ≡ false
      → Keeps key rate clock w.store (serve is_match hash_one rules (req, clock) w)
  unfolding enforce first_match enforce_session
  others-Keeps clock req w other = go req.context refl
    where
      rule : Option (CompiledEndpointLimit R)
      rule = first_match is_match rules req.method req.path

      r : Verdict × World MemoryStorage
      r = enforce_endpoint limiter clock rule w

      kept : Keeps key rate clock w.store r
      kept = (endpoint-Keeps key rate clock rule w (find-All _ _ rules apart)).0

      go :
          (context : Option SessionContext)
          → req.context ≡ context
          → Keeps key rate clock w.store (serve is_match hash_one rules (req, clock) w)
      go none e = and_then-Keeps key rate clock w.store r _ kept (rw e refl)
      go (some ctx) e =
          and_then-Keeps key rate clock w.store r _ kept
            (rw e (session-Keeps key rate clock hash_one ctx r.1 _ _ refl refl (rw e at other)))

  own-Step :
      (clock : Clock) (req : Request) (w : World MemoryStorage)
      → is_of key req ≡ true
      → HasRate key rate (req, clock)
      → Step key rate clock w.store (serve is_match hash_one rules (req, clock) w)
  unfolding enforce first_match
  own-Step clock req w own uses = go req.context refl
    where
      rule : Option (CompiledEndpointLimit R)
      rule = first_match is_match rules req.method req.path

      r : Verdict × World MemoryStorage
      r = enforce_endpoint limiter clock rule w

      session_rate : (ctx : SessionContext) → req.context ≡ some ctx → ctx.session.rate ≡ some rate
      session_rate ctx e = elim (rw e at uses) [
        | inl other ↦ let mine = rw e at own in cc
        | inr same ↦ same
      ]

      go :
          (context : Option SessionContext)
          → req.context ≡ context
          → Step key rate clock w.store (serve is_match hash_one rules (req, clock) w)
      go none e = let mine = rw e at own in cc
      go (some ctx) e =
          let (kept, gate) = endpoint-Keeps key rate clock rule w (find-All _ _ rules apart) in
          gate-Step key rate clock w.store r _ kept gate (
            same_log-Step key rate clock w.store r.1.store
              (enforce_session limiter clock hash_one req.context r.1) kept
              (rw e
                (session-Step key rate clock hash_one ctx r.1 (session_rate ctx e) (rw e at own))))

  run_lem :
      (requests : List (Request × Clock)) (start : ℕ) (h : List ℕ) (w : World MemoryStorage)
      (clock : Clock)
      → Ordered start requests
      → All (HasRate key rate) requests
      → Inv key rate clock start h w.store
      → Spaced rate.requests
          (from_secs rate.per_seconds)
          (h ++ let_through is_match hash_one rules key requests w)
  run_lem [] start h w clock o uses inv = rw (append-nil h) inv.1
  run_lem ((req, at_clock) ∷ requests) start h w clock (le, o) (uses, rest) inv =
      let (v, w') = serve is_match hash_one rules (req, at_clock) w in
      elim (Bool-cases (is_of key req)) [
        | inr other ↦ rw other (
            run_lem requests at_clock.now h w' at_clock o rest (
              kept-Inv key rate at_clock start h w.store w'.store le
                (others-Keeps at_clock req w other) inv))
        | inl own ↦
            let next =
              Step-Inv key rate at_clock start h w.store (v, w') le
                (own-Step at_clock req w own uses) inv in
            elim (Bool-cases (passes v)) [
              | inl through ↦
                  rw (own, through)
                    (rw (append_assoc h (at_clock.now ∷ [])) at (
                      run_lem requests at_clock.now (h ++ at_clock.now ∷ []) w' at_clock o rest
                        (rw through at next)))
              | inr stopped ↦
                  rw (own, stopped)
                    (run_lem requests at_clock.now h w' at_clock o rest (rw stopped at next))
            ]
      ]

-- Whatever requests an API serves over the in-memory store, with any endpoint rules, spike guard
-- and quotas, the session of a key gets no more requests past its rate than the rate allows in any
-- window of it: of those not answered 429, the request number `requests` after any other comes at
-- least `per_seconds` later. The key has no log at the start, no endpoint rule counts on it, its
-- session keeps its rate, and the clock does not go back.
pub enforce-Spaced :
    {R : Type 0} (is_match : R → Text → Bool) (hash_one : Text → ℕ)
    (rules : List (CompiledEndpointLimit R)) (key : Text) (rate : RateLimit)
    (requests : List (Request × Clock)) (w : World MemoryStorage)
    → All (λ r. text_eq r.storage_key key ≡ false) rules
    → Ordered 0 requests
    → All (HasRate key rate) requests
    → lookup key w.store.windows ≡ none
    → Spaced rate.requests
        (from_secs rate.per_seconds)
        (let_through is_match hash_one rules key requests w)
enforce-Spaced is_match hash_one rules key rate requests w apart o uses e =
    run_lem is_match hash_one rules key rate apart requests 0 [] w
      (record { now = 0; now_secs = 0; unix_now_secs = 0 }) o uses
      (
        fresh-Logs (λ k. (rate.requests, from_secs rate.per_seconds)) key w.store e,
        λ i x y ex ey. cc,
      )
