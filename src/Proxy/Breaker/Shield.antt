-- ===== src/Proxy/Breaker/Shield.antt =====
-- When breaker.rs trips, and what an open or half-open circuit keeps out.
use g2way.Common.{
  leb, if◌then◌else◌, ℕ, ◌+◌, ◌≡◌, refl, ◌<◌, Bool, false, List, [], ◌∷◌, ◌++◌, map, arith, length,
  All, ◌∙◌, ap,
}
use g2way.Proxy.Breaker.{
  CircuitBreaker, Event, acquire, success, failure, since_mod, try_acquire_at, step, run,
}
use g2way.Proxy.Breaker.Spec.{
  Circuit, closed, tripped, trial, view, IsValid, InTime, time_of, move, moves, step-refines,
  run-refines,
}

-- The answers of a history's acquires, in order.
abbrev pub answers : List Event → CircuitBreaker → List Bool
answers [] b = []
answers (acquire now ∷ es) b = (try_acquire_at [] now b).0 ∷ answers es (step (acquire now) b)
answers (success ∷ es) b = answers es (step success b)
answers (failure now ∷ es) b = answers es (step (failure now) b)

moves-failures :
    (threshold cooldown_ms n : ℕ) (ts : List ℕ)
    → n + length ts < threshold
    → moves threshold cooldown_ms (map failure ts) (closed n) ≡ closed (n + length ts)
moves-failures threshold cooldown_ms n [] h = ground arith
moves-failures threshold cooldown_ms n (t ∷ ts) h =
    ground (arith, moves-failures threshold cooldown_ms (n + 1) ts)

moves-append :
    (threshold cooldown_ms : ℕ) (es fs : List Event) (c : Circuit)
    → moves threshold cooldown_ms (es ++ fs) c
      ≡ moves threshold cooldown_ms fs (moves threshold cooldown_ms es c)
moves-append threshold cooldown_ms [] fs c = refl
moves-append threshold cooldown_ms (e ∷ es) fs c =
    moves-append threshold cooldown_ms es fs (move threshold cooldown_ms e c)

InTime-failures : (ts : List ℕ) → All (λ t. t < since_mod) ts → All InTime (map failure ts)
InTime-failures [] h = tt
InTime-failures (t ∷ ts) (h, hs) = (h, InTime-failures ts hs)

run-threshold :
    (es : List Event) (b : CircuitBreaker)
    → All InTime es
    → IsValid b
    → (run es b).threshold ≡ b.threshold
unfolding run
run-threshold [] b h v = refl
run-threshold (e ∷ es) b (h, hs) v =
    let (_, valid, same, _, _) = step-refines e b h v in run-threshold es (step e b) hs valid ∙ same

-- From closed with no failures counted, fewer failures in a row than the threshold leave the
-- circuit closed and counted; one more failure opens it, as of its time, exactly if it makes up the
-- threshold, and is counted otherwise.
pub run-failures :
    (b : CircuitBreaker) (ts : List ℕ) (t : ℕ)
    → IsValid b
    → view b ≡ closed 0
    → All (λ s. s < since_mod) ts
    → t < since_mod
    → length ts < b.threshold
    → (view (run (map failure ts) b) ≡ closed (length ts))
      × (view (step (failure t) (run (map failure ts) b))
          ≡ (if leb b.threshold (length ts + 1) then tripped t else closed (length ts + 1)))
run-failures b ts t v c hs h n =
    let (seen, valid) = run-refines (map failure ts) b (InTime-failures ts hs) v in
    let base = moves-failures b.threshold b.cooldown_ms 0 ts (omega arith) in
    let counted : view (run (map failure ts) b) ≡ closed (length ts) =
      seen
      ∙ ap (moves b.threshold b.cooldown_ms (map failure ts)) c
      ∙ base
      ∙ ap closed (omega arith) in
    let (next, _, _, _, _) = step-refines (failure t) (run (map failure ts) b) h valid in
    let same = run-threshold (map failure ts) b (InTime-failures ts hs) v in
    (counted, next ∙ rw counted (ground arith))

-- One call on an open circuit before the cooldown is over.
step-tripped :
    (e : Event) (b : CircuitBreaker) (since : ℕ)
    → IsValid b
    → view b ≡ tripped since
    → InTime e
    → time_of e < since + b.cooldown_ms
    → (view (step e b) ≡ tripped since) × ((try_acquire_at [] (time_of e) b).0 ≡ false)
step-tripped (acquire now) b since v c h k = ground (arith, step-refines (acquire now) b h v)
step-tripped success b since v c h k = ground (arith, step-refines success b h v)
step-tripped (failure now) b since v c h k = ground (arith, step-refines (failure now) b h v)

-- Before the cooldown is over, no call moves an open circuit: failures and successes of requests
-- that were sent before the trip change nothing, and every acquire is turned down.
pub run-tripped :
    (es : List Event) (b : CircuitBreaker) (since : ℕ)
    → IsValid b
    → view b ≡ tripped since
    → All InTime es
    → All (λ e. time_of e < since + b.cooldown_ms) es
    → (view (run es b) ≡ tripped since) × All (λ a. a ≡ false) (answers es b)
unfolding run
run-tripped [] b since v c h k = (c, tt)
run-tripped (acquire now ∷ es) b since v c (h, hs) (k, ks) =
    let (kept, answer) = step-tripped (acquire now) b since v c h k in
    let (_, valid, _, same, _) = step-refines (acquire now) b h v in
    let (ih, none_in) = run-tripped es (step (acquire now) b) since valid kept hs (rw same ks) in
    (ih, (answer, none_in))
run-tripped (success ∷ es) b since v c (h, hs) (k, ks) =
    let (kept, _) = step-tripped success b since v c h k in
    let (_, valid, _, same, _) = step-refines success b h v in
    run-tripped es (step success b) since valid kept hs (rw same ks)
run-tripped (failure now ∷ es) b since v c (h, hs) (k, ks) =
    let (kept, _) = step-tripped (failure now) b since v c h k in
    let (_, valid, _, same, _) = step-refines (failure now) b h v in
    run-tripped es (step (failure now) b) since valid kept hs (rw same ks)

-- While a trial is out and its own cooldown is not over, every other acquire is turned down; only
-- its outcome moves the circuit: a success closes it with no failures counted, a failure opens it
-- again as of the time of the failure.
pub run-trial :
    (ts : List ℕ) (b : CircuitBreaker) (since t : ℕ)
    → IsValid b
    → view b ≡ trial since
    → All (λ s. s < since_mod) ts
    → All (λ s. s < since + b.cooldown_ms) ts
    → t < since_mod
    → All (λ a. a ≡ false) (answers (map acquire ts) b)
      × (view (step success (run (map acquire ts) b)) ≡ closed 0)
      × (view (step (failure t) (run (map acquire ts) b)) ≡ tripped t)
unfolding run
run-trial [] b since t v c hs ks h = (
  tt,
  (step-refines success b tt v).0 ∙ rw c refl,
  (step-refines (failure t) b h v).0 ∙ rw c refl,
)
run-trial (s ∷ ts) b since t v c (h, hs) (k, ks) g =
    let (kept, valid, _, same, answer) = step-refines (acquire s) b h v in
    let still : view (step (acquire s) b) ≡ trial since = ground arith in
    let (none_in, good, bad) =
      run-trial ts (step (acquire s) b) since t valid still hs (rw same ks) g in
    ((ground arith, none_in), good, bad)
