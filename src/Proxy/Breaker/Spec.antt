-- ===== src/Proxy/Breaker/Spec.antt =====
-- The three-state breaker without packing or saturation, and that breaker.rs implements it.
use g2way.Common.{
  ℕ, ◌+◌, ◌≡◌, refl, ◌∙◌, ◌<◌, ◌≤◌, ◌⊎◌, Bool, true, List, [], ◌∷◌, none, arith, leb, ◌==◌,
  if◌then◌else◌, All, u32_max,
}
use g2way.Proxy.Breaker.{
  CircuitBreaker, Event, acquire, success, failure, pack, unpack, closed_tag, open_tag,
  half_open_tag, since_mod, new, try_acquire_at, record_success, record_failure_at, step, run,
}

-- Closed with the failures in a row, or not closed since a time.
pub data Circuit : Type 0 where
  closed : (failures : ℕ) → Circuit
  tripped : (since : ℕ) → Circuit
  trial : (since : ℕ) → Circuit

-- What one call does, for a trip after `threshold` failures in a row and a cooldown.
module _ (threshold cooldown_ms : ℕ) where
  abbrev pub admits : ℕ → Circuit → Bool
  admits now (closed n) = true
  admits now (tripped since) = leb (since + cooldown_ms) now
  admits now (trial since) = leb (since + cooldown_ms) now

  abbrev pub move : Event → Circuit → Circuit
  move (acquire now) (closed n) = closed n
  move (acquire now) c = if admits now c then trial now else c
  move success (closed n) = closed 0
  move success (tripped since) = tripped since
  move success (trial since) = closed 0
  move (failure now) (closed n) = if leb threshold (n + 1) then tripped now else closed (n + 1)
  move (failure now) (tripped since) = tripped since
  move (failure now) (trial since) = tripped now

-- Reading the packed word.
abbrev pub circuit_of : ℕ → ℕ → ℕ → Circuit
circuit_of tag since failures =
    if tag == closed_tag
    then closed failures
    else if tag == open_tag
    then tripped since
    else trial since

unfoldable pub view : CircuitBreaker → Circuit
unfolding unpack
view b = circuit_of (unpack b.state).0 (unpack b.state).1 b.failures

-- Only a closed breaker counts failures, and it trips before the count reaches the threshold.
pub record IsValid (b : CircuitBreaker) : Type 0 where
  pub known : (unpack b.state).0 ≤ half_open_tag
  pub quiet : ((unpack b.state).0 ≡ closed_tag) ⊎ (b.failures ≡ 0)
  pub below : b.failures < b.threshold
  pub small : b.threshold ≤ u32_max

abbrev pub InTime : Event → Type 0
InTime (acquire now) = now < since_mod
InTime success = Unit
InTime (failure now) = now < since_mod

abbrev pub time_of : Event → ℕ
time_of (acquire now) = now
time_of success = 0
time_of (failure now) = now

pub new-IsValid :
    (threshold cooldown_ms : ℕ)
    → 0 < threshold
    → threshold ≤ u32_max
    → IsValid (new threshold cooldown_ms)
unfolding new pack unpack
new-IsValid threshold cooldown_ms h k = ground arith

-- One call at an admissible time does what the specification says, and keeps the breaker valid.
abbrev Implements : Event → CircuitBreaker → CircuitBreaker → Type 0
Implements e b b' =
    (view b' ≡ move b.threshold b.cooldown_ms e (view b))
    × IsValid b'
    × (b'.threshold ≡ b.threshold)
    × (b'.cooldown_ms ≡ b.cooldown_ms)

acquire-Implements :
    (now : ℕ) (b : CircuitBreaker)
    → now < since_mod
    → IsValid b
    → Implements (acquire now) b (try_acquire_at [] now b).1
unfolding try_acquire_at view unpack pack
acquire-Implements now b h v = ground arith

success-Implements : (b : CircuitBreaker) → IsValid b → Implements success b (record_success none b)
unfolding record_success view unpack pack
success-Implements b v = ground arith

failure-Implements :
    (now : ℕ) (b : CircuitBreaker)
    → now < since_mod
    → IsValid b
    → Implements (failure now) b (record_failure_at none now b)
unfolding record_failure_at view unpack pack
failure-Implements now b h v = ground arith

acquire-answer :
    (now : ℕ) (b : CircuitBreaker)
    → now < since_mod
    → IsValid b
    → (try_acquire_at [] now b).0 ≡ admits b.threshold b.cooldown_ms now (view b)
unfolding try_acquire_at view unpack pack
acquire-answer now b h v = ground arith

-- An undisturbed call on a valid breaker at a time below 2^62 moves the circuit that its word
-- encodes as the three-state machine does, keeps the breaker valid and leaves its thresholds
-- alone; and an acquire at the time of the call answers what the machine answers.
pub step-refines :
    (e : Event) (b : CircuitBreaker)
    → InTime e
    → IsValid b
    → (view (step e b) ≡ move b.threshold b.cooldown_ms e (view b))
      × IsValid (step e b)
      × ((step e b).threshold ≡ b.threshold)
      × ((step e b).cooldown_ms ≡ b.cooldown_ms)
      × ((try_acquire_at [] (time_of e) b).0
          ≡ admits b.threshold b.cooldown_ms (time_of e) (view b))
unfolding step
step-refines (acquire now) b h v =
    let (a, c, d, e) = acquire-Implements now b h v in (a, c, d, e, acquire-answer now b h v)
step-refines success b h v =
    let (a, c, d, e) = success-Implements b v in (a, c, d, e, acquire-answer 0 b (omega arith) v)
step-refines (failure now) b h v =
    let (a, c, d, e) = failure-Implements now b h v in (a, c, d, e, acquire-answer now b h v)

-- A history of calls.
abbrev pub moves : ℕ → ℕ → List Event → Circuit → Circuit
moves threshold cooldown_ms [] c = c
moves threshold cooldown_ms (e ∷ es) c =
    moves threshold cooldown_ms es (move threshold cooldown_ms e c)

-- Every history of undisturbed calls, at times that the packed word can hold, takes a valid breaker
-- to a valid one, in the state that the three-state machine reaches from the breaker's own state by
-- the same history.
pub run-refines :
    (es : List Event) (b : CircuitBreaker)
    → All InTime es
    → IsValid b
    → (view (run es b) ≡ moves b.threshold b.cooldown_ms es (view b)) × IsValid (run es b)
unfolding run
run-refines [] b h v = (refl, v)
run-refines (e ∷ es) b (h, hs) v =
    let (moved, valid, t, c, _) = step-refines e b h v in
    let (ih, valid') = run-refines es (step e b) hs valid in
    (ih ∙ (λ i. moves (t i) (c i) es (moved i)), valid')
