-- ===== src/Proxy/Breaker.antt =====
-- crates/g2-proxy/src/breaker.rs: the circuit breaker, packed into one atomic word.
--
-- The breaker is a record of its two atomics and its two thresholds (`epoch` and `api_id` serve the
-- clock and the log). `now_ms` is an argument of each call, below 2^62 as `now_ms()` masks it.
-- A compare-and-swap compares the word loaded at the start of the round with the word that stands
-- there when it runs: the words that other threads store in between are an argument.
pub mod Words
pub mod Spec
pub mod Shield
pub mod Races
pub mod Tests
use g2way.Common.{
  ℕ, ◌+◌, ◌*◌, ◌/◌, ◌%◌, ◌^◌, Bool, true, false, ◌&&◌, List, [], ◌∷◌, Option, none, some, ltb, leb,
  ◌==◌, if◌then◌else◌, u32_mod, u64_mod, saturating_add32, saturating_add64,
}

abbrev pub closed_tag : ℕ
closed_tag = 0

abbrev pub open_tag : ℕ
open_tag = 1

abbrev pub half_open_tag : ℕ
half_open_tag = 2

-- `1 << SINCE_BITS`; the mask keeps what is below it.
abbrev pub since_mod : ℕ
since_mod = 2 ^ 62

-- The operands of the `|` share no bit, so it is a sum.
unfoldable pub pack : ℕ → ℕ → ℕ
pack state since_ms = state * since_mod % u64_mod + since_ms % since_mod

unfoldable pub unpack : ℕ → ℕ × ℕ
unpack word = (word / since_mod, word % since_mod)

pub record CircuitBreaker : Type 0 where
  pub state : ℕ
  pub failures : ℕ
  pub threshold : ℕ
  pub cooldown_ms : ℕ

-- `CircuitBreaker::new` with the two fields of `CircuitBreakerConfig`.
unfoldable pub new : ℕ → ℕ → CircuitBreaker
new failure_threshold cooldown_ms = record {
  state = pack closed_tag 0;
  failures = 0;
  threshold = failure_threshold;
  cooldown_ms = cooldown_ms;
}

-- `AtomicU64::compare_exchange` on the state.
pub compare_exchange : ℕ → ℕ → CircuitBreaker → Bool × CircuitBreaker
compare_exchange current next b =
    if b.state == current then (true, record b { state = next }) else (false, b)

-- What another thread stored between a load and the compare-and-swap, if anything.
pub interfere : Option ℕ → CircuitBreaker → CircuitBreaker
interfere none b = b
interfere (some word) b = record b { state = word }

-- The loop of `try_acquire_at`, a word of the list for each round that another thread disturbs.
-- Past the list nobody interferes, and the round's compare-and-swap succeeds.
unfoldable pub try_acquire_at : List ℕ → ℕ → CircuitBreaker → Bool × CircuitBreaker
unfolding unpack pack compare_exchange interfere
try_acquire_at [] now_ms b =
    let (state, since) = unpack b.state in
    if state == closed_tag
    then (true, b)
    else if ltb now_ms (saturating_add64 since b.cooldown_ms)
    then (false, b)
    else compare_exchange b.state (pack half_open_tag now_ms) b
try_acquire_at (word ∷ words) now_ms b =
    let (state, since) = unpack b.state in
    let disturbed = interfere (some word) b in
    let (won, b') = compare_exchange b.state (pack half_open_tag now_ms) disturbed in
    let again = try_acquire_at words now_ms b' in
    if state == closed_tag
    then (true, disturbed)
    else if ltb now_ms (saturating_add64 since b.cooldown_ms)
    then (false, disturbed)
    else if won
    then (true, b')
    else again

pub record_success : Option ℕ → CircuitBreaker → CircuitBreaker
unfolding unpack pack compare_exchange interfere
record_success between b =
    let b' = record b { failures = 0 } in
    if (unpack b.state).0 == half_open_tag
    then (compare_exchange b.state (pack closed_tag 0) (interfere between b')).1
    else interfere between b'

-- The two arms of `record_failure_at` that change anything.
pub reopen : Option ℕ → ℕ → CircuitBreaker → CircuitBreaker
unfolding pack compare_exchange interfere
reopen between now_ms b = (compare_exchange b.state (pack open_tag now_ms) (interfere between b)).1

pub count_failure : Option ℕ → ℕ → CircuitBreaker → CircuitBreaker
unfolding pack compare_exchange interfere
count_failure between now_ms b =
    let failures = saturating_add32 b.failures 1 in
    let counted = interfere between (record b { failures = (b.failures + 1) % u32_mod }) in
    let (won, tripped) = compare_exchange b.state (pack open_tag now_ms) counted in
    if leb b.threshold failures && won then record tripped { failures = 0 } else counted

pub record_failure_at : Option ℕ → ℕ → CircuitBreaker → CircuitBreaker
unfolding unpack reopen count_failure
record_failure_at between now_ms b =
    let state = (unpack b.state).0 in
    if state == half_open_tag
    then reopen between now_ms b
    else if state == closed_tag
    then count_failure between now_ms b
    else interfere between b

pub data StateName : Type 0 where
  closed opened half_open : StateName

pub state_name : CircuitBreaker → StateName
unfolding unpack
state_name b =
    let state = (unpack b.state).0 in
    if state == open_tag then opened else if state == half_open_tag then half_open else closed

-- A call by the forwarder while nobody else touches the breaker.
pub data Event : Type 0 where
  acquire : (now_ms : ℕ) → Event
  success : Event
  failure : (now_ms : ℕ) → Event

unfoldable pub step : Event → CircuitBreaker → CircuitBreaker
unfolding try_acquire_at record_success record_failure_at
step (acquire now_ms) b = (try_acquire_at [] now_ms b).1
step success b = record_success none b
step (failure now_ms) b = record_failure_at none now_ms b

pub run : List Event → CircuitBreaker → CircuitBreaker
run [] b = b
run (e ∷ es) b = run es (step e b)
