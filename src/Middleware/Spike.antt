-- ===== src/Middleware/Spike.antt =====
-- crates/g2-middleware/src/spike.rs: the pod-local token buckets in front of the shared limiter.
--
-- A bucket is one atomic word, the seconds of its last credit above its tokens. `now_secs` is an
-- argument (`try_acquire` reads and saturates the clock), and the keyed hash of an identity is a
-- parameter. The words that other threads store between a load and a compare-and-swap are a list,
-- as in the breaker.
pub mod Bucket
pub mod Guard
pub mod Tests
use g2way.Common.{
  ℕ, suc, ◌+◌, ◌-◌, ◌*◌, ◌/◌, ◌%◌, ◌^◌, min, Bool, true, false, List, [], ◌∷◌, Option, none, some,
  Text, ltb, leb, ◌==◌, if◌then◌else◌, u32_mod, u32_max, length, set, replicate, get_elem?,
}

abbrev pub shards : ℕ
shards = 4096

-- The operands of the `|` share no bit, so it is a sum.
pub pack : ℕ → ℕ → ℕ
pack last_refill_secs tokens = last_refill_secs * u32_mod + tokens

pub unpack : ℕ → ℕ × ℕ
unpack packed = (packed / u32_mod % u32_mod, packed % u32_mod)

-- `u32::try_from(n).unwrap_or(u32::MAX)`.
abbrev pub saturate32 : ℕ → ℕ
saturate32 n = if ltb n u32_mod then n else u32_max

-- The time and the tokens that one round of the loop finds, once elapsed seconds are credited.
pub credit : (capacity refill_per_sec now_secs last_refill tokens : ℕ) → ℕ × ℕ
credit capacity refill_per_sec now_secs last_refill tokens =
    let elapsed = now_secs - last_refill in
    if ltb 0 elapsed
    then (now_secs, min (saturate32 (tokens + elapsed * refill_per_sec)) capacity)
    else (last_refill, tokens)

-- The loop over the bucket's word. `compare_exchange_weak` may fail spuriously, which is a round
-- that finds the same word again: the list may hold any word.
pub try_acquire_word : (capacity refill_per_sec now_secs : ℕ) → List ℕ → ℕ → Bool × ℕ
unfolding pack unpack credit
try_acquire_word capacity refill_per_sec now_secs [] current =
    let (last_refill, tokens) = unpack current in
    let (new_last, available) = credit capacity refill_per_sec now_secs last_refill tokens in
    if available == 0 then (false, current) else (true, pack new_last (available - 1))
try_acquire_word capacity refill_per_sec now_secs (actual ∷ words) current =
    let (last_refill, tokens) = unpack current in
    let (new_last, available) = credit capacity refill_per_sec now_secs last_refill tokens in
    let again = try_acquire_word capacity refill_per_sec now_secs words actual in
    if available == 0 then (false, actual) else again

pub record SpikeGuard : Type 0 where
  pub capacity : ℕ
  pub refill_per_sec : ℕ
  pub buckets : List ℕ

-- `SpikeGuard::new` with the two fields of `SpikeGuardConfig`.
pub new : ℕ → ℕ → SpikeGuard
unfolding pack
new capacity refill_per_sec = record {
  capacity = capacity;
  refill_per_sec = refill_per_sec;
  buckets = replicate shards (pack 0 capacity);
}

module _ (hash_one : Text → ℕ) where
  pub shard : SpikeGuard → Text → ℕ
  shard g identity = hash_one identity % length g.buckets

  -- Indexing panics out of range, which a guard with buckets never is: the remainder is in range.
  pub try_acquire_at : SpikeGuard → Text → ℕ → Option (Bool × SpikeGuard)
  unfolding shard try_acquire_word
  try_acquire_at g identity now_secs =
      let index = shard g identity in
      elim (get_elem? g.buckets index) [
        | none ↦ none
        | some current ↦
            let (taken, next) = try_acquire_word g.capacity g.refill_per_sec now_secs [] current in
            some (taken, record g { buckets = set g.buckets index next })
      ]
