-- ===== src/Middleware/Spike/Guard.antt =====
-- The whole guard of spike.rs: what its shards let through.
use g2way.Common.{
  ℕ, ◌+◌, ◌-◌, ◌*◌, ◌/◌, ◌%◌, ◌≡◌, refl, ◌∙◌, ◌≤◌, ◌<◌, inl, inr, List, [], ◌∷◌, none, some, Text,
  arith, if◌then◌else◌, ◌==◌, Bool-cases, u32_mod, u32_max, All, length, set, length-set,
  length-replicate, get_elem?, get_elem?-set, get_elem?_total, get_elem?-replicate, replicate,
}
use native.Mathlib.Nat.{sub-zero}
use g2way.Middleware.Spike.{SpikeGuard, shards, pack, try_acquire_word, new, shard, try_acquire_at}
use g2way.Middleware.Spike.Bucket.{IsBucket, taken_of, admitted, admitted-le}

module _ (hash_one : Text → ℕ) where
  -- The calls of a list of identities and times on the shard `index`: how many are let through.
  abbrev pub granted : ℕ → List (Text × ℕ) → SpikeGuard → ℕ
  granted index [] g = 0
  granted index ((identity, now) ∷ calls) g = elim (try_acquire_at hash_one g identity now) [
    | none ↦ 0
    | some (taken, g') ↦
        if shard hash_one g identity == index
        then taken_of taken + granted index calls g'
        else granted index calls g'
  ]

  -- The times of the calls that meet the shard, among `count` shards.
  abbrev pub times_at : ℕ → ℕ → List (Text × ℕ) → List ℕ
  times_at index count [] = []
  times_at index count ((identity, now) ∷ calls) =
      if hash_one identity % count == index
      then now ∷ times_at index count calls
      else times_at index count calls

mod_lt : (n m : ℕ) → 0 < m → n % m < m
mod_lt n m h = omega arith

module _ (hash_one : Text → ℕ) where
  -- One call, in terms of the bucket that it meets.
  try_acquire_at_lem :
      (g : SpikeGuard) (identity : Text) (now : ℕ)
      → 0 < length g.buckets
      → (current : ℕ) × (get_elem? g.buckets (shard hash_one g identity) ≡ some current)
        × (try_acquire_at hash_one g identity now
            ≡ some (
              (try_acquire_word g.capacity g.refill_per_sec now [] current).0,
              record g {
                buckets =
                    set g.buckets
                      (shard hash_one g identity)
                      (try_acquire_word g.capacity g.refill_per_sec now [] current).1;
              },
            ))
  unfolding try_acquire_at shard
  try_acquire_at_lem g identity now h =
      let (current, found) =
        get_elem?_total g.buckets (hash_one identity % length g.buckets)
          (mod_lt (hash_one identity) (length g.buckets) h) in
      (current, found, rw (found, try_acquire_at) refl)

  -- So the calls on a shard are calls on its bucket, whatever meets the other shards in between.
  granted-admitted :
      (index : ℕ) (calls : List (Text × ℕ)) (g : SpikeGuard) (word : ℕ)
      → 0 < length g.buckets
      → get_elem? g.buckets index ≡ some word
      → granted hash_one index calls g
        ≡ (admitted g.capacity g.refill_per_sec
            (times_at hash_one index (length g.buckets) calls)
            word).0
  unfolding shard
  granted-admitted index [] g word h e = refl
  granted-admitted index ((identity, now) ∷ calls) g word h e =
      let (current, found, step) = try_acquire_at_lem g identity now h in
      let at = shard hash_one g identity in
      let next = (try_acquire_word g.capacity g.refill_per_sec now [] current).1 in
      let after = record g { buckets = set g.buckets at next } in
      let same = length-set g.buckets at next in
      let pos : 0 < length after.buckets = omega (arith, same) in
      let kept = get_elem?-set g.buckets at index next current found in
      elim (Bool-cases (at == index)) [
        | inl here ↦
            let ih = granted-admitted index calls after next pos (kept ∙ rw here refl) in
            let it : current ≡ word = ground arith in
            rw (step, granted) (rw here (rw (ih, same, it) refl))
        | inr other ↦
            let ih = granted-admitted index calls after word pos (kept ∙ rw other e) in
            rw (step, granted) (rw other (rw (ih, same) refl))
      ]

-- Whatever calls the guard serves up to a time, the identities of one shard together get no more
-- than one bucket's capacity and what it refills since its last credit.
pub granted-le :
    (hash_one : Text → ℕ) (g : SpikeGuard) (index word latest : ℕ) (calls : List (Text × ℕ))
    → 0 < length g.buckets
    → get_elem? g.buckets index ≡ some word
    → IsBucket g.capacity word
    → g.capacity ≤ u32_max
    → latest < u32_mod
    → All (λ now. now ≤ latest) (times_at hash_one index (length g.buckets) calls)
    → word / u32_mod ≤ latest
    → granted hash_one index calls g ≤ g.capacity + (latest - word / u32_mod) * g.refill_per_sec
granted-le hash_one g index word latest calls h e b k t ts l =
    rw (granted-admitted hash_one index calls g word h e)
      (admitted-le g.capacity g.refill_per_sec latest _ word b k t ts l)

new-buckets :
    (count index capacity : ℕ)
    → index < count
    → (0 < length (replicate count (pack 0 capacity)))
      × (get_elem? (replicate count (pack 0 capacity)) index ≡ some (pack 0 capacity))
new-buckets count index capacity h =
    (omega (arith, length-replicate count (pack 0 capacity)), get_elem?-replicate count index _ h)

new-IsBucket :
    (capacity : ℕ)
    → capacity ≤ u32_max
    → IsBucket capacity (pack 0 capacity) × (pack 0 capacity / u32_mod ≡ 0)
unfolding pack
new-IsBucket capacity k = (ground arith, omega arith)

-- From its start on, a guard gives the identities of one shard no more than the burst capacity and
-- the refill rate for each second passed, and that sharing a bucket can only lower.
pub new-granted-le :
    (hash_one : Text → ℕ) (capacity refill_per_sec index latest : ℕ) (calls : List (Text × ℕ))
    → capacity ≤ u32_max
    → latest < u32_mod
    → index < shards
    → All (λ now. now ≤ latest) (times_at hash_one index shards calls)
    → granted hash_one index calls (new capacity refill_per_sec)
      ≤ capacity + latest * refill_per_sec
unfolding new
new-granted-le hash_one capacity refill_per_sec index latest calls k t i ts =
    let (pos, first) = new-buckets shards index capacity i in
    let full = new-IsBucket capacity k in
    let bound =
      granted-le hash_one (new capacity refill_per_sec) index (pack 0 capacity) latest calls pos
        first full.0 k t (rw (length-replicate shards (pack 0 capacity)) ts)
        (rw full.1 (omega arith)) in
    simp sub-zero at (rw full.1 at bound)
