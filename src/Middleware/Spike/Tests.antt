-- ===== src/Middleware/Spike/Tests.antt =====
-- The guard of spike.rs at concrete inputs.
use g2way.Common.{ℕ, ◌+◌, ◌*◌, ◌≡◌, refl, ◌≤◌, true, false, List, [], ◌∷◌, Text, codes, arith}
use g2way.Middleware.Spike.{SpikeGuard, try_acquire_word, new}
use g2way.Middleware.Spike.Bucket.{IsBucket, admitted, admitted-le}
use g2way.Middleware.Spike.Guard.{granted, new-granted-le}

-- One token is left; two tokens of capacity, three refilled per second.
abbrev nearly_empty : ℕ
nearly_empty = 9 * 4294967296 + 1

drained :
    (try_acquire_word 2 3 9 [] nearly_empty ≡ (true, 9 * 4294967296))
    × (try_acquire_word 2 3 9 [] (9 * 4294967296) ≡ (false, 9 * 4294967296))
    × (try_acquire_word 2 3 10 [] (9 * 4294967296) ≡ (true, 10 * 4294967296 + 1))
unfolding try_acquire_word
drained = (refl, refl, refl)

nearly_empty-IsBucket : IsBucket 2 nearly_empty
nearly_empty-IsBucket = ground arith

admitted-le_example : (admitted 2 3 (9 ∷ 9 ∷ 10 ∷ []) nearly_empty).0 ≤ 2 + 1 * 3
admitted-le_example =
    admitted-le 2 3 10 (9 ∷ 9 ∷ 10 ∷ []) nearly_empty nearly_empty-IsBucket (omega arith)
      (omega arith) (omega arith) (omega arith)

-- Two buckets, and a hash by the length of the identity.
abbrev by_length : Text → ℕ
by_length [] = 0
by_length (x ∷ xs) = 1 + by_length xs

abbrev two_buckets : SpikeGuard
two_buckets = record { capacity = 2; refill_per_sec = 3; buckets = nearly_empty ∷ 0 ∷ [] }

abbrev calls : List (Text × ℕ)
calls = (codes "ab", 9) ∷ (codes "b", 9) ∷ (codes "cd", 9) ∷ []

new-granted-le_example : granted by_length 2 calls (new 2 3) ≤ 2 + 9 * 3
new-granted-le_example =
    new-granted-le by_length 2 3 2 9 calls (omega arith) (omega arith) (omega arith) (omega arith)
