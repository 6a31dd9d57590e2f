-- ===== src/Middleware/Spike/Bucket.antt =====
-- One token bucket of spike.rs: it never holds more than its capacity, and over any period lets
-- through no more than its capacity and what the period refills.
use g2way.Common.{
  ◌⊎◌, ℕ, ◌+◌, ◌-◌, ◌*◌, ◌≡◌, ◌↔◌, refl, sym, ap, ◌∙◌, max, ◌≤◌, ◌<◌, Bool, true, false, List, [],
  ◌∷◌, arith, if◌then◌else◌, u32_mod, u32_max, All, ◌/◌, ◌%◌,
}
use native.Mathlib.Nat.{add-mul}
use g2way.Middleware.Spike.{pack, unpack, credit, try_acquire_word}

-- The word of a bucket that holds at most `capacity` tokens.
pub record IsBucket (capacity word : ℕ) : Type 0 where
  pub fits : word / u32_mod < u32_mod
  pub bounded : word % u32_mod ≤ capacity

elapsed_mul :
    (now last refill_per_sec : ℕ)
    → last ≤ now
    → (now - last) * refill_per_sec + last * refill_per_sec ≡ now * refill_per_sec
elapsed_mul now last refill_per_sec h =
    sym (add-mul (now - last) last refill_per_sec)
    ∙ ap (λ (t : ℕ). t * refill_per_sec) (omega arith)

credit_bounds :
    (capacity refill_per_sec now last tokens : ℕ)
    → tokens ≤ capacity
    → capacity ≤ u32_max
    → let c = credit capacity refill_per_sec now last tokens in
      (c.1 ≤ capacity)
      × (last ≤ c.0)
      × (c.0 ≤ last + (now - last))
      × (c.1 + last * refill_per_sec ≤ tokens + c.0 * refill_per_sec)
unfolding credit
credit_bounds capacity refill_per_sec now last tokens h k =
    ground (arith, elapsed_mul now last refill_per_sec)

-- A round either lets nothing through and leaves the word, or takes one token.
abbrev pub taken_of : Bool → ℕ
taken_of taken = if taken then 1 else 0

try_acquire_word_bounds :
    (capacity refill_per_sec now word : ℕ)
    → IsBucket capacity word
    → capacity ≤ u32_max
    → now < u32_mod
    → let r = try_acquire_word capacity refill_per_sec now [] word in
      IsBucket capacity r.1
      × (r.1 / u32_mod ≤ max (word / u32_mod) now)
      × (taken_of r.0 + r.1 % u32_mod + word / u32_mod * refill_per_sec
          ≤ word % u32_mod + r.1 / u32_mod * refill_per_sec)
unfolding try_acquire_word pack unpack
try_acquire_word_bounds capacity refill_per_sec now word b h k =
    ground
      (arith, credit_bounds capacity refill_per_sec now (word / u32_mod % u32_mod) (word % u32_mod))

mul_pos : (n m : ℕ) → 0 < n → 0 < m → 0 < n * m
mul_pos n m h k = grind arith

mul_mono : {n m : ℕ} (k : ℕ) → n ≤ m → n * k ≤ m * k
mul_mono k h = grind arith

try_acquire_word_next :
    (capacity refill_per_sec now word : ℕ) (words : List ℕ) (current : ℕ)
    → (try_acquire_word capacity refill_per_sec now (word ∷ words) current).0 ≡ true
    → try_acquire_word capacity refill_per_sec now (word ∷ words) current
      ≡ try_acquire_word capacity refill_per_sec now words word
unfolding try_acquire_word
try_acquire_word_next capacity refill_per_sec now word words current h = ground arith

-- With tokens to give and a refill rate, a request is turned down exactly when the bucket is empty
-- and no second has passed since its last credit; then the word stays as it was.
pub try_acquire_word_denied_iff :
    (capacity refill_per_sec now word : ℕ)
    → IsBucket capacity word
    → capacity ≤ u32_max
    → now < u32_mod
    → 0 < capacity
    → 0 < refill_per_sec
    → let r = try_acquire_word capacity refill_per_sec now [] word in
      ((r.0 ≡ false) ↔ ((word % u32_mod ≡ 0) × (now ≤ word / u32_mod)))
      × ((r.0 ≡ true) ⊎ (r.1 ≡ word))
unfolding try_acquire_word pack unpack credit
try_acquire_word_denied_iff capacity refill_per_sec now word b h k p q =
    grind (arith, mul_pos (now - word / u32_mod) refill_per_sec)

-- The word that a loop disturbed by `words` finds in its last round.
abbrev pub last_seen : ℕ → List ℕ → ℕ
last_seen current [] = current
last_seen current (word ∷ words) = last_seen word words

-- A request that is let through although other threads kept changing the bucket took its token
-- from the word that it found last, as an undisturbed call on that word does.
pub try_acquire_word-linearizes :
    (capacity refill_per_sec now : ℕ) (words : List ℕ) (current : ℕ)
    → (try_acquire_word capacity refill_per_sec now words current).0 ≡ true
    → try_acquire_word capacity refill_per_sec now words current
      ≡ try_acquire_word capacity refill_per_sec now [] (last_seen current words)
try_acquire_word-linearizes capacity refill_per_sec now [] current h = refl
try_acquire_word-linearizes capacity refill_per_sec now (word ∷ words) current h =
    let next = try_acquire_word_next capacity refill_per_sec now word words current h in
    next
    ∙ try_acquire_word-linearizes capacity refill_per_sec now words word
        (sym (ap (λ r. r.0) next) ∙ h)

-- The calls at the times of a list, one after the other: how many are let through, and the word.
abbrev pub admitted : (capacity refill_per_sec : ℕ) → List ℕ → ℕ → ℕ × ℕ
admitted capacity refill_per_sec [] word = (0, word)
admitted capacity refill_per_sec (now ∷ times) word =
    let (taken, next) = try_acquire_word capacity refill_per_sec now [] word in
    let (count, end) = admitted capacity refill_per_sec times next in (taken_of taken + count, end)

pub admitted_bounds :
    (capacity refill_per_sec latest : ℕ) (times : List ℕ) (word : ℕ)
    → IsBucket capacity word
    → capacity ≤ u32_max
    → latest < u32_mod
    → All (λ now. now ≤ latest) times
    → word / u32_mod ≤ latest
    → let r = admitted capacity refill_per_sec times word in
      IsBucket capacity r.1
      × (r.1 / u32_mod ≤ latest)
      × (r.0 + r.1 % u32_mod + word / u32_mod * refill_per_sec
          ≤ word % u32_mod + r.1 / u32_mod * refill_per_sec)
admitted_bounds capacity refill_per_sec latest [] word b h k ts l = (b, l, omega arith)
admitted_bounds capacity refill_per_sec latest (now ∷ times) word b h k (t, ts) l =
    let (b', early, spent) =
      try_acquire_word_bounds capacity refill_per_sec now word b h (omega arith) in
    let (b'', early', spent') =
      admitted_bounds capacity refill_per_sec latest times _ b' h k ts (omega arith) in
    (b'', early', omega arith)

-- However many requests meet one bucket up to a time, at most its capacity and the tokens refilled
-- since its last credit are let through.
pub admitted-le :
    (capacity refill_per_sec latest : ℕ) (times : List ℕ) (word : ℕ)
    → IsBucket capacity word
    → capacity ≤ u32_max
    → latest < u32_mod
    → All (λ now. now ≤ latest) times
    → word / u32_mod ≤ latest
    → (admitted capacity refill_per_sec times word).0
      ≤ capacity + (latest - word / u32_mod) * refill_per_sec
admitted-le capacity refill_per_sec latest times word b h k ts l =
    let (b', early, spent) = admitted_bounds capacity refill_per_sec latest times word b h k ts l in
    omega (
      arith,
      b.bounded,
      elapsed_mul latest (word / u32_mod) refill_per_sec l,
      mul_mono refill_per_sec early,
    )
