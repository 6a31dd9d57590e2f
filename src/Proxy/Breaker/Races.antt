-- ===== src/Proxy/Breaker/Races.antt =====
-- Several threads on one breaker of breaker.rs: who wins the trial, and what a late writer may do.
use g2way.Common.{
  ℕ, ◌+◌, ◌≡◌, ◌≢◌, ◌<◌, ◌≤◌, ◌⊎◌, inl, inr, true, false, List, [], ◌∷◌, some, arith, All, Any, min,
  u64_max, ◌%◌, ◌/◌,
}
use g2way.Proxy.Breaker.{
  CircuitBreaker, pack, closed_tag, half_open_tag, since_mod, try_acquire_at, record_success,
  record_failure_at,
}

abbrev pub NotClosed : ℕ → Type 0
NotClosed word = word / since_mod ≢ closed_tag

-- The cooldown that starts at the word's time is over.
abbrev pub CooledDown : ℕ → ℕ → ℕ → Type 0
CooledDown cooldown_ms now word = min (word % since_mod + cooldown_ms) u64_max ≤ now

won_alone :
    (now : ℕ) (b : CircuitBreaker)
    → NotClosed b.state
    → (try_acquire_at [] now b).0 ≡ true
    → ((try_acquire_at [] now b).1.state ≡ pack half_open_tag now)
      × CooledDown b.cooldown_ms now b.state
unfolding try_acquire_at
won_alone now b h e = ground arith

won_disturbed :
    (word : ℕ) (words : List ℕ) (now : ℕ) (b : CircuitBreaker)
    → NotClosed b.state
    → (try_acquire_at (word ∷ words) now b).0 ≡ true
    → (((try_acquire_at (word ∷ words) now b).1.state ≡ pack half_open_tag now)
        × CooledDown b.cooldown_ms now b.state)
      ⊎ (try_acquire_at (word ∷ words) now b ≡ try_acquire_at words now (record b { state = word }))
unfolding try_acquire_at
won_disturbed word words now b h e = ground arith

-- However often other threads get in between, an acquire that is let through past words that are
-- all open or half-open has put its own claim in the word, and one of the words that it loaded
-- had its cooldown over.
pub try_acquire_at-won :
    (words : List ℕ) (now : ℕ) (b : CircuitBreaker)
    → All NotClosed (b.state ∷ words)
    → (try_acquire_at words now b).0 ≡ true
    → ((try_acquire_at words now b).1.state ≡ pack half_open_tag now)
      × Any (CooledDown b.cooldown_ms now) (b.state ∷ words)
try_acquire_at-won [] now b (h, hs) e =
    let (claimed, cooled) = won_alone now b h e in (claimed, inl cooled)
try_acquire_at-won (word ∷ words) now b (h, hs) e = elim (won_disturbed word words now b h e) [
  | inl (claimed, cooled) ↦ (claimed, inl cooled)
  | inr same ↦
      let (claimed, cooled) =
        try_acquire_at-won words now (record b { state = word }) hs (ground arith) in
      (ground arith, inr cooled)
]

-- Of two threads that load the same cooled-down word, the one whose swap comes second is turned
-- down unless a whole cooldown lies between the two clocks, and leaves the first one's claim.
pub race_loser :
    (first second : ℕ) (b : CircuitBreaker)
    → NotClosed b.state
    → 0 < b.cooldown_ms
    → first < since_mod
    → second < since_mod
    → CooledDown b.cooldown_ms first b.state
    → second < first + b.cooldown_ms
    → ((try_acquire_at (pack half_open_tag first ∷ []) second b).0 ≡ false)
      × ((try_acquire_at (pack half_open_tag first ∷ []) second b).1.state
          ≡ pack half_open_tag first)
unfolding try_acquire_at pack
race_loser first second b h c f s k l = ground arith

-- No call undoes a transition that another thread made after the call loaded the word: neither
-- recorder overwrites the word that it finds in place of the one that it loaded.
pub late_recorders :
    (word now : ℕ) (b : CircuitBreaker)
    → word ≢ b.state
    → ((record_success (some word) b).state ≡ word)
      × ((record_failure_at (some word) now b).state ≡ word)
unfolding record_success record_failure_at
late_recorders word now b h = ground arith
