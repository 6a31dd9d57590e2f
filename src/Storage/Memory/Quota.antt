-- ===== src/Storage/Memory/Quota.antt =====
-- The fixed-period allowance of `check_quota` in memory.rs, over any history of checks.
use g2way.Common.{
  ℕ, zero, suc, ◌+◌, ◌%◌, ◌≡◌, inl, inr, refl, sym, ap, ◌∙◌, ◌≤◌, ◌<◌, Bool, List, [], ◌∷◌, Option,
  none, some, Text, arith, All, ltb, subst, if◌then◌else◌, lookup, lookup-insert, text_eq,
  text_eq_iff, text_eq_refl, Bool-cases, u64_mod,
}
use g2way.Storage.{LimitDecision}
use g2way.Storage.Memory.{MemoryStorage, QuotaEntry, current, check_quota}

-- The key has no period running: it has no entry, or the entry's period is over.
abbrev pub IsIdle : ℕ → Option QuotaEntry → Type 0
IsIdle now none = Unit
IsIdle now (some e) = e.resets_at ≤ now

current_of_IsIdle :
    (period now : ℕ) (o : Option QuotaEntry)
    → IsIdle now o
    → current period now o ≡ record { count = 0; resets_at = now + period }
current_of_IsIdle period now none h = refl
current_of_IsIdle period now (some e) h = ground arith

-- A check counts on the current entry of its own key, and touches no other.
check_quota-lookup :
    (key other : Text) (max period now : ℕ) (s : MemoryStorage)
    → let entry = current period now (lookup key s.quotas) in
      lookup other (check_quota key max period now s).1.quotas ≡ (
        if text_eq key other
        then some (record entry { count = (entry.count + 1) % u64_mod })
        else lookup other s.quotas)
unfolding check_quota
check_quota-lookup key other max period now s =
    let entry = current period now (lookup key s.quotas) in
    ground (
      arith,
      lookup-insert key other (record entry { count = (entry.count + 1) % u64_mod }) s.quotas,
    )

check_quota_allowed :
    (key : Text) (max period now : ℕ) (s : MemoryStorage)
    → (current period now (lookup key s.quotas)).count + 1 < u64_mod
    → (check_quota key max period now s).0.allowed
      ≡ ltb (current period now (lookup key s.quotas)).count max
unfolding check_quota
check_quota_allowed key max period now s h = ground arith

-- A check of a quota leaves the windows of the rates alone.
pub check_quota-windows :
    (key : Text) (max period now : ℕ) (s : MemoryStorage)
    → (check_quota key max period now s).1.windows ≡ s.windows
unfolding check_quota
check_quota-windows key max period now s = ground arith

-- Each key has its allowance and its period; a check is a key and a time.
module _ (quotas : Text → ℕ × ℕ) where
  abbrev check : Text × ℕ → MemoryStorage → LimitDecision × MemoryStorage
  check (key, now) s = check_quota key (quotas key).0 (quotas key).1 now s

  abbrev pub after : List (Text × ℕ) → MemoryStorage → MemoryStorage
  after [] s = s
  after (c ∷ calls) s = after calls (check c s).1

  -- The answers to the checks of `key`.
  abbrev pub answers : Text → List (Text × ℕ) → MemoryStorage → List Bool
  answers key [] s = []
  answers key ((k, now) ∷ calls) s =
      let later = answers key calls (check (k, now) s).1 in
      if text_eq k key then (check (k, now) s).0.allowed ∷ later else later

-- How many of the checks are of `key`.
abbrev pub checks_of : Text → List (Text × ℕ) → ℕ
checks_of key [] = 0
checks_of key ((k, now) ∷ calls) =
    let later = checks_of key calls in if text_eq k key then suc later else later

-- The answers that an allowance of `max` owes to `n` checks after the first `used`.
abbrev pub allowance : (max used n : ℕ) → List Bool
allowance max used zero = []
allowance max used (suc n) = ltb used max ∷ allowance max (used + 1) n

running :
    (period now used end : ℕ) (o : Option QuotaEntry)
    → o ≡ some (record { count = used; resets_at = end })
    → now < end
    → current period now o ≡ record { count = used; resets_at = end }
running period now used end none e h = cc
running period now used end (some q) e h = ground arith

module _ (quotas : Text → ℕ × ℕ) (key : Text) where
  -- What a history of checks within a running period answers and leaves.
  abbrev Counts : List (Text × ℕ) → (used end : ℕ) → MemoryStorage → Type 0
  Counts calls used end s =
      (answers quotas key calls s ≡ allowance (quotas key).0 used (checks_of key calls))
      × (lookup key (after quotas calls s).quotas
          ≡ some (record { count = used + checks_of key calls; resets_at = end }))

  -- A check that counts on `used` counts to one more, and the rest goes on from there.
  own_check :
      (calls : List (Text × ℕ)) (now used end : ℕ) (s : MemoryStorage)
      → current (quotas key).1 now (lookup key s.quotas) ≡ record { count = used; resets_at = end }
      → used + 1 < u64_mod
      → (lookup key (check quotas (key, now) s).1.quotas
            ≡ some (record { count = used + 1; resets_at = end })
          → Counts calls (used + 1) end (check quotas (key, now) s).1)
      → Counts ((key, now) ∷ calls) used end s
  own_check calls now used end s e n rest =
      let (max, period) = quotas key in
      let entry = check_quota-lookup key key max period now s in
      let next = rw (text_eq_refl key, e, small) at entry in
      let (ih, left) = rest next in
      let allowed = rw e at (check_quota_allowed key max period now s (rw e n)) in
      rw (text_eq_refl key) (rw (allowed, ih) refl, left ∙ ap some (ground arith))
    where
      small : (used + 1) % u64_mod ≡ used + 1
      small = omega arith

  period_lem :
      (calls : List (Text × ℕ)) (used end : ℕ) (s : MemoryStorage)
      → lookup key s.quotas ≡ some (record { count = used; resets_at = end })
      → All (λ c. c.1 < end) calls
      → used + checks_of key calls < u64_mod
      → Counts calls used end s
  period_lem [] used end s e h n = (refl, ground arith)
  period_lem ((k, now) ∷ calls) used end s e (h, hs) n = elim (Bool-cases (text_eq k key)) [
    | inl own ↦
        let n' = rw own at n in
        subst (λ (j : Text). Counts ((j, now) ∷ calls) used end s) (sym ((text_eq_iff k key).0 own))
          (own_check calls now used end s (running (quotas key).1 now used end _ e h) (omega arith)
            (λ next. period_lem calls (used + 1) end _ next hs (omega arith)))
    | inr other ↦
        let kept = rw other at (check_quota-lookup k key (quotas k).0 (quotas k).1 now s) in
        rw other
          (period_lem calls used end (check quotas (k, now) s).1 (kept ∙ e) hs (rw other at n))
  ]

-- From a check of an idle key on, up to the end of the period that it starts, the key gets exactly
-- its allowance: the first `max` checks are allowed and the later ones turned down, whatever checks
-- of other keys come in between; and all of them, fewer than 2^64, count to that one period.
pub check_quota_period :
    (quotas : Text → ℕ × ℕ) (key : Text) (now : ℕ) (calls : List (Text × ℕ)) (s : MemoryStorage)
    → IsIdle now (lookup key s.quotas)
    → All (λ c. c.1 < now + (quotas key).1) calls
    → checks_of key ((key, now) ∷ calls) < u64_mod
    → let history = (key, now) ∷ calls in
      (answers quotas key history s ≡ allowance (quotas key).0 0 (checks_of key history))
      × (lookup key (after quotas history s).quotas
          ≡ some (record { count = checks_of key history; resets_at = now + (quotas key).1 }))
check_quota_period quotas key now calls s idle h n =
    let n' = rw (text_eq_refl key) at n in
    let (same, left) =
      own_check quotas key calls now 0 (now + (quotas key).1) s (current_of_IsIdle _ now _ idle)
        (omega arith) (λ next. period_lem quotas key calls 1 _ _ next h (omega arith)) in
    (same, left ∙ ap some (ground arith))
