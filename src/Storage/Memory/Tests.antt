-- ===== src/Storage/Memory/Tests.antt =====
-- The in-memory store of memory.rs at concrete inputs.
use g2way.Common.{
  ℕ, ◌+◌, ◌≡◌, ◌↔◌, ◌⊎◌, refl, ◌≤◌, ◌<◌, true, false, List, [], ◌∷◌, ◌++◌, none, some, Text, codes,
  arith, get_elem?, text_eq, strip_prefix, lookup, insert, remove, length, min,
}
use g2way.Storage.Memory.{
  MemoryStorage, new, get, set, delete, scan_prefix, check_rate, check_quota, list_append,
  list_drain,
}
use g2way.Storage.Memory.Values.{live}
use g2way.Storage.Memory.History.{Op, read, write, erase, run, get-last_write}
use g2way.Storage.Memory.Rate
use g2way.Storage.Memory.Rate.{check_rate-Spaced}
use g2way.Storage.Memory.Rate.Decisions.{check_rate_allowed_iff}
use g2way.Storage.Memory.Quota
use g2way.Storage.Memory.Quota.{allowance, checks_of, check_quota_period}
use g2way.Storage.Memory.Queue.{contents, list_drain-contents}

store : Unit {0}
unfolding new get set delete scan_prefix check_rate check_quota list_append list_drain lookup insert
    remove text_eq live strip_prefix
store = tt

abbrev k1 : Text
k1 = codes "k1"

abbrev k2 : Text
k2 = codes "k2"

-- Two requests in 10, and three quota units in 100, for every key.
abbrev rates : Text → ℕ × ℕ
rates key = (2, 10)

abbrev quotas : Text → ℕ × ℕ
quotas key = (3, 100)

abbrev history : List (Text × ℕ)
history = (k1, 0) ∷ (k2, 1) ∷ (k1, 4) ∷ (k1, 9) ∷ (k1, 10) ∷ []

-- Checks that read the clock in one order and reach the log in another, where at 9 the two that were
-- admitted at 0 are gone from the log.
late-admitted :
    Rate.admitted rates k1 ((k1, 0) ∷ (k1, 0) ∷ (k1, 10) ∷ (k1, 9) ∷ []) new ≡ 0 ∷ 0 ∷ 10 ∷ 9 ∷ []
unfolding store
late-admitted = refl

new-admitted : Rate.admitted rates k1 history new ≡ 0 ∷ 4 ∷ 10 ∷ []
unfolding store
new-admitted = refl

no_window : lookup k1 new.windows ≡ none
unfolding store
no_window = refl

check_rate-Spaced_example : 0 + 10 ≤ 10
unfolding store
check_rate-Spaced_example =
    check_rate-Spaced rates k1 history new no_window (omega arith) 0 0 10 refl refl

check_rate_allowed_iff_example :
    ((check_rate k1 2 10 13 (Rate.after rates history new)).0.allowed ≡ true)
    ↔ ((3 < 2) ⊎ ((x : ℕ) × (get_elem? (0 ∷ 4 ∷ 10 ∷ []) 1 ≡ some x) × (x + 10 ≤ 13)))
unfolding store
check_rate_allowed_iff_example =
    check_rate_allowed_iff rates k1 history 13 new no_window (omega arith)

new-answers :
    Quota.answers quotas k1 ((k1, 0) ∷ (k2, 1) ∷ (k1, 4) ∷ (k1, 9) ∷ (k1, 99) ∷ (k1, 100) ∷ []) new
    ≡ true ∷ true ∷ true ∷ false ∷ true ∷ []
unfolding store
new-answers = refl

check_quota_period_example :
    (Quota.answers quotas k1 history new ≡ allowance 3 0 4)
    × (lookup k1 (Quota.after quotas history new).quotas
        ≡ some (record { count = 4; resets_at = 100 }))
unfolding store
check_quota_period_example =
    check_quota_period quotas k1 0 ((k2, 1) ∷ (k1, 4) ∷ (k1, 9) ∷ (k1, 10) ∷ []) new tt
      (omega arith) (omega arith)

-- A value that lives for 5 and one that stays.
abbrev filled : MemoryStorage
filled = set k1 (codes "a") (some 5) 10 (set k2 (codes "b") none 10 new)

reads :
    ((get k1 14 filled).0 ≡ some (codes "a"))
    × ((get k1 15 filled).0 ≡ none)
    × ((delete k1 15 filled).0 ≡ false)
    × (scan_prefix (codes "k") 15 filled ≡ k2 ∷ [])
unfolding store
reads = (refl, refl, refl, refl)

-- The value is overwritten, for five units of time, and read in the last of them.
abbrev writes : List (ℕ × Op)
writes =
    (1, write k1 (codes "a") none)
    ∷ (2, erase k1)
    ∷ (3, write k2 (codes "c") none)
    ∷ (10, write k1 (codes "b") (some 5))
    ∷ (14, read k1)
    ∷ []

get-last_write_example :
    ((get k1 14 (run writes new)).0 ≡ some (codes "b")) × ((delete k1 14 (run writes new)).0 ≡ true)
unfolding store
get-last_write_example = get-last_write k1 writes 14 new refl (omega arith)

writes-expired : (get k1 15 (run writes new)).0 ≡ none
unfolding store
writes-expired = refl

abbrev queued : MemoryStorage
queued = list_append k1 (codes "x" ∷ codes "y" ∷ []) none new

list_drain-contents_example :
    ((list_drain k1 1 queued).0 ++ contents k1 (list_drain k1 1 queued).1 ≡ contents k1 queued)
    × (length (list_drain k1 1 queued).0 ≡ min 1 (length (contents k1 queued)))
    × ((text_eq k1 k2 ≡ true) ⊎ (contents k2 (list_drain k1 1 queued).1 ≡ contents k2 queued))
list_drain-contents_example = list_drain-contents k1 k2 1 queued
