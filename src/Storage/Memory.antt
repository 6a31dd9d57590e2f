-- ===== src/Storage/Memory.antt =====
-- crates/g2-storage/src/memory.rs: the store of a single process.
--
-- Each map is an association list. The operations hold one lock for their whole run, but for `get`,
-- which is modelled as if nobody wrote between its two locks. `publish` and `subscribe` hand
-- messages to the runtime's channels and are left out.
pub mod Values
pub mod History
pub mod Window
pub mod Rate
pub mod Quota
pub mod Queue
pub mod Tests
use g2way.Common.{
  ℕ, ◌+◌, ◌-◌, ◌%◌, Bool, true, false, not, ◌&&◌, List, [], ◌∷◌, ◌++◌, map, Option, none, some,
  Text, ltb, leb, if◌then◌else◌, ok, u64_mod, min, length, take, drop, keep, is_empty, lookup,
  insert, remove, strip_prefix,
}
use g2way.Storage.{LimitDecision, Limiter}

pub record Entry : Type 0 where
  pub value : Text
  pub expires_at : Option ℕ

pub record QuotaEntry : Type 0 where
  pub count : ℕ
  pub resets_at : ℕ

pub record MemoryStorage : Type 0 where
  pub values : List (Text × Entry)
  pub windows : List (Text × List ℕ)
  pub quotas : List (Text × QuotaEntry)
  pub lists : List (Text × List Text)

unfoldable pub new : MemoryStorage
new = record { values = []; windows = []; quotas = []; lists = [] }

abbrev pub expired_by : Option ℕ → ℕ → Bool
expired_by none now = false
expired_by (some at) now = leb at now

unfoldable pub is_expired : Entry → ℕ → Bool
is_expired e now = expired_by e.expires_at now

pub get : Text → ℕ → MemoryStorage → Option Text × MemoryStorage
unfolding is_expired
get key now s = elim (lookup key s.values) [
  | none ↦ (none, s)
  | some e ↦
      if is_expired e now
      then (none, record s { values = remove key s.values })
      else (some e.value, s)
]

abbrev pub expiry : Option ℕ → ℕ → Option ℕ
expiry none now = none
expiry (some ttl) now = some (now + ttl)

pub set : Text → Text → Option ℕ → ℕ → MemoryStorage → MemoryStorage
set key value ttl now s =
    let entry : Entry = record { value = value; expires_at = expiry ttl now } in
    record s { values = insert key entry s.values }

pub delete : Text → ℕ → MemoryStorage → Bool × MemoryStorage
unfolding is_expired
delete key now s = elim (lookup key s.values) [
  | none ↦ (false, s)
  | some e ↦ (not (is_expired e now), record s { values = remove key s.values })
]

abbrev pub is_some {ℓ} : {A : Type ℓ} → Option A → Bool
is_some none = false
is_some (some a) = true

pub scan_prefix : Text → ℕ → MemoryStorage → List Text
unfolding is_expired
scan_prefix prefix now s =
    map (λ p. p.0)
      (keep (λ p. is_some (strip_prefix prefix p.0) && not (is_expired p.1 now)) s.values)

abbrev pub or_empty {ℓ} : {A : Type ℓ} → Option (List A) → List A
or_empty none = []
or_empty (some xs) = xs

-- The loop that pops the front while the list is longer than `max`.
pub trim : (max : ℕ) → List Text → List Text
trim max [] = []
trim max (x ∷ xs) = if ltb max (length (x ∷ xs)) then trim max xs else x ∷ xs

pub list_append : Text → List Text → Option ℕ → MemoryStorage → MemoryStorage
unfolding trim
list_append key items max_len s =
    let list = or_empty (lookup key s.lists) ++ items in
    let kept : List Text = elim max_len [ none ↦ list | some max ↦ trim max list ] in
    if is_empty items then s else record s { lists = insert key kept s.lists }

pub list_drain : Text → ℕ → MemoryStorage → List Text × MemoryStorage
list_drain key max s = elim (lookup key s.lists) [
  | none ↦ ([], s)
  | some list ↦
      let n = min max (length list) in
      let rest = drop n list in
      (
        take n list,
        if is_empty rest
            then record s { lists = remove key s.lists }
            else record s { lists = insert key rest s.lists },
      )
]

-- The loop that drops what has slid out of the window.
pub slide : (window now : ℕ) → List ℕ → List ℕ
slide window now [] = []
slide window now (t ∷ log) = if leb window (now - t) then slide window now log else t ∷ log

-- Until when the oldest recorded request keeps counting.
abbrev pub reset_of : (window now : ℕ) → List ℕ → ℕ
reset_of window now [] = window
reset_of window now (oldest ∷ log) = window - (now - oldest)

unfoldable pub check_rate :
    (key : Text) (limit window now : ℕ) → MemoryStorage → LimitDecision × MemoryStorage
unfolding slide
check_rate key limit window now s =
    let log = slide window now (or_empty (lookup key s.windows)) in
    let count = length log in
    let reset_after = reset_of window now log in
    if ltb count limit
    then (
      record { allowed = true; remaining = limit - count - 1; reset_after = reset_after },
      record s { windows = insert key (log ++ now ∷ []) s.windows },
    )
    else (
      record { allowed = false; remaining = 0; reset_after = reset_after },
      if is_empty log
          then record s { windows = remove key s.windows }
          else record s { windows = insert key log s.windows },
    )

-- The entry that a check counts on: a fresh one where there is none or its period is over.
abbrev pub current : (period now : ℕ) → Option QuotaEntry → QuotaEntry
current period now none = record { count = 0; resets_at = now + period }
current period now (some e) =
    if leb e.resets_at now then record { count = 0; resets_at = now + period } else e

-- `count += 1` wraps in a release build.
unfoldable pub check_quota :
    (key : Text) (max period now : ℕ) → MemoryStorage → LimitDecision × MemoryStorage
check_quota key max period now s =
    let entry = current period now (lookup key s.quotas) in
    let count = (entry.count + 1) % u64_mod in
    let reset_after = entry.resets_at - now in
    let s' = record s { quotas = insert key (record entry { count = count }) s.quotas } in
    if ltb max count
    then (record { allowed = false; remaining = 0; reset_after = reset_after }, s')
    else (record { allowed = true; remaining = max - count; reset_after = reset_after }, s')

-- The store behind the interface of its clients: its checks never fail.
abbrev pub limiter : Limiter MemoryStorage
limiter = record {
  check_rate =
      λ key limit window now s. let (d, s') = check_rate key limit window now s in (ok d, s');
  check_quota =
      λ key max period now s. let (d, s') = check_quota key max period now s in (ok d, s');
}
