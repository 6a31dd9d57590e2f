-- ===== src/Storage/Memory/History.antt =====
-- `get`, `set` and `delete` of memory.rs over whole histories, against the last write of a key.
use g2way.Common.{
  ℕ, ◌+◌, ◌≡◌, refl, ap, ◌∙◌, inl, inr, ◌≤◌, List, [], ◌∷◌, Option, none, some, Text, arith,
  if◌then◌else◌, ltb, lookup, text_eq, Bool-cases,
}
use g2way.Storage.Memory.{MemoryStorage, get, set, delete, is_some, expired_by, expiry}
use g2way.Storage.Memory.Values.{live, get-live, set-delete-live}

pub data Op : Type 0 where
  read : Text → Op
  write : Text → Text → Option ℕ → Op
  erase : Text → Op

abbrev pub run_op : ℕ → Op → MemoryStorage → MemoryStorage
run_op now (read k) s = (get k now s).1
run_op now (write k value ttl) s = set k value ttl now s
run_op now (erase k) s = (delete k now s).1

abbrev pub run : List (ℕ × Op) → MemoryStorage → MemoryStorage
run [] s = s
run ((now, op) ∷ ops) s = run ops (run_op now op s)

-- The clock does not go back, up to the read at the end.
abbrev pub Until : ℕ → List (ℕ × Op) → ℕ → Type 0
Until start [] end = start ≤ end
Until start ((now, op) ∷ ops) end = (start ≤ now) × Until now ops end

-- The specification: a write with its time and its time to live, none after an erasure.
pub record Written : Type 0 where
  pub value : Text
  pub at : ℕ
  pub ttl : Option ℕ

abbrev pub last_after : Text → ℕ → Op → Option Written → Option Written
last_after key now (read k) old = old
last_after key now (write k value ttl) old =
    if text_eq k key then some (record { value = value; at = now; ttl = ttl }) else old
last_after key now (erase k) old = if text_eq k key then none else old

abbrev pub last_write : Text → List (ℕ × Op) → Option Written → Option Written
last_write key [] old = old
last_write key ((now, op) ∷ ops) old = last_write key ops (last_after key now op old)

abbrev pub in_time : ℕ → Written → Option ℕ → Option Text
in_time now w none = some w.value
in_time now w (some ttl) = if ltb now (w.at + ttl) then some w.value else none

abbrev pub readable : ℕ → Option Written → Option Text
readable now none = none
readable now (some w) = in_time now w w.ttl

-- A store shows the last write of a key from a time on.
abbrev Shows : Text → ℕ → Option Written → MemoryStorage → Type 0
Shows key from old s = (later : ℕ) → from ≤ later → live key later s ≡ readable later old

run_op-Shows :
    (key : Text) (start now : ℕ) (op : Op) (old : Option Written) (s : MemoryStorage)
    → start ≤ now
    → Shows key start old s
    → Shows key now (last_after key now op old) (run_op now op s)
run_op-Shows key start now (read k) old s le h later l =
    (get-live k key now later s l).1 ∙ h later (omega arith)
run_op-Shows key start now (write k value ttl) old s le h later l =
    let (put, _, _) = set-delete-live k key value ttl now later s in
    elim (Bool-cases (text_eq k key)) [
      | inl own ↦ rw own (put ∙ rw own (by_ttl ttl))
      | inr other ↦ rw other (put ∙ rw other (h later (omega arith)))
    ]
  where
    by_ttl :
        (ttl : Option ℕ)
        → (if expired_by (expiry ttl now) later then none else some value)
          ≡ in_time later (record { value = value; at = now; ttl = ttl }) ttl
    by_ttl none = refl
    by_ttl (some t) = ground arith
run_op-Shows key start now (erase k) old s le h later l =
    let (_, _, gone) = set-delete-live k key [] none now later s in
    elim (Bool-cases (text_eq k key)) [
      | inl own ↦ rw own (gone ∙ rw own refl)
      | inr other ↦ rw other (gone ∙ rw other (h later (omega arith)))
    ]

run-Shows :
    (key : Text) (start end : ℕ) (ops : List (ℕ × Op)) (old : Option Written) (s : MemoryStorage)
    → Until start ops end
    → Shows key start old s
    → live key end (run ops s) ≡ readable end (last_write key ops old)
run-Shows key start end [] old s le h = h end le
run-Shows key start end ((now, op) ∷ ops) old s (le, rest) h =
    run-Shows key now end ops (last_after key now op old) (run_op now op s) rest
      (run_op-Shows key start now op old s le h)

-- What a key reads after any history of reads, writes and deletes of any keys is what was last
-- written under it, as long as the time since is less than the time to live of that write, if it
-- has one, and nothing where nothing was written since the key was last deleted; and `delete`
-- answers whether there is such a value. The store had no value under the key at the start, and the
-- clock does not go back.
pub get-last_write :
    (key : Text) (ops : List (ℕ × Op)) (now : ℕ) (s : MemoryStorage)
    → lookup key s.values ≡ none
    → Until 0 ops now
    → ((get key now (run ops s)).0 ≡ readable now (last_write key ops none))
      × ((delete key now (run ops s)).0 ≡ is_some (readable now (last_write key ops none)))
unfolding live
get-last_write key ops now s e o =
    let shows = run-Shows key 0 now ops none s o (λ later l. rw e refl) in
    let (reads, _) = get-live key key now now (run ops s) (omega arith) in
    let (_, answers, _) = set-delete-live key key [] none now now (run ops s) in
    (reads ∙ shows, answers ∙ ap is_some shows)
