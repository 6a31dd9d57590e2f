-- ===== src/Storage/Memory/Values.antt =====
-- `get`, `set`, `delete` and `scan_prefix` of memory.rs against the values that are live at a time.
use g2way.Common.{
  ℕ, ◌≡◌, ◌↔◌, refl, inl, inr, subst, ◌≤◌, true, not, ◌&&◌, List, [], ◌∷◌, map, Option, none, some,
  Text, arith, Any, keep, if◌then◌else◌, lookup, lookup-insert, lookup-remove, text_eq, text_eq_iff,
  IsMap, IsAbsent, insert-IsMap, remove-IsMap, Option-cases, Bool-cases, strip_prefix,
}
use g2way.Storage.Memory.{
  MemoryStorage, Entry, expired_by, expiry, is_expired, is_some, get, set, delete, scan_prefix,
}

abbrev visible : ℕ → Option Entry → Option Text
visible now none = none
visible now (some e) = if expired_by e.expires_at now then none else some e.value

-- What a reader at the time sees under the key.
unfoldable pub live : Text → ℕ → MemoryStorage → Option Text
live key now s = visible now (lookup key s.values)

expired_later :
    (at : Option ℕ) (now later : ℕ)
    → now ≤ later
    → expired_by at now ≡ true
    → expired_by at later ≡ true
expired_later none now later h e = cc
expired_later (some t) now later h e = ground arith

-- `get` answers the live value; and that it evicts an expired entry is seen by nobody, neither
-- under its own key nor under another, then or later.
pub get-live :
    (key other : Text) (now later : ℕ) (s : MemoryStorage)
    → now ≤ later
    → ((get key now s).0 ≡ live key now s)
      × (live other later (get key now s).1 ≡ live other later s)
unfolding get live is_expired
get-live key other now later s h = elim (Option-cases (lookup key s.values)) [
  | inl e ↦ rw (e, get) (refl, refl)
  | inr (entry, e) ↦ ground (
    arith,
    lookup-remove key other s.values,
    text_eq_iff key other,
    expired_later entry.expires_at now later h,
  )
]

-- A value that is set is live under its key until its time to live is over, or for good without
-- one; a deleted key has no live value, and `delete` answers whether it had one. Neither touches
-- another key.
pub set-delete-live :
    (key other value : Text) (ttl : Option ℕ) (now later : ℕ) (s : MemoryStorage)
    → (live other later (set key value ttl now s) ≡ (
        if text_eq key other
        then (if expired_by (expiry ttl now) later then none else some value)
        else live other later s))
      × ((delete key now s).0 ≡ is_some (live key now s))
      × (live other later (delete key now s).1
          ≡ (if text_eq key other then none else live other later s))
unfolding set delete live is_expired
set-delete-live key other value ttl now later s = (
  ground (
    arith,
    lookup-insert {V = Entry} key other (record { value = value; expires_at = expiry ttl now })
        s.values,
  ),
  ground arith,
  ground (arith, lookup-remove key other s.values, text_eq_iff key other),
)

-- The list that `scan_prefix` returns, entry by entry.
abbrev listed : Text → ℕ → List (Text × Entry) → List Text
listed prefix now m =
    map (λ p. p.0)
      (keep (λ p. is_some (strip_prefix prefix p.0) && not (expired_by p.1.expires_at now)) m)

abbrev pub Holds : Text → List Text → Type 0
Holds key keys = Any (λ k. k ≡ key) keys

listed-IsAbsent :
    (prefix key : Text) (now : ℕ) (m : List (Text × Entry))
    → IsAbsent key m
    → ¬ Holds key (listed prefix now m)
listed-IsAbsent prefix key now [] h a = a
listed-IsAbsent prefix key now ((k, e) ∷ m) (h, hs) a =
    ground (arith, listed-IsAbsent prefix key now m hs, text_eq_iff k key)

listed_iff :
    (prefix key : Text) (now : ℕ) (m : List (Text × Entry))
    → IsMap m
    → Holds key (listed prefix now m)
      ↔ ((is_some (strip_prefix prefix key) ≡ true) × (is_some (visible now (lookup key m)) ≡ true))
unfolding lookup
listed_iff prefix key now [] h = ((λ a. absurd a), λ b. cc (b.1))
listed_iff prefix key now ((k, e) ∷ m) (h, hs) =
    let (to, from) = listed_iff prefix key now m hs in
    elim (Bool-cases (text_eq k key)) [
      | inl own ↦
          let same = (text_eq_iff k key).0 own in
          let absent =
            listed-IsAbsent prefix key now m (subst (λ (j : Text). IsAbsent j m) same h) in
          (ground (arith, absent), ground (arith, absent))
      | inr other ↦ (ground (arith, text_eq_iff k key), ground (arith, text_eq_iff k key))
    ]

-- In a store with one entry for each key, `scan_prefix` lists exactly the keys with the prefix that
-- have a live value.
pub scan_prefix_iff :
    (prefix key : Text) (now : ℕ) (s : MemoryStorage)
    → IsMap s.values
    → Holds key (scan_prefix prefix now s)
      ↔ ((is_some (strip_prefix prefix key) ≡ true) × (is_some (live key now s) ≡ true))
unfolding scan_prefix live is_expired
scan_prefix_iff prefix key now s h = listed_iff prefix key now s.values h

pub values-IsMap :
    (key value : Text) (ttl : Option ℕ) (now : ℕ) (s : MemoryStorage)
    → IsMap s.values
    → IsMap (get key now s).1.values
      × IsMap (set key value ttl now s).values
      × IsMap (delete key now s).1.values
unfolding get set delete
values-IsMap key value ttl now s h = (
  ground (arith, remove-IsMap key s.values h),
  insert-IsMap key _ s.values h,
  ground (arith, remove-IsMap key s.values h),
)
