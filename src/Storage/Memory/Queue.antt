-- ===== src/Storage/Memory/Queue.antt =====
-- The FIFO lists of memory.rs: `list_append` and `list_drain` against the list that a key holds.
use g2way.Common.{
  ◌⊎◌, Bool-cases, ℕ, zero, suc, inl, inr, ◌-◌, ◌≡◌, refl, sym, ap, true, List, [], ◌∷◌, ◌++◌,
  Option, none, some, Text, arith, min, length, length-append, length-drop, take, drop,
  take-append-drop, is_empty, if◌then◌else◌, ltb, lookup, insert, remove, lookup-insert,
  lookup-remove, text_eq, text_eq_refl, Option-cases, Bool-cases,
}
use g2way.Storage.Memory.{MemoryStorage, or_empty, trim, list_append, list_drain}

abbrev pub contents : Text → MemoryStorage → List Text
contents key s = or_empty (lookup key s.lists)

-- The newest entries, as many as the bound allows.
abbrev pub newest : Option ℕ → List Text → List Text
newest none xs = xs
newest (some max) xs = drop (length xs - max) xs

drop_nil : (n : ℕ) → drop {A = Text} n [] ≡ []
drop_nil zero = refl
drop_nil (suc n) = refl

trim-drop : (max : ℕ) (xs : List Text) → trim max xs ≡ drop (length xs - max) xs
unfolding trim
trim-drop max [] = sym (drop_nil (0 - max))
trim-drop max (x ∷ xs) = elim (Bool-cases (ltb max (length (x ∷ xs)))) [
  | inl long ↦
      let more : suc (length xs) - max ≡ suc (length xs - max) = ground arith in
      rw (long, trim-drop max xs, more) refl
  | inr short ↦ let done : suc (length xs) - max ≡ 0 = ground arith in rw (short, done) refl
]

-- Appending puts the items behind what the key holds and keeps the newest that the bound allows;
-- appending nothing changes nothing, not even a list that is over the bound. No other key changes.
pub list_append-contents :
    (key other : Text) (items : List Text) (max_len : Option ℕ) (s : MemoryStorage)
    → contents other (list_append key items max_len s) ≡ (
        if is_empty items
        then contents other s
        else if text_eq key other
        then newest max_len (contents key s ++ items)
        else contents other s)
unfolding list_append
list_append-contents key other items max_len s =
    let list = contents key s ++ items in
    elim max_len
      as (λ m. contents other (list_append key items m s) ≡ (
        if is_empty items
        then contents other s
        else if text_eq key other
        then newest m list
        else contents other s)) [
          | none ↦ ground (arith, lookup-insert key other list s.lists)
          | some max ↦
              ground (arith, lookup-insert key other (trim max list) s.lists, trim-drop max list)
        ]

nil_of_is_empty : (xs : List Text) → is_empty xs ≡ true → xs ≡ []
nil_of_is_empty [] h = refl
nil_of_is_empty (x ∷ xs) h = cc

drain_rest :
    (key other : Text) (n : ℕ) (list : List Text) (s : MemoryStorage)
    → contents other (
        if is_empty (drop n list)
        then record s { lists = remove key s.lists }
        else record s { lists = insert key (drop n list) s.lists })
      ≡ (if text_eq key other then drop n list else contents other s)
drain_rest key other n list s = ground (
  arith,
  lookup-insert key other (drop n list) s.lists,
  lookup-remove key other s.lists,
  nil_of_is_empty (drop n list),
)

length-take-min :
    (max : ℕ) (xs : List Text) → length (take (min max (length xs)) xs) ≡ min max (length xs)
length-take-min max xs = omega (
  arith,
  length-drop (min max (length xs)) xs,
  length-append (take (min max (length xs)) xs) (drop (min max (length xs)) xs),
  ap length (take-append-drop (min max (length xs)) xs),
)

-- Draining takes the oldest entries, as many as are asked for and there; with what stays they are
-- what the key held, in order. No other key changes.
pub list_drain-contents :
    (key other : Text) (max : ℕ) (s : MemoryStorage)
    → let r = list_drain key max s in
      (r.0 ++ contents key r.1 ≡ contents key s)
      × (length r.0 ≡ min max (length (contents key s)))
      × ((text_eq key other ≡ true) ⊎ (contents other r.1 ≡ contents other s))
unfolding list_drain
list_drain-contents key other max s = elim (Option-cases (lookup key s.lists)) [
  | inl e ↦ rw (e, list_drain) (ground arith)
  | inr (list, e) ↦
      let n = min max (length list) in
      let after = drain_rest key other n list s in
      let own = rw (text_eq_refl key) at (drain_rest key key n list s) in
      rw (e, list_drain)
        (
          rw own (take-append-drop n list),
          length-take-min max list,
          elim (Bool-cases (text_eq key other)) [ inl k ↦ inl k | inr k ↦ inr (rw k at after) ],
        )
]
