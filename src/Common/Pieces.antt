-- ===== src/Common/Pieces.antt =====
-- Cutting a text into pieces: `split`, `split_once`, `split_at_checked`, `join`, the trims of a
-- text that is ASCII, and the comparisons that ignore the case of ASCII letters.
use Prim.Native.Nat.{ℕ, suc, ◌+◌, ◌≤◌}
use mathlib.Core.Path.{◌≡◌, refl}
use mathlib.Core.Logic.{inl, inr}
use mathlib.Core.Bool.{Bool, false, ◌&&◌, ◌||◌}
use mathlib.Core.List.{List, [], ◌∷◌, ◌++◌, map}
use mathlib.Core.Option.{Option, none, some}
use native.Mathlib.Omega.{arith}
use g2way.Common.Tests.{◌==◌, leb, if◌then◌else◌, ==_iff, Option-cases}
use g2way.Common.Lists.{length, length-append, is_empty, take, drop, any}
use g2way.Common.Strings.{Text, text_eq}

-- `split_once(c)`: what stands before and behind the first `c`.
unfoldable pub split_once : ℕ → Text → Option (Text × Text)
split_once c [] = none
split_once c (x ∷ t) =
    let rest = split_once c t in
    if x == c then some ([], t) else elim rest [ none ↦ none | some (a, b) ↦ some (x ∷ a, b) ]

abbrev pub has : ℕ → Text → Bool
has c t = any (λ x. x == c) t

pub split_once-append :
    (c : ℕ) (a b : Text) → has c a ≡ false → split_once c (a ++ (c ∷ b)) ≡ some (a, b)
unfolding split_once
split_once-append c [] b h = ground (arith, ==_iff c c)
split_once-append c (x ∷ a) b h = ground (arith, split_once-append c a b)

pub append-split_once :
    (c : ℕ) (t a b : Text) → split_once c t ≡ some (a, b) → (t ≡ a ++ (c ∷ b)) × (has c a ≡ false)
unfolding split_once
append-split_once c [] a b h = cc
append-split_once c (x ∷ t) a b h = elim (Option-cases (split_once c t)) [
  | inl e ↦ let e' = e in let h' = h in ground arith
  | inr ((a', b'), e) ↦ ground (arith, append-split_once c t a' b' e)
]

pub length-split_once :
    (c : ℕ) (t a b : Text) → split_once c t ≡ some (a, b) → length t ≡ length a + suc (length b)
length-split_once c t a b h = rw (append-split_once c t a b h).0 (length-append a (c ∷ b))

-- `split(c)`: at least one piece.
abbrev pub first_piece : ℕ → Text → Text × List Text
first_piece c [] = ([], [])
first_piece c (x ∷ t) =
    let (piece, more) = first_piece c t in if x == c then ([], piece ∷ more) else (x ∷ piece, more)

abbrev pub split : ℕ → Text → List Text
split c t = let (piece, more) = first_piece c t in piece ∷ more

-- White space of an ASCII text, the trims and the words between white space.
abbrev pub is_space : ℕ → Bool
is_space c = (leb 9 c && leb c 13) || c == 32

abbrev pub trim_start : Text → Text
trim_start [] = []
trim_start (c ∷ t) = let rest = trim_start t in if is_space c then rest else c ∷ t

abbrev pub trim_end : Text → Text
trim_end [] = []
trim_end (c ∷ t) = let rest = trim_end t in if is_empty rest && is_space c then [] else c ∷ rest

abbrev pub trim : Text → Text
trim t = trim_end (trim_start t)

pub length-trim_start-le : (t : Text) → length (trim_start t) ≤ length t
length-trim_start-le [] = omega arith
length-trim_start-le (c ∷ t) = ground (arith, length-trim_start-le t)

abbrev pub first_word : Text → Text × List Text
first_word [] = ([], [])
first_word (c ∷ t) =
    let (word, more) = first_word t in
    if is_space c then ([], if is_empty word then more else word ∷ more) else (c ∷ word, more)

abbrev pub split_whitespace : Text → List Text
split_whitespace t = let (word, more) = first_word t in if is_empty word then more else word ∷ more

-- `split_at_checked(n)` of an ASCII text.
abbrev pub split_at_checked : ℕ → Text → Option (Text × Text)
split_at_checked n t = if leb n (length t) then some (take n t, drop n t) else none

abbrev pub to_lower : ℕ → ℕ
to_lower c = if leb 65 c && leb c 90 then c + 32 else c

abbrev pub to_ascii_lowercase : Text → Text
to_ascii_lowercase t = map to_lower t

abbrev pub eq_ignore_ascii_case : Text → Text → Bool
eq_ignore_ascii_case s t = text_eq (to_ascii_lowercase s) (to_ascii_lowercase t)

abbrev pub join : Text → List Text → Text
join sep [] = []
join sep (t ∷ []) = t
join sep (t ∷ u ∷ ts) = t ++ (sep ++ join sep (u ∷ ts))

module _ {A B : Type 0} where
  abbrev pub filter_map : (A → Option B) → List A → List B
  filter_map f [] = []
  filter_map f (x ∷ xs) =
      let rest = filter_map f xs in elim (f x) [ none ↦ rest | some y ↦ y ∷ rest ]

  abbrev pub flat_map : (A → List B) → List A → List B
  flat_map f [] = []
  flat_map f (x ∷ xs) = f x ++ flat_map f xs

  -- `Iterator::find_map`.
  abbrev pub find_map : (A → Option B) → List A → Option B
  find_map f [] = none
  find_map f (x ∷ xs) = let rest = find_map f xs in elim (f x) [ none ↦ rest | some y ↦ some y ]

  -- `Option::and_then`.
  abbrev pub and_then : Option A → (A → Option B) → Option B
  and_then none f = none
  and_then (some a) f = f a

  pub and_then-some :
      (o : Option A) (f : A → Option B) (b : B)
      → and_then o f ≡ some b
      → (a : A) × (o ≡ some a) × (f a ≡ some b)
  and_then-some none f b h = cc
  and_then-some (some a) f b h = (a, refl, h)
