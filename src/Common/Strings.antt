-- ===== src/Common/Strings.antt =====
-- Rust strings as lists of bytes: equality, prefixes, and the `str` methods that the gateway calls.
use Prim.Native.Nat.{ℕ}
use Prim.Native.Char.{code}
use Prim.Native.String.{String}
use mathlib.Core.Path.{◌≡◌, refl}
use mathlib.Core.Logic.{◌↔◌}
use mathlib.Core.Bool.{Bool, true, false, ◌&&◌, ◌||◌}
use mathlib.Core.List.{List, [], ◌∷◌, ◌++◌}
use mathlib.Core.Option.{Option, none, some}
use native.Mathlib.Omega.{arith}
use g2way.Common.Tests.{◌==◌, leb, if◌then◌else◌}

abbrev pub Text : Type 0
Text = List ℕ

-- The bytes of an ASCII literal.
abbrev pub codes : String → Text
codes String.[] = []
codes (String.◌∷◌ c s) = code c ∷ codes s

unfoldable pub text_eq : Text → Text → Bool
text_eq [] [] = true
text_eq (x ∷ xs) (y ∷ ys) = x == y && text_eq xs ys
text_eq _ _ = false

pub text_eq_refl : (s : Text) → text_eq s s ≡ true
unfolding text_eq
text_eq_refl [] = refl
text_eq_refl (x ∷ s) = ground (arith, text_eq_refl s)

pub eq_of_text_eq : (s t : Text) → text_eq s t ≡ true → s ≡ t
unfolding text_eq
eq_of_text_eq [] [] h = refl
eq_of_text_eq (x ∷ xs) (y ∷ ys) h = ground (arith, eq_of_text_eq xs ys)
eq_of_text_eq [] (y ∷ ys) h = cc
eq_of_text_eq (x ∷ xs) [] h = cc

pub text_eq_iff : (s t : Text) → (text_eq s t ≡ true) ↔ (s ≡ t)
text_eq_iff s t = (eq_of_text_eq s t, λ e. rw e (text_eq_refl t))

-- `str::strip_prefix`.
unfoldable pub strip_prefix : Text → Text → Option Text
strip_prefix [] s = some s
strip_prefix (x ∷ xs) (y ∷ ys) = if x == y then strip_prefix xs ys else none
strip_prefix (x ∷ xs) [] = none

pub strip_prefix-append : (p s : Text) → strip_prefix p (p ++ s) ≡ some s
unfolding strip_prefix
strip_prefix-append [] s = refl
strip_prefix-append (x ∷ p) s = ground (arith, strip_prefix-append p s)

pub eq_of_strip_prefix : (p s rest : Text) → strip_prefix p s ≡ some rest → s ≡ p ++ rest
unfolding strip_prefix
eq_of_strip_prefix [] s rest h = ground arith
eq_of_strip_prefix (x ∷ p) [] rest h = cc
eq_of_strip_prefix (x ∷ p) (y ∷ s) rest h = ground (arith, eq_of_strip_prefix p s rest)

-- The white space of `char::is_whitespace`, as UTF-8: one, two or three bytes.
abbrev space1 : ℕ → Bool
space1 a = (leb 9 a && leb a 13) || a == 32

abbrev space2 : ℕ → ℕ → Bool
space2 a b = a == 0xc2 && (b == 0x85 || b == 0xa0)

abbrev space3 : ℕ → ℕ → ℕ → Bool
space3 a b c =
    (a == 0xe1 && b == 0x9a && c == 0x80)
    || (a == 0xe2
        && b == 0x80
        && ((leb 0x80 c && leb c 0x8a) || c == 0xa8 || c == 0xa9 || c == 0xaf))
    || (a == 0xe2 && b == 0x81 && c == 0x9f)
    || (a == 0xe3 && b == 0x80 && c == 0x80)

-- `s.trim().is_empty()`.
unfoldable pub is_blank : Text → Bool
is_blank [] = true
is_blank (a ∷ []) = space1 a
is_blank (a ∷ b ∷ []) = (space1 a && space1 b) || space2 a b
is_blank (a ∷ b ∷ c ∷ s) = elim (space1 a) [
  | true ↦ is_blank (b ∷ c ∷ s)
  | false ↦ elim (space2 a b) [
    | true ↦ is_blank (c ∷ s)
    | false ↦ elim (space3 a b c) [ true ↦ is_blank s | false ↦ false ]
  ]
]
