-- ===== src/Common/Trims.antt =====
-- The pieces of a text that was put together: what trims, words and splits make of it.
use mathlib.Core.Path.{◌≡◌, refl, ap}
use mathlib.Core.Bool.{Bool, true, false, not}
use mathlib.Core.List.{List, [], ◌∷◌, ◌++◌}
use mathlib.Core.Option.{some}
use native.Mathlib.Omega.{arith}
use g2way.Common.Lists.{
  length, length-append, is_empty, any, All, take-append_length, drop-append_length,
}
use g2way.Common.Strings.{Text}
use g2way.Common.Pieces.{
  is_space, trim_start, trim_end, first_word, split_whitespace, split_at_checked, join,
}

-- The first byte is there and no white space; likewise the last.
abbrev pub starts_plain : Text → Bool
starts_plain [] = false
starts_plain (c ∷ t) = not (is_space c)

abbrev pub ends_plain : Text → Bool
ends_plain [] = false
ends_plain (c ∷ []) = not (is_space c)
ends_plain (c ∷ d ∷ t) = ends_plain (d ∷ t)

pub trim_start_all : (t : Text) → starts_plain t ≡ true → trim_start t ≡ t
trim_start_all [] h = refl
trim_start_all (c ∷ t) h = ground arith

pub trim_end-plain : (t : Text) → ends_plain t ≡ true → trim_end t ≡ t
trim_end-plain [] h = cc
trim_end-plain (c ∷ []) h = ground arith
trim_end-plain (c ∷ d ∷ t) h = ground (arith, trim_end-plain (d ∷ t) h)

pub ends_plain-append : (t u : Text) → ends_plain u ≡ true → ends_plain (t ++ u) ≡ true
ends_plain-append [] u h = h
ends_plain-append (c ∷ []) [] h = cc
ends_plain-append (c ∷ []) (d ∷ u) h = h
ends_plain-append (c ∷ d ∷ t) u h = ends_plain-append (d ∷ t) u h

pub split_at_checked-append : (t u : Text) → split_at_checked (length t) (t ++ u) ≡ some (t, u)
split_at_checked-append t u =
    ground (arith, length-append t u, take-append_length t u, drop-append_length t u)

-- A word has a byte and no white space.
abbrev pub IsWord : Text → Type 0
IsWord t = (any is_space t ≡ false) × (is_empty t ≡ false)

first_word-append :
    (t u : Text) → any is_space t ≡ false → first_word (t ++ (32 ∷ u)) ≡ (t, split_whitespace u)
first_word-append [] u h = refl
first_word-append (c ∷ t) u h = ground (arith, first_word-append t u)

first_word-all : (t : Text) → any is_space t ≡ false → first_word t ≡ (t, [])
first_word-all [] h = refl
first_word-all (c ∷ t) h = ground (arith, first_word-all t)

pub split_whitespace-join :
    (ts : List Text) → All IsWord ts → split_whitespace (join (32 ∷ []) ts) ≡ ts
split_whitespace-join [] h = refl
split_whitespace-join (t ∷ []) (w, h) = rw (first_word-all t w.0, w.1) refl
split_whitespace-join (t ∷ u ∷ ts) (w, h) =
    rw (first_word-append t (join (32 ∷ []) (u ∷ ts)) w.0, w.1)
      (ap (λ rest. t ∷ rest) (split_whitespace-join (u ∷ ts) h))
