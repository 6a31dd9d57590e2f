-- ===== src/Common/Maps.antt =====
-- A `HashMap` or `BTreeMap` keyed by text, as an association list.
use mathlib.Core.Path.{◌≡◌, refl}
use mathlib.Core.Bool.{false}
use mathlib.Core.List.{List, [], ◌∷◌}
use mathlib.Core.Option.{Option, none, some}
use native.Mathlib.Omega.{arith}
use g2way.Common.Tests.{if◌then◌else◌}
use g2way.Common.Strings.{Text, text_eq, text_eq_iff}

module _ {ℓ} {V : Type ℓ} where
  unfoldable pub lookup : Text → List (Text × V) → Option V
  lookup k [] = none
  lookup k ((j, v) ∷ m) = if text_eq j k then some v else lookup k m

  unfoldable pub insert : Text → V → List (Text × V) → List (Text × V)
  insert k v [] = (k, v) ∷ []
  insert k v ((j, w) ∷ m) = if text_eq j k then (k, v) ∷ m else (j, w) ∷ insert k v m

  -- Every entry of the key goes, so the removal needs no invariant on the list.
  unfoldable pub remove : Text → List (Text × V) → List (Text × V)
  remove k [] = []
  remove k ((j, w) ∷ m) = if text_eq j k then remove k m else (j, w) ∷ remove k m

  pub lookup-insert :
      (k j : Text) (v : V) (m : List (Text × V))
      → lookup j (insert k v m) ≡ (if text_eq k j then some v else lookup j m)
  unfolding lookup insert
  lookup-insert k j v [] = refl
  lookup-insert k j v ((i, w) ∷ m) =
      ground (arith, text_eq_iff k j, text_eq_iff i k, text_eq_iff i j, lookup-insert k j v m)

  pub lookup-remove :
      (k j : Text) (m : List (Text × V))
      → lookup j (remove k m) ≡ (if text_eq k j then none else lookup j m)
  unfolding lookup remove
  lookup-remove k j [] = ground arith
  lookup-remove k j ((i, w) ∷ m) =
      ground (arith, text_eq_iff k j, text_eq_iff i k, text_eq_iff i j, lookup-remove k j m)

module _ {ℓ} {V : Type ℓ} where
  -- A map whose keys are distinct, as an association list that stands for a `HashMap` is.
  abbrev pub IsAbsent : Text → List (Text × V) → Type 0
  IsAbsent k [] = Unit
  IsAbsent k ((j, v) ∷ m) = (text_eq j k ≡ false) × IsAbsent k m

  abbrev pub IsMap : List (Text × V) → Type 0
  IsMap [] = Unit
  IsMap ((k, v) ∷ m) = IsAbsent k m × IsMap m

  insert-IsAbsent :
      (k j : Text) (v : V) (m : List (Text × V))
      → text_eq k j ≡ false
      → IsAbsent j m
      → IsAbsent j (insert k v m)
  unfolding insert
  insert-IsAbsent k j v [] e h = (e, tt)
  insert-IsAbsent k j v ((i, w) ∷ m) e (h, hs) = ground (arith, insert-IsAbsent k j v m e hs)

  pub insert-IsMap : (k : Text) (v : V) (m : List (Text × V)) → IsMap m → IsMap (insert k v m)
  unfolding insert
  insert-IsMap k v [] h = (tt, tt)
  insert-IsMap k v ((i, w) ∷ m) (h, hs) =
      ground
        (arith, text_eq_iff i k, text_eq_iff k i, insert-IsAbsent k i v m, insert-IsMap k v m hs)

  remove-IsAbsent : (k j : Text) (m : List (Text × V)) → IsAbsent j m → IsAbsent j (remove k m)
  unfolding remove
  remove-IsAbsent k j [] h = tt
  remove-IsAbsent k j ((i, w) ∷ m) (h, hs) = ground (arith, remove-IsAbsent k j m hs)

  pub remove-IsMap : (k : Text) (m : List (Text × V)) → IsMap m → IsMap (remove k m)
  unfolding remove
  remove-IsMap k [] h = tt
  remove-IsMap k ((i, w) ∷ m) (h, hs) = ground (arith, remove-IsAbsent k i m h, remove-IsMap k m hs)

  pub lookup_of_IsAbsent : (k : Text) (m : List (Text × V)) → IsAbsent k m → lookup k m ≡ none
  unfolding lookup
  lookup_of_IsAbsent k [] h = refl
  lookup_of_IsAbsent k ((i, w) ∷ m) (h, hs) = rw h (lookup_of_IsAbsent k m hs)
