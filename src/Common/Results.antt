-- ===== src/Common/Results.antt =====
-- `Result`, the `?` operator and the guard clauses that return early.
use mathlib.Core.Path.{◌≡◌, refl}
use mathlib.Core.Bool.{Bool, true, false}
use mathlib.Core.List.{List, [], ◌∷◌}
use mathlib.Core.Option.{Option, none, some}
use native.Mathlib.Omega.{arith}

pub data Result (T E : Type 0) : Type 0 where
  err : E → Result T E
  ok : T → Result T E

-- `if bad { return Err(reason) }`.
abbrev pub fail_if : {E : Type 0} → Bool → E → Result (Unit {0}) E
fail_if bad reason = elim bad [ false ↦ ok tt | true ↦ err reason ]

-- `let t = r?; next(t)`.
abbrev pub ◌>>=◌ : {T U E : Type 0} → Result T E → (T → Result U E) → Result U E
err reason >>= next = err reason
ok t >>= next = next t

abbrev pub ◌>>◌ : {U E : Type 0} → Result (Unit {0}) E → Result U E → Result U E
err reason >> next = err reason
ok done >> next = next

infixl 5 ◌>>=◌ ◌>>◌
-- `iter().map(f).collect::<Result<Vec<_>, _>>()`: the first error, or all the results.
abbrev pub collect : {A T E : Type 0} → (A → Result T E) → List A → Result (List T) E
collect f [] = ok []
collect f (x ∷ xs) = let rest = collect f xs in f x >>= λ t. rest >>= λ ts. ok (t ∷ ts)

pub collect_cons :
    {A T E : Type 0} (f : A → Result T E) (x : A) (xs : List A) (ys : List T)
    → collect f (x ∷ xs) ≡ ok ys
    → (y : T) × (rest : List T) × (f x ≡ ok y) × (collect f xs ≡ ok rest) × (ys ≡ y ∷ rest)
collect_cons {T = T} {E = E} f x xs ys e = go (f x) (collect f xs) refl refl
  where
    go :
        (one : Result T E) (more : Result (List T) E)
        → f x ≡ one
        → collect f xs ≡ more
        → (y : T) × (rest : List T) × (f x ≡ ok y) × (collect f xs ≡ ok rest) × (ys ≡ y ∷ rest)
    go (err r) more a b = let stuck = rw a at e in cc
    go (ok y) (err r) a b = let stuck = rw (a, b) at e in cc
    go (ok y) (ok rest) a b = let same = rw (a, b) at e in (y, rest, a, b, ground arith)

-- Each step of a chain that ends well has ended well.
pub >>=-ok :
    {T U E : Type 0} (r : Result T E) (k : T → Result U E) (u : U)
    → (r >>= k) ≡ ok u
    → (t : T) × (r ≡ ok t) × (k t ≡ ok u)
>>=-ok (err e) k u h = cc
>>=-ok (ok t) k u h = (t, refl, h)

abbrev done : {T E : Type 0} → T → Result T E
done t = ok t

pub ok_injective : {T E : Type 0} {a b : T} → done {E = E} a ≡ done b → a ≡ b
ok_injective h = ground arith

-- `Option::ok_or`.
abbrev pub ok_or : {T E : Type 0} → Option T → E → Result T E
ok_or none e = err e
ok_or (some t) e = ok t

pub ok_or_ok : {T E : Type 0} (o : Option T) (e : E) (t : T) → ok_or o e ≡ ok t → o ≡ some t
ok_or_ok none e t h = cc
ok_or_ok (some s) e t h = let same = ok_injective h in cc
