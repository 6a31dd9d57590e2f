-- ===== src/Middleware/Auth/Signature/Loop.antt =====
-- The loop of hmac.rs over the parameters of a `Signature` header ends.
use g2way.Common.{
  ◌≡◌, refl, ap, ℕ, zero, suc, ◌≤◌, ◌<◌, [], ◌∷◌, Option, none, some, Text, arith, length,
  split_once, length-split_once, length-trim_start-le, trim_start, and_then-some, Option-cases, inl,
  inr,
}
use g2way.Middleware.Auth.Signature.{Slots, next_param, strip_quote, take_param, fill, parse_loop}

length-next_param-le : (t r : Text) → next_param t ≡ some r → length r ≤ length t
length-next_param-le [] r h = ground arith
length-next_param-le (c ∷ t) r h = ground (arith, length-trim_start-le t)

length-strip_quote : (t r : Text) → strip_quote t ≡ some r → length t ≡ suc (length r)
length-strip_quote [] r h = cc
length-strip_quote (c ∷ t) r h = ground arith

pub length-take_param-lt :
    (t name value r : Text) → take_param t ≡ some (name, value, r) → length r < length t
unfolding take_param
length-take_param-lt t name value r h =
    let ((raw, behind), e1, h1) = and_then-some (split_once 61 t) _ _ h in
    let (after, e2, h2) = and_then-some (strip_quote behind) _ _ h1 in
    let ((v, tail), e3, h3) = and_then-some (split_once 34 after) _ _ h2 in
    let (rest, e4, h4) = and_then-some (next_param (trim_start tail)) _ _ h3 in
    let same : rest ≡ r = ground arith in
    let l1 = length-split_once 61 t raw behind e1 in
    let l2 = length-strip_quote behind after e2 in
    let l3 = length-split_once 34 after v tail e3 in
    let l4 = length-next_param-le (trim_start tail) rest e4 in
    let l5 = length-trim_start-le tail in
    let l6 : length rest ≡ length r = ap length same in omega (arith, l1, l2, l3, l4, l5, l6)

-- One round, by what becomes of it.
module _ (slots : Slots) (c : ℕ) (t : Text) where
  pub parse_loop-malformed :
      take_param (c ∷ t) ≡ none
      → (fuel : ℕ) → length (c ∷ t) ≤ fuel
      → parse_loop fuel slots (c ∷ t) ≡ some none
  unfolding parse_loop
  parse_loop-malformed e zero h = absurd (omega arith)
  parse_loop-malformed e (suc fuel) h = rw (e, parse_loop) refl

  pub parse_loop-duplicate :
      (name value rest : Text)
      → take_param (c ∷ t) ≡ some (name, value, rest)
      → fill name value slots ≡ none
      → (fuel : ℕ) → length (c ∷ t) ≤ fuel
      → parse_loop fuel slots (c ∷ t) ≡ some none
  unfolding parse_loop
  parse_loop-duplicate name value rest e f zero h = absurd (omega arith)
  parse_loop-duplicate name value rest e f (suc fuel) h = rw (e, f, parse_loop) refl

  pub parse_loop-next :
      (name value rest : Text) (slots' : Slots) (r : Option Slots)
      → take_param (c ∷ t) ≡ some (name, value, rest)
      → fill name value slots ≡ some slots'
      → ((fuel : ℕ) → length rest ≤ fuel → parse_loop fuel slots' rest ≡ some r)
      → (fuel : ℕ) → length (c ∷ t) ≤ fuel
      → parse_loop fuel slots (c ∷ t) ≡ some r
  unfolding parse_loop
  parse_loop-next name value rest slots' r e f ends zero h = absurd (omega arith)
  parse_loop-next name value rest slots' r e f ends (suc fuel) h =
      let shorter = length-take_param-lt (c ∷ t) name value rest e in
      rw (e, f, parse_loop) (ends fuel (omega (arith, shorter)))

-- The loop with the fuel bounded by a number that the induction is on.
parse_loop-bounded :
    (n : ℕ) (slots : Slots) (t : Text)
    → length t ≤ n
    → (r : Option Slots) × ((fuel : ℕ) → length t ≤ fuel → parse_loop fuel slots t ≡ some r)
unfolding parse_loop
parse_loop-bounded n slots [] h = (some slots, λ fuel enough. refl)
parse_loop-bounded zero slots (c ∷ t) h = absurd (omega arith)
parse_loop-bounded (suc n) slots (c ∷ t) h = elim (Option-cases (take_param (c ∷ t))) [
  | inl e ↦ (none, parse_loop-malformed slots c t e)
  | inr ((name, value, rest), e) ↦ elim (Option-cases (fill name value slots)) [
    | inl f ↦ (none, parse_loop-duplicate slots c t name value rest e f)
    | inr (slots', f) ↦
        let shorter = length-take_param-lt (c ∷ t) name value rest e in
        let (r, ends) = parse_loop-bounded n slots' rest (omega (arith, shorter)) in
        (r, parse_loop-next slots c t name value rest slots' r e f ends)
  ]
]

-- The loop over the parameters comes to its end on every text, whatever is in the slots: fuel for
-- each byte of the text is enough, and more fuel changes nothing.
pub parse_loop_total :
    (slots : Slots) (t : Text)
    → (r : Option Slots) × ((fuel : ℕ) → length t ≤ fuel → parse_loop fuel slots t ≡ some r)
parse_loop_total slots t = parse_loop-bounded (length t) slots t (omega arith)
