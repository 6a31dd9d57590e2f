-- ===== src/Middleware/Auth/Signature/Print.antt =====
-- What hmac.rs makes of a `Signature` header that a client wrote down.
use g2way.Common.{
  ◌≡◌, refl, ap, ◌∙◌, ℕ, ◌≤◌, true, false, List, [], ◌∷◌, ◌++◌, map, Option, none, some, Text,
  codes, arith, All, All-map, if◌then◌else◌, length, is_empty, text_eq, split_once-append, has,
  starts_plain, ends_plain, trim_start, split_at_checked, trim_start_all, trim_end-plain,
  ends_plain-append, split_at_checked-append, IsWord, split_whitespace-join, join, trim,
  to_ascii_lowercase, and_then, Option-cases, inl, inr,
}
use g2way.Middleware.Auth.Signature.{
  Slots, no_slots, next_param, take_param, fill, parse_loop, finish, parse_params, behind_scheme,
  parse_signature_header, out_of_fuel, header_names, filled,
}
use g2way.Middleware.Auth.Signature.Loop.{parse_loop-duplicate, parse_loop-next}

abbrev Params : Type 0
Params = List (Text × Text)

-- `name="value"` pairs with commas between them.
pub printed : Params → Text
printed [] = []
printed ((n, v) ∷ []) = n ++ (61 ∷ 34 ∷ (v ++ (34 ∷ [])))
printed ((n, v) ∷ p ∷ ps) = let rest = printed (p ∷ ps) in n ++ (61 ∷ 34 ∷ (v ++ (34 ∷ 44 ∷ rest)))

-- What the loop should make of them: each fills its slot, and a duplicate is a failure.
pub fill_all : Params → Slots → Option Slots
fill_all [] slots = some slots
fill_all ((n, v) ∷ ps) slots = and_then (fill n v slots) (λ slots'. fill_all ps slots')

-- A name without `=` or white space around it, and a value without a quote.
abbrev pub IsPlain : Text × Text → Type 0
IsPlain (n, v) = (starts_plain n ≡ true) × (trim n ≡ n) × (has 61 n ≡ false) × (has 34 v ≡ false)

take_param-printed :
    (n v tail rest : Text)
    → IsPlain (n, v)
    → next_param (trim_start tail) ≡ some rest
    → take_param (n ++ (61 ∷ 34 ∷ (v ++ (34 ∷ tail)))) ≡ some (n, v, rest)
unfolding take_param
take_param-printed n v tail rest (starts, trimmed, no_eq, no_quote) e =
    rw
      (
        split_once-append 61 n (34 ∷ (v ++ (34 ∷ tail))) no_eq,
        split_once-append 34 v tail no_quote,
        e,
        trimmed,
      )
      refl

starts_plain-printed :
    (p : Text × Text) (ps : Params) → IsPlain p → starts_plain (printed (p ∷ ps)) ≡ true
unfolding printed
starts_plain-printed ([], v) ps h = cc (h.0)
starts_plain-printed (c ∷ n, v) [] h = h.0
starts_plain-printed (c ∷ n, v) (p ∷ ps) h = h.0

-- One round of the loop on a text whose first parameter is known.
parse_loop-round :
    (n v : Text) (ps : Params) (slots : Slots) (t rest : Text)
    → starts_plain t ≡ true
    → take_param t ≡ some (n, v, rest)
    → ((slots' : Slots) (fuel : ℕ)
        → length rest ≤ fuel
        → parse_loop fuel slots' rest ≡ some (fill_all ps slots'))
    → (fuel : ℕ) → length t ≤ fuel
    → parse_loop fuel slots t ≡ some (fill_all ((n, v) ∷ ps) slots)
unfolding fill_all
parse_loop-round n v ps slots [] rest s e next = cc
parse_loop-round n v ps slots (c ∷ t) rest s e next = elim (Option-cases (fill n v slots)) [
  | inl f ↦ rw (f, fill_all) (parse_loop-duplicate slots c t n v rest e f)
  | inr (slots', f) ↦
      rw (f, fill_all)
        (parse_loop-next slots c t n v rest slots' (fill_all ps slots') e f (next slots'))
]

parse_loop-printed :
    (ps : Params) (slots : Slots)
    → All IsPlain ps
    → (fuel : ℕ) → length (printed ps) ≤ fuel
    → parse_loop fuel slots (printed ps) ≡ some (fill_all ps slots)
unfolding printed fill_all parse_loop
parse_loop-printed [] slots h = λ fuel enough. refl
parse_loop-printed ((n, v) ∷ []) slots (h, hs) =
    parse_loop-round n v [] slots (printed ((n, v) ∷ [])) [] (starts_plain-printed (n, v) [] h)
      (take_param-printed n v [] [] h refl) (λ slots'. parse_loop-printed [] slots' tt)
parse_loop-printed ((n, v) ∷ p ∷ ps) slots (h, hs) =
    let rest = printed (p ∷ ps) in
    let plain : trim_start rest ≡ rest = trim_start_all rest (starts_plain-printed p ps hs.0) in
    parse_loop-round n v (p ∷ ps) slots (printed ((n, v) ∷ p ∷ ps)) rest
      (starts_plain-printed (n, v) (p ∷ ps) h)
      (take_param-printed n v (44 ∷ rest) rest h (ap some plain))
      (λ slots'. parse_loop-printed (p ∷ ps) slots' hs)

ends_plain-printed : (p : Text × Text) (ps : Params) → ends_plain (printed (p ∷ ps)) ≡ true
unfolding printed
ends_plain-printed (n, v) [] =
    ends_plain-append n _ (ends_plain-append (61 ∷ 34 ∷ v) (34 ∷ []) refl)
ends_plain-printed (n, v) (p ∷ ps) = ends_plain-append n _ (
    ends_plain-append (61 ∷ 34 ∷ v) _
      (ends_plain-append (34 ∷ 44 ∷ []) (printed (p ∷ ps)) (ends_plain-printed p ps)))

abbrev scheme : Text
scheme = codes "Signature "

-- A `Signature` header whose parameters are written out, in any order and with any further ones, is
-- read as what fills the four slots one parameter after the other, a duplicate being a failure,
-- and what the checks behind the loop make of them.
pub parse_signature_header-printed :
    (decode from_utf8 : Text → Option Text) (p : Text × Text) (ps : Params)
    → All IsPlain (p ∷ ps)
    → parse_signature_header decode from_utf8 (codes "Signature " ++ printed (p ∷ ps))
      ≡ and_then (fill_all (p ∷ ps) no_slots) (finish decode from_utf8)
unfolding parse_signature_header text_eq
parse_signature_header-printed decode from_utf8 p ps h =
    let t = printed (p ∷ ps) in
    let a : trim (scheme ++ t) ≡ scheme ++ t =
      trim_end-plain (scheme ++ t) (ends_plain-append scheme t (ends_plain-printed p ps)) in
    let b = split_at_checked-append scheme t in
    let c = trim_start_all t (starts_plain-printed p ps h.0) in
    let d = parse_loop-printed (p ∷ ps) no_slots h (length t) (omega arith) in
    ap (λ v. behind_scheme decode from_utf8 (split_at_checked 10 v)) a
    ∙ ap (behind_scheme decode from_utf8) b
    ∙ ap (parse_params decode from_utf8) c
    ∙ ap (λ r. and_then (out_of_fuel r) (finish decode from_utf8)) d

-- A text that can stand between quotes and is not empty, and a header's name in lower case.
abbrev pub IsQuotable : Text → Type 0
IsQuotable t = (is_empty t ≡ false) × (has 34 t ≡ false)

abbrev pub IsHeaderName : Text → Type 0
IsHeaderName t = IsWord t × (has 34 t ≡ false) × (to_ascii_lowercase t ≡ t)

has-append : (c : ℕ) (t u : Text) → has c t ≡ false → has c u ≡ false → has c (t ++ u) ≡ false
has-append c [] u h k = k
has-append c (x ∷ t) u h k = ground (arith, has-append c t u)

has-join : (names : List Text) → All IsHeaderName names → has 34 (join (32 ∷ []) names) ≡ false
has-join [] h = refl
has-join (t ∷ []) (n, h) = n.1
has-join (t ∷ u ∷ ts) (n, h) = has-append 34 t _ n.1 (has-join (u ∷ ts) h)

map-lower : (names : List Text) → All IsHeaderName names → map to_ascii_lowercase names ≡ names
map-lower [] h = refl
map-lower (t ∷ ts) (n, h) = rw (n.2, map-lower ts h) refl

header_names-join :
    (names : List Text)
    → All IsHeaderName names
    → is_empty names ≡ false
    → header_names (some (join (32 ∷ []) names)) ≡ some names
header_names-join [] h e = cc
header_names-join (t ∷ ts) h e =
    ap
      (λ words.
        if is_empty (map to_ascii_lowercase words)
        then none
        else some (map to_ascii_lowercase words))
      (split_whitespace-join (t ∷ ts) (All-map IsHeaderName IsWord (λ u n. n.0) (t ∷ ts) h))
    ∙ ap some (map-lower (t ∷ ts) h)

-- The header that the draft has a client write.
abbrev further : Text → List Text → Text → Params
further algorithm names base64 =
    (codes "algorithm", algorithm)
    ∷ (codes "headers", join (32 ∷ []) names)
    ∷ (codes "signature", base64)
    ∷ []

abbrev pub signed : Text → Text → List Text → Text → Params
signed key_id algorithm names base64 = (codes "keyId", key_id) ∷ further algorithm names base64

-- A `Signature` header with a key id, an algorithm, the names of the signed headers in lower case
-- and a signature in base64 is read back as these four.
pub parse_signature_header-signed :
    (decode from_utf8 : Text → Option Text) (key_id algorithm : Text) (names : List Text)
    (base64 signature : Text)
    → IsQuotable key_id
    → IsQuotable algorithm
    → All IsHeaderName names
    → is_empty names ≡ false
    → has 34 base64 ≡ false
    → has 37 base64 ≡ false
    → decode base64 ≡ some signature
    → parse_signature_header decode from_utf8
        (codes "Signature " ++ printed (signed key_id algorithm names base64))
      ≡ some (record {
        key_id = key_id;
        algorithm = algorithm;
        headers = names;
        signature = signature;
      })
unfolding fill_all fill finish text_eq no_slots
parse_signature_header-signed decode from_utf8 key_id algorithm names base64 signature k a n some_
      quote percent e =
    parse_signature_header-printed decode from_utf8 (codes "keyId", key_id)
      (further algorithm names base64)
      (
        (refl, refl, refl, k.1),
        (
          (refl, refl, refl, a.1),
          ((refl, refl, refl, has-join names n), ((refl, refl, refl, quote), tt)),
        ),
      )
    ∙ rw
        (
          filled_all key_id k.0,
          filled_all algorithm a.0,
          header_names-join names n some_,
          percent,
          e,
        )
        refl
  where
    filled_all : (t : Text) → is_empty t ≡ false → filled (some t) ≡ some t
    filled_all [] h = cc
    filled_all (c ∷ t) h = refl
