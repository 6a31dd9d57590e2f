-- ===== src/Middleware/Auth/Signature.antt =====
-- crates/g2-middleware/src/hmac.rs: the `Signature` header and the string that it signs.
--
-- Base64, the check of UTF-8 and `HeaderValue::to_str` are parameters. The text is ASCII, as
-- `to_str` lets through. The loop over the parameters has the length of the text as fuel.
pub mod Loop
pub mod Print
pub mod Tests
use g2way.Common.{
  ℕ, suc, zero, ◌+◌, ◌*◌, ◌-◌, Bool, true, false, not, ◌&&◌, List, [], ◌∷◌, ◌++◌, map, Option, none,
  some, Text, codes, leb, ◌==◌, if◌then◌else◌, length, is_empty, text_eq, HeaderMap, get_all,
  split_once, has, split_at_checked, split_whitespace, join, trim_start, trim, to_ascii_lowercase,
  eq_ignore_ascii_case, and_then,
}

pub record SignatureParams : Type 0 where
  pub key_id : Text
  pub algorithm : Text
  pub headers : List Text
  pub signature : Text

-- The four variables that the loop fills.
pub record Slots : Type 0 where
  pub key_id : Option Text
  pub algorithm : Option Text
  pub headers : Option Text
  pub signature : Option Text

unfoldable pub no_slots : Slots
no_slots = record { key_id = none; algorithm = none; headers = none; signature = none }

-- What follows a parameter: a comma and the next one, or the end.
abbrev pub next_param : Text → Option Text
next_param [] = some []
next_param (c ∷ t) = if c == 44 then some (trim_start t) else none

abbrev pub strip_quote : Text → Option Text
strip_quote [] = none
strip_quote (c ∷ t) = if c == 34 then some t else none

-- One `name="value"` off the front: the name, the value and the rest.
unfoldable pub take_param : Text → Option (Text × Text × Text)
unfolding split_once
take_param rest = and_then (split_once 61 rest) λ (name, behind).
    and_then (strip_quote behind) λ after. and_then (split_once 34 after) λ (value, tail).
      and_then (next_param (trim_start tail)) λ rest'. some (trim name, value, rest')

-- `slot.replace(value)`, where a slot that is taken is a failure.
abbrev pub replace : Option Text → Text → (Option Text → Slots) → Option Slots
replace none value put = some (put (some value))
replace (some t) value put = none

unfoldable pub fill : Text → Text → Slots → Option Slots
unfolding text_eq
fill name value slots =
    if text_eq name (codes "keyId")
    then replace slots.key_id value (λ v. record slots { key_id = v })
    else if text_eq name (codes "algorithm")
    then replace slots.algorithm value (λ v. record slots { algorithm = v })
    else if text_eq name (codes "headers")
    then replace slots.headers value (λ v. record slots { headers = v })
    else if text_eq name (codes "signature")
    then replace slots.signature value (λ v. record slots { signature = v })
    else some slots

-- The loop: `none` is out of fuel, `some none` a header that is malformed.
unfoldable pub parse_loop : ℕ → Slots → Text → Option (Option Slots)
parse_loop fuel slots [] = some (some slots)
parse_loop zero slots (c ∷ t) = none
parse_loop (suc fuel) slots (c ∷ t) = elim (take_param (c ∷ t)) [
  | none ↦ some none
  | some (name, value, rest) ↦ elim (fill name value slots) [
    | none ↦ some none
    | some slots' ↦ parse_loop fuel slots' rest
  ]
]

-- `u8::from_str_radix(hex, 16)` of two bytes, which takes a plus sign before a single digit.
abbrev pub hex_digit : ℕ → Option ℕ
hex_digit c =
    if leb 48 c && leb c 57
    then some (c - 48)
    else if leb 97 c && leb c 102
    then some (c - 87)
    else if leb 65 c && leb c 70
    then some (c - 55)
    else none

abbrev pub hex_byte : ℕ → ℕ → Option ℕ
hex_byte h l =
    and_then (hex_digit l)
      λ lo. if h == 43 then some lo else and_then (hex_digit h) λ hi. some (hi * 16 + lo)

unfoldable pub percent_bytes : Text → Option Text
percent_bytes [] = some []
percent_bytes (c ∷ []) = if c == 37 then none else some (c ∷ [])
percent_bytes (c ∷ d ∷ []) =
    let rest = percent_bytes (d ∷ []) in
    if c == 37 then none else and_then rest λ out. some (c ∷ out)
percent_bytes (c ∷ h ∷ l ∷ t) =
    let behind = percent_bytes t in
    let rest = percent_bytes (h ∷ l ∷ t) in
    if c == 37
    then (and_then (hex_byte h l) λ b. and_then behind λ out. some (b ∷ out))
    else and_then rest λ out. some (c ∷ out)

abbrev pub filled : Option Text → Option Text
filled none = none
filled (some t) = if is_empty t then none else some t

abbrev pub header_names : Option Text → Option (List Text)
header_names none = some (codes "date" ∷ [])
header_names (some list) =
    let names = map to_ascii_lowercase (split_whitespace list) in
    if is_empty names then none else some names

abbrev pub out_of_fuel : Option (Option Slots) → Option Slots
out_of_fuel none = none
out_of_fuel (some result) = result

module _ (decode from_utf8 : Text → Option Text) where
  unfoldable pub percent_decode : Text → Option Text
  unfolding percent_bytes
  percent_decode value = and_then (percent_bytes value) from_utf8

  -- The checks behind the loop.
  unfoldable pub finish : Slots → Option SignatureParams
  unfolding percent_decode
  finish slots = and_then (filled slots.key_id) λ key_id.
      and_then (filled slots.algorithm) λ algorithm.
        and_then (header_names slots.headers) λ headers. and_then slots.signature λ signature.
          and_then (if has 37 signature then percent_decode signature else some signature) λ base64.
            and_then (decode base64) λ bytes. some (record {
              key_id = key_id;
              algorithm = algorithm;
              headers = headers;
              signature = bytes;
            })

  abbrev pub parse_params : Text → Option SignatureParams
  parse_params rest = and_then (out_of_fuel (parse_loop (length rest) no_slots rest)) finish

  abbrev pub behind_scheme : Option (Text × Text) → Option SignatureParams
  behind_scheme none = none
  behind_scheme (some (scheme, rest)) =
      if eq_ignore_ascii_case scheme (codes "signature ")
      then parse_params (trim_start rest)
      else none

  unfoldable pub parse_signature_header : Text → Option SignatureParams
  parse_signature_header value = behind_scheme (split_at_checked 10 (trim value))

-- `(request-target)` is the line of the request; any other name is a header, its values joined.
abbrev pub all_some : List (Option Text) → Option (List Text)
all_some [] = some []
all_some (o ∷ os) = let rest = all_some os in and_then o λ t. and_then rest λ ts. some (t ∷ ts)

module _ (to_str : Text → Option Text) (method path_and_query : Text) (headers : HeaderMap) where
  unfoldable pub signing_line : Text → Option Text
  unfolding text_eq
  signing_line name =
      if text_eq name (codes "(request-target)")
      then some (to_ascii_lowercase method ++ (32 ∷ path_and_query))
      else and_then
          (all_some (
            map (λ raw. and_then (to_str raw) λ value. some (trim value))
              (get_all (to_ascii_lowercase name) headers)))
          λ values.
            if is_empty values
            then none
            else some (name ++ (codes ": " ++ join (codes ", ") values))

  unfoldable pub build_signing_string : List Text → Option Text
  unfolding signing_line
  build_signing_string names =
      and_then (all_some (map signing_line names)) λ lines. some (join (10 ∷ []) lines)
