-- ===== src/Middleware/Auth/Signature/Tests.antt =====
-- The `Signature` header of hmac.rs at concrete inputs.
use g2way.Common.{
  ◌≡◌, refl, ℕ, ◌≤◌, [], ◌∷◌, ◌++◌, Option, none, some, Text, codes, length, text_eq, split_once,
}
use g2way.Middleware.Auth.Signature.{
  Slots, no_slots, take_param, fill, parse_loop, percent_bytes, percent_decode, finish,
  parse_signature_header, signing_line, build_signing_string,
}
use g2way.Middleware.Auth.Signature.Loop.{parse_loop_total}
use g2way.Middleware.Auth.Signature.Print.{printed, signed, parse_signature_header-signed}

runs : Unit {0}
unfolding no_slots take_param fill parse_loop percent_bytes percent_decode finish
    parse_signature_header signing_line build_signing_string text_eq split_once
runs = tt

abbrev whole : Text → Option Text
whole t = some t

spaced_header :
    parse_signature_header whole whole
      (codes "signature  keyId = \"id\" , algorithm=\"hmac-sha256\",x=\"y\",signature=\"a%2b\"")
    ≡ none
unfolding runs
spaced_header = refl

default_headers :
    parse_signature_header whole whole
      (codes "signature keyId =\"id\" , algorithm=\"hmac-sha256\",x=\"y\",signature=\"a%2b\"")
    ≡ some (record {
      key_id = codes "id";
      algorithm = codes "hmac-sha256";
      headers = codes "date" ∷ [];
      signature = codes "a+";
    })
unfolding runs
default_headers = refl

-- A plus sign before one digit counts as a byte.
plus_sign : percent_decode whole whole (codes "%+F") ≡ some (15 ∷ [])
unfolding runs
plus_sign = refl

duplicate : parse_signature_header whole whole (codes "Signature keyId=\"a\",keyId=\"b\"") ≡ none
unfolding runs
duplicate = refl

signing_string :
    build_signing_string whole
      (codes "GET")
      (codes "/a?b")
      ((codes "date", codes " now ") ∷ (codes "x", codes "1") ∷ (codes "x", codes "2") ∷ [])
      (codes "(request-target)" ∷ codes "date" ∷ codes "x" ∷ [])
    ≡ some (codes "get /a?b" ++ (10 ∷ codes "date: now") ++ (10 ∷ codes "x: 1, 2"))
unfolding runs
signing_string = refl

abbrev written : Text
written = codes "keyId=\"id\",signature=\"k\""

parse_loop_total_example :
    (r : Option Slots) × ((fuel : ℕ)
      → length written ≤ fuel
      → parse_loop fuel no_slots written ≡ some r)
parse_loop_total_example = parse_loop_total no_slots written

parse_signature_header-signed_example :
    parse_signature_header whole whole (
      codes "Signature "
      ++ printed (
          signed
            (codes "id")
            (codes "hmac-sha256")
            (codes "date" ∷ codes "host" ∷ [])
            (codes "a+/=")))
    ≡ some (record {
      key_id = codes "id";
      algorithm = codes "hmac-sha256";
      headers = codes "date" ∷ codes "host" ∷ [];
      signature = codes "a+/=";
    })
parse_signature_header-signed_example =
    parse_signature_header-signed whole whole (codes "id") (codes "hmac-sha256")
      (codes "date" ∷ codes "host" ∷ []) (codes "a+/=") (codes "a+/=") (refl, refl) (refl, refl)
      (((refl, refl), refl, refl), (((refl, refl), refl, refl), tt)) refl refl refl refl
