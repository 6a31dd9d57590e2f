-- ===== src/Middleware/Rules/Compiled.antt =====
-- What a compiled rule matches, in terms of the rule as it is configured.
use g2way.Common.{
  ◌≡◌, ◌↔◌, ◌⊎◌, refl, Bool, true, List, [], ◌∷◌, Option, none, some, Text, arith, Any, is_empty,
  text_eq_iff, ok, collect_cons,
}
use g2way.Middleware.Rules.{
  bad_regex, bad_method, to_ascii_uppercase, contains, rule_matches, or_err, read_method,
  compile_regex, compile_methods,
}

pub or_err-eq-ok : {T E : Type 0} (e : E) (o : Option T) (t : T) → or_err e o ≡ ok t → o ≡ some t
or_err-eq-ok e none t h = cc
or_err-eq-ok e (some u) t h = ground arith

module _ {R : Type 0} (regex_new : Text → Option R) (is_match : R → Text → Bool)
    (from_bytes : Text → Option Text) where
  -- The methods of a rule admit a method: there are none, or one of them reads as it.
  abbrev pub Admits : List Text → Text → Type 0
  Admits methods method =
      (is_empty methods ≡ true) ⊎ Any (λ m. from_bytes (to_ascii_uppercase m) ≡ some method) methods

  -- A rule as configured hits a request.
  abbrev pub Hits : (pattern : Text) → (methods : List Text) → (method path : Text) → Type 0
  Hits pattern methods method path =
      Admits methods method
      × ((regex : R) × (regex_new pattern ≡ some regex) × (is_match regex path ≡ true))

  contains_iff :
      (method : Text) (methods compiled : List Text)
      → compile_methods from_bytes methods ≡ ok compiled
      → (contains compiled method ≡ true)
        ↔ Any (λ m. from_bytes (to_ascii_uppercase m) ≡ some method) methods
  contains_iff method [] compiled e =
      let nothing : compiled ≡ [] = ground arith in rw nothing ((λ h. cc), λ h. absurd h)
  contains_iff method (m ∷ methods) compiled e =
      let (x, rest, one, more, same) = collect_cons (read_method from_bytes) m methods compiled e in
      let (to, from) = contains_iff method methods rest more in
      let read = or_err-eq-ok (bad_method m) _ x one in
      rw same (
        λ h. ground (arith, text_eq_iff x method, to),
        λ h. ground (arith, text_eq_iff x method, from),
      )

  is_empty-compiled :
      (methods compiled : List Text)
      → compile_methods from_bytes methods ≡ ok compiled
      → is_empty compiled ≡ is_empty methods
  is_empty-compiled [] compiled e = let nothing : compiled ≡ [] = ground arith in rw nothing refl
  is_empty-compiled (m ∷ methods) compiled e =
      let (x, rest, one, more, same) = collect_cons (read_method from_bytes) m methods compiled e in
      rw same refl

  pub rule_matches_iff :
      (pattern : Text) (methods : List Text) (regex : R) (compiled : List Text) (method path : Text)
      → compile_regex regex_new pattern ≡ ok regex
      → compile_methods from_bytes methods ≡ ok compiled
      → (rule_matches is_match compiled regex method path ≡ true) ↔ Hits pattern methods method path
  rule_matches_iff pattern methods regex compiled method path e f =
      let found = or_err-eq-ok (bad_regex pattern) _ regex e in
      let (to, from) = contains_iff method methods compiled f in
      let empty = is_empty-compiled methods compiled f in
      (
        λ h. (ground (arith, to), (regex, found, ground arith)),
        λ (admits, (r, found', m)). let same : r ≡ regex = ground arith in ground (arith, from),
      )
