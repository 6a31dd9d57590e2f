-- ===== src/Middleware/Transforms/Applied.antt =====
-- What the header transforms of transform_headers.rs do to a message, by their configuration.
use g2way.Common.{
  ◌≡◌, refl, sym, ap, subst, ◌∙◌, Bool, true, false, List, [], ◌∷◌, Option, none, some, Text,
  text_eq, eq_ignore_ascii_case, any, if◌then◌else◌, Result, ok_or, ok_or_ok, ok, err, ◌>>◌, >>=-ok,
  fail_if, ok_injective, collect, collect_cons, HeaderMap, remove_header, insert_header, get_header,
  get_header-insert, get_header-remove, Bool-cases, inl, inr,
}
use g2way.Middleware.Transforms.{
  HeaderTransform, HeaderTransforms, TransformError, CompiledRules, HeaderTransformLayer,
  hop_by_hop, bad_name, sets_hop_by_hop, bad_value, validate_added, validate_removed,
  validate_transform, validate, compile_name, compile_entry, compile, from_config, removed_from,
  added_to, apply, call,
}

compile_entry-of_ok :
    (header_name header_value : Text → Option Text) (entry compiled : Text × Text)
    → compile_entry header_name header_value entry ≡ ok compiled
    → (header_name entry.0 ≡ some compiled.0) × (header_value entry.1 ≡ some compiled.1)
compile_entry-of_ok header_name header_value (written, value) compiled h =
    let (n, one, more) = >>=-ok (ok_or (header_name written) (bad_name written)) _ compiled h in
    let (v, two, is) = >>=-ok (ok_or (header_value value) (bad_value written)) _ compiled more in
    let same : (n, v) ≡ compiled = ok_injective is in
    (
      ok_or_ok (header_name written) (bad_name written) n one ∙ ap (λ p. some p.0) same,
      ok_or_ok (header_value value) (bad_value written) v two ∙ ap (λ p. some p.1) same,
    )

abbrev pub first_some : Option Text → Option Text → Option Text
first_some none b = b
first_some (some a) b = some a

chosen :
    (later : Option Text) (mine : Bool) (v : Text) (old : Option Text)
    → first_some later (if mine then some v else old)
      ≡ first_some (first_some later (if mine then some v else none)) old
chosen (some w) mine v old = refl
chosen none true v old = refl
chosen none false v old = refl

module _ (header_name header_value : Text → Option Text) (name : Text) where
  abbrev pub is_name : Option Text → Bool
  is_name none = false
  is_name (some n) = text_eq n name

  abbrev pub names : Text → Bool
  names written = is_name (header_name written)

  -- The value of the last entry to add that has the name.
  abbrev pub last_added : List (Text × Text) → Option Text
  last_added [] = none
  last_added ((written, value) ∷ add) =
      first_some (last_added add) (if names written then header_value value else none)

  -- What the transform makes of the first value of a header.
  abbrev pub transformed : HeaderTransform → Option Text → Option Text
  transformed t old = first_some (last_added t.add) (if any names t.remove then none else old)

  removed_from-get :
      (remove compiled : List Text) (hs : HeaderMap)
      → collect (compile_name header_name header_value) remove ≡ ok compiled
      → get_header name (removed_from compiled hs)
        ≡ (if any names remove then none else get_header name hs)
  removed_from-get [] compiled hs h = let e = ok_injective h in rw (sym e) refl
  removed_from-get (written ∷ remove) compiled hs h =
      let (n, rest, one, more, is) =
        collect_cons (compile_name header_name header_value) written remove compiled h in
      let named = ok_or_ok (header_name written) (bad_name written) n one in
      let ih = removed_from-get remove rest (remove_header n hs) more in
      let gone = get_header-remove n name hs in
      elim (Bool-cases (text_eq n name)) [
        | inl here ↦ elim (Bool-cases (any names remove)) [
          | inl other ↦ rw (is, named, here, ih, other) refl
          | inr no_other ↦ rw (is, named, here, ih, no_other, gone, here) refl
        ]
        | inr apart ↦ rw (is, named, apart, ih, gone, apart) refl
      ]

  added_to-get :
      (add compiled : List (Text × Text)) (hs : HeaderMap)
      → collect (compile_entry header_name header_value) add ≡ ok compiled
      → get_header name (added_to compiled hs) ≡ first_some (last_added add) (get_header name hs)
  added_to-get [] compiled hs h = let e = ok_injective h in rw (sym e) refl
  added_to-get ((written, value) ∷ add) compiled hs h =
      let ((n, v), rest, one, more, is) =
        collect_cons (compile_entry header_name header_value) (written, value) add compiled h in
      let (named, valued) =
        compile_entry-of_ok header_name header_value (written, value) (n, v) one in
      let ih = added_to-get add rest (insert_header n v hs) more in
      subst
        (λ c.
          get_header name (added_to c hs)
          ≡ first_some (last_added ((written, value) ∷ add)) (get_header name hs))
        (sym is)
        (rw (named, valued)
          (ih
            ∙ rw (get_header-insert n v name hs)
                (chosen (last_added add) (text_eq n name) v (get_header name hs))))

module _ (header_name header_value : Text → Option Text) where
  past_guard :
      {U : Type 0} (r : Result (Unit {0}) TransformError) (next : Result U TransformError) (u : U)
      → (r >> next) ≡ ok u
      → (r ≡ ok tt) × (next ≡ ok u)
  past_guard (err e) next u h = cc
  past_guard (ok done) next u h = (refl, h)

  validate_removed-collect :
      (remove : List Text)
      → validate_removed header_name header_value remove ≡ ok tt
      → (compiled : List Text) × (collect (compile_name header_name header_value) remove
          ≡ ok compiled)
  unfolding validate_removed
  validate_removed-collect [] h = ([], refl)
  validate_removed-collect (written ∷ remove) h =
      let (n, one, more) = >>=-ok (ok_or (header_name written) (bad_name written)) _ tt h in
      let (rest, collected) = validate_removed-collect remove more in
      (n ∷ rest, rw (one, collected) refl)

  validate_added-collect :
      (add : List (Text × Text))
      → validate_added header_name header_value add ≡ ok tt
      → (compiled : List (Text × Text)) × (collect (compile_entry header_name header_value) add
          ≡ ok compiled)
  unfolding validate_added
  validate_added-collect [] h = ([], refl)
  validate_added-collect ((written, value) ∷ add) h =
      let (n, one, checked) = >>=-ok (ok_or (header_name written) (bad_name written)) _ tt h in
      let (passed, valued) =
        past_guard
          (fail_if (any (λ name. eq_ignore_ascii_case name written) hop_by_hop)
            (sets_hop_by_hop written))
          _ tt checked in
      let (v, two, more) = >>=-ok (ok_or (header_value value) (bad_value written)) _ tt valued in
      let (rest, collected) = validate_added-collect add more in
      ((n, v) ∷ rest, rw (one, two, collected) refl)

  -- A transform with a compiled form, which makes of each header of a message what the transform says.
  abbrev pub IsCompiled : HeaderTransform → CompiledRules → Type 0
  IsCompiled t rules =
      (name : Text) (hs : HeaderMap)
      → get_header name (apply rules hs)
        ≡ transformed header_name header_value name t (get_header name hs)

  compile-IsCompiled :
      (t : HeaderTransform)
      → validate_transform header_name header_value t ≡ ok tt
      → (rules : CompiledRules) × (compile header_name header_value t ≡ ok rules)
        × IsCompiled t rules
  unfolding compile apply
  compile-IsCompiled t h =
      let (added, removed) = past_guard (validate_added header_name header_value t.add) _ tt h in
      let (add, adds) = validate_added-collect t.add added in
      let (remove, removes) = validate_removed-collect t.remove removed in
      (
        record { remove = remove; add = add },
        rw (removes, adds) refl,
        λ name hs.
            added_to-get header_name header_value name t.add add (removed_from remove hs) adds
            ∙ ap (first_some (last_added header_name header_value name t.add))
                (removed_from-get header_name header_value name t.remove remove hs removes),
      )

  -- What the service below is to receive, and what becomes of its answer.
  abbrev pub IsTransformed : HeaderTransform → HeaderMap → HeaderMap → Type 0
  IsTransformed t before after =
      (name : Text)
      → get_header name after ≡ transformed header_name header_value name t (get_header name before)

  abbrev pub IsAnswerTo :
      {Resp S : Type 0} → HeaderTransform → (HeaderMap × Resp) × S → (HeaderMap × Resp) × S → Type 0
  IsAnswerTo t ((before, resp0), s0) ((after, resp), s) =
      IsTransformed t before after × (resp ≡ resp0) × (s ≡ s0)

  -- Transforms that the validation accepts do compile to a layer. A call of it reaches the service
  -- below once, with the headers as the request's rules say and the request the same, and answers
  -- what that service does, with the headers as the response's rules say: a header has the value
  -- of the last entry that adds its name, or else none if an entry removes it, or else what it had.
  pub validate-call :
      {Req Resp S : Type 0} (t : HeaderTransforms)
      (inner : HeaderMap × Req → S → (HeaderMap × Resp) × S) (headers : HeaderMap) (req : Req)
      (s : S)
      → validate header_name header_value t ≡ ok tt
      → (layer : HeaderTransformLayer) × (from_config header_name header_value t ≡ ok layer)
        × (sent : HeaderMap) × IsTransformed t.request headers sent
        × IsAnswerTo t.response (inner (sent, req) s) (call layer inner (headers, req) s)
  unfolding validate from_config call compile
  validate-call t inner headers req s h =
      let (first, second) =
        past_guard (validate_transform header_name header_value t.request) _ tt h in
      let (request, built, says) = compile-IsCompiled t.request first in
      let (response, built', says') = compile-IsCompiled t.response second in
      (
        record { request = request; response = response },
        rw (built, built') refl,
        apply request headers,
        λ name. says name headers,
        ((λ name. says' name _), refl, refl),
      )
