-- ===== src/Middleware/PathPolicy/Decision.antt =====
-- What the layer of path_policy.rs decides, in terms of the lists as they are configured.
use g2way.Common.{
  ◌≡◌, ◌↔◌, ◌⊎◌, inl, inr, refl, Bool, true, false, not, ◌&&◌, ◌||◌, List, [], ◌∷◌, Option, some,
  Text, arith, Any, is_empty, Bool-cases, Result, ok, err, collect_cons, if◌then◌else◌,
}
use g2way.Middleware.Rules.{BadRule, rule_matches, compile_regex, compile_methods}
use g2way.Middleware.Rules.Compiled.{Hits, rule_matches_iff}
use g2way.Middleware.PathPolicy.{
  PathRule, CompiledRule, PolicyState, forbidden, forwards, compile, compile_list, compile_lists,
  from_config, any_match, call,
}

module _ {R : Type 0} (regex_new : Text → Option R) (is_match : R → Text → Bool)
    (from_bytes : Text → Option Text) where
  -- Some rule of a list hits a request.
  abbrev pub Covers : List PathRule → Text → Text → Type 0
  Covers rules method path =
      Any (λ r. Hits regex_new is_match from_bytes r.pattern r.methods method path) rules

  compile_parts :
      (rule : PathRule) (c : CompiledRule R)
      → compile regex_new from_bytes rule ≡ ok c
      → (compile_regex regex_new rule.pattern ≡ ok c.regex)
        × (compile_methods from_bytes rule.methods ≡ ok c.methods)
  unfolding compile
  compile_parts rule c e =
      go (compile_regex regex_new rule.pattern) (compile_methods from_bytes rule.methods) refl refl
    where
      go :
          (regex : Result R BadRule) (methods : Result (List Text) BadRule)
          → compile_regex regex_new rule.pattern ≡ regex
          → compile_methods from_bytes rule.methods ≡ methods
          → (compile_regex regex_new rule.pattern ≡ ok c.regex)
            × (compile_methods from_bytes rule.methods ≡ ok c.methods)
      go (err x) m a b = let stuck = rw a at e in cc
      go (ok r) (err x) a b = let stuck = rw (a, b) at e in cc
      go (ok r) (ok ms) a b = let same = rw (a, b) at e in ground arith

  any_match_iff :
      (rules : List PathRule) (compiled : List (CompiledRule R)) (method path : Text)
      → compile_list regex_new from_bytes rules ≡ ok compiled
      → (any_match is_match compiled method path ≡ true) ↔ Covers rules method path
  unfolding compile_list any_match
  any_match_iff [] compiled method path e =
      let nothing : compiled ≡ [] = ground arith in rw nothing ((λ h. cc), λ h. absurd h)
  any_match_iff (rule ∷ rules) compiled method path e =
      let (c, rest, one, more, same) =
        collect_cons (compile regex_new from_bytes) rule rules compiled e in
      let (to, from) = any_match_iff rules rest method path more in
      let (regex, methods) = compile_parts rule c one in
      let (hit, hit') =
        rule_matches_iff regex_new is_match from_bytes rule.pattern rule.methods c.regex c.methods
          method path regex methods in
      rw same (
        λ h. elim (Bool-cases (rule_matches is_match c.methods c.regex method path)) [
          | inl m ↦ inl (hit m)
          | inr m ↦ inr (to (rw m at h))
        ],
        λ h. elim h [ inl x ↦ rw (hit' x) refl | inr x ↦ later _ _ (from x) ],
      )
    where
      later : (a b : Bool) → b ≡ true → (a || b) ≡ true
      later a b h = ground arith

  is_empty-compiled :
      (rules : List PathRule) (compiled : List (CompiledRule R))
      → compile_list regex_new from_bytes rules ≡ ok compiled
      → is_empty compiled ≡ is_empty rules
  unfolding compile_list
  is_empty-compiled [] compiled e = let nothing : compiled ≡ [] = ground arith in rw nothing refl
  is_empty-compiled (rule ∷ rules) compiled e =
      let (c, rest, one, more, same) =
        collect_cons (compile regex_new from_bytes) rule rules compiled e in
      rw same refl

  from_config_parts :
      (allow block ignore : List PathRule) (state : PolicyState R)
      → from_config regex_new from_bytes allow block ignore ≡ ok (some state)
      → (compile_list regex_new from_bytes allow ≡ ok state.allow)
        × (compile_list regex_new from_bytes block ≡ ok state.block)
        × (compile_list regex_new from_bytes ignore ≡ ok state.ignore)
  unfolding from_config compile_lists
  from_config_parts allow block ignore state e =
      go (compile_list regex_new from_bytes allow) (compile_list regex_new from_bytes block)
        (compile_list regex_new from_bytes ignore) refl refl refl
    where
      Parts : Type 0
      Parts =
          (compile_list regex_new from_bytes allow ≡ ok state.allow)
          × (compile_list regex_new from_bytes block ≡ ok state.block)
          × (compile_list regex_new from_bytes ignore ≡ ok state.ignore)

      go :
          (a b i : Result (List (CompiledRule R)) BadRule)
          → compile_list regex_new from_bytes allow ≡ a
          → compile_list regex_new from_bytes block ≡ b
          → compile_list regex_new from_bytes ignore ≡ i
          → Parts
      go (err x) b i e1 e2 e3 = ground arith
      go (ok a) (err x) i e1 e2 e3 = ground arith
      go (ok a) (ok b) (err x) e1 e2 e3 = ground arith
      go (ok a) (ok b) (ok i) e1 e2 e3 = ground arith

-- A decision, in terms of what its three lists cover.
decision_lem :
    {A B I : Type 0} (a b i none_allowed bypass : Bool)
    → (a ≡ true) ↔ A
    → (b ≡ true) ↔ B
    → (i ≡ true) ↔ I
    → let answer =
        (if b || (not none_allowed && not a) then forbidden else forwards (bypass || i)) in
      ((answer ≡ forbidden) ↔ (B ⊎ ((none_allowed ≡ false) × ¬ A)))
      × ((answer ≡ forwards true) ↔ (¬ (answer ≡ forbidden) × ((bypass ≡ true) ⊎ I)))
decision_lem a b i none_allowed bypass p q r = ground arith

-- A layer that compiles answers 403 exactly when a block rule covers the request, or there are
-- allow rules and none of them covers it, even if it is also on the list of ignored paths; any
-- other request goes on, marked to skip authentication exactly when an ignore rule covers it or it
-- was marked before.
pub from_config-call :
    {R : Type 0} (regex_new : Text → Option R) (is_match : R → Text → Bool)
    (from_bytes : Text → Option Text) (allow block ignore : List PathRule) (state : PolicyState R)
    (method path : Text) (bypass : Bool)
    → from_config regex_new from_bytes allow block ignore ≡ ok (some state)
    → let covers = Covers regex_new is_match from_bytes in
      let answer = call is_match state method path bypass in
      ((answer ≡ forbidden)
        ↔ (covers block method path ⊎ ((is_empty allow ≡ false) × ¬ (covers allow method path))))
      × ((answer ≡ forwards true)
          ↔ (¬ (answer ≡ forbidden) × ((bypass ≡ true) ⊎ covers ignore method path)))
unfolding call
from_config-call regex_new is_match from_bytes allow block ignore state method path bypass e =
    let (a, b, i) = from_config_parts regex_new is_match from_bytes allow block ignore state e in
    let covered = any_match_iff regex_new is_match from_bytes in
    rw (is_empty-compiled regex_new is_match from_bytes allow state.allow a) (
      decision_lem _ _ _ (is_empty allow) bypass (covered allow state.allow method path a)
        (covered block state.block method path b) (covered ignore state.ignore method path i))
