-- ===== src/Middleware/PathPolicy.antt =====
-- crates/g2-middleware/src/path_policy.rs: the allow, block and ignore lists of an API's paths.
--
-- `Regex::new`, `Regex::is_match` and `Method::from_bytes` are parameters.
pub mod Decision
pub mod Tests
use g2way.Common.{
  Bool, true, false, not, ◌&&◌, ◌||◌, List, [], ◌∷◌, Option, none, some, Text, if◌then◌else◌, any,
  is_empty, Result, ok, err, ◌>>=◌, collect,
}
use g2way.Middleware.Rules.{BadRule, rule_matches, compile_regex, compile_methods}

pub record PathRule : Type 0 where
  pub pattern : Text
  pub methods : List Text

pub record CompiledRule (R : Type 0) : Type 0 where
  pub regex : R
  pub methods : List Text

pub record PolicyState (R : Type 0) : Type 0 where
  pub allow : List (CompiledRule R)
  pub block : List (CompiledRule R)
  pub ignore : List (CompiledRule R)

-- The 403 that both lists share, or the request passed on, with the mark `AuthBypass` or not.
pub data Answer : Type 0 where
  forbidden : Answer
  forwards : Bool → Answer

module _ {R : Type 0} (regex_new : Text → Option R) (from_bytes : Text → Option Text) where
  pub compile : PathRule → Result (CompiledRule R) BadRule
  compile rule = do
    regex ← compile_regex regex_new rule.pattern
    methods ← compile_methods from_bytes rule.methods
    ok (record { regex = regex; methods = methods })

  pub compile_list : List PathRule → Result (List (CompiledRule R)) BadRule
  unfolding compile
  compile_list rules = collect compile rules

  pub compile_lists : (allow block ignore : List PathRule) → Result (PolicyState R) BadRule
  unfolding compile_list
  compile_lists allow block ignore = do
    allow' ← compile_list allow
    block' ← compile_list block
    ignore' ← compile_list ignore
    ok (record { allow = allow'; block = block'; ignore = ignore' })

  -- No layer where all lists are empty.
  pub from_config : (allow block ignore : List PathRule) → Result (Option (PolicyState R)) BadRule
  unfolding compile_lists
  from_config allow block ignore =
      if is_empty allow && is_empty block && is_empty ignore
      then ok none
      else compile_lists allow block ignore >>= λ state. ok (some state)

module _ {R : Type 0} (is_match : R → Text → Bool) where
  pub any_match : List (CompiledRule R) → Text → Text → Bool
  any_match rules method path = any (λ r. rule_matches is_match r.methods r.regex method path) rules

  -- `bypass` is whether the request carries the mark already.
  pub call : PolicyState R → Text → Text → Bool → Answer
  unfolding any_match
  call state method path bypass =
      if any_match state.block method path
        || (not (is_empty state.allow) && not (any_match state.allow method path))
      then forbidden
      else forwards (bypass || any_match state.ignore method path)
