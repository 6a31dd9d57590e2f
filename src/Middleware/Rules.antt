-- ===== src/Middleware/Rules.antt =====
-- The compiled path rules that path_policy.rs and rate_limit.rs of crates/g2-middleware share: a
-- pattern with a method filter.
--
-- A method is its name. `Regex::new`, `Regex::is_match` and `Method::from_bytes` are parameters.
pub mod Compiled
use g2way.Common.{
  ℕ, ◌+◌, ◌-◌, Bool, true, false, ◌&&◌, ◌||◌, List, [], ◌∷◌, map, Option, none, some, Text, leb,
  if◌then◌else◌, any, is_empty, text_eq, Result, ok, err, collect,
}

-- The two reasons for which a rule does not compile.
pub data BadRule : Type 0 where
  bad_regex : Text → BadRule
  bad_method : Text → BadRule

-- `to_ascii_uppercase` of a byte, and of a text.
abbrev pub upper_byte : ℕ → ℕ
upper_byte c = if leb 97 c && leb c 122 then c - 32 else c

abbrev pub to_ascii_uppercase : Text → Text
to_ascii_uppercase t = map upper_byte t

-- `methods.contains(method)`.
abbrev pub contains : List Text → Text → Bool
contains methods method = any (λ m. text_eq m method) methods

-- `(methods.is_empty() || methods.contains(method)) && regex.is_match(path)`.
abbrev pub rule_matches : {R : Type 0} → (R → Text → Bool) → List Text → R → Text → Text → Bool
rule_matches is_match methods regex method path =
    (is_empty methods || contains methods method) && is_match regex path

abbrev pub or_err : {T E : Type 0} → E → Option T → Result T E
or_err e none = err e
or_err e (some t) = ok t

-- `Regex::new(&rule.pattern)?`.
abbrev pub compile_regex : {R : Type 0} → (Text → Option R) → Text → Result R BadRule
compile_regex regex_new pattern = or_err (bad_regex pattern) (regex_new pattern)

abbrev pub read_method : (Text → Option Text) → Text → Result Text BadRule
read_method from_bytes m = or_err (bad_method m) (from_bytes (to_ascii_uppercase m))

abbrev pub compile_methods : (Text → Option Text) → List Text → Result (List Text) BadRule
compile_methods from_bytes methods = collect (read_method from_bytes) methods
