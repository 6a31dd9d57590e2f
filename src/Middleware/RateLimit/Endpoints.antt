-- ===== src/Middleware/RateLimit/Endpoints.antt =====
-- The compilation of endpoint rules of rate_limit.rs, and their keys, of crates/g2-core/src/endpoints.rs.
pub mod Keys
use g2way.Common.{
  ℕ, zero, suc, ◌+◌, ◌/◌, ◌%◌, List, [], ◌∷◌, ◌++◌, Option, none, some, Text, codes, ltb,
  if◌then◌else◌, Result, ok, err, ◌>>=◌,
}
use g2way.Core.Session.{RateLimit}
use g2way.Storage.{from_secs}
use g2way.Middleware.Rules.{BadRule, compile_regex, compile_methods}
use g2way.Middleware.RateLimit.{CompiledEndpointLimit}

-- The decimal digits of a number, the last digits of it found first; `fuel` digits are enough where
-- `fuel` is the number itself.
unfoldable pub digits : ℕ → ℕ → Text
digits zero n = (48 + n % 10) ∷ []
digits (suc fuel) n =
    let front = digits fuel (n / 10) in
    if ltb n 10 then (48 + n) ∷ [] else front ++ (48 + n % 10) ∷ []

abbrev pub decimal : ℕ → Text
decimal n = digits n n

-- `g2:{org_id}:endpointrl:{scope}:{index}`.
unfoldable pub endpoint_rate_limit_storage_key : Text → Text → ℕ → Text
unfolding digits
endpoint_rate_limit_storage_key org_id scope index =
    codes "g2:" ++ (org_id ++ (codes ":endpointrl:" ++ (scope ++ (58 ∷ decimal index))))

pub record EndpointRateLimit : Type 0 where
  pub pattern : Text
  pub methods : List Text
  pub rate : RateLimit

module _ {R : Type 0} (regex_new : Text → Option R) (from_bytes : Text → Option Text)
    (org_id scope : Text) where
  unfoldable pub compile_endpoint : ℕ → EndpointRateLimit → Result (CompiledEndpointLimit R) BadRule
  unfolding endpoint_rate_limit_storage_key
  compile_endpoint index rule = do
    regex ← compile_regex regex_new rule.pattern
    methods ← compile_methods from_bytes rule.methods
    ok (record {
      regex = regex;
      methods = methods;
      requests = rule.rate.requests;
      window = from_secs rule.rate.per_seconds;
      storage_key = endpoint_rate_limit_storage_key org_id scope index;
    })

  -- `rules.iter().enumerate()`, from a position on.
  unfoldable pub from_config :
      ℕ → List EndpointRateLimit → Result (List (CompiledEndpointLimit R)) BadRule
  unfolding compile_endpoint
  from_config index [] = ok []
  from_config index (rule ∷ rules) =
      let rest = from_config (index + 1) rules in
      compile_endpoint index rule >>= λ c. rest >>= λ cs. ok (c ∷ cs)
