-- ===== src/Core/Tests.antt =====
-- Sessions and policies of session.rs and policy.rs at concrete inputs.
use g2way.Common.{
  ◌≡◌, ◌≢◌, ◌↔◌, refl, true, false, [], ◌∷◌, none, some, Text, codes, arith, All, err, ok, text_eq,
  lookup, is_blank,
}
use g2way.Core.Session.{
  ApiAccess, KeySession, default, empty_type_name, zero_requests, many_policies, is_expired,
  allows_api, session_storage_key, rate_limit_storage_key, quota_storage_key, validate,
  validate_rate, validate_access, validate_grant, validate_entry, validate_quota,
}
use g2way.Core.Session.Valid.{IsValid, validate-IsValid, IsNamedAccess}
use g2way.Core.Session.Keys.{session_keys_apart}
use g2way.Core.Policy.{Policy, apply_policy}
use g2way.Core.Policy
use g2way.Core.Policy.Applied.{validate-apply_policy}

checks : Unit {0}
unfolding default validate validate_rate validate_quota validate_grant validate_access
    validate_entry is_blank
checks = tt

abbrev users : Text
users = codes "users"

-- A grant with a type of no name.
abbrev unnamed : ApiAccess
unnamed = record {
  allowed_types = record { name = []; fields = [] } ∷ [];
  restricted_types = [];
  disable_introspection = false;
  max_query_depth = none;
}

abbrev gold : Policy
gold = record {
  policy_id = codes "gold";
  name = codes "Gold";
  org_id = codes "default";
  active = true;
  rate = some (record { requests = 5; per_seconds = 1 });
  quota = none;
  access = (users, unnamed) ∷ [];
}

abbrev throttled : KeySession
throttled = record default { rate = some (record { requests = 0; per_seconds = 1 }) }

default-ok : validate default ≡ ok tt
unfolding checks apply_policy
default-ok = refl

gold-ok : Policy.validate gold ≡ ok tt
unfolding checks Policy.validate
gold-ok = refl

rejected :
    (validate throttled ≡ err zero_requests)
    × (validate (apply_policy default gold) ≡ err empty_type_name)
    × (validate (record default { apply_policies = users ∷ users ∷ [] }) ≡ err many_policies)
unfolding checks apply_policy
rejected = (refl, refl, refl)

reached_at :
    (is_expired default 7 ≡ false)
    × (is_expired (record default { expires_at = some 7 }) 7 ≡ true)
    × (allows_api default users ≡ true)
    × (allows_api (apply_policy default gold) (codes "x") ≡ false)
unfolding default lookup text_eq is_expired allows_api apply_policy
reached_at = (refl, refl, refl, refl)

validate-IsValid_example : (validate default ≡ ok tt) ↔ IsValid default
validate-IsValid_example = validate-IsValid default

session_keys_apart_example :
    (session_storage_key users users ≢ rate_limit_storage_key users users)
    × (session_storage_key users users ≢ quota_storage_key users users)
    × (rate_limit_storage_key users users ≢ quota_storage_key users users)
    × ((session_storage_key users users ≡ session_storage_key users users)
        ↔ ((users ≡ users) × (users ≡ users)))
    × ((rate_limit_storage_key users users ≡ rate_limit_storage_key users users)
        ↔ ((users ≡ users) × (users ≡ users)))
    × ((quota_storage_key users users ≡ quota_storage_key users users)
        ↔ ((users ≡ users) × (users ≡ users)))
session_keys_apart_example = session_keys_apart users users users users (omega arith) (omega arith)

validate-apply_policy_example :
    (validate (apply_policy default gold) ≡ ok tt)
    ↔ All (λ (g : Text × ApiAccess). IsNamedAccess g.1) ((users, unnamed) ∷ [])
validate-apply_policy_example = validate-apply_policy default gold default-ok gold-ok
