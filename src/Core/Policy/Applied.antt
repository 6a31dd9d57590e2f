-- ===== src/Core/Policy/Applied.antt =====
-- What applying a policy of policy.rs does to a session of session.rs.
use g2way.Common.{◌≡◌, ◌↔◌, List, [], ◌∷◌, Text, is_blank, All, ok, fail_if}
use g2way.Core.Session.{
  KeySession, ApiAccess, RateLimit, Quota, empty_policy_id, empty_name, empty_org_id,
  empty_access_key, Invalid, Check, for_each, if_some, validate_rate, validate_quota, is_expired,
  allows_api, is_some,
}
use g2way.Core.Session
use g2way.Core.Session.Valid.{
  >>-Passes, fail_if-Passes, for_each-Passes, if_some-Passes, Given, IsNamed, IsPositiveRate,
  IsPositiveQuota, validate_rate-Passes, validate_quota-Passes, IsNamedAccess, IsNamedGrant,
  validate-IsValid,
}
use g2way.Core.Policy.{Policy, validate, apply_policy}

pub record IsValidPolicy (p : Policy) : Type 0 where
  pub positive_rate : Given IsPositiveRate p.rate
  pub positive_quota : Given IsPositiveQuota p.quota
  pub named_keys : All (λ (g : Text × ApiAccess). IsNamed g.0) p.access

pub validate-IsValidPolicy : (p : Policy) → validate p ≡ ok tt → IsValidPolicy p
unfolding validate
validate-IsValidPolicy p h =
    let (r, _) = if_some-Passes validate_rate IsPositiveRate validate_rate-Passes p.rate in
    let (q, _) = if_some-Passes validate_quota IsPositiveQuota validate_quota-Passes p.quota in
    let (a, _) =
      for_each-Passes _ (λ (g : Text × ApiAccess). IsNamed g.0)
        (λ g. fail_if-Passes (is_blank g.0) empty_access_key) p.access in
    let h1 = ((>>-Passes (fail_if (is_blank p.policy_id) empty_policy_id) _).0 h).1 in
    let h2 = ((>>-Passes (fail_if (is_blank p.name) empty_name) _).0 h1).1 in
    let h3 = ((>>-Passes (fail_if (is_blank p.org_id) empty_org_id) _).0 h2).1 in
    let (rate, h4) = (>>-Passes (if_some validate_rate p.rate) _).0 h3 in
    let (quota, access) = (>>-Passes (if_some validate_quota p.quota) _).0 h4 in
    record { positive_rate = r rate; positive_quota = q quota; named_keys = a access }

both_named :
    (m : List (Text × ApiAccess))
    → All (λ (g : Text × ApiAccess). IsNamed g.0) m
    → All IsNamedGrant m ↔ All (λ (g : Text × ApiAccess). IsNamedAccess g.1) m
both_named [] h = ((λ k. tt), λ k. tt)
both_named (g ∷ m) (h, hs) =
    let (to, from) = both_named m hs in ((λ k. (k.0.1, to k.1)), λ k. ((h, k.0), from k.1))

-- A valid policy takes a valid session to a session that passes its own checks exactly when every
-- grant of the policy names its types and fields, which the checks of the policy do not look at.
pub validate-apply_policy :
    (s : KeySession) (p : Policy)
    → Session.validate s ≡ ok tt
    → validate p ≡ ok tt
    → (Session.validate (apply_policy s p) ≡ ok tt)
      ↔ All (λ (g : Text × ApiAccess). IsNamedAccess g.1) p.access
unfolding apply_policy
validate-apply_policy s p hs hp =
    let v = (validate-IsValid s).0 hs in
    let w = validate-IsValidPolicy p hp in
    let (to, from) = both_named p.access w.named_keys in
    let applied = apply_policy s p in
    let (check, uncheck) = validate-IsValid applied in
    (
      λ h. to (check h).grants,
      λ h. uncheck (record {
        named = v.named;
        positive_rate = w.positive_rate;
        positive_quota = w.positive_quota;
        grants = from h;
        hashed = v.hashed;
        keyed = v.keyed;
        one_policy = v.one_policy;
        named_policies = v.named_policies;
      }),
    )
