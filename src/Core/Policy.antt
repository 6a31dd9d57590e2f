-- ===== src/Core/Policy.antt =====
-- crates/g2-core/src/policy.rs, and `KeySession::apply_policy` of session.rs.
pub mod Applied
use g2way.Common.{
  Bool, List, Option, Text, codes, ◌++◌, is_blank, Result, ok, err, ◌>>=◌, ◌>>◌, fail_if,
}
use g2way.Core.Session.{
  RateLimit, Quota, ApiAccess, KeySession, empty_policy_id, empty_name, empty_org_id,
  empty_access_key, Check, for_each, if_some, validate_rate, validate_quota,
}

pub record Policy : Type 0 where
  pub policy_id : Text
  pub name : Text
  pub org_id : Text
  pub active : Bool
  pub rate : Option RateLimit
  pub quota : Option Quota
  pub access : List (Text × ApiAccess)

unfoldable pub validate : Policy → Check
validate p = do
  fail_if (is_blank p.policy_id) empty_policy_id
  fail_if (is_blank p.name) empty_name
  fail_if (is_blank p.org_id) empty_org_id
  if_some validate_rate p.rate
  if_some validate_quota p.quota
  for_each (λ grant. fail_if (is_blank grant.0) empty_access_key) p.access

unfoldable pub apply_policy : KeySession → Policy → KeySession
apply_policy s p = record s { rate = p.rate; quota = p.quota; access = p.access }

unfoldable pub policy_key_prefix : Text → Text
policy_key_prefix org_id = codes "g2:" ++ (org_id ++ codes ":policy:")

unfoldable pub policy_storage_key : Text → Text → Text
unfolding policy_key_prefix
policy_storage_key org_id policy_id = policy_key_prefix org_id ++ policy_id
