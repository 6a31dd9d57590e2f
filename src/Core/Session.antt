-- ===== src/Core/Session.antt =====
-- crates/g2-core/src/session.rs: the state attached to one API key.
--
-- A `BTreeMap` is the list of its entries in key order. An error is a constructor in place of the
-- message that the code writes.
pub mod Valid
pub mod Keys
use g2way.Common.{
  ℕ, ℤ, Bool, true, false, not, ◌||◌, List, [], ◌∷◌, ◌++◌, Option, none, some, Text, codes,
  is_blank, ltb, leb, ◌==◌, if◌then◌else◌, any, is_empty, length, lookup, Result, ok, err, ◌>>=◌,
  ◌>>◌, fail_if,
}

pub record RateLimit : Type 0 where
  pub requests : ℕ
  pub per_seconds : ℕ

pub record Quota : Type 0 where
  pub max : ℕ
  pub renewal_rate_secs : ℕ

pub record TypeFields : Type 0 where
  pub name : Text
  pub fields : List Text

pub record ApiAccess : Type 0 where
  pub allowed_types : List TypeFields
  pub restricted_types : List TypeFields
  pub disable_introspection : Bool
  pub max_query_depth : Option ℤ

-- `basic_auth` and `hmac` are the one text field that each of their structs has.
pub record KeySession : Type 0 where
  pub org_id : Text
  pub alias : Option Text
  pub rate : Option RateLimit
  pub quota : Option Quota
  pub expires_at : Option ℕ
  pub active : Bool
  pub access : List (Text × ApiAccess)
  pub basic_auth : Option Text
  pub hmac : Option Text
  pub apply_policies : List Text

unfoldable pub default : KeySession
default = record {
  org_id = codes "default";
  alias = none;
  rate = none;
  quota = none;
  expires_at = none;
  active = true;
  access = [];
  basic_auth = none;
  hmac = none;
  apply_policies = [];
}

-- The reasons of `Error::InvalidKeySession`, and those that a policy shares.
pub data Invalid : Type 0 where
  empty_policy_id empty_name empty_org_id : Invalid
  zero_requests zero_per_seconds zero_quota_max zero_renewal : Invalid
  empty_access_key empty_type_name empty_field_name : Invalid
  empty_password_hash empty_secret many_policies empty_policy_entry : Invalid

abbrev pub Check : Type 0
Check = Result (Unit {0}) Invalid

-- `for x in list { check(x)? }`.
abbrev pub for_each {ℓ} : {A : Type ℓ} → (A → Check) → List A → Check
for_each check [] = ok tt
for_each check (x ∷ xs) = do check x; for_each check xs

abbrev pub if_some {ℓ} : {A : Type ℓ} → (A → Check) → Option A → Check
if_some check none = ok tt
if_some check (some a) = check a

unfoldable pub validate_entry : TypeFields → Check
validate_entry entry = do
  fail_if (is_blank entry.name) empty_type_name
  fail_if (any is_blank entry.fields) empty_field_name

unfoldable pub validate_access : ApiAccess → Check
unfolding validate_entry
validate_access grant = do
  for_each validate_entry grant.allowed_types
  for_each validate_entry grant.restricted_types

unfoldable pub validate_rate : RateLimit → Check
validate_rate rate = do
  fail_if (rate.requests == 0) zero_requests
  fail_if (rate.per_seconds == 0) zero_per_seconds

unfoldable pub validate_quota : Quota → Check
validate_quota quota = do
  fail_if (quota.max == 0) zero_quota_max
  fail_if (quota.renewal_rate_secs == 0) zero_renewal

unfoldable pub validate_grant : Text × ApiAccess → Check
unfolding validate_access
validate_grant (api_id, grant) = do
  fail_if (is_blank api_id) empty_access_key
  validate_access grant

unfoldable pub validate : KeySession → Check
unfolding validate_rate validate_quota validate_grant
validate s = do
  fail_if (is_blank s.org_id) empty_org_id
  if_some validate_rate s.rate
  if_some validate_quota s.quota
  for_each validate_grant s.access
  if_some (λ hash. fail_if (is_blank hash) empty_password_hash) s.basic_auth
  if_some (λ key. fail_if (is_blank key) empty_secret) s.hmac
  fail_if (ltb 1 (length s.apply_policies)) many_policies
  fail_if (any is_blank s.apply_policies) empty_policy_entry

abbrev pub reached : Option ℕ → ℕ → Bool
reached none now = false
reached (some at) now = leb at now

unfoldable pub is_expired : KeySession → ℕ → Bool
is_expired s now_unix_secs = reached s.expires_at now_unix_secs

abbrev pub is_some {ℓ} : {A : Type ℓ} → Option A → Bool
is_some none = false
is_some (some a) = true

unfoldable pub allows_api : KeySession → Text → Bool
allows_api s api_id = is_empty s.access || is_some (lookup api_id s.access)

unfoldable pub session_key_prefix : Text → Text
session_key_prefix org_id = codes "g2:" ++ (org_id ++ codes ":apikey:")

unfoldable pub session_storage_key : Text → Text → Text
unfolding session_key_prefix
session_storage_key org_id key_hash = session_key_prefix org_id ++ key_hash

unfoldable pub rate_limit_storage_key : Text → Text → Text
rate_limit_storage_key org_id key_hash =
    codes "g2:" ++ (org_id ++ (codes ":ratelimit:" ++ key_hash))

unfoldable pub quota_storage_key : Text → Text → Text
quota_storage_key org_id key_hash = codes "g2:" ++ (org_id ++ (codes ":quota:" ++ key_hash))
