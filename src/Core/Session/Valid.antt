-- ===== src/Core/Session/Valid.antt =====
-- When `KeySession::validate` of session.rs accepts, check by check.
use g2way.Common.{
  ℕ, ◌≡◌, ◌↔◌, ◌<◌, ◌≤◌, refl, Bool, true, false, List, [], ◌∷◌, Option, none, some, Text, arith,
  is_blank, All, any, length, ok, err, ◌>>◌, fail_if, ltb, le→ltb_false,
}
use g2way.Core.Session.{
  RateLimit, Quota, TypeFields, ApiAccess, KeySession, Invalid, empty_access_key, empty_org_id,
  empty_password_hash, empty_secret, many_policies, empty_policy_entry, Check, for_each, if_some,
  validate_entry, validate_access, validate_rate, validate_quota, validate_grant, validate,
}

abbrev pub Passes : Check → Type 0
Passes c = c ≡ ok tt

pub >>-Passes : (c d : Check) → Passes (c >> d) ↔ (Passes c × Passes d)
>>-Passes (ok tt) d = ((λ h. (refl, h)), λ h. h.1)
>>-Passes (err e) d = ((λ h. cc), λ h. cc (h.0))

pub fail_if-Passes : (b : Bool) (e : Invalid) → Passes (fail_if b e) ↔ (b ≡ false)
fail_if-Passes true e = ((λ h. cc), λ h. cc)
fail_if-Passes false e = ((λ h. refl), λ h. refl)

pub for_each-Passes {ℓ} :
    {A : Type ℓ} (check : A → Check) (P : A → Type 0)
    → ((a : A) → Passes (check a) ↔ P a)
    → (xs : List A) → Passes (for_each check xs) ↔ All P xs
for_each-Passes check P same [] = ((λ h. tt), λ h. refl)
for_each-Passes check P same (x ∷ xs) =
    let (to, from) = >>-Passes (check x) (for_each check xs) in
    let (to', from') = for_each-Passes check P same xs in
    (λ h. ((same x).0 (to h).0, to' (to h).1), λ h. from ((same x).1 h.0, from' h.1))

-- What holds of an optional part, if it is there.
abbrev pub Given {ℓ} : {A : Type ℓ} → (A → Type 0) → Option A → Type 0
Given P none = Unit
Given P (some a) = P a

pub if_some-Passes {ℓ} :
    {A : Type ℓ} (check : A → Check) (P : A → Type 0)
    → ((a : A) → Passes (check a) ↔ P a)
    → (o : Option A) → Passes (if_some check o) ↔ Given P o
if_some-Passes check P same none = ((λ h. tt), λ h. refl)
if_some-Passes check P same (some a) = same a

abbrev pub IsNamed : Text → Type 0
IsNamed t = is_blank t ≡ false

pub any_blank : (ts : List Text) → (any is_blank ts ≡ false) ↔ All IsNamed ts
any_blank [] = ((λ h. tt), λ h. refl)
any_blank (t ∷ ts) = ground (arith, any_blank ts)

abbrev pub IsPositiveRate : RateLimit → Type 0
IsPositiveRate rate = (0 < rate.requests) × (0 < rate.per_seconds)

abbrev pub IsPositiveQuota : Quota → Type 0
IsPositiveQuota quota = (0 < quota.max) × (0 < quota.renewal_rate_secs)

pub validate_rate-Passes : (rate : RateLimit) → Passes (validate_rate rate) ↔ IsPositiveRate rate
unfolding validate_rate
validate_rate-Passes rate = (ground arith, ground arith)

pub validate_quota-Passes : (quota : Quota) → Passes (validate_quota quota) ↔ IsPositiveQuota quota
unfolding validate_quota
validate_quota-Passes quota = (ground arith, ground arith)

abbrev pub IsNamedEntry : TypeFields → Type 0
IsNamedEntry entry = IsNamed entry.name × All IsNamed entry.fields

validate_entry-Passes : (entry : TypeFields) → Passes (validate_entry entry) ↔ IsNamedEntry entry
unfolding validate_entry
validate_entry-Passes entry =
    (ground (arith, any_blank entry.fields), ground (arith, any_blank entry.fields))

abbrev pub IsNamedAccess : ApiAccess → Type 0
IsNamedAccess grant = All IsNamedEntry grant.allowed_types × All IsNamedEntry grant.restricted_types

pub validate_access-Passes :
    (grant : ApiAccess) → Passes (validate_access grant) ↔ IsNamedAccess grant
unfolding validate_access
validate_access-Passes grant =
    let (to, from) =
      >>-Passes (for_each validate_entry grant.allowed_types)
        (for_each validate_entry grant.restricted_types) in
    let (a, a') =
      for_each-Passes validate_entry IsNamedEntry validate_entry-Passes grant.allowed_types in
    let (r, r') =
      for_each-Passes validate_entry IsNamedEntry validate_entry-Passes grant.restricted_types in
    ((λ h. (a (to h).0, r (to h).1)), λ h. from (a' h.0, r' h.1))

abbrev pub IsNamedGrant : Text × ApiAccess → Type 0
IsNamedGrant g = IsNamed g.0 × IsNamedAccess g.1

pub validate_grant-Passes : (g : Text × ApiAccess) → Passes (validate_grant g) ↔ IsNamedGrant g
unfolding validate_grant
validate_grant-Passes (api_id, grant) = ground (
  arith,
  fail_if-Passes (is_blank api_id) empty_access_key,
  >>-Passes (fail_if (is_blank api_id) empty_access_key) (validate_access grant),
  validate_access-Passes grant,
)

-- Everything that serde cannot express, as plain conditions.
pub record IsValid (s : KeySession) : Type 0 where
  pub named : IsNamed s.org_id
  pub positive_rate : Given IsPositiveRate s.rate
  pub positive_quota : Given IsPositiveQuota s.quota
  pub grants : All IsNamedGrant s.access
  pub hashed : Given IsNamed s.basic_auth
  pub keyed : Given IsNamed s.hmac
  pub one_policy : length s.apply_policies ≤ 1
  pub named_policies : All IsNamed s.apply_policies

if_some-IsNamed :
    (e : Invalid) (o : Option Text)
    → Passes (if_some (λ t. fail_if (is_blank t) e) o) ↔ Given IsNamed o
if_some-IsNamed e o = if_some-Passes _ IsNamed (λ t. fail_if-Passes (is_blank t) e) o

-- The checks after the access map, by themselves.
credentials-Passes :
    (basic hmac : Option Text) (policies : List Text)
    → Passes (
        if_some (λ hash. fail_if (is_blank hash) empty_password_hash) basic
        >> (if_some (λ key. fail_if (is_blank key) empty_secret) hmac
            >> (fail_if (ltb 1 (length policies)) many_policies
                >> fail_if (any is_blank policies) empty_policy_entry)))
      ↔ (Given IsNamed basic × Given IsNamed hmac × (length policies ≤ 1) × All IsNamed policies)
credentials-Passes basic hmac policies =
    let (b, b') = if_some-IsNamed empty_password_hash basic in
    let (k, k') = if_some-IsNamed empty_secret hmac in
    let (p, p') = any_blank policies in
    let (t1, f1) =
      >>-Passes (if_some (λ hash. fail_if (is_blank hash) empty_password_hash) basic) _ in
    let (t2, f2) = >>-Passes (if_some (λ key. fail_if (is_blank key) empty_secret) hmac) _ in
    let (t3, f3) =
      >>-Passes (fail_if (ltb 1 (length policies)) many_policies)
        (fail_if (any is_blank policies) empty_policy_entry) in
    let (t4, f4) = fail_if-Passes (ltb 1 (length policies)) many_policies in
    let (t5, f5) = fail_if-Passes (any is_blank policies) empty_policy_entry in
    (
      λ h.
          let h3 = t3 (t2 (t1 h).1).1 in
          (b (t1 h).0, k (t2 (t1 h).1).0, at_most_one _ (t4 h3.0), p (t5 h3.1)),
      λ h. f1 (b' h.0, f2 (k' h.1, f3 (f4 (le→ltb_false 1 _ h.2), f5 (p' h.3)))),
    )
  where
    at_most_one : (n : ℕ) → ltb 1 n ≡ false → n ≤ 1
    at_most_one n h = ground arith

-- A session passes exactly when each of its parts is in order.
pub validate-IsValid : (s : KeySession) → (validate s ≡ ok tt) ↔ IsValid s
unfolding validate
validate-IsValid s =
    let (n, n') = fail_if-Passes (is_blank s.org_id) empty_org_id in
    let (r, r') = if_some-Passes validate_rate IsPositiveRate validate_rate-Passes s.rate in
    let (q, q') = if_some-Passes validate_quota IsPositiveQuota validate_quota-Passes s.quota in
    let (a, a') = for_each-Passes validate_grant IsNamedGrant validate_grant-Passes s.access in
    let (c, c') = credentials-Passes s.basic_auth s.hmac s.apply_policies in
    let (t1, f1) = >>-Passes (fail_if (is_blank s.org_id) empty_org_id) _ in
    let (t2, f2) = >>-Passes (if_some validate_rate s.rate) _ in
    let (t3, f3) = >>-Passes (if_some validate_quota s.quota) _ in
    let (t4, f4) = >>-Passes (for_each validate_grant s.access) _ in
    (
      λ h.
          let h4 = t4 (t3 (t2 (t1 h).1).1).1 in
          let (hashed, keyed, one, named) = c h4.1 in
          record {
            named = n (t1 h).0;
            positive_rate = r (t2 (t1 h).1).0;
            positive_quota = q (t3 (t2 (t1 h).1).1).0;
            grants = a h4.0;
            hashed = hashed;
            keyed = keyed;
            one_policy = one;
            named_policies = named;
          },
      λ v. f1 (
        n' v.named,
        f2 (
          r' v.positive_rate,
          f3 (
            q' v.positive_quota,
            f4 (a' v.grants, c' (v.hashed, v.keyed, v.one_policy, v.named_policies)),
          ),
        ),
      ),
    )
