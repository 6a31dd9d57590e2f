-- ===== src/Core/Session/Keys.antt =====
-- The storage keys of session.rs: which texts they are, and that they do not meet.
use g2way.Common.{◌≡◌, ◌≢◌, ◌↔◌, refl, sym, ap, ◌∙◌, [], ◌∷◌, ◌++◌, Text, codes, arith, All}
use mathlib.Core.List.{append_assoc}
use g2way.Core.Session.{session_storage_key, rate_limit_storage_key, quota_storage_key}

-- The ids that contain no ':'.
abbrev pub HasNoColon : Text → Type 0
HasNoColon t = All (λ c. c ≢ 58) t

-- `g2:{org_id}:{kind}:{id}`.
abbrev pub storage_key : (org_id kind id : Text) → Text
storage_key org_id kind id = codes "g2:" ++ (org_id ++ (58 ∷ (kind ++ (58 ∷ id))))

split_colon :
    (a b x y : Text)
    → HasNoColon a
    → HasNoColon b
    → a ++ (58 ∷ x) ≡ b ++ (58 ∷ y)
    → (a ≡ b) × (x ≡ y)
split_colon [] [] x y h k e = (refl, ground arith)
split_colon [] (c ∷ b) x y h (k, ks) e = absurd (k (ground arith))
split_colon (c ∷ a) [] x y (h, hs) k e = absurd (h (ground arith))
split_colon (c ∷ a) (d ∷ b) x y (h, hs) (k, ks) e =
    let (same, rest) = split_colon a b x y hs ks (ground arith) in (ground arith, rest)

-- Two keys are the same text only if all their parts are.
pub storage_key-injective :
    (org org' kind kind' id id' : Text)
    → HasNoColon org
    → HasNoColon org'
    → HasNoColon kind
    → HasNoColon kind'
    → storage_key org kind id ≡ storage_key org' kind' id'
    → (org ≡ org') × (kind ≡ kind') × (id ≡ id')
storage_key-injective org org' kind kind' id id' o o' k k' e =
    let (same_org, rest) = split_colon org org' _ _ o o' (ground arith) in
    let (same_kind, same_id) = split_colon kind kind' id id' k k' rest in
    (same_org, same_kind, same_id)

pub session_storage_key_lem :
    (org id : Text) → session_storage_key org id ≡ storage_key org (codes "apikey") id
unfolding session_storage_key
session_storage_key_lem org id =
    ap (λ (t : Text). codes "g2:" ++ t) (append_assoc org (codes ":apikey:") id)

abbrev apikey : Text
apikey = codes "apikey"

abbrev ratelimit : Text
ratelimit = codes "ratelimit"

abbrev quota : Text
quota = codes "quota"

apikey_lem : HasNoColon apikey
apikey_lem = omega arith

ratelimit_lem : HasNoColon ratelimit
ratelimit_lem = omega arith

quota_lem : HasNoColon quota
quota_lem = omega arith

ends : {A B C : Type 0} → A × B × C → A × C
ends (a, b, c) = (a, c)

-- With organizations whose ids have no ':', the session, the rate counter and the quota counter of
-- a key are three different records, and each is the record of no other key or organization.
pub session_keys_apart :
    (org org' hash hash' : Text)
    → HasNoColon org
    → HasNoColon org'
    → (session_storage_key org hash ≢ rate_limit_storage_key org' hash')
      × (session_storage_key org hash ≢ quota_storage_key org' hash')
      × (rate_limit_storage_key org hash ≢ quota_storage_key org' hash')
      × ((session_storage_key org hash ≡ session_storage_key org' hash')
          ↔ ((org ≡ org') × (hash ≡ hash')))
      × ((rate_limit_storage_key org hash ≡ rate_limit_storage_key org' hash')
          ↔ ((org ≡ org') × (hash ≡ hash')))
      × ((quota_storage_key org hash ≡ quota_storage_key org' hash')
          ↔ ((org ≡ org') × (hash ≡ hash')))
unfolding rate_limit_storage_key quota_storage_key
session_keys_apart org org' hash hash' o o' =
    let keys = λ (kind kind' : Text) (k : HasNoColon kind) (k' : HasNoColon kind').
      storage_key-injective org org' kind kind' hash hash' o o' k k' in
    let a = session_storage_key_lem org hash in
    let a' = session_storage_key_lem org' hash' in
    (
      λ e. ground (arith, (keys apikey ratelimit apikey_lem ratelimit_lem (sym a ∙ e)).1),
      λ e. ground (arith, (keys apikey quota apikey_lem quota_lem (sym a ∙ e)).1),
      λ e. ground (arith, (keys ratelimit quota ratelimit_lem quota_lem e).1),
      (
        (λ e. ends (keys apikey apikey apikey_lem apikey_lem (sym a ∙ (e ∙ a')))),
        λ (p, q). rw (p, q) refl,
      ),
      (
        (λ e. ends (keys ratelimit ratelimit ratelimit_lem ratelimit_lem e)),
        λ (p, q). rw (p, q) refl,
      ),
      ((λ e. ends (keys quota quota quota_lem quota_lem e)), λ (p, q). rw (p, q) refl),
    )
