-- ===== src/Middleware/Versions/Tests.antt =====
-- The dispatch of versioning.rs at concrete inputs.
use g2way.Common.{
  ◌≡◌, refl, ℕ, List, [], ◌∷◌, Option, none, some, Text, codes, text_eq, ok, err, lookup, insert,
  remove, split_once,
}
use g2way.Middleware.Versions.{
  query_param, VersioningConfig, VersionDispatch, VersionRequest, no_chain, take_chains,
  from_config, requested, rejected, goes_to, call,
}
use g2way.Middleware.Versions.Dispatched.{IsDispatchedTo, call-IsDispatchedTo}

runs : Unit {0}
unfolding take_chains from_config requested call text_eq lookup insert remove split_once
runs = tt

abbrev whole : Text → Option Text
whole t = some t

abbrev versions : List (Text × Option ℕ)
versions = (codes "v1", some 100) ∷ (codes "v2", none) ∷ []

abbrev config : VersioningConfig
config = record {
  location = query_param;
  key = codes "version";
  default_version = some (codes "v1");
  versions = versions;
}

-- The chains are numbers here.
abbrev chains : List (Text × ℕ)
chains = (codes "v2", 2) ∷ (codes "v1", 1) ∷ []

abbrev dispatcher : VersionDispatch ℕ
dispatcher = record {
  location = query_param;
  name = codes "version";
  default_version = some (codes "v1");
  versions =
      (codes "v1", record { chain = 1; expires_at = some 100 })
      ∷ (codes "v2", record { chain = 2; expires_at = none })
      ∷ [];
}

config-dispatcher : from_config whole config chains ≡ ok dispatcher
unfolding runs
config-dispatcher = refl

missing-chain :
    from_config {Chain = ℕ} whole config ((codes "v1", 1) ∷ []) ≡ err (no_chain (codes "v2"))
unfolding runs
missing-chain = refl

abbrev asking : Text → VersionRequest
asking query = record { headers = []; query = some query }

asks-v2 : call whole dispatcher 100 (asking (codes "a=1&version= v2 &version=v1")) ≡ goes_to 2
unfolding runs
asks-v2 = refl

by_default : call whole dispatcher 99 (asking (codes "version=")) ≡ goes_to 1
unfolding runs
by_default = refl

default_expired :
    call whole dispatcher 100 (asking (codes "a=1"))
    ≡ rejected (codes "requested API version has expired")
unfolding runs
default_expired = refl

unknown_version :
    call whole dispatcher 99 (asking (codes "version=V1"))
    ≡ rejected (codes "requested API version does not exist")
unfolding runs
unknown_version = refl

call-IsDispatchedTo_example :
    IsDispatchedTo 100
      (some (codes "v2"))
      versions
      chains
      (call whole dispatcher 100 (asking (codes "version=v2")))
unfolding runs
call-IsDispatchedTo_example =
    call-IsDispatchedTo whole whole config chains dispatcher 100 (asking (codes "version=v2"))
      ((refl, tt), (tt, tt)) config-dispatcher
