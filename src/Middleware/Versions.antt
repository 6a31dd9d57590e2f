-- ===== src/Middleware/Versions.antt =====
-- crates/g2-middleware/src/versioning.rs: which version of an API a request goes to.
--
-- Of the overrides of a version the dispatch reads the expiry alone. `HeaderName::from_bytes` and
-- `HeaderValue::to_str` are parameters; the value of a query parameter is ASCII, as that of a header.
pub mod Asked
pub mod Dispatched
pub mod Tests
use g2way.Common.{
  ℕ, Bool, true, false, List, [], ◌∷◌, Option, none, some, Text, codes, text_eq, if◌then◌else◌,
  Result, ok_or, ok, err, ◌>>=◌, HeaderMap, get_header, split, split_once, trim, is_empty, find_map,
  and_then, lookup, insert, remove,
}
use g2way.Core.Session.{reached}

pub data VersionLocation : Type 0 where
  header query_param : VersionLocation

pub record VersioningConfig : Type 0 where
  pub location : VersionLocation
  pub key : Text
  pub default_version : Option Text
  pub versions : List (Text × Option ℕ)

pub record VersionSlot (Chain : Type 0) : Type 0 where
  pub chain : Chain
  pub expires_at : Option ℕ

-- The selector's name stands in the location that `VersionSelector` tells apart.
pub record VersionDispatch (Chain : Type 0) : Type 0 where
  pub location : VersionLocation
  pub name : Text
  pub default_version : Option Text
  pub versions : List (Text × VersionSlot Chain)

pub data DispatchError : Type 0 where
  bad_key : DispatchError
  no_chain : Text → DispatchError

-- The loop over the configured versions, which takes their chains out of the map.
unfoldable pub take_chains :
    {Chain : Type 0}
    → List (Text × Option ℕ)
    → List (Text × Chain)
    → List (Text × VersionSlot Chain)
    → Result (List (Text × VersionSlot Chain)) DispatchError
take_chains [] chains slots = ok slots
take_chains ((name, expires_at) ∷ versions) chains slots =
    ok_or (lookup name chains) (no_chain name) >>= λ chain.
    take_chains versions (remove name chains)
      (insert name (record { chain = chain; expires_at = expires_at }) slots)

abbrev pub selector_name : (Text → Option Text) → VersionLocation → Text → Result Text DispatchError
selector_name header_name header key = ok_or (header_name key) bad_key
selector_name header_name query_param key = ok key

unfoldable pub from_config :
    {Chain : Type 0}
    → (Text → Option Text)
    → VersioningConfig
    → List (Text × Chain)
    → Result (VersionDispatch Chain) DispatchError
from_config header_name config chains =
    selector_name header_name config.location config.key >>= λ name.
    take_chains config.versions chains [] >>= λ slots. ok (record {
      location = config.location;
      name = name;
      default_version = config.default_version;
      versions = slots;
    })

pub record VersionRequest : Type 0 where
  pub headers : HeaderMap
  pub query : Option Text

abbrev pub named_value : Text → Text → Option Text
named_value param pair =
    and_then (split_once 61 pair) λ (k, v). if text_eq k param then some (trim v) else none

abbrev pub some_name : Text → Option Text
some_name name = if is_empty name then none else some name

module _ (to_str : Text → Option Text) where
  abbrev pub carried : VersionLocation → Text → VersionRequest → Option Text
  carried header name req =
      and_then (get_header name req.headers) λ raw. and_then (to_str raw) λ value. some (trim value)
  carried query_param name req =
      and_then req.query λ query. find_map (named_value name) (split 38 query)

  -- The version that a request names, if it names one.
  unfoldable pub requested : VersionLocation → Text → VersionRequest → Option Text
  requested location name req = and_then (carried location name req) some_name

-- A 403 with its message, or the chain that the request goes to.
pub data Dispatch (Chain : Type 0) : Type 0 where
  rejected : Text → Dispatch Chain
  goes_to : Chain → Dispatch Chain

abbrev pub or_default : Option Text → Option Text → Option Text
or_default none default_version = default_version
or_default (some name) default_version = some name

module _ {Chain : Type 0} (to_str : Text → Option Text) where
  abbrev pub in_slot : ℕ → Option (VersionSlot Chain) → Dispatch Chain
  in_slot now none = rejected (codes "requested API version does not exist")
  in_slot now (some slot) =
      if reached slot.expires_at now
      then rejected (codes "requested API version has expired")
      else goes_to slot.chain

  abbrev pub by_name : ℕ → List (Text × VersionSlot Chain) → Option Text → Dispatch Chain
  by_name now slots none = rejected (codes "version information not found")
  by_name now slots (some name) = in_slot now (lookup name slots)

  unfoldable pub call : VersionDispatch Chain → ℕ → VersionRequest → Dispatch Chain
  call d now req =
      by_name now d.versions (or_default (requested to_str d.location d.name req) d.default_version)
