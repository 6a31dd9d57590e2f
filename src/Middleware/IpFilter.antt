-- ===== src/Middleware/IpFilter.antt =====
-- crates/g2-middleware/src/ip_filter.rs: the allow and block lists of client addresses.
--
-- Addresses and networks are those of the standard library and of `ipnet`: `parse_ip_entry` (of
-- crates/g2-core/src/security.rs) over the parsers of a network and of an address, `to_canonical`
-- and `contains` are parameters.
pub mod Decision
pub mod Tests
use g2way.Common.{
  Bool, true, false, ◌&&◌, ◌||◌, List, [], Option, none, some, Text, if◌then◌else◌, any, is_empty,
  Result, ok, err, ◌>>=◌, collect,
}

pub record FilterState (Net : Type 0) : Type 0 where
  pub allow : List Net
  pub block : List Net

module _ {Net Ip : Type 0} (net_from_str : Text → Option Net) (ip_from_str : Text → Option Ip)
    (net_from : Ip → Net) where
  abbrev pub host_entry : Option Ip → Option Net
  host_entry none = none
  host_entry (some ip) = some (net_from ip)

  -- A network, or an address as the network of that address alone.
  pub parse_ip_entry : Text → Option Net
  parse_ip_entry entry = elim (net_from_str entry) [
    | some net ↦ some net
    | none ↦ host_entry (ip_from_str entry)
  ]

  -- The entry that is neither stands in the error.
  abbrev pub entry_or_err : Text → Option Net → Result Net Text
  entry_or_err entry none = err entry
  entry_or_err entry (some net) = ok net

  pub parse_list : List Text → Result (List Net) Text
  unfolding parse_ip_entry
  parse_list entries = collect (λ entry. entry_or_err entry (parse_ip_entry entry)) entries

  pub parse_lists : List Text → List Text → Result (FilterState Net) Text
  unfolding parse_list
  parse_lists allow block = do
    allow' ← parse_list allow
    block' ← parse_list block
    ok (record { allow = allow'; block = block' })

  pub from_config : List Text → List Text → Result (Option (FilterState Net)) Text
  unfolding parse_lists
  from_config allow block =
      if is_empty allow && is_empty block
      then ok none
      else parse_lists allow block >>= λ state. ok (some state)

module _ {Net Ip : Type 0} (to_canonical : Ip → Ip) (contains : Net → Ip → Bool) where
  pub permits : FilterState Net → Ip → Bool
  permits state ip =
      let ip' = to_canonical ip in
      if any (λ net. contains net ip') state.block
      then false
      else is_empty state.allow || any (λ net. contains net ip') state.allow

  -- Whether the request goes on: one without an address does not.
  pub call : FilterState Net → Option Ip → Bool
  unfolding permits
  call state none = false
  call state (some addr) = permits state addr
