-- ===== src/Proxy/Rotation.antt =====
-- crates/g2-proxy/src/forward.rs: the rotation over the addresses of a target set, and the flags of
-- crates/g2-proxy/src/health.rs that it reads.
--
-- The cursor is an argument, returned beside the address; other requests may move it in between. An
-- index out of range, which panics, is `none`.
pub mod Healthy
pub mod Tests
use g2way.Common.{
  ℕ, zero, suc, ◌+◌, ◌%◌, Bool, true, false, List, [], Option, none, some, ◌==◌, if◌then◌else◌,
  length, replicate, set, get_elem?, u64_mod,
}

pub record TargetSet (Addr : Type 0) : Type 0 where
  pub addrs : List Addr
  pub health : Option (List Bool)

-- `TargetSet::new` with `HealthState::new`.
pub new : {Addr : Type 0} → List Addr → Bool → TargetSet Addr
new addrs health_checked = record {
  addrs = addrs;
  health = (if health_checked then some (replicate (length addrs) true) else none);
}

-- `is_none_or(|health| health.is_healthy(index))`.
abbrev pub is_healthy : Option (List Bool) → ℕ → Option Bool
is_healthy none index = some true
is_healthy (some flags) index = get_elem? flags index

-- `HealthState::set_healthy`.
pub set_healthy : {Addr : Type 0} → ℕ → Bool → TargetSet Addr → TargetSet Addr
set_healthy index healthy s = record s {
  health = elim s.health [ none ↦ none | some flags ↦ some (set flags index healthy) ];
}

-- `fetch_add(1)` wraps.
abbrev pub bump : ℕ → ℕ
bump cursor = (cursor + 1) % u64_mod

-- The loop with `rounds` rounds left, and the plain rotation behind it.
unfoldable pub scan : Option (List Bool) → ℕ → ℕ → ℕ → Option (ℕ × ℕ)
scan health count zero cursor = some (cursor % count, bump cursor)
scan health count (suc rounds) cursor = elim (is_healthy health (cursor % count)) [
  | none ↦ none
  | some healthy ↦ elim healthy [
    | true ↦ some (cursor % count, bump cursor)
    | false ↦ scan health count rounds (bump cursor)
  ]
]

abbrev pub at_index : {Addr : Type 0} → List Addr → ℕ → ℕ → Option (Addr × ℕ)
at_index addrs index cursor = elim (get_elem? addrs index) [
  | none ↦ none
  | some addr ↦ some (addr, cursor)
]

-- A single address is taken without a look at its flag or a move of the cursor.
unfoldable pub next_addr : {Addr : Type 0} → TargetSet Addr → ℕ → Option (Addr × ℕ)
unfolding scan
next_addr s cursor =
    let count = length s.addrs in
    if count == 1 then at_index s.addrs 0 cursor else elim (scan s.health count count cursor) [
      | none ↦ none
      | some (index, cursor') ↦ at_index s.addrs index cursor'
    ]
