-- ===== src/Proxy/Rotation/Healthy.antt =====
-- The rotation of forward.rs finds a healthy address where there is one.
use g2way.Common.{
  ℕ, ◌+◌, ◌-◌, ◌%◌, ◌≡◌, ◌⊎◌, ◌<◌, Bool, true, false, List, Option, none, some, length,
}
use g2way.Proxy.Rotation.{TargetSet, is_healthy, scan}

-- The flags, where there are any, are as many as the addresses.
abbrev pub IsTargetSet : {Addr : Type 0} → TargetSet Addr → Type 0
IsTargetSet s =
    (s.health ≡ none)
    ⊎ ((flags : List Bool) × (s.health ≡ some flags) × (length flags ≡ length s.addrs))

-- The round in which a cursor meets an index.
round_of : ℕ → ℕ → ℕ → ℕ
round_of count cursor j = (j + (count - cursor % count)) % count

module _ (health : Option (List Bool)) (count : ℕ) where
  -- What a scan of some rounds finds: a healthy index, or every index that it met is evicted.
  abbrev Found : ℕ → ℕ → Type 0
  Found rounds cursor =
      (index : ℕ) × (cursor' : ℕ) × (scan health count rounds cursor ≡ some (index, cursor'))
      × (index < count)
      × ((is_healthy health index ≡ some true)
          ⊎ ((i : ℕ) → i < rounds → is_healthy health ((cursor + i) % count) ≡ some false))
