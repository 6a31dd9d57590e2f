-- ===== src/Proxy/Rotation/Tests.antt =====
-- The rotation of forward.rs at concrete inputs.
use g2way.Common.{ℕ, ◌≡◌, refl, true, false, [], ◌∷◌, some}
use g2way.Proxy.Rotation.{TargetSet, new, set_healthy, scan, next_addr}

rotation : Unit {0}
unfolding new set_healthy scan next_addr
rotation = tt

abbrev three : TargetSet ℕ
three = set_healthy 1 false (new (10 ∷ 11 ∷ 12 ∷ []) true)

-- The cursor 4 stands at the evicted address, so the next one is taken.
abbrev fresh_three : TargetSet ℕ
fresh_three = record { addrs = 10 ∷ 11 ∷ 12 ∷ []; health = some (true ∷ false ∷ true ∷ []) }

built : three ≡ fresh_three
unfolding rotation
built = refl

turns :
    (next_addr fresh_three 3 ≡ some (10, 4))
    × (next_addr fresh_three 4 ≡ some (12, 6))
    × (next_addr {Addr = ℕ} (record { addrs = 10 ∷ []; health = some (false ∷ []) }) 4
        ≡ some (10, 4))
unfolding rotation
turns = (refl, refl, refl)

-- Six addresses of which only the fifth is healthy: a scan that the cursor wraps in meets three of
-- them twice, and takes an evicted one.
abbrev fifth_of_six : TargetSet ℕ
fifth_of_six = record {
  addrs = 10 ∷ 11 ∷ 12 ∷ 13 ∷ 14 ∷ 15 ∷ [];
  health = some (false ∷ false ∷ false ∷ false ∷ true ∷ false ∷ []);
}

wrapped : next_addr fifth_of_six 18446744073709551613 ≡ some (13, 4)
unfolding rotation
wrapped = refl
