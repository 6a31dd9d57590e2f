-- ===== src/Proxy/Health/Tests.antt =====
-- The health of an address in health.rs at concrete inputs.
use g2way.Common.{◌≡◌, refl, true, false, [], ◌∷◌, arith}
use g2way.Proxy.Health.{HealthCheckConfig, fresh, record_outcome}
use g2way.Proxy.Health.Streaks.{run, run-in_rotation}

abbrev cfg : HealthCheckConfig
cfg = record { healthy_threshold = 2; unhealthy_threshold = 3 }

evicted :
    ((run cfg (false ∷ false ∷ true ∷ false ∷ false ∷ [])).healthy ≡ true)
    × ((run cfg (false ∷ false ∷ false ∷ [])).healthy ≡ false)
    × ((run cfg (true ∷ false ∷ false ∷ false ∷ [])).healthy ≡ false)
    × ((run cfg (true ∷ true ∷ false ∷ false ∷ false ∷ [])).healthy ≡ true)
unfolding fresh record_outcome
evicted = (refl, refl, refl, refl)

run-in_rotation_example : (run cfg (true ∷ false ∷ false ∷ false ∷ [])).healthy ≡ false
run-in_rotation_example =
    run-in_rotation cfg (true ∷ false ∷ false ∷ false ∷ []) (omega arith) (omega arith)
