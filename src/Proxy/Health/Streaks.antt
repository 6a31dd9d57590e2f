-- ===== src/Proxy/Health/Streaks.antt =====
-- The flag of an address in health.rs, against the list of all outcomes of its probes.
use g2way.Common.{
  ℕ, suc, ◌≡◌, refl, ◌≤◌, Bool, true, false, List, [], ◌∷◌, arith, leb, if◌then◌else◌, u32_max, min,
}
use g2way.Proxy.Health.{HealthCheckConfig, Address, fresh, record_outcome}

-- The outcomes of an address are listed newest first.
abbrev pub run : HealthCheckConfig → List Bool → Address
run cfg [] = fresh
run cfg (outcome ∷ outcomes) = record_outcome cfg outcome (run cfg outcomes)

-- How many of the latest outcomes are the same as the last one.
abbrev pub latest_run : Bool → List Bool → ℕ
latest_run b [] = 0
latest_run true (true ∷ outcomes) = suc (latest_run true outcomes)
latest_run true (false ∷ outcomes) = 0
latest_run false (false ∷ outcomes) = suc (latest_run false outcomes)
latest_run false (true ∷ outcomes) = 0

-- The specification: enough outcomes in a row set the flag, fewer leave it.
abbrev pub in_rotation : HealthCheckConfig → List Bool → Bool
in_rotation cfg [] = true
in_rotation cfg (true ∷ outcomes) =
    let before = in_rotation cfg outcomes in
    if leb cfg.healthy_threshold (latest_run true (true ∷ outcomes)) then true else before
in_rotation cfg (false ∷ outcomes) =
    let before = in_rotation cfg outcomes in
    if leb cfg.unhealthy_threshold (latest_run false (false ∷ outcomes)) then false else before

run_lem :
    (cfg : HealthCheckConfig) (outcomes : List Bool)
    → cfg.healthy_threshold ≤ u32_max
    → cfg.unhealthy_threshold ≤ u32_max
    → ((run cfg outcomes).healthy ≡ in_rotation cfg outcomes)
      × ((run cfg outcomes).streak.failures ≡ min (latest_run false outcomes) u32_max)
      × ((run cfg outcomes).streak.successes ≡ min (latest_run true outcomes) u32_max)
unfolding fresh record_outcome
run_lem cfg [] h u = (refl, refl, refl)
run_lem cfg (true ∷ outcomes) h u = ground (arith, run_lem cfg outcomes h u)
run_lem cfg (false ∷ outcomes) h u = ground (arith, run_lem cfg outcomes h u)

-- Whatever the outcomes of its probes were, an address that started in the rotation is in it
-- exactly if the specification says so: it is evicted by the configured number of failures in a
-- row, and reinstated by the configured number of successes in a row, and by nothing else.
pub run-in_rotation :
    (cfg : HealthCheckConfig) (outcomes : List Bool)
    → cfg.healthy_threshold ≤ u32_max
    → cfg.unhealthy_threshold ≤ u32_max
    → (run cfg outcomes).healthy ≡ in_rotation cfg outcomes
run-in_rotation cfg outcomes h u = (run_lem cfg outcomes h u).0
