-- ===== src/Proxy/Health.antt =====
-- crates/g2-proxy/src/health.rs: what one probe's outcome does to the address that it probed.
--
-- The task that sleeps, probes and meets a swapped target set is left out: it applies this step to
-- each address of the set that it has probed.
pub mod Streaks
pub mod Tests
use g2way.Common.{ℕ, Bool, true, false, not, ◌&&◌, leb, if◌then◌else◌, saturating_add32}

pub record HealthCheckConfig : Type 0 where
  pub healthy_threshold : ℕ
  pub unhealthy_threshold : ℕ

pub record Streak : Type 0 where
  pub failures : ℕ
  pub successes : ℕ

-- The shared flag of an address with the streak that the task keeps of it.
pub record Address : Type 0 where
  pub healthy : Bool
  pub streak : Streak

-- `HealthState::new` and `Streak::default`.
pub fresh : Address
fresh = record { healthy = true; streak = record { failures = 0; successes = 0 } }

unfoldable pub record_outcome : HealthCheckConfig → Bool → Address → Address
record_outcome cfg true a =
    let successes = saturating_add32 a.streak.successes 1 in
    let streak = record a.streak { failures = 0; successes = successes } in
    record {
      healthy = (if not a.healthy && leb cfg.healthy_threshold successes then true else a.healthy);
      streak = streak;
    }
record_outcome cfg false a =
    let failures = saturating_add32 a.streak.failures 1 in
    let streak = record a.streak { failures = failures; successes = 0 } in
    record {
      healthy = (if a.healthy && leb cfg.unhealthy_threshold failures then false else a.healthy);
      streak = streak;
    }
