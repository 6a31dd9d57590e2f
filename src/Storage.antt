-- ===== src/Storage.antt =====
-- crates/g2-storage/src/lib.rs: the limit checks of the `Storage` trait, as its clients see them.
--
-- A duration and an instant are nanoseconds. The clock is an argument of every operation; an
-- operation returns its result and the new state of the store.
pub mod Memory
use g2way.Common.{ℕ, ◌*◌, Bool, Text, Result}

pub data StorageError : Type 0 where
  backend : Text → StorageError

pub record LimitDecision : Type 0 where
  pub allowed : Bool
  pub remaining : ℕ
  pub reset_after : ℕ

-- `Duration::from_secs`.
abbrev pub from_secs : ℕ → ℕ
from_secs n = n * 1000000000

-- The two checks that the rate limiter calls, over the state of some store.
pub record Limiter {ℓ} (S : Type ℓ) : Type ℓ where
  pub check_rate : (key : Text) (limit window now : ℕ) → S → Result LimitDecision StorageError × S
  pub check_quota : (key : Text) (max period now : ℕ) → S → Result LimitDecision StorageError × S
