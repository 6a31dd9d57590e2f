-- ===== src/Common/Machine.antt =====
-- Machine integers: the moduli, saturating addition and the bounds that the proofs use.
use Prim.Native.Nat.{ℕ, ◌+◌, ◌-◌, ◌^◌, min}

abbrev pub u32_mod : ℕ
u32_mod = 2 ^ 32

abbrev pub u64_mod : ℕ
u64_mod = 2 ^ 64

abbrev pub u32_max : ℕ
u32_max = u32_mod - 1

abbrev pub u64_max : ℕ
u64_max = u64_mod - 1

-- `u32::saturating_add` and `u64::saturating_add`.
abbrev pub saturating_add32 : ℕ → ℕ → ℕ
saturating_add32 a b = min (a + b) u32_max

abbrev pub saturating_add64 : ℕ → ℕ → ℕ
saturating_add64 a b = min (a + b) u64_max

-- A signed integer; `negsuc n` is -(n + 1).
pub data ℤ : Type 0 where
  pos : ℕ → ℤ
  negsuc : ℕ → ℤ
