-- ===== src/Base/Int.antt =====
-- The `int` values that a comparison returns, over the native numbers.
use Prim.Native.Nat.{ℕ, ◌-◌}
use mathlib.Core.Path.{◌≡◌}
use mathlib.Core.Logic.{◌↔◌}
use native.Mathlib.Omega.{arith}
use risc_v_os.Base.Tests.{leb, if◌then◌else◌}

-- `negsuc n` is -(n + 1).
pub data ℤ : Type 0 where
  pos : ℕ → ℤ
  negsuc : ℕ → ℤ

-- `a - b` of two unsigned bytes.
abbrev pub byte_difference : ℕ → ℕ → ℤ
byte_difference a b = if leb b a then pos (a - b) else negsuc (b - a - 1)

pub byte_difference-zero : (a b : ℕ) → (byte_difference a b ≡ pos 0) ↔ (a ≡ b)
byte_difference-zero a b = ground arith
