-- ===== src/Base/Bits.antt =====
-- Single bits of a byte, by a table over all bytes: setting, clearing and testing.
use Prim.Native.Nat.{ℕ, zero, suc, ◌-◌, ◌/◌, ◌%◌, ◌^◌, ◌<◌, bit_and, bit_or}
use mathlib.Core.Path.{◌≡◌, refl}
use mathlib.Core.Bool.{Bool, true, ◌&&◌}
use native.Mathlib.Decide.{ℕ_discrete}
use native.Mathlib.Omega.{arith}
use risc_v_os.Base.Tests.{◌==◌, ==_iff, ltb, if◌then◌else◌}

-- `(w >> k) & 1`
abbrev pub bit : ℕ → ℕ → ℕ
bit w k = w / 2 ^ k % 2

-- `w | (1 << k)` and, on 32 bits, `w & ~(1 << k)`.
unfoldable pub set_bit : ℕ → ℕ → ℕ
set_bit w k = bit_or w (2 ^ k)

unfoldable pub clear_bit : ℕ → ℕ → ℕ
clear_bit w k = bit_and w (2 ^ 32 - 1 - 2 ^ k)

module _ (p : ℕ → Bool) where
  every : ℕ → Bool
  every zero = true
  every (suc last) = every last && p last

  every-at : (bound x : ℕ) → x < bound → every bound ≡ true → p x ≡ true
  unfolding every
  every-at zero x below checked = absurd (omega arith)
  every-at (suc last) x below checked = elim (ℕ_discrete x last) [
    | yes same ↦ ground arith
    | no other ↦ every-at last x (omega arith) (ground arith)
  ]

-- A property of a byte and two bit positions, checked at every value.
over_bytes : (ℕ → ℕ → ℕ → Bool) → Bool
unfolding every
over_bytes p = every (λ w. every (λ k. every (p w k) 8) 8) 256

over_bytes-at :
    (p : ℕ → ℕ → ℕ → Bool) (w k j : ℕ)
    → over_bytes p ≡ true
    → w < 256
    → k < 8
    → j < 8
    → p w k j ≡ true
unfolding over_bytes
over_bytes-at p w k j checked hw hk hj = every-at (p w k) 8 j hj (
    every-at (λ k. every (p w k) 8) 8 k hk
      (every-at (λ w. every (λ k. every (p w k) 8) 8) 256 w hw checked))

set_table : over_bytes (λ w k j. bit (set_bit w k) j == (if k == j then 1 else bit w j)) ≡ true
unfolding over_bytes set_bit
set_table = refl

clear_table : over_bytes (λ w k j. bit (clear_bit w k) j == (if k == j then 0 else bit w j)) ≡ true
unfolding over_bytes clear_bit
clear_table = refl

range_table : over_bytes (λ w k j. ltb (set_bit w k) 256 && ltb (clear_bit w k) 256) ≡ true
unfolding over_bytes set_bit clear_bit
range_table = refl

module _ (w k j : ℕ) (hw : w < 256) (hk : k < 8) (hj : j < 8) where
  pub bit-set_bit : bit (set_bit w k) j ≡ (if k == j then 1 else bit w j)
  bit-set_bit = (==_iff _ _).0 (over_bytes-at _ w k j set_table hw hk hj)

  pub bit-clear_bit : bit (clear_bit w k) j ≡ (if k == j then 0 else bit w j)
  bit-clear_bit = (==_iff _ _).0 (over_bytes-at _ w k j clear_table hw hk hj)

module _ (w k : ℕ) (hw : w < 256) (hk : k < 8) where
  both : (ltb (set_bit w k) 256 && ltb (clear_bit w k) 256) ≡ true
  both = over_bytes-at _ w k 0 range_table hw hk (omega arith)

  pub set_bit-lt : set_bit w k < 256
  set_bit-lt = ground (arith, both)

  pub clear_bit-lt : clear_bit w k < 256
  clear_bit-lt = ground (arith, both)
