-- ===== src/Base/Int.antt =====
-- Go's signed integers over the native numbers.
use Prim.Native.Nat.{ℕ, zero, suc, ◌-◌, ◌^◌}
use mathlib.Core.Bool.{Bool, true, false}
use procfs.Base.Lists.{ltb, ◌!=◌, if◌then◌else◌}

-- `negsuc n` is -(n + 1).
pub data ℤ : Type 0 where
  pos : ℕ → ℤ
  negsuc : ℕ → ℤ

-- -n
abbrev pub neg : ℕ → ℤ
neg zero = pos 0
neg (suc n) = negsuc n

-- `int(u)` of a uint64: the two's complement of 64 bits.
abbrev pub int_of_uint64 : ℕ → ℤ
int_of_uint64 u = if ltb u (2 ^ 63) then pos u else neg (2 ^ 64 - u)

infix 50 ◌<ℤ◌ ◌!=ℤ◌
abbrev pub ◌<ℤ◌ : ℤ → ℤ → Bool
pos a <ℤ pos b = ltb a b
pos a <ℤ negsuc b = false
negsuc a <ℤ pos b = true
negsuc a <ℤ negsuc b = ltb b a

abbrev pub ◌!=ℤ◌ : ℤ → ℤ → Bool
pos a !=ℤ pos b = a != b
negsuc a !=ℤ negsuc b = a != b
_ !=ℤ _ = true
