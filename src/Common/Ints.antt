-- ===== src/Common/Ints.antt =====
-- Whole numbers of either sign, over the native numbers, and the tests the code makes on them.
use Prim.Native.Nat.{ℕ, zero, suc}
use mathlib.Core.Bool.{Bool, true, false}
use maids_claw.Common.{ltb, leb}

pub data ℤ : Type 0 where
  pos : ℕ → ℤ
  negsuc : ℕ → ℤ

-- `n <= z`
abbrev pub at_most : ℕ → ℤ → Bool
at_most n (pos m) = leb n m
at_most n (negsuc m) = false

-- `n > z`
abbrev pub above : ℕ → ℤ → Bool
above n (pos m) = ltb m n
above n (negsuc m) = true

-- `z <= 0`
abbrev pub not_positive : ℤ → Bool
not_positive (pos zero) = true
not_positive (pos (suc m)) = false
not_positive (negsuc m) = true

-- `z >= 0`
abbrev pub not_negative : ℤ → Bool
not_negative (pos m) = true
not_negative (negsuc m) = false
