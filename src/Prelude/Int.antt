-- ===== src/Prelude/Int.antt =====
-- Integers over the native numbers, for what the code lets fall below zero: gauges, counts that a
-- caller passes, the tokens of a bucket.
use Prim.Native.Nat.{ℕ, suc, ◌+◌, ◌-◌, min}
use mathlib.Core.Bool.{Bool, false}
use ligp_v.Prelude.Tests.{if◌then◌else◌, leb}

-- `negsuc n` is -(n + 1).
pub data ℤ : Type 0 where
  pos : ℕ → ℤ
  negsuc : ℕ → ℤ

-- a - b
abbrev pub sub_ℕ : ℕ → ℕ → ℤ
sub_ℕ a b = if leb b a then pos (a - b) else negsuc (b - a - 1)

-- z + gain - loss
abbrev pub shift : ℤ → ℕ → ℕ → ℤ
shift (pos n) gain loss = sub_ℕ (n + gain) loss
shift (negsuc n) gain loss = sub_ℕ gain (suc n + loss)

-- The lesser of the two.
abbrev pub cap_ℤ : ℕ → ℤ → ℤ
cap_ℤ c (pos n) = pos (min c n)
cap_ℤ c (negsuc n) = negsuc n

-- n ≤ z
abbrev pub reached : ℕ → ℤ → Bool
reached n (pos m) = leb n m
reached n (negsuc m) = false

infixl 70 ◌+ℤ◌
unfoldable pub ◌+ℤ◌ : ℤ → ℤ → ℤ
pos a +ℤ pos b = pos (a + b)
pos a +ℤ negsuc b = if leb (suc b) a then pos (a - suc b) else negsuc (b - a)
negsuc a +ℤ pos b = if leb (suc a) b then pos (b - suc a) else negsuc (a - b)
negsuc a +ℤ negsuc b = negsuc (suc (a + b))
