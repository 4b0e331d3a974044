-- ===== src/Base/Int.antt =====
-- Integers over the native numbers, and the 32-bit counter.
use Prim.Native.Nat.{ℕ, zero, suc, suc, ◌+◌, ◌-◌, ◌%◌, ◌^◌}

-- `negsuc n` is -(n + 1).
pub data ℤ : Type 0 where
  pos : ℕ → ℤ
  negsuc : ℕ → ℤ

-- An `int32_t` as its bit pattern.
abbrev pub int_mod : ℕ
int_mod = 2 ^ 32

abbrev pub incr : ℕ → ℕ
incr p = (p + 1) % int_mod

abbrev pub decr : ℕ → ℕ
decr p = (p + (int_mod - 1)) % int_mod

-- The bit pattern of an `int`, by which the maps with `int` keys are kept here.
abbrev pub int_key : ℤ → ℕ
int_key (pos n) = n % int_mod
int_key (negsuc n) = int_mod - 1 - n % int_mod

-- -n.
abbrev pub neg : ℕ → ℤ
neg zero = pos 0
neg (suc n) = negsuc n

abbrev pub pos_part : ℤ → ℕ
pos_part (pos n) = n
pos_part (negsuc n) = 0

abbrev pub neg_part : ℤ → ℕ
neg_part (pos n) = 0
neg_part (negsuc n) = suc n
