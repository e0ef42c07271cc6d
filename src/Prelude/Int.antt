-- ===== src/Prelude/Int.antt =====
-- Signed integers over the native numbers: `negsuc n` is -(n + 1). An `int32_t` is the integer
-- that it stands for, and `to_u32` its bit pattern.
use ua_5308_smtp.Prelude.{ℕ, ◌-◌, ◌%◌, ◌^◌, Bool, true, false, ltb}

pub data ℤ : Type 0 where
  pos : ℕ → ℤ
  negsuc : ℕ → ℤ

-- `z < 0`
abbrev pub is_neg : ℤ → Bool
is_neg (pos n) = false
is_neg (negsuc n) = true

-- `z < -2`
abbrev pub lt_minus_two : ℤ → Bool
lt_minus_two (pos n) = false
lt_minus_two (negsuc n) = ltb 1 n

-- `static_cast<uint32_t>(z)`
abbrev pub to_u32 : ℤ → ℕ
to_u32 (pos n) = n % 2 ^ 32
to_u32 (negsuc n) = (2 ^ 32 - 1) - n % 2 ^ 32
