-- ===== src/Prelude/Ints.antt =====
-- Signed integers, and Rust's casts from them.
use Prim.Native.Nat.{ℕ, ◌-◌, ◌%◌, ◌^◌}

pub data ℤ : Type 0 where
  pos negsuc : ℕ → ℤ

-- `i as uw`: the `w` low bits of the two's complement of the integer
abbrev pub as_unsigned : ℕ → ℤ → ℕ
as_unsigned w (pos n) = n % 2 ^ w
as_unsigned w (negsuc n) = 2 ^ w - 1 - n % 2 ^ w
