-- ===== src/Prelude/Int.antt =====
-- Signed integers over the native numbers: the values of `int`.
use here_olp_edge_sdk_cpp.Prelude.Tests.{ltb, leb, if◌then◌else◌}
use Prim.Native.Nat.{ℕ, ◌+◌, ◌-◌, ◌%◌, ◌^◌}

-- `negsuc n` is -(n + 1).
pub data ℤ : Type 0 where
  pos : ℕ → ℤ
  negsuc : ℕ → ℤ

-- The conversions between `int` and `std::uint32_t`, modulo 2^32.
abbrev pub to_u32 : ℤ → ℕ
to_u32 (pos n) = n % 2 ^ 32
to_u32 (negsuc n) = 2 ^ 32 - 1 - n % 2 ^ 32

abbrev pub to_i32 : ℕ → ℤ
to_i32 w = if ltb w (2 ^ 31) then pos w else negsuc (2 ^ 32 - w - 1)

-- The sum and the difference of an integer and a number.
abbrev pub add_ℕ : ℤ → ℕ → ℤ
add_ℕ (pos n) m = pos (n + m)
add_ℕ (negsuc n) m = if ltb n m then pos (m - (n + 1)) else negsuc (n - m)

abbrev pub sub_ℕ : ℤ → ℕ → ℤ
sub_ℕ (pos n) m = if leb m n then pos (n - m) else negsuc (m - n - 1)
sub_ℕ (negsuc n) m = negsuc (n + m)
