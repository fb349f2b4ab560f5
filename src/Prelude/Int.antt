-- ===== src/Prelude/Int.antt =====
-- Signed integers over the native numbers, and the casts between `i8`, `i64` and `u64`.
use Prim.Native.Nat.{ℕ, suc, ◌+◌, ◌-◌, ◌%◌, ◌^◌}
use live_video.Prelude.Tests.{ltb, if◌then◌else◌}

-- `negsuc n` is -(n + 1).
pub data ℤ : Type 0 where
  pos : ℕ → ℤ
  negsuc : ℕ → ℤ

-- `x.max(0) as u64`.
abbrev pub pos_part : ℤ → ℕ
pos_part (pos n) = n
pos_part (negsuc n) = 0

-- `x as i8 as i64` of a `u8`.
abbrev pub as_i8 : ℕ → ℤ
as_i8 x = if ltb x 128 then pos x else negsuc (256 - x - 1)

-- `x as i64` of a `u64`.
abbrev pub as_i64 : ℕ → ℤ
as_i64 x = if ltb x (2 ^ 63) then pos x else negsuc (2 ^ 64 - x - 1)

-- `x as u64` of an `i64`.
abbrev pub as_u64 : ℤ → ℕ
as_u64 (pos n) = n
as_u64 (negsuc n) = 2 ^ 64 - suc n

-- The wrapping sum of two `i64`.
abbrev pub add_i64 : ℤ → ℤ → ℤ
add_i64 a b = as_i64 ((as_u64 a + as_u64 b) % 2 ^ 64)
