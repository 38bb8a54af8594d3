-- ===== src/Wire/Bytes.antt =====
-- The length prefix.
use tapline.Base.{ℕ, ◌^◌, ◌<◌, ◌≡◌, refl, length, arith}
use tapline.Wire.{write_uint32_be, read_uint32_be}

pub length-write_uint32_be : (n : ℕ) → length (write_uint32_be n) ≡ 4
unfolding write_uint32_be
length-write_uint32_be n = refl

-- Reading back a written length gives the length, below 2 ^ 32.
pub read-write_uint32_be : (n : ℕ) → n < 2 ^ 32 → read_uint32_be (write_uint32_be n) ≡ n
unfolding read_uint32_be write_uint32_be
read-write_uint32_be n h = omega arith
