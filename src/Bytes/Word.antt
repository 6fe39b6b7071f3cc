-- ===== src/Bytes/Word.antt =====
-- The 32-bit chunk index of a FILE_CHUNK frame.
use tele.Prelude.{ℕ, ◌^◌, ◌<◌, ◌≡◌, ◌++◌, arith}
use tele.Bytes.{Bytes, u32_le, get_u32_le}

-- Whatever follows it, an index below 2^32 is read back as it was written.
pub get_u32_le-u32_le : (n : ℕ) (rest : Bytes) → n < 2 ^ 32 → get_u32_le (u32_le n ++ rest) ≡ n
unfolding u32_le get_u32_le
get_u32_le-u32_le n rest h = omega arith
