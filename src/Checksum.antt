-- ===== src/Checksum.antt =====
-- crates/oxendb/src/storage/checksum: CRC32C, and what the storage code takes from it.
pub mod Crc
pub mod Linear
pub mod Slices
pub mod Hw
use oxen_db.Prelude.{ℕ, List, IsU32}

-- The function `crc32c`, with what its clients rely on.
pub record Checksum : Type 0 where
  pub crc32c : List ℕ → ℕ
  pub crc32c-IsU32 : (bytes : List ℕ) → IsU32 (crc32c bytes)
