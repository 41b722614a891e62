-- ===== src/Checksum/Hw.antt =====
-- crates/oxendb/src/storage/checksum/hw.rs and the hasher of mod.rs, which prefers the processor's
-- CRC32C instructions. The instructions are a parameter, with what their manuals say of them.
pub mod Laws
use Prim.Native.Nat.{bit_xor}
use oxen_db.Prelude.{
  ℕ, zero, suc, ◌^◌, ◌<◌, ◌≡◌, Bool, true, false, Option, none, some, List, [], ◌∷◌, IsByte, IsU32,
  IsU64, from_le_bytes,
}
use oxen_db.Checksum.Crc.{crc_bits, update_slice8, start, finalize}

-- `__crc32cb` and `__crc32cd` on ARMv8, `_mm_crc32_u8` and `_mm_crc32_u64` on x86-64.
pub record Cpu : Type 0 where
  pub detected : Bool
  pub crc32_u8 : ℕ → ℕ → ℕ
  pub crc32_u64 : ℕ → ℕ → ℕ

-- An instruction divides by the CRC32C polynomial, bit by bit.
pub record IsCrc32c (cpu : Cpu) : Type 0 where
  pub on_byte :
      (crc byte : ℕ)
      → IsU32 crc
      → IsByte byte
      → cpu.crc32_u8 crc byte ≡ crc_bits 8 (bit_xor crc byte)
  pub on_word :
      (crc word : ℕ)
      → IsU32 crc
      → IsU64 word
      → cpu.crc32_u64 crc word ≡ crc_bits 64 (bit_xor crc word)

module _ (cpu : Cpu) where
  unfoldable pub hw_remainder : ℕ → List ℕ → ℕ
  hw_remainder crc [] = crc
  hw_remainder crc (byte ∷ bytes) = hw_remainder (cpu.crc32_u8 crc byte) bytes

  -- `update_aarch64` and `update_x86_64`
  unfoldable pub hw_loop : ℕ → List ℕ → ℕ
  unfolding hw_remainder
  hw_loop crc (b0 ∷ b1 ∷ b2 ∷ b3 ∷ b4 ∷ b5 ∷ b6 ∷ b7 ∷ rest) =
      hw_loop (cpu.crc32_u64 crc (from_le_bytes (b0 ∷ b1 ∷ b2 ∷ b3 ∷ b4 ∷ b5 ∷ b6 ∷ b7 ∷ []))) rest
  hw_loop crc remainder = hw_remainder crc remainder

  -- `hw::update`
  unfoldable pub hw_update : ℕ → List ℕ → Option ℕ
  unfolding hw_loop
  hw_update crc bytes = elim cpu.detected [ true ↦ some (hw_loop crc bytes) | false ↦ none ]

  -- `Crc32c::update`, on the hasher's state
  unfoldable pub update : ℕ → List ℕ → ℕ
  unfolding hw_update update_slice8
  update state bytes = elim (hw_update state bytes) [
    | some state' ↦ state'
    | none ↦ update_slice8 state bytes
  ]

  unfoldable pub crc32c : List ℕ → ℕ
  unfolding update finalize
  crc32c bytes = finalize (update start bytes)
