-- ===== src/Tests/Sums.antt =====
-- The checksum theorems at concrete inputs.
use Prim.Native.Nat.{bit_xor}
use oxen_db.Prelude.{ℕ, ◌≡◌, refl, true, List, [], ◌∷◌, All, IsByte, from_le_bytes, arith}
use oxen_db.Checksum.Crc.{crc_bit, crc_bits, start, update_bytewise, update_slice8}
use oxen_db.Checksum.Slices.{update_slice8-update_bytewise}
use oxen_db.Checksum.Hw.{Cpu, IsCrc32c, crc32c}
use oxen_db.Checksum.Hw.Laws.{crc32c_checksum, crc32c-reference}

-- A processor with the instructions.
abbrev sse42 : Cpu
sse42 = record {
  detected = true;
  crc32_u8 = λ crc byte. crc_bits 8 (bit_xor crc byte);
  crc32_u64 = λ crc word. crc_bits 64 (bit_xor crc word);
}

sse42-IsCrc32c : IsCrc32c sse42
sse42-IsCrc32c = record { on_byte = λ crc byte _ _. refl; on_word = λ crc word _ _. refl }

-- "123456789"
abbrev digits : List ℕ
digits = 0x31 ∷ 0x32 ∷ 0x33 ∷ 0x34 ∷ 0x35 ∷ 0x36 ∷ 0x37 ∷ 0x38 ∷ 0x39 ∷ []

digits-IsByte : All IsByte digits
digits-IsByte = (
  omega arith,
  (
    omega arith,
    (
      omega arith,
      (omega arith, (omega arith, (omega arith, (omega arith, (omega arith, (omega arith, tt)))))),
    ),
  ),
)

-- The check value of CRC-32C.
check_value : crc32c sse42 digits ≡ 0xE306_9283
unfolding crc32c crc_bits crc_bit from_le_bytes
check_value = refl

update_slice8-update_bytewise_example : update_slice8 start digits ≡ update_bytewise start digits
update_slice8-update_bytewise_example = update_slice8-update_bytewise start digits digits-IsByte

crc32c-reference_example : crc32c sse42 digits ≡ crc32c_checksum.crc32c digits
crc32c-reference_example = crc32c-reference sse42 sse42-IsCrc32c digits digits-IsByte
