-- ===== src/Checksum/Crc.antt =====
-- crates/oxendb/src/storage/checksum/mod.rs: the tables and the portable loops.
use Prim.Native.Nat.{bit_and, bit_xor}
use oxen_db.Prelude.{ℕ, zero, suc, ◌/◌, ◌^◌, not, List, [], ◌∷◌, from_le_bytes, ◌==◌, if◌then◌else◌}

-- The reflected polynomial.
abbrev pub poly : ℕ
poly = 0x82F6_3B78

-- One round of the innermost loop of `build_tables`.
unfoldable pub crc_bit : ℕ → ℕ
crc_bit crc = if not (bit_and crc 1 == 0) then bit_xor (crc / 2) poly else crc / 2

unfoldable pub crc_bits : ℕ → ℕ → ℕ
crc_bits zero crc = crc
crc_bits (suc bits) crc = crc_bits bits (crc_bit crc)

-- `TABLES[0][i]`
unfoldable pub table_zero : ℕ → ℕ
unfolding crc_bits crc_bit
table_zero i = crc_bits 8 i

-- `TABLES[k][i]`, as the second loop of `build_tables` fills it.
unfoldable pub table : ℕ → ℕ → ℕ
table zero i = table_zero i
table (suc k) i = let prev = table k i in bit_xor (prev / 256) (table_zero (bit_and prev 0xFF))

unfoldable pub update_byte : ℕ → ℕ → ℕ
update_byte crc byte = bit_xor (table 0 (bit_and (bit_xor crc byte) 0xFF)) (crc / 256)

unfoldable pub update_bytewise : ℕ → List ℕ → ℕ
unfolding update_byte
update_bytewise crc [] = crc
update_bytewise crc (byte ∷ bytes) = update_bytewise (update_byte crc byte) bytes

-- One chunk of eight bytes.
unfoldable pub update_chunk : ℕ → (lo4 hi4 : List ℕ) → ℕ
update_chunk crc lo4 hi4 =
    let lo = bit_xor (from_le_bytes lo4) crc in
    let hi = from_le_bytes hi4 in
    let x7 = table 7 (bit_and lo 0xFF) in
    let x6 = bit_xor x7 (table 6 (bit_and (lo / 2 ^ 8) 0xFF)) in
    let x5 = bit_xor x6 (table 5 (bit_and (lo / 2 ^ 16) 0xFF)) in
    let x4 = bit_xor x5 (table 4 (lo / 2 ^ 24)) in
    let x3 = bit_xor x4 (table 3 (bit_and hi 0xFF)) in
    let x2 = bit_xor x3 (table 2 (bit_and (hi / 2 ^ 8) 0xFF)) in
    let x1 = bit_xor x2 (table 1 (bit_and (hi / 2 ^ 16) 0xFF)) in bit_xor x1 (table 0 (hi / 2 ^ 24))

-- `chunks_exact(8)`, then the remainder byte by byte.
unfoldable pub update_slice8 : ℕ → List ℕ → ℕ
unfolding update_chunk update_bytewise
update_slice8 crc (b0 ∷ b1 ∷ b2 ∷ b3 ∷ b4 ∷ b5 ∷ b6 ∷ b7 ∷ rest) =
    update_slice8 (update_chunk crc (b0 ∷ b1 ∷ b2 ∷ b3 ∷ []) (b4 ∷ b5 ∷ b6 ∷ b7 ∷ [])) rest
update_slice8 crc remainder = update_bytewise crc remainder

-- `Crc32c`: the state of a hasher.
abbrev pub start : ℕ
start = 0xFFFF_FFFF

-- `!state` on 32 bits
unfoldable pub finalize : ℕ → ℕ
finalize state = bit_xor state 0xFFFF_FFFF
