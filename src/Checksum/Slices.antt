-- ===== src/Checksum/Slices.antt =====
-- Slicing-by-8 computes what the byte-at-a-time loop computes.
use Prim.Native.Nat.{bit_xor}
use oxen_db.Prelude.{
  ℕ, suc, ◌+◌, ◌*◌, ◌/◌, ◌%◌, ◌^◌, ◌≡◌, refl, sym, ◌∙◌, ap, List, [], ◌∷◌, ◌++◌, length, All,
  IsByte, from_le_bytes, arith,
}
use oxen_db.Prelude.Bits.{xor-half, xor_comm, xor_assoc, xor-zero, xor_fields, and_mask}
use oxen_db.Checksum.Crc.{update_byte, update_bytewise, update_chunk, update_slice8}
use oxen_db.Checksum.Linear.{
  crc_byte, crc_byte_high, crc_bytes, crc_bytes-xor, crc_bytes-split, table-crc_bytes,
}

div_256 : (x : ℕ) → x / 256 ≡ x / 2 / 2 / 2 / 2 / 2 / 2 / 2 / 2
div_256 x = omega arith

xor-div_256 : (a b : ℕ) → bit_xor a b / 256 ≡ bit_xor (a / 256) (b / 256)
xor-div_256 a b =
    rw
      (
        div_256 (bit_xor a b),
        div_256 a,
        div_256 b,
        xor-half,
        xor-half,
        xor-half,
        xor-half,
        xor-half,
        xor-half,
        xor-half,
        xor-half,
      )
      refl

pub update_byte-crc_byte : (crc b : ℕ) → IsByte b → update_byte crc b ≡ crc_byte (bit_xor crc b)
unfolding update_byte
update_byte-crc_byte crc b h =
    let small : b / 256 ≡ 0 = omega arith in
    let high : bit_xor crc b / 256 ≡ crc / 256 =
      xor-div_256 crc b ∙ ap (bit_xor (crc / 256)) small ∙ xor-zero (crc / 256) in
    rw (and_mask 8 (bit_xor crc b), table-crc_bytes 0 (bit_xor crc b % 256), ← high)
      (sym (unfold crc_bytes in crc_bytes-split 0 (bit_xor crc b)))

-- Bytes that are fed one at a time, as one number.
pub update_bytewise-crc_bytes :
    (crc : ℕ) (bytes : List ℕ)
    → All IsByte bytes
    → update_bytewise crc bytes ≡ crc_bytes (length bytes) (bit_xor crc (from_le_bytes bytes))
unfolding update_bytewise crc_bytes from_le_bytes
update_bytewise-crc_bytes crc [] h = sym (xor-zero crc)
update_bytewise-crc_bytes crc (b ∷ bytes) h =
    let r = from_le_bytes bytes in
    let fields : b + 256 * r ≡ bit_xor b (r * 2 ^ 8) =
      omega (arith, xor_comm b (r * 2 ^ 8), xor_fields 8 r b h.0) in
    update_bytewise-crc_bytes (update_byte crc b) bytes h.1
    ∙ ap (crc_bytes (length bytes)) (
        rw (update_byte-crc_byte crc b h.0, fields, ← xor_assoc crc b (r * 2 ^ 8))
          (sym (crc_byte_high (bit_xor crc b) r)))

pub update_bytewise-append :
    (crc : ℕ) (xs ys : List ℕ)
    → update_bytewise crc (xs ++ ys) ≡ update_bytewise (update_bytewise crc xs) ys
unfolding update_bytewise
update_bytewise-append crc [] ys = refl
update_bytewise-append crc (x ∷ xs) ys = update_bytewise-append (update_byte crc x) xs ys

-- A 32-bit value taken apart into its bytes.
four_bytes :
    (n x : ℕ)
    → crc_bytes (suc (suc (suc (suc n)))) x
      ≡ bit_xor
          (bit_xor
            (bit_xor
              (crc_bytes (suc (suc (suc (suc n)))) (x % 256))
              (crc_bytes (suc (suc (suc n))) (x / 2 ^ 8 % 256)))
            (crc_bytes (suc (suc n)) (x / 2 ^ 16 % 256)))
          (crc_bytes (suc n) (x / 2 ^ 24))
four_bytes n x =
    let e16 : x / 256 / 256 ≡ x / 2 ^ 16 = omega arith in
    let e24 : x / 2 ^ 16 / 256 ≡ x / 2 ^ 24 = omega arith in
    crc_bytes-split (suc (suc (suc n))) x
    ∙ rw
        (
          crc_bytes-split (suc (suc n)) (x / 256),
          e16,
          crc_bytes-split (suc n) (x / 2 ^ 16),
          e24,
          ← xor_assoc,
          ← xor_assoc,
        )
        refl

update_chunk-crc_bytes :
    (crc : ℕ) (lo4 hi4 : List ℕ)
    → update_chunk crc lo4 hi4
      ≡ bit_xor (crc_bytes 8 (bit_xor (from_le_bytes lo4) crc)) (crc_bytes 4 (from_le_bytes hi4))
unfolding update_chunk
update_chunk-crc_bytes crc lo4 hi4 =
    let lo = bit_xor (from_le_bytes lo4) crc in
    let hi = from_le_bytes hi4 in
    rw (four_bytes 4 lo, four_bytes 0 hi) (simp (table-crc_bytes, and_mask 8, xor_assoc) refl)

chunk_agrees :
    (crc : ℕ) (lo4 hi4 : List ℕ)
    → length lo4 ≡ 4
    → length hi4 ≡ 4
    → All IsByte lo4
    → All IsByte hi4
    → update_chunk crc lo4 hi4 ≡ update_bytewise crc (lo4 ++ hi4)
chunk_agrees crc lo4 hi4 l h bl bh =
    update_chunk-crc_bytes crc lo4 hi4
    ∙ rw
        (
          update_bytewise-append crc lo4 hi4,
          update_bytewise-crc_bytes crc lo4 bl,
          update_bytewise-crc_bytes (crc_bytes (length lo4) (bit_xor crc (from_le_bytes lo4))) hi4
              bh,
          l,
          h,
          crc_bytes-xor 4,
          xor_comm crc (from_le_bytes lo4),
        )
        (unfold crc_bytes in refl)

-- On every list of bytes the eight-table loop and the byte-at-a-time loop leave the same state.
pub update_slice8-update_bytewise :
    (crc : ℕ) (bytes : List ℕ)
    → All IsByte bytes
    → update_slice8 crc bytes ≡ update_bytewise crc bytes
unfolding update_slice8
update_slice8-update_bytewise crc (b0 ∷ b1 ∷ b2 ∷ b3 ∷ b4 ∷ b5 ∷ b6 ∷ b7 ∷ rest)
      (h0, (h1, (h2, (h3, (h4, (h5, (h6, (h7, h)))))))) =
    let lo4 : List ℕ = b0 ∷ b1 ∷ b2 ∷ b3 ∷ [] in
    let hi4 : List ℕ = b4 ∷ b5 ∷ b6 ∷ b7 ∷ [] in
    update_slice8-update_bytewise (update_chunk crc lo4 hi4) rest h
    ∙ ap (λ (t : ℕ). update_bytewise t rest)
        (chunk_agrees crc lo4 hi4 refl refl (h0, (h1, (h2, (h3, tt)))) (h4, (h5, (h6, (h7, tt)))))
    ∙ sym (update_bytewise-append crc (lo4 ++ hi4) rest)
update_slice8-update_bytewise crc remainder h = refl
