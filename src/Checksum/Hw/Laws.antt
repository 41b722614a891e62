-- ===== src/Checksum/Hw/Laws.antt =====
-- Every processor computes the same checksum.
use Prim.Native.Nat.{bit_and, bit_xor}
use oxen_db.Prelude.{
  ℕ, zero, suc, ◌/◌, ◌^◌, ◌<◌, ◌≡◌, refl, sym, ◌∙◌, ap, List, [], ◌∷◌, ◌++◌, length, All,
  All-append, IsByte, IsU32, IsU64, from_le_bytes, arith, Bool-cases, inl, inr,
}
use oxen_db.Prelude.Bits.{xor-lt, and_mask}
use oxen_db.Checksum.{Checksum}
use oxen_db.Checksum.Crc.{
  poly, crc_bit, crc_bits, table, table_zero, update_byte, update_bytewise, start, finalize,
}
use oxen_db.Checksum.Linear.{crc_byte, crc_bytes}
use oxen_db.Checksum.Slices.{
  update_byte-crc_byte, update_bytewise-crc_bytes, update_bytewise-append,
  update_slice8-update_bytewise,
}
use oxen_db.Checksum.Hw.{Cpu, IsCrc32c, hw_remainder, hw_loop, hw_update, update, crc32c}

crc_bit-IsU32 : (x : ℕ) → IsU32 x → IsU32 (crc_bit x)
unfolding crc_bit
crc_bit-IsU32 x h = ground (arith, xor-lt 32 (x / 2) poly)

crc_bits-IsU32 : (n x : ℕ) → IsU32 x → IsU32 (crc_bits n x)
unfolding crc_bits
crc_bits-IsU32 zero x h = h
crc_bits-IsU32 (suc n) x h = crc_bits-IsU32 n (crc_bit x) (crc_bit-IsU32 x h)

update_byte-IsU32 : (crc b : ℕ) → IsU32 crc → IsU32 (update_byte crc b)
unfolding update_byte table table_zero
update_byte-IsU32 crc b h =
    let i = bit_and (bit_xor crc b) 255 in
    let small : i < 2 ^ 32 = omega (arith, and_mask 8 (bit_xor crc b)) in
    xor-lt 32 (crc_bits 8 i) (crc / 256) (crc_bits-IsU32 8 i small) (omega arith)

pub update_bytewise-IsU32 :
    (crc : ℕ) (bytes : List ℕ) → IsU32 crc → IsU32 (update_bytewise crc bytes)
unfolding update_bytewise
update_bytewise-IsU32 crc [] h = h
update_bytewise-IsU32 crc (b ∷ bytes) h =
    update_bytewise-IsU32 (update_byte crc b) bytes (update_byte-IsU32 crc b h)

finalize-IsU32 : (state : ℕ) → IsU32 state → IsU32 (finalize state)
unfolding finalize
finalize-IsU32 state h = xor-lt 32 state 0xFFFF_FFFF h (omega arith)

-- The checksum by the byte-at-a-time loop: the interface that the storage code is proved over.
unfoldable pub reference : List ℕ → ℕ
reference bytes = finalize (update_bytewise start bytes)

pub reference-IsU32 : (bytes : List ℕ) → IsU32 (reference bytes)
unfolding reference
reference-IsU32 bytes = finalize-IsU32 _ (update_bytewise-IsU32 start bytes (omega arith))

instance abbrev pub crc32c_checksum : Checksum
crc32c_checksum = record { crc32c = reference; crc32c-IsU32 = reference-IsU32 }

byte_rounds : (x : ℕ) → crc_bits 8 x ≡ crc_byte x
unfolding crc_byte
byte_rounds x = refl

word_rounds : (x : ℕ) → crc_bits 64 x ≡ crc_bytes 8 x
unfolding crc_bits crc_bytes crc_byte
word_rounds x = refl

module _ (cpu : Cpu) (laws : IsCrc32c cpu) where
  hw_remainder-update_bytewise :
      (crc : ℕ) (bytes : List ℕ)
      → IsU32 crc
      → All IsByte bytes
      → hw_remainder cpu crc bytes ≡ update_bytewise crc bytes
  unfolding hw_remainder update_bytewise
  hw_remainder-update_bytewise crc [] small h = refl
  hw_remainder-update_bytewise crc (b ∷ bytes) small h =
      ap (λ (t : ℕ). hw_remainder cpu t bytes)
        (laws.on_byte crc b small h.0
          ∙ byte_rounds (bit_xor crc b)
          ∙ sym (update_byte-crc_byte crc b h.0))
      ∙ hw_remainder-update_bytewise (update_byte crc b) bytes (update_byte-IsU32 crc b small) h.1

  word_of-IsU64 :
      (bytes : List ℕ) → length bytes ≡ 8 → All IsByte bytes → IsU64 (from_le_bytes bytes)
  unfolding from_le_bytes
  word_of-IsU64 (b0 ∷ b1 ∷ b2 ∷ b3 ∷ b4 ∷ b5 ∷ b6 ∷ b7 ∷ []) l h = omega arith
  word_of-IsU64 bytes l h = absurd (omega arith)

  word_agrees :
      (crc : ℕ) (bytes : List ℕ)
      → IsU32 crc
      → length bytes ≡ 8
      → All IsByte bytes
      → cpu.crc32_u64 crc (from_le_bytes bytes) ≡ update_bytewise crc bytes
  word_agrees crc bytes small l h =
      laws.on_word crc (from_le_bytes bytes) small (word_of-IsU64 bytes l h)
      ∙ word_rounds (bit_xor crc (from_le_bytes bytes))
      ∙ ap (λ (n : ℕ). crc_bytes n (bit_xor crc (from_le_bytes bytes))) (sym l)
      ∙ sym (update_bytewise-crc_bytes crc bytes h)

  hw_loop-update_bytewise :
      (crc : ℕ) (bytes : List ℕ)
      → IsU32 crc
      → All IsByte bytes
      → hw_loop cpu crc bytes ≡ update_bytewise crc bytes
  unfolding hw_loop
  hw_loop-update_bytewise crc (b0 ∷ b1 ∷ b2 ∷ b3 ∷ b4 ∷ b5 ∷ b6 ∷ b7 ∷ rest) small
        (h0, (h1, (h2, (h3, (h4, (h5, (h6, (h7, h)))))))) =
      let chunk : List ℕ = b0 ∷ b1 ∷ b2 ∷ b3 ∷ b4 ∷ b5 ∷ b6 ∷ b7 ∷ [] in
      rw (word_agrees crc chunk small refl (h0, (h1, (h2, (h3, (h4, (h5, (h6, (h7, tt))))))))) (
        hw_loop-update_bytewise (update_bytewise crc chunk) rest
          (update_bytewise-IsU32 crc chunk small) h)
      ∙ sym (update_bytewise-append crc chunk rest)
  hw_loop-update_bytewise crc remainder small h = hw_remainder-update_bytewise crc remainder small h

  -- With the processor's instructions or without them, an update leaves the state of the
  -- byte-at-a-time loop.
  pub update-update_bytewise :
      (state : ℕ) (bytes : List ℕ)
      → IsU32 state
      → All IsByte bytes
      → update cpu state bytes ≡ update_bytewise state bytes
  unfolding update
  update-update_bytewise state bytes small h = elim (Bool-cases cpu.detected) [
    | inl hw ↦ rw (hw, hw_update) (hw_loop-update_bytewise state bytes small h)
    | inr sw ↦ rw (sw, hw_update) (update_slice8-update_bytewise state bytes h)
  ]

  -- On every processor whose instructions do what their manuals say, and on one without them,
  -- bytes that arrive in two pieces give the state of the whole.
  pub update-append :
      (state : ℕ) (xs ys : List ℕ)
      → IsU32 state
      → All IsByte xs
      → All IsByte ys
      → update cpu (update cpu state xs) ys ≡ update cpu state (xs ++ ys)
  update-append state xs ys small hx hy =
      rw
        (
          update-update_bytewise state xs small hx,
          update-update_bytewise (update_bytewise state xs) ys
              (update_bytewise-IsU32 state xs small) hy,
          update-update_bytewise state (xs ++ ys) small (All-append IsByte xs ys hx hy),
        )
        (sym (update_bytewise-append state xs ys))

  -- On every processor whose instructions do what their manuals say, and on one without them,
  -- the checksum of a list of bytes is that of the byte-at-a-time loop.
  pub crc32c-reference :
      (bytes : List ℕ) → All IsByte bytes → crc32c cpu bytes ≡ crc32c_checksum.crc32c bytes
  unfolding crc32c reference
  crc32c-reference bytes h = ap finalize (update-update_bytewise start bytes (omega arith) h)
