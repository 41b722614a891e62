-- ===== src/Checksum/Linear.antt =====
-- The shift register is linear: the checksum of a sum is the sum of the checksums.
use Prim.Native.Nat.{bit_xor}
use native.Mathlib.Nat.{pow-suc}
use oxen_db.Prelude.{
  ℕ, zero, suc, ◌+◌, ◌*◌, ◌/◌, ◌%◌, ◌^◌, ◌≡◌, ◌⊎◌, inl, inr, refl, sym, ◌∙◌, ap, arith,
}
use oxen_db.Prelude.Bits.{
  xor-half, xor-parity, xor_comm, xor_assoc, xor_cancel, xor_swap, xor_fields, and_mask,
}
use oxen_db.Checksum.Crc.{poly, crc_bit, crc_bits, table_zero, table}

crc_bit_even : (x : ℕ) → x % 2 ≡ 0 → crc_bit x ≡ x / 2
unfolding crc_bit
crc_bit_even x h = ground (arith, and_mask 1 x)

crc_bit_odd : (x : ℕ) → x % 2 ≡ 1 → crc_bit x ≡ bit_xor (x / 2) poly
unfolding crc_bit
crc_bit_odd x h = ground (arith, and_mask 1 x)

parity : (x : ℕ) → (x % 2 ≡ 0) ⊎ (x % 2 ≡ 1)
parity x = omega arith

crc_bit-xor : (a b : ℕ) → crc_bit (bit_xor a b) ≡ bit_xor (crc_bit a) (crc_bit b)
crc_bit-xor a b = go (parity a) (parity b)
  where
    p : bit_xor a b % 2 ≡ (a % 2 + b % 2) % 2
    p = xor-parity a b

    go :
        (a % 2 ≡ 0) ⊎ (a % 2 ≡ 1)
        → (b % 2 ≡ 0) ⊎ (b % 2 ≡ 1)
        → crc_bit (bit_xor a b) ≡ bit_xor (crc_bit a) (crc_bit b)
    go (inl ea) (inl eb) =
        rw (crc_bit_even (bit_xor a b) (omega (arith, p)), crc_bit_even a ea, crc_bit_even b eb)
          (xor-half a b)
    go (inl ea) (inr ob) =
        rw
          (
            crc_bit_odd (bit_xor a b) (omega (arith, p)),
            crc_bit_even a ea,
            crc_bit_odd b ob,
            xor-half a b,
          )
          (xor_assoc (a / 2) (b / 2) poly)
    go (inr oa) (inl eb) =
        rw
          (
            crc_bit_odd (bit_xor a b) (omega (arith, p)),
            crc_bit_odd a oa,
            crc_bit_even b eb,
            xor-half a b,
          )
          (xor_swap (a / 2) (b / 2) poly)
    go (inr oa) (inr ob) =
        rw
          (
            crc_bit_even (bit_xor a b) (omega (arith, p)),
            crc_bit_odd a oa,
            crc_bit_odd b ob,
            xor-half a b,
          )
          (sym (xor_cancel (a / 2) (b / 2) poly))

pub crc_bits-xor : (n a b : ℕ) → crc_bits n (bit_xor a b) ≡ bit_xor (crc_bits n a) (crc_bits n b)
unfolding crc_bits
crc_bits-xor zero a b = refl
crc_bits-xor (suc n) a b = rw (crc_bit-xor a b) (crc_bits-xor n (crc_bit a) (crc_bit b))

-- Shifting a byte of zeros out.
shift_out : (n h : ℕ) → crc_bits n (h * 2 ^ n) ≡ h
unfolding crc_bits
shift_out zero h = omega arith
shift_out (suc n) h =
    let double : h * 2 ^ suc n ≡ 2 * (h * 2 ^ n) =
      omega (arith, ap (λ (t : ℕ). h * t) (pow-suc 2 n)) in
    let half : h * 2 ^ suc n / 2 ≡ h * 2 ^ n = omega (arith, double) in
    rw (crc_bit_even (h * 2 ^ suc n) (omega (arith, double)), half) (shift_out n h)

-- Eight rounds: the low byte goes through the table, the rest moves down.
unfoldable pub crc_byte : ℕ → ℕ
crc_byte x = crc_bits 8 x

pub crc_byte-xor : (a b : ℕ) → crc_byte (bit_xor a b) ≡ bit_xor (crc_byte a) (crc_byte b)
unfolding crc_byte
crc_byte-xor a b = crc_bits-xor 8 a b

pub crc_byte-split : (x : ℕ) → crc_byte x ≡ bit_xor (crc_byte (x % 256)) (x / 256)
unfolding crc_byte
crc_byte-split x =
    let fields : bit_xor (x % 256) (x / 256 * 2 ^ 8) ≡ x =
      xor_comm (x % 256) (x / 256 * 2 ^ 8)
      ∙ xor_fields 8 (x / 256) (x % 256) (omega arith)
      ∙ omega arith in
    ap (crc_bits 8) (sym fields)
    ∙ crc_bits-xor 8 (x % 256) (x / 256 * 2 ^ 8)
    ∙ ap (bit_xor (crc_bits 8 (x % 256))) (shift_out 8 (x / 256))

-- A value that a new high part does not reach.
pub crc_byte_high : (a r : ℕ) → crc_byte (bit_xor a (r * 2 ^ 8)) ≡ bit_xor (crc_byte a) r
crc_byte_high a r =
    crc_byte-xor a (r * 2 ^ 8) ∙ ap (bit_xor (crc_byte a)) (unfold crc_byte in shift_out 8 r)

pub table_zero-crc_byte : (i : ℕ) → table_zero i ≡ crc_byte i
unfolding crc_byte table_zero
table_zero-crc_byte i = refl

-- `n` bytes of zeros.
unfoldable pub crc_bytes : ℕ → ℕ → ℕ
crc_bytes zero x = x
crc_bytes (suc n) x = crc_bytes n (crc_byte x)

pub crc_bytes-xor :
    (n a b : ℕ) → crc_bytes n (bit_xor a b) ≡ bit_xor (crc_bytes n a) (crc_bytes n b)
unfolding crc_bytes
crc_bytes-xor zero a b = refl
crc_bytes-xor (suc n) a b = rw (crc_byte-xor a b) (crc_bytes-xor n (crc_byte a) (crc_byte b))

pub crc_bytes-suc : (n x : ℕ) → crc_bytes (suc n) x ≡ crc_byte (crc_bytes n x)
unfolding crc_bytes
crc_bytes-suc zero x = refl
crc_bytes-suc (suc n) x = crc_bytes-suc n (crc_byte x)

pub crc_bytes-split :
    (n x : ℕ) → crc_bytes (suc n) x ≡ bit_xor (crc_bytes (suc n) (x % 256)) (crc_bytes n (x / 256))
unfolding crc_bytes
crc_bytes-split n x =
    ap (crc_bytes n) (crc_byte-split x) ∙ crc_bytes-xor n (crc_byte (x % 256)) (x / 256)

-- `TABLES[k][i]` is the contribution of the byte `i` followed by `k` zero bytes.
pub table-crc_bytes : (k i : ℕ) → table k i ≡ crc_bytes (suc k) i
unfolding table
table-crc_bytes zero i = table_zero-crc_byte i ∙ (unfold crc_bytes in refl)
table-crc_bytes (suc k) i =
    rw (table-crc_bytes k i, and_mask 8 (crc_bytes (suc k) i), table_zero-crc_byte)
      (xor_comm (crc_bytes (suc k) i / 256) (crc_byte (crc_bytes (suc k) i % 256))
        ∙ sym (crc_byte-split (crc_bytes (suc k) i))
        ∙ sym (crc_bytes-suc (suc k) i))
