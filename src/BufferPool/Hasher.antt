-- ===== src/BufferPool/Hasher.antt =====
-- `PageIdHasher`: the hash of a page id in the page table.
use Prim.Native.Nat.{bit_xor}
use oxen_db.Prelude.{ℕ, ◌+◌, ◌*◌, ◌/◌, ◌%◌, ◌^◌, ◌<◌, ◌≢◌, List, [], ◌∷◌, arith}
use oxen_db.Page.{PageId}

abbrev pub multiplier : ℕ
multiplier = 0x9E37_79B9_7F4A_7C15

-- `u64::rotate_left(5)`
unfoldable pub rotate_left_5 : ℕ → ℕ
rotate_left_5 x = (x * 2 ^ 5) % 2 ^ 64 + x / 2 ^ 59

-- The state after `write_u64`
unfoldable pub write_u64 : ℕ → ℕ
write_u64 value = (value * multiplier) % 2 ^ 64

unfoldable pub write : ℕ → List ℕ → ℕ
write state [] = state
write state (byte ∷ bytes) =
    write ((bit_xor (rotate_left_5 state) byte * multiplier) % 2 ^ 64) bytes

unfoldable pub finish : ℕ → ℕ
finish state = state

-- Distinct page ids of 64 bits have distinct hashes.
pub finish-write_u64-distinct :
    (a b : PageId) → a < 2 ^ 64 → b < 2 ^ 64 → a ≢ b → finish (write_u64 a) ≢ finish (write_u64 b)
unfolding finish write_u64
finish-write_u64-distinct a b small small' apart same = apart (omega arith)
