-- ===== src/FileHeader.antt =====
-- crates/oxendb/src/storage/file_header.rs: the database header stored in page 0.
pub mod Laws
use oxen_db.Prelude.{
  ℕ, zero, suc, ◌^◌, ◌≡◌, Bool, true, false, ◌&&◌, not, List, [], ◌∷◌, drop, slice, splice, read_le,
  write_le, ◌==◌, Error, corruption, unsupported_format, Result, ok, err, guard, ◌>>=◌, ◌>>◌,
}
use oxen_db.Checksum.{Checksum}
use oxen_db.Page.{Page, page_size, zeroed}

-- `b"oxenDB\0\0"`
abbrev pub magic : List ℕ
magic = b'o' ∷ b'x' ∷ b'e' ∷ b'n' ∷ b'D' ∷ b'B' ∷ 0 ∷ 0 ∷ []

abbrev pub format_version : ℕ
format_version = 1

pub record FileHeader : Type 0 where
  pub page_count : ℕ

unfoldable pub new : FileHeader
new = record { page_count = 1 }

-- Equality of byte slices.
unfoldable pub bytes_eq : List ℕ → List ℕ → Bool
bytes_eq [] [] = true
bytes_eq [] (b ∷ bs) = false
bytes_eq (a ∷ as') [] = false
bytes_eq (a ∷ as') (b ∷ bs) = a == b && bytes_eq as' bs

-- The fields of the header, before the checksum is stored.
unfoldable pub encode_fields : FileHeader → Page
encode_fields header =
    let b1 = splice 4 magic zeroed in
    let b2 = write_le 4 12 format_version b1 in
    let b3 = write_le 4 16 page_size b2 in write_le 8 20 header.page_count b3

module _ ⦃c : Checksum⦄ where
  unfoldable pub encode : FileHeader → Page
  unfolding encode_fields
  encode header = let bytes = encode_fields header in write_le 4 0 (c.crc32c (drop 4 bytes)) bytes

  unfoldable pub decode : Page → Result FileHeader
  decode bytes = do
    guard (bytes_eq (slice 4 8 bytes) magic) unsupported_format
    guard (read_le 4 0 bytes == c.crc32c (drop 4 bytes)) corruption
    guard (read_le 4 12 bytes == format_version) unsupported_format
    guard (read_le 4 16 bytes == page_size) unsupported_format
    let page_count = read_le 8 20 bytes
    guard (not (page_count == 0)) corruption
    ok (record { page_count = page_count })
