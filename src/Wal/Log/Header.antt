-- ===== src/Wal/Log/Header.antt =====
-- The header of the log: what is written is read back, whatever follows it.
use oxen_db.Prelude.{
  ℕ, ◌≤◌, ◌≡◌, refl, ◌∙◌, ap, List, ◌++◌, length, drop, take, slice, splice, replicate,
  length-splice, slice-splice_self, read_le, write_le, length-write_le, read_le-write_le_self,
  drop-write_le, slice-write_le_before, length-replicate, read_le-drop_congr, length-append,
  length-drop, drop-append_le, read_le-write_le_before, take_of-append, take-append_le, IsU64, ltb,
  ==_refl, false, ok, arith,
}
use oxen_db.Checksum.{Checksum}
use oxen_db.FileHeader.Laws.{bytes_eq_refl}
use oxen_db.Wal.Log.{wal_magic, wal_format_version, wal_header_size, encode_header, decode_header}

-- The header before its checksum is stored.
header_fields : ℕ → List ℕ
header_fields first_seq =
    let h1 = splice 4 wal_magic (replicate wal_header_size 0) in
    let h2 = write_le 4 12 wal_format_version h1 in write_le 8 16 first_seq h2

record HasFields (first_seq : ℕ) (header : List ℕ) : Type 0 where
  size : length header ≡ wal_header_size
  magic_field : slice 4 8 header ≡ wal_magic
  version_field : read_le 4 12 header ≡ wal_format_version
  seq_field : read_le 8 16 header ≡ first_seq

header_fields-HasFields : (n : ℕ) → IsU64 n → HasFields n (header_fields n)
unfolding header_fields
header_fields-HasFields n fits =
    let h0 : List ℕ = replicate wal_header_size 0 in
    let h1 = splice 4 wal_magic h0 in
    let h2 = write_le 4 12 wal_format_version h1 in
    let l0 : length h0 ≡ wal_header_size = length-replicate wal_header_size 0 in
    let l1 : length h1 ≡ wal_header_size = length-splice 4 wal_magic h0 ∙ l0 in
    let l2 : length h2 ≡ wal_header_size = length-write_le 4 12 wal_format_version h1 ∙ l1 in
    record {
      size = length-write_le 8 16 n h2 ∙ l2;
      magic_field =
          slice-write_le_before 4 8 8 16 n h2 (omega arith)
          ∙ slice-write_le_before 4 8 4 12 wal_format_version h1 (omega arith)
          ∙ slice-splice_self 4 wal_magic h0 (omega (arith, l0));
      version_field =
          read_le-write_le_before 4 12 8 16 n h2 (omega arith)
          ∙ read_le-write_le_self 4 12 wal_format_version h1 (omega arith) (omega arith);
      seq_field = read_le-write_le_self 8 16 n h2 fits (omega arith);
    }

module _ ⦃c : Checksum⦄ (n : ℕ) (fits : IsU64 n) where
  sealed : encode_header n ≡ write_le 4 0 (c.crc32c (drop 4 (header_fields n))) (header_fields n)
  unfolding encode_header header_fields
  sealed = refl

  drop-sealed : (k : ℕ) → 4 ≤ k → drop k (encode_header n) ≡ drop k (header_fields n)
  drop-sealed k le =
      rw sealed (drop-write_le k 4 0 (c.crc32c (drop 4 (header_fields n))) (header_fields n) le)

  stored : read_le 4 0 (encode_header n) ≡ c.crc32c (drop 4 (header_fields n))
  stored =
      let f = (header_fields-HasFields n fits).size in
      rw sealed (
        read_le-write_le_self 4 0 (c.crc32c (drop 4 (header_fields n))) (header_fields n)
          (c.crc32c-IsU32 _) (omega arith))

  encode_header-HasFields : HasFields n (encode_header n)
  encode_header-HasFields =
      let f = header_fields-HasFields n fits in
      record {
        size = rw sealed (length-write_le 4 0 _ (header_fields n) ∙ f.size);
        magic_field = ap (take 8) (drop-sealed 4 (omega arith)) ∙ f.magic_field;
        version_field =
            read_le-drop_congr 4 12 _ _ (drop-sealed 12 (omega arith)) ∙ f.version_field;
        seq_field = read_le-drop_congr 8 16 _ _ (drop-sealed 16 (omega arith)) ∙ f.seq_field;
      }

  pub length-encode_header : length (encode_header n) ≡ 24
  length-encode_header = encode_header-HasFields.size

  magic_before : (rest : List ℕ) → slice 4 8 (encode_header n ++ rest) ≡ wal_magic
  magic_before rest =
      let f = encode_header-HasFields in
      let split : drop 4 (encode_header n ++ rest) ≡ drop 4 (encode_header n) ++ rest =
        drop-append_le 4 (encode_header n) rest (omega (arith, f.size)) in
      rw split (
        take-append_le 8 (drop 4 (encode_header n)) rest
          (omega (arith, f.size, length-drop 4 (encode_header n))))
      ∙ f.magic_field

  -- A first sequence number of 64 bits is read back, whatever follows the header.
  pub decode_header-encode_header : (rest : List ℕ) → decode_header (encode_header n ++ rest) ≡ ok n
  unfolding decode_header
  decode_header-encode_header rest =
      let f = encode_header-HasFields in
      let long : ltb (length (encode_header n ++ rest)) 24 ≡ false =
        ground (arith, length-append (encode_header n) rest, f.size) in
      rw
        (
          long,
          magic_before rest,
          bytes_eq_refl wal_magic,
          take_of-append 24 (encode_header n) rest f.size,
          stored,
          drop-sealed 4 (omega arith),
          ==_refl,
          f.version_field,
          f.seq_field,
        )
        refl
