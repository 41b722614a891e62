-- ===== src/Wal/Record.antt =====
-- crates/oxendb/src/storage/wal/record.rs: encoding and decoding of one record.
pub mod Encode
pub mod Decode
use oxen_db.Prelude.{
  ℕ, zero, suc, ◌+◌, ◌≡◌, Bool, true, false, ◌&&◌, ◌||◌, not, List, [], ◌∷◌, ◌++◌, length, drop,
  take, get_or, read_le, write_le, to_le_bytes, ltb, ◌==◌, if◌then◌else◌, IsU64,
}
use oxen_db.Checksum.{Checksum}
use oxen_db.Page.{Page, PageId, IsPage, page_size}

abbrev pub record_header_size : ℕ
record_header_size = 25

abbrev pub page_image_len : ℕ
page_image_len = record_header_size + 8 + page_size

abbrev pub commit_len : ℕ
commit_len = record_header_size

abbrev pub type_page_image : ℕ
type_page_image = 1

abbrev pub type_commit : ℕ
type_commit = 2

-- `TxnId(u64)`
abbrev pub TxnId : Type 0
TxnId = ℕ

pub data WalRecord : Type 0 where
  page_image : TxnId → PageId → Page → WalRecord
  commit : TxnId → WalRecord

pub record DecodedRecord : Type 0 where
  pub seq : ℕ
  pub wal_record : WalRecord
  pub len : ℕ

pub data DecodeError : Type 0 where
  incomplete invalid : DecodeError

pub data Decoded : Type 0 where
  ok : DecodedRecord → Decoded
  err : DecodeError → Decoded

unfoldable pub txn_of : WalRecord → TxnId
txn_of (page_image txn page_id page) = txn
txn_of (commit txn) = txn

unfoldable pub len_of : WalRecord → ℕ
len_of (page_image txn page_id page) = page_image_len
len_of (commit txn) = commit_len

unfoldable pub type_of : WalRecord → ℕ
type_of (page_image txn page_id page) = type_page_image
type_of (commit txn) = type_commit

-- What a page image has behind the common fields.
unfoldable pub body_of : WalRecord → List ℕ
body_of (page_image txn page_id page) = to_le_bytes 8 page_id ++ page
body_of (commit txn) = []

-- The integers of a record fit their fields, and its page is a page.
abbrev pub IsRecord : WalRecord → Type 0
IsRecord (page_image txn page_id page) = IsU64 txn × IsU64 page_id × IsPage page
IsRecord (commit txn) = IsU64 txn

module _ ⦃c : Checksum⦄ where
  -- `encode`: the record is appended to `out`, with its checksum filled in at the end.
  unfoldable pub encode : WalRecord → ℕ → List ℕ → List ℕ
  unfolding len_of type_of txn_of body_of
  encode r seq out =
      let start = length out in
      let o1 = out ++ to_le_bytes 4 (len_of r) in
      let o2 = o1 ++ (0 ∷ 0 ∷ 0 ∷ 0 ∷ []) in
      let o3 = o2 ++ to_le_bytes 8 seq in
      let o4 = o3 ++ (type_of r ∷ []) in
      let o5 = o4 ++ to_le_bytes 8 (txn_of r) in
      let o6 = o5 ++ body_of r in write_le 4 (start + 4) (c.crc32c (drop (start + 8) o6)) o6

  -- The `match (bytes[16], len)` of `decode`, on the record's own bytes.
  unfoldable pub decode_body : List ℕ → ℕ → Decoded
  decode_body bytes len =
      let seq = read_le 8 8 bytes in
      let txn = read_le 8 17 bytes in
      if get_or bytes 16 0 == type_page_image && len == page_image_len
      then ok (record {
        seq = seq;
        wal_record =
            page_image txn (read_le 8 record_header_size bytes)
              (drop (record_header_size + 8) bytes);
        len = len;
      })
      else if get_or bytes 16 0 == type_commit && len == commit_len
      then ok (record { seq = seq; wal_record = commit txn; len = len })
      else err invalid

  unfoldable pub decode : List ℕ → Decoded
  decode buf =
      if ltb (length buf) 4
      then err incomplete
      else let len = read_le 4 0 buf in
        if not (len == page_image_len) && not (len == commit_len)
        then err invalid
        else if ltb (length buf) len
        then err incomplete
        else let bytes = take len buf in
          if not (read_le 4 4 bytes == c.crc32c (drop 8 bytes))
          then err invalid
          else decode_body bytes len
