-- ===== src/Tests/Pages.antt =====
-- The theorems on pages and the header page at concrete inputs.
use oxen_db.Prelude.{
  ℕ, ◌≡◌, ◌≢◌, ◌↔◌, [], ◌∷◌, drop, slice, read_le, length-replicate, ok, err, guard, ◌>>=◌, ◌>>◌,
  corruption, if◌then◌else◌, ◌==◌, arith,
}
use oxen_db.Checksum.Hw.Laws.{crc32c_checksum}
use oxen_db.Page.{
  Page, IsPage, zeroed, new, heap, set_lsn, write_payload, seal, verify, decode_header, page_size,
}
use oxen_db.Page.Laws.{verify-seal, verify-seal-new}
use oxen_db.FileHeader
use oxen_db.FileHeader.{FileHeader, magic, format_version}
use oxen_db.FileHeader.Laws.{decode-encode, decode-ok_iff}

zeroed-IsPage : IsPage zeroed
unfolding zeroed
zeroed-IsPage = length-replicate 4096 0

verify-seal_example :
    verify (seal zeroed) 3
    ≡ (decode_header zeroed >>= λ header. guard (header.page_id == 3) corruption >> ok header)
verify-seal_example = verify-seal zeroed 3 zeroed-IsPage

-- A page as a transaction fills it.
abbrev filled : Page
filled = write_payload 10 (1 ∷ 2 ∷ 3 ∷ []) (set_lsn 8 (new 3 heap))

filled_header : verify (seal filled) 3 ≡ ok (record { page_type = heap; page_id = 3; lsn = 8 })
filled_header = verify-seal-new heap 3 8 10 (1 ∷ 2 ∷ 3 ∷ []) (omega arith) (omega arith)

abbrev three : ℕ
three = 3

decode-encode_example :
    FileHeader.decode (FileHeader.encode (record { page_count = 7 }))
    ≡ (if 7 == 0 then err corruption else ok (record { page_count = 7 }))
decode-encode_example = decode-encode (record { page_count = 7 }) (omega arith)

abbrev seven : ℕ
seven = 7

decode-ok_iff_example :
    let page = FileHeader.encode (record { page_count = 7 }) in
    (FileHeader.decode page ≡ ok (record { page_count = 7 })) ↔ (
      (slice 4 8 page ≡ magic)
      × (read_le 4 0 page ≡ crc32c_checksum.crc32c (drop 4 page))
      × (read_le 4 12 page ≡ format_version)
      × (read_le 4 16 page ≡ page_size)
      × (read_le 8 20 page ≡ seven)
      × (seven ≢ 0))
decode-ok_iff_example =
    decode-ok_iff (FileHeader.encode (record { page_count = 7 })) (record { page_count = 7 })
