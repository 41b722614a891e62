-- ===== src/FileHeader/Laws.antt =====
-- The file header: round trip, and what a decoded header guarantees.
use oxen_db.Prelude.{
  ℕ, ◌≤◌, ◌≡◌, ◌≢◌, ◌↔◌, refl, ◌∙◌, ap, true, List, [], ◌∷◌, drop, take, slice, splice,
  length-splice, slice-splice_self, read_le, write_le, length-write_le, read_le-write_le_self,
  drop-write_le, slice-write_le_before, length-replicate, read_le-drop_congr,
  read_le-write_le_before, IsU64, ◌==◌, ==_refl, if◌then◌else◌, ok, err, arith, corruption,
}
use oxen_db.Checksum.{Checksum}
use oxen_db.Page.{Page, IsPage, zeroed, page_size}
use oxen_db.FileHeader.{FileHeader, encode_fields, encode, decode, magic, bytes_eq, format_version}

pub bytes_eq_refl : (bs : List ℕ) → bytes_eq bs bs ≡ true
unfolding bytes_eq
bytes_eq_refl [] = refl
bytes_eq_refl (b ∷ bs) = rw (==_refl b, bytes_eq_refl bs)

pub bytes_eq_sound : (as' bs : List ℕ) → bytes_eq as' bs ≡ true → as' ≡ bs
unfolding bytes_eq
bytes_eq_sound [] [] h = refl
bytes_eq_sound [] (b ∷ bs) h = cc
bytes_eq_sound (a ∷ as') [] h = cc
bytes_eq_sound (a ∷ as') (b ∷ bs) h = ground (arith, bytes_eq_sound as' bs)

zeroed-IsPage : IsPage zeroed
unfolding zeroed
zeroed-IsPage = length-replicate 4096 0

-- The page before its checksum is stored.
record HasFields (count : ℕ) (page : Page) : Type 0 where
  size : IsPage page
  magic_field : slice 4 8 page ≡ magic
  version_field : read_le 4 12 page ≡ format_version
  page_size_field : read_le 4 16 page ≡ page_size
  count_field : read_le 8 20 page ≡ count

encode_fields-HasFields :
    (h : FileHeader) → IsU64 h.page_count → HasFields h.page_count (encode_fields h)
unfolding encode_fields
encode_fields-HasFields h fits =
    let n = h.page_count in
    let b1 = splice 4 magic zeroed in
    let b2 = write_le 4 12 format_version b1 in
    let b3 = write_le 4 16 page_size b2 in
    let l1 : IsPage b1 = length-splice 4 magic zeroed ∙ zeroed-IsPage in
    let l2 : IsPage b2 = length-write_le 4 12 format_version b1 ∙ l1 in
    let l3 : IsPage b3 = length-write_le 4 16 page_size b2 ∙ l2 in
    record {
      size = length-write_le 8 20 n b3 ∙ l3;
      magic_field =
          slice-write_le_before 4 8 8 20 n b3 (omega arith)
          ∙ slice-write_le_before 4 8 4 16 page_size b2 (omega arith)
          ∙ slice-write_le_before 4 8 4 12 format_version b1 (omega arith)
          ∙ slice-splice_self 4 magic zeroed (omega (arith, zeroed-IsPage));
      version_field =
          read_le-write_le_before 4 12 8 20 n b3 (omega arith)
          ∙ read_le-write_le_before 4 12 4 16 page_size b2 (omega arith)
          ∙ read_le-write_le_self 4 12 format_version b1 (omega arith) (omega arith);
      page_size_field =
          read_le-write_le_before 4 16 8 20 n b3 (omega arith)
          ∙ read_le-write_le_self 4 16 page_size b2 (omega arith) (omega arith);
      count_field = read_le-write_le_self 8 20 n b3 fits (omega arith);
    }

module _ ⦃c : Checksum⦄ where
  pub encode-IsPage : (h : FileHeader) → IsU64 h.page_count → IsPage (encode h)
  unfolding encode
  encode-IsPage h fits =
      length-write_le 4 0 _ (encode_fields h) ∙ (encode_fields-HasFields h fits).size

  drop-encode : (k : ℕ) (h : FileHeader) → 4 ≤ k → drop k (encode h) ≡ drop k (encode_fields h)
  unfolding encode
  drop-encode k h le =
      drop-write_le k 4 0 (c.crc32c (drop 4 (encode_fields h))) (encode_fields h) le

  stored-encode :
      (h : FileHeader)
      → IsU64 h.page_count
      → read_le 4 0 (encode h) ≡ c.crc32c (drop 4 (encode_fields h))
  unfolding encode
  stored-encode h fits =
      let f = (encode_fields-HasFields h fits).size in
      read_le-write_le_self 4 0 (c.crc32c (drop 4 (encode_fields h))) (encode_fields h)
        (c.crc32c-IsU32 _) (omega arith)

  encode-HasFields : (h : FileHeader) → IsU64 h.page_count → HasFields h.page_count (encode h)
  encode-HasFields h fits =
      let f = encode_fields-HasFields h fits in
      record {
        size = encode-IsPage h fits;
        magic_field = ap (take 8) (drop-encode 4 h (omega arith)) ∙ f.magic_field;
        version_field =
            read_le-drop_congr 4 12 _ _ (drop-encode 12 h (omega arith)) ∙ f.version_field;
        page_size_field =
            read_le-drop_congr 4 16 _ _ (drop-encode 16 h (omega arith)) ∙ f.page_size_field;
        count_field = read_le-drop_congr 8 20 _ _ (drop-encode 20 h (omega arith)) ∙ f.count_field;
      }

  -- A header whose page count fits 64 bits is read back as it was written; one that lists no
  -- page is refused as corrupt.
  pub decode-encode :
      (h : FileHeader)
      → IsU64 h.page_count
      → decode (encode h) ≡ (if h.page_count == 0 then err corruption else ok h)
  unfolding decode
  decode-encode h fits =
      let f = encode-HasFields h fits in
      rw
        (
          f.magic_field,
          bytes_eq_refl magic,
          stored-encode h fits,
          drop-encode 4 h (omega arith),
          ==_refl,
          f.version_field,
          f.page_size_field,
          f.count_field,
        )
        (ground arith)

  -- A page is accepted as a header exactly when it has the magic bytes, the checksum of its bytes,
  -- this version and page size, and a page count that is not zero; the count is then the header.
  pub decode-ok_iff :
      (page : Page) (h : FileHeader)
      → (decode page ≡ ok h) ↔ (
          (slice 4 8 page ≡ magic)
          × (read_le 4 0 page ≡ c.crc32c (drop 4 page))
          × (read_le 4 12 page ≡ format_version)
          × (read_le 4 16 page ≡ page_size)
          × (read_le 8 20 page ≡ h.page_count)
          × (h.page_count ≢ 0))
  unfolding decode
  decode-ok_iff page h = (
    λ e. ground (arith, bytes_eq_sound (slice 4 8 page) magic),
    λ f. rw (f.0, bytes_eq_refl magic) (ground arith),
  )
