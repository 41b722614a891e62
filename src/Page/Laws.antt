-- ===== src/Page/Laws.antt =====
-- Sealing and verifying pages.
use oxen_db.Prelude.{
  ℕ, ◌+◌, ◌≤◌, ◌≡◌, refl, ◌∙◌, ap, false, List, [], ◌∷◌, length, drop, slice, splice, length-splice,
  drop-splice, slice-splice_before, replicate, length-replicate, get_or, IsU64,
  get_or-splice_before, get_or-splice_self, read_le, write_le, splice_again, length-write_le,
  read_le-write_le_self, drop-write_le, get_or-drop_congr, read_le-drop_congr, from_le_bytes,
  read_le-slice_congr, read_le-write_le_before, read_le-write_le_after, get_or-write_le_before,
  slice-write_le_before, take, ◌==◌, ==_refl, ok, err, guard, ◌>>=◌, ◌>>◌, arith, corruption,
}
use oxen_db.Checksum.{Checksum}
use oxen_db.Page.{
  Page, PageId, PageType, PageHeader, page_type_of, any_set, page_type_code, zeroed, new, page_id,
  set_lsn, write_payload, decode_header, verify, seal, free, heap, IsPage,
}

-- The bytes that `decode_header` reads are the same in both pages.
record SameHeader (a b : Page) : Type 0 where
  type_byte : get_or a 4 0 ≡ get_or b 4 0
  reserved : slice 5 3 a ≡ slice 5 3 b
  id_field : read_le 8 8 a ≡ read_le 8 8 b
  lsn_field : read_le 8 16 a ≡ read_le 8 16 b

decode_header-SameHeader : (a b : Page) → SameHeader a b → decode_header a ≡ decode_header b
unfolding decode_header
decode_header-SameHeader a b s = rw (s.type_byte, s.reserved, s.id_field, s.lsn_field)

-- A header whose fields are known.
decode_header_fields :
    (page : Page) (t : PageType)
    → get_or page 4 0 ≡ page_type_code t
    → slice 5 3 page ≡ 0 ∷ 0 ∷ 0 ∷ []
    → decode_header page
      ≡ ok (record { page_type = t; page_id = read_le 8 8 page; lsn = read_le 8 16 page })
unfolding decode_header page_type_of page_type_code any_set
decode_header_fields page free e r = rw (e, r)
decode_header_fields page heap e r = rw (e, r)

-- The header of a new page, whatever its payload.
record IsHeaderOf (t : PageType) (id lsn : ℕ) (page : Page) : Type 0 where
  size : IsPage page
  type_byte : get_or page 4 0 ≡ page_type_code t
  reserved : slice 5 3 page ≡ 0 ∷ 0 ∷ 0 ∷ []
  id_field : read_le 8 8 page ≡ id
  lsn_field : read_le 8 16 page ≡ lsn

zeroed-IsPage : IsPage zeroed
unfolding zeroed
zeroed-IsPage = length-replicate 4096 0

zeroed_fields :
    (slice 5 3 zeroed ≡ 0 ∷ 0 ∷ 0 ∷ []) × (read_le 8 16 zeroed ≡ 0) × (get_or zeroed 4 0 ≡ 0)
unfolding zeroed replicate drop take read_le from_le_bytes get_or
zeroed_fields = (refl, refl, refl)

-- The zeroed page with its type byte set.
abbrev typed : PageType → Page
typed t = splice 4 (page_type_code t ∷ []) zeroed

typed-IsPage : (t : PageType) → IsPage (typed t)
typed-IsPage t = length-splice 4 _ zeroed ∙ zeroed-IsPage

drop-typed : (k : ℕ) (t : PageType) → 5 ≤ k → drop k (typed t) ≡ drop k zeroed
drop-typed k t h = drop-splice k 4 (page_type_code t ∷ []) zeroed (omega arith)

new-IsHeaderOf : (t : PageType) (id : PageId) → IsU64 id → IsHeaderOf t id 0 (new id t)
unfolding new
new-IsHeaderOf t id h =
    let n = typed-IsPage t in
    record {
      size = length-write_le 8 8 id (typed t) ∙ n;
      type_byte =
          get_or-write_le_before 4 8 8 id (typed t) 0 (omega arith)
          ∙ get_or-splice_self 4 (page_type_code t) zeroed 0 (omega (arith, zeroed-IsPage));
      reserved =
          slice-write_le_before 5 3 8 8 id (typed t) (omega arith)
          ∙ ap (take 3) (drop-typed 5 t (omega arith))
          ∙ zeroed_fields.0;
      id_field = read_le-write_le_self 8 8 id (typed t) h (omega arith);
      lsn_field =
          read_le-write_le_after 8 16 8 8 id (typed t) (omega arith)
          ∙ read_le-drop_congr 8 16 _ _ (drop-typed 16 t (omega arith))
          ∙ zeroed_fields.1;
    }

write_payload-IsHeaderOf :
    (t : PageType) (id lsn at : ℕ) (src : List ℕ) (page : Page)
    → IsHeaderOf t id lsn page
    → IsHeaderOf t id lsn (write_payload at src page)
unfolding write_payload
write_payload-IsHeaderOf t id lsn at src page h = record {
  size = length-splice (24 + at) src page ∙ h.size;
  type_byte = get_or-splice_before 4 (24 + at) src page 0 (omega arith) ∙ h.type_byte;
  reserved = slice-splice_before 5 3 (24 + at) src page (omega arith) ∙ h.reserved;
  id_field =
      read_le-slice_congr 8 8 _ _ (slice-splice_before 8 8 (24 + at) src page (omega arith))
      ∙ h.id_field;
  lsn_field =
      read_le-slice_congr 8 16 _ _ (slice-splice_before 16 8 (24 + at) src page (omega arith))
      ∙ h.lsn_field;
}

set_lsn-IsHeaderOf :
    (t : PageType) (id lsn lsn' : ℕ) (page : Page)
    → IsU64 lsn'
    → IsHeaderOf t id lsn page
    → IsHeaderOf t id lsn' (set_lsn lsn' page)
unfolding set_lsn
set_lsn-IsHeaderOf t id lsn lsn' page b h = record {
  size = length-write_le 8 16 lsn' page ∙ h.size;
  type_byte = get_or-write_le_before 4 8 16 lsn' page 0 (omega arith) ∙ h.type_byte;
  reserved = slice-write_le_before 5 3 8 16 lsn' page (omega arith) ∙ h.reserved;
  id_field = read_le-write_le_before 8 8 8 16 lsn' page (omega arith) ∙ h.id_field;
  lsn_field = read_le-write_le_self 8 16 lsn' page b (omega arith);
}

module _ ⦃c : Checksum⦄ where
  pub seal-IsPage : (page : Page) → IsPage page → IsPage (seal page)
  unfolding seal
  seal-IsPage page h = length-write_le 4 0 _ page ∙ h

  pub drop-seal : (k : ℕ) (page : Page) → 4 ≤ k → drop k (seal page) ≡ drop k page
  unfolding seal
  drop-seal k page h = drop-write_le k 4 0 (c.crc32c (drop 4 page)) page h

  -- Sealing a sealed page changes nothing.
  pub seal_again : (page : Page) → seal (seal page) ≡ seal page
  unfolding seal write_le
  seal_again page =
      ap (λ x. write_le 4 0 (c.crc32c x) (seal page)) (drop-seal 4 page (omega arith))
      ∙ splice_again 0 _ page

  pub page_id-seal : (page : Page) → page_id (seal page) ≡ page_id page
  unfolding page_id
  page_id-seal page = read_le-drop_congr 8 8 _ _ (drop-seal 8 page (omega arith))

  pub stored-seal :
      (page : Page) → 4 ≤ length page → read_le 4 0 (seal page) ≡ c.crc32c (drop 4 page)
  unfolding seal
  stored-seal page h = read_le-write_le_self 4 0 (c.crc32c (drop 4 page)) page (c.crc32c-IsU32 _) h

  decode_header-seal : (page : Page) → decode_header (seal page) ≡ decode_header page
  decode_header-seal page = decode_header-SameHeader (seal page) page (record {
    type_byte = get_or-drop_congr 4 _ _ 0 (drop-seal 4 page (omega arith));
    reserved = ap (take 3) (drop-seal 5 page (omega arith));
    id_field = read_le-drop_congr 8 8 _ _ (drop-seal 8 page (omega arith));
    lsn_field = read_le-drop_congr 8 16 _ _ (drop-seal 16 page (omega arith));
  })

  -- A sealed page verifies exactly when its header decodes and has the expected id: the checksum
  -- test never refuses it.
  pub verify-seal :
      (page : Page) (id : PageId)
      → IsPage page
      → verify (seal page) id
        ≡ (decode_header page >>= λ header. guard (header.page_id == id) corruption >> ok header)
  unfolding verify
  verify-seal page id h =
      rw
        (
          stored-seal page (omega arith),
          drop-seal 4 page (omega arith),
          ==_refl,
          decode_header-seal page,
        )
        refl

  -- A page made by `new`, given an LSN and any payload bytes, and then sealed, verifies as
  -- itself: the header comes back as it was set. The id and the LSN fit 64 bits.
  pub verify-seal-new :
      (t : PageType) (id lsn at : ℕ) (src : List ℕ)
      → IsU64 id
      → IsU64 lsn
      → verify (seal (write_payload at src (set_lsn lsn (new id t)))) id
        ≡ ok (record { page_type = t; page_id = id; lsn = lsn })
  verify-seal-new t id lsn at src hid hlsn =
      let page = write_payload at src (set_lsn lsn (new id t)) in
      let h : IsHeaderOf t id lsn page =
        write_payload-IsHeaderOf t id lsn at src (set_lsn lsn (new id t))
          (set_lsn-IsHeaderOf t id 0 lsn (new id t) hlsn (new-IsHeaderOf t id hid)) in
      rw
        (
          verify-seal page id h.size,
          decode_header_fields page t h.type_byte h.reserved,
          h.id_field,
          h.lsn_field,
          ==_refl,
        )
        refl

  -- What a page that verifies is: its checksum is that of its bytes, its type byte is the code
  -- of the type in the header, its reserved bytes are zero, and its id is the expected one.
  pub verify-ok :
      (page : Page) (expected : PageId) {header : PageHeader}
      → verify page expected ≡ ok header
      → (read_le 4 0 page ≡ c.crc32c (drop 4 page))
        × (get_or page 4 0 ≡ page_type_code header.page_type)
        × (any_set (slice 5 3 page) ≡ false)
        × (page_id page ≡ expected)
        × (header.page_id ≡ expected)
  unfolding verify decode_header page_type_of page_type_code page_id
  verify-ok page expected e = ground arith

  -- A page whose type byte is zero is refused as corrupt.
  pub verify_untyped :
      (page : Page) (expected : PageId)
      → get_or page 4 0 ≡ 0
      → verify page expected ≡ err corruption
  unfolding verify decode_header page_type_of
  verify_untyped page expected e = ground arith

  pub verify-zeroed : (expected : PageId) → verify zeroed expected ≡ err corruption
  verify-zeroed expected = verify_untyped zeroed expected zeroed_fields.2
