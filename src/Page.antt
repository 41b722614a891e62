-- ===== src/Page.antt =====
-- crates/oxendb/src/storage/page.rs: the page buffer and its 24-byte header.
pub mod Laws
use oxen_db.Prelude.{
  ℕ, zero, suc, ◌+◌, ◌*◌, ◌%◌, ◌^◌, ◌≡◌, Bool, true, false, ◌||◌, not, List, [], ◌∷◌, length,
  replicate, drop, slice, get_or, splice, read_le, write_le, ◌==◌, if◌then◌else◌, Error, corruption,
  Result, ok, err, guard, ◌>>=◌, ◌>>◌,
}
use oxen_db.Checksum.{Checksum}

abbrev pub page_size : ℕ
page_size = 4096

abbrev pub page_header_size : ℕ
page_header_size = 24

-- `PageId(u64)`
abbrev pub PageId : Type 0
PageId = ℕ

abbrev pub header_id : PageId
header_id = 0

-- Byte offset of a page; a `u64` product, which wraps in a release build.
unfoldable pub file_offset : PageId → ℕ
file_offset id = (id * page_size) % 2 ^ 64

pub data PageType : Type 0 where
  free heap : PageType

-- `page_type as u8`
unfoldable pub page_type_code : PageType → ℕ
page_type_code free = 1
page_type_code heap = 2

-- `TryFrom<u8>`, with its error as `decode_header` maps it
unfoldable pub page_type_of : ℕ → Result PageType
page_type_of raw = if raw == 1 then ok free else if raw == 2 then ok heap else err corruption

pub record PageHeader : Type 0 where
  pub page_type : PageType
  pub page_id : PageId
  pub lsn : ℕ

-- The buffer `[u8; PAGE_SIZE]`.
abbrev pub Page : Type 0
Page = List ℕ

abbrev pub IsPage : Page → Type 0
IsPage page = length page ≡ page_size

unfoldable pub zeroed : Page
zeroed = replicate page_size 0

unfoldable pub new : PageId → PageType → Page
new id page_type =
    let typed = splice 4 (page_type_code page_type ∷ []) zeroed in write_le 8 8 id typed

unfoldable pub page_id : Page → PageId
page_id page = read_le 8 8 page

unfoldable pub set_lsn : ℕ → Page → Page
set_lsn lsn page = write_le 8 16 lsn page

unfoldable pub payload : Page → List ℕ
payload page = drop page_header_size page

-- A write of `src` through `payload_mut`, at an offset of the payload.
unfoldable pub write_payload : ℕ → List ℕ → Page → Page
write_payload at src page = splice (page_header_size + at) src page

unfoldable pub any_set : List ℕ → Bool
any_set [] = false
any_set (b ∷ bs) = not (b == 0) || any_set bs

unfoldable pub decode_header : Page → Result PageHeader
decode_header page = do
  page_type ← page_type_of (get_or page 4 0)
  guard (not (any_set (slice 5 3 page))) corruption
  ok (record { page_type = page_type; page_id = read_le 8 8 page; lsn = read_le 8 16 page })

module _ ⦃c : Checksum⦄ where
  unfoldable pub seal : Page → Page
  seal page = write_le 4 0 (c.crc32c (drop 4 page)) page

  unfoldable pub verify : Page → PageId → Result PageHeader
  verify page expected = do
    guard (read_le 4 0 page == c.crc32c (drop 4 page)) corruption
    header ← decode_header page
    guard (header.page_id == expected) corruption
    ok header
