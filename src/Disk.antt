-- ===== src/Disk.antt =====
-- crates/oxendb/src/storage/disk.rs: page-granular access to the data file.
pub mod Laws
pub mod Stored
pub mod Outcomes
pub mod View
pub mod Opened
pub mod Calls
use oxen_db.Prelude.{
  ℕ, ◌*◌, ◌%◌, ◌^◌, ltb, leb, ◌==◌, if◌then◌else◌, Result, ok, err, corruption, unsupported_format,
  invalid_argument,
}
use oxen_db.Prelude.Op.{Op, pure, lift, get, modify, ◌>>=◌, ◌>>◌}
use oxen_db.Checksum.{Checksum}
use oxen_db.File.{File, write_all_at, sync, reopen, sync_parent_dir, file_len, read_exact_at}
use oxen_db.Page.{Page, PageId, page_size, header_id, file_offset, page_id, verify, seal}
use oxen_db.FileHeader
use oxen_db.FileHeader.{FileHeader}

pub record DiskManager : Type 0 where
  pub file : File
  pub page_count : ℕ

unfoldable pub on_file : {A : Type 0} → Op File A → Op DiskManager A
on_file m d = let (r, f) = m d.file in (r, record d { file = f })

-- A method of the disk that leaves a page alone.
unfoldable pub on_disk : {A : Type 0} → Op DiskManager A → Op (DiskManager × Page) A
on_disk m s = let (r, d) = m s.0 in (r, (d, s.1))

-- Shrinking is refused.
unfoldable pub set_page_count : ℕ → Op DiskManager (Unit {0})
set_page_count page_count d =
    if ltb page_count d.page_count
    then (err invalid_argument, d)
    else (ok tt, record d { page_count = page_count })

unfoldable pub check_data_page : PageId → Op DiskManager (Unit {0})
check_data_page id d =
    if id == header_id
    then (err invalid_argument, d)
    else if leb d.page_count id
    then (err invalid_argument, d)
    else (ok tt, d)

unfoldable pub sync_disk : Op DiskManager (Unit {0})
unfolding on_file
sync_disk = on_file sync

module _ ⦃c : Checksum⦄ where
  -- `create`, on the new file
  unfoldable pub create_in : Op File DiskManager
  create_in = do
    let header = FileHeader.new
    write_all_at (FileHeader.encode header) (file_offset header_id)
    sync
    sync_parent_dir
    file ← get
    pure (record { file = file; page_count = header.page_count })

  -- The length test of `open`; the product is a `u64` and wraps in a release build.
  unfoldable pub check_len : ℕ → FileHeader → Result (Unit {0})
  check_len file_len header =
      if ltb file_len ((header.page_count * page_size) % 2 ^ 64) then err corruption else ok tt

  unfoldable pub open_file : Op File DiskManager
  unfolding check_len
  open_file = do
    reopen
    len ← file_len
    lift (if ltb len page_size then err unsupported_format else ok tt)
    page ← read_exact_at page_size (file_offset header_id)
    header ← lift (FileHeader.decode page)
    lift (check_len len header)
    file ← get
    pure (record { file = file; page_count = header.page_count })

  unfoldable pub write_file_header : Op DiskManager (Unit {0})
  unfolding on_file
  write_file_header = do
    d ← get
    on_file (
        write_all_at (FileHeader.encode (record { page_count = d.page_count }))
          (file_offset header_id))

  unfoldable pub read_page : PageId → Op DiskManager Page
  unfolding check_data_page on_file
  read_page id = do
    check_data_page id
    page ← on_file (read_exact_at page_size (file_offset id))
    header ← lift (verify page id)
    pure page

  -- The page is sealed in place once the checks pass, so the state is the disk and the page.
  unfoldable pub write_page : PageId → Op (DiskManager × Page) (Unit {0})
  unfolding check_data_page on_file on_disk
  write_page id = do
    on_disk (check_data_page id)
    before ← get
    lift (if page_id before.1 == id then ok tt else err invalid_argument)
    modify (λ s. (s.0, seal s.1))
    after ← get
    on_disk (on_file (write_all_at after.1 (file_offset id)))
