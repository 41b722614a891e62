-- ===== src/Disk/Laws.antt =====
-- Writing a page and reading it back.
use oxen_db.Prelude.{
  ℕ, zero, suc, ◌+◌, ◌≤◌, ◌<◌, ◌≡◌, refl, ap, false, List, [], ◌∷◌, ◌++◌, length, drop, take-append,
  drop-nil, length-append, ok, arith, ltb, leb, ◌==◌, ==_refl,
}
use oxen_db.Checksum.{Checksum}
use oxen_db.File.{
  write_at, exactly, read_with, attempt, written, next_fate, write_all_at, read_exact_at,
}
use oxen_db.Page.{Page, PageId, PageHeader, IsPage, page_id, seal, verify, file_offset}
use oxen_db.Page.Laws.{seal-IsPage}
use oxen_db.Disk.{DiskManager, on_file, on_disk, check_data_page, read_page, write_page}

pub drop-write_at :
    (at : ℕ) (src bs : List ℕ)
    → drop at (write_at at src bs) ≡ src ++ drop (length src) (drop at bs)
unfolding drop write_at
drop-write_at zero src bs = refl
drop-write_at (suc at) src [] = rw drop-nil at (drop-write_at at src [])
drop-write_at (suc at) src (b ∷ bs) = drop-write_at at src bs

pub length-write_at : (at : ℕ) (src bs : List ℕ) → at + length src ≤ length (write_at at src bs)
unfolding write_at
length-write_at zero src bs = omega (arith, length-append src (drop (length src) bs))
length-write_at (suc at) src [] = omega (arith, length-write_at at src [])
length-write_at (suc at) src (b ∷ bs) = omega (arith, length-write_at at src bs)

-- What was written is read, wherever it was put.
pub exactly-write_at :
    (n at : ℕ) (src bs : List ℕ) → length src ≡ n → exactly n at (write_at at src bs) ≡ ok src
unfolding exactly
exactly-write_at n at src bs h =
    let long : ltb (length (write_at at src bs)) (at + n) ≡ false =
      ground (arith, length-write_at at src bs) in
    rw (long, drop-write_at at src bs, ← h) (ap ok (take-append src _))

-- A disk whose calls all succeed.
abbrev pub sound : List ℕ → List ℕ → ℕ → DiskManager
sound contents synced count = record {
  file = record { contents = contents; synced = synced; fates = [] };
  page_count = count;
}

module _ ⦃c : Checksum⦄ where
  writes :
      (contents synced : List ℕ) (count : ℕ) (page : Page) (id : PageId)
      → 0 < id
      → id < count
      → page_id page ≡ id
      → write_page id (sound contents synced count, page)
        ≡ (ok tt, (sound (write_at (file_offset id) (seal page) contents) synced count, seal page))
  unfolding write_page check_data_page on_file on_disk write_all_at attempt written next_fate
  writes contents synced count page id positive small own =
      let no_header : (id == 0) ≡ false = ground arith in
      let inside : leb count id ≡ false = ground arith in rw (no_header, inside, own, ==_refl) refl

  reads :
      (contents synced : List ℕ) (count : ℕ) (page : Page) (id : PageId) {header : PageHeader}
      → 0 < id
      → id < count
      → IsPage page
      → verify page id ≡ ok header
      → (read_page id (sound (write_at (file_offset id) page contents) synced count)).0 ≡ ok page
  unfolding read_page check_data_page on_file read_exact_at read_with next_fate
  reads contents synced count page id positive small shape good =
      let no_header : (id == 0) ≡ false = ground arith in
      let inside : leb count id ≡ false = ground arith in
      rw (no_header, inside, exactly-write_at 4096 (file_offset id) page contents shape, good) refl

  -- While the file's calls succeed, a data page with its own id and a good header is read back
  -- sealed after it was written, and the caller's page is left sealed too.
  pub read_page-write_page :
      (contents synced : List ℕ) (count : ℕ) (page : Page) (id : PageId) {header : PageHeader}
      → IsPage page
      → 0 < id
      → id < count
      → page_id page ≡ id
      → verify (seal page) id ≡ ok header
      → (let s = write_page id (sound contents synced count, page) in
          (s.0 ≡ ok tt) × (s.1.1 ≡ seal page) × ((read_page id s.1.0).0 ≡ ok (seal page)))
  read_page-write_page contents synced count page id shape positive small own good =
      rw (writes contents synced count page id positive small own) (
        refl,
        refl,
        reads contents synced count (seal page) id positive small (seal-IsPage page shape) good,
      )
