-- ===== src/Disk/Opened.antt =====
-- Opening a data file: the header that the file has at page 0 gives the page count.
use oxen_db.Prelude.{
  ℕ, ◌*◌, ◌^◌, ◌≤◌, ◌<◌, ◌≡◌, refl, sym, ◌∙◌, ap, false, List, [], ltb, ok, length, take, drop,
  arith,
}
use native.Mathlib.Nat.{mod-eq_of_lt}
use oxen_db.Checksum.{Checksum}
use oxen_db.File.{File, reopen, file_len, read_exact_at, read_with, exactly, next_fate}
use oxen_db.Page.{page_size, file_offset}
use oxen_db.FileHeader
use oxen_db.FileHeader.{FileHeader}
use oxen_db.Disk.{open_file, check_len}
use oxen_db.Disk.Laws.{sound}
use oxen_db.Disk.View.{page_at, page_at_first}

-- Reading the first page of a file that has one.
read_first :
    (bs synced : List ℕ)
    → page_size ≤ length bs
    → (let f : File = record { contents = bs; synced = synced; fates = [] } in
        read_exact_at page_size (file_offset 0) f ≡ (ok (take page_size bs), f))
unfolding read_exact_at read_with exactly next_fate file_offset drop
read_first bs synced one =
    let long : ltb (length bs) page_size ≡ false = ground (arith, one) in rw long refl

module _ ⦃c : Checksum⦄ where
  -- While the file's calls succeed, a file that has a header at page 0 and all the pages that the
  -- header counts, within 64 bits, opens with that page count and stays as it is.
  pub open_file-header :
      (bs synced : List ℕ) (h : FileHeader)
      → FileHeader.decode (page_at 0 bs) ≡ ok h
      → page_size ≤ length bs
      → h.page_count * page_size ≤ length bs
      → h.page_count * page_size < 2 ^ 64
      → open_file (record { contents = bs; synced = synced; fates = [] })
        ≡ (ok (sound bs synced h.page_count), (sound bs synced h.page_count).file)
  unfolding open_file check_len reopen file_len read_with next_fate
  open_file-header bs synced h header one all room =
      let long : ltb (length bs) page_size ≡ false = ground (arith, one) in
      let covered : ltb (length bs) (h.page_count * page_size) ≡ false = ground (arith, all) in
      let first : FileHeader.decode (take page_size bs) ≡ ok h =
        ap FileHeader.decode (sym (page_at_first bs one)) ∙ header in
      rw (long, read_first bs synced one, first, mod-eq_of_lt room, covered) refl
