-- ===== src/Tests/Crashes.antt =====
-- The theorems on crashes and the recovery after them, at concrete inputs.
use oxen_db.Prelude.{
  ◌^◌, ◌<◌, ◌≡◌, refl, ◌∙◌, inl, inr, none, List, [], ◌∷◌, ◌++◌, length, length-splice,
  length-write_le, length-replicate, ok, map_err, arith, All, take_all, All-append,
}
use oxen_db.Prelude.Op.{After}
use oxen_db.Checksum.Hw.Laws.{crc32c_checksum}
use oxen_db.File.{File, Fate, done, fail}
use oxen_db.Page.{Page, IsPage, PageId, heap, new, seal, verify, set_lsn, write_payload, zeroed}
use oxen_db.Page.Laws.{verify-seal-new, seal-IsPage}
use oxen_db.FileHeader
use oxen_db.FileHeader.Laws.{decode-encode, encode-IsPage}
use oxen_db.Disk.View.{page_at, page_at_first}
use oxen_db.BTreeMap
use oxen_db.Wal.Record.{WalRecord, DecodedRecord, page_image, commit, IsRecord, txn_of}
use oxen_db.Wal.Log.{OpenedWal}
use oxen_db.Wal.Log.Scan.{decoded}
use oxen_db.Wal.Log.Reopen.{settled, open_clean, log_bytes, length-log_bytes, length-encodings-le}
use oxen_db.Wal.Log.Append.{log_state}
use oxen_db.Recovery.{replay, validate_image}
use oxen_db.Recovery.Laws.{last_image, image_in, has_commit, commits, or_else}
use oxen_db.Recovery.Writes.{clean, image_or}
use oxen_db.Recovery.Atomic.{IsOfOther}
use oxen_db.Recovery.Restored.{
  IsReplayed, AllRestorable, page_after, replay_each, replay-clean, replay-untouched,
  replay-replay_each,
}
use oxen_db.Db.{default_options, open_with_wal, Directory}
use oxen_db.Db.Reopened.{IsDatabase, IsReopened, open_with_wal-IsReopened}
use oxen_db.Db.Txn.{log, images, images_of, seal_all}
use oxen_db.Db.Txn.Cache.{do_read}
use oxen_db.Db.Txn.Images.{AllLoggable, seal_all-AllLoggable, images-IsImageOf, images-IsRestorable}
use oxen_db.Db.Txn.Crash.{left_behind}
use oxen_db.Db.Txn.Recovered.{IsAtomic, log-IsAtomic, old_page, new_page}
use oxen_db.Db.Txn.AfterCrash.{IsTransaction}
use oxen_db.Db.Txn.AfterCrash.Survives.{SurvivesCrash, log-SurvivesCrash}

abbrev header_page : Page
header_page = FileHeader.encode (record { page_count = 1 })

abbrev filled : Page
filled = write_payload 0 (1 ∷ []) (set_lsn 4 (new 1 heap))

filled-IsPage : IsPage filled
unfolding write_payload set_lsn new zeroed
filled-IsPage =
    length-splice 24 (1 ∷ []) _
    ∙ length-write_le 8 16 4 _
    ∙ length-write_le 8 8 1 _
    ∙ length-splice 4 _ zeroed
    ∙ length-replicate 4096 0

filled_verifies : verify (seal filled) 1 ≡ ok (record { page_type = heap; page_id = 1; lsn = 4 })
filled_verifies = verify-seal-new heap 1 4 0 (1 ∷ []) (omega arith) (omega arith)

-- A log with the page of a committed transaction and a commit record.
abbrev one_page_log : List DecodedRecord
one_page_log = decoded 5 (page_image 6 1 (seal filled) ∷ commit 6 ∷ [])

one_page_log-AllRestorable : AllRestorable one_page_log
unfolding decoded validate_image
one_page_log-AllRestorable = (
  ((seal-IsPage filled filled-IsPage, omega arith), rw (filled_verifies, map_err) refl),
  (tt, tt),
)

replay-clean_example :
    IsReplayed one_page_log header_page (replay one_page_log (clean header_page []))
replay-clean_example = replay-clean one_page_log header_page [] one_page_log-AllRestorable

replay-untouched_example :
    (let f : File = record { contents = header_page; synced = []; fates = done ∷ fail 7 ∷ [] } in
      After
        (replay one_page_log f)
        (λ _ g. page_at 0 g.contents ≡ page_at 0 f.contents)
        (λ g. page_at 0 g.contents ≡ page_at 0 f.contents))
replay-untouched_example =
    replay-untouched one_page_log
      (record { contents = header_page; synced = []; fates = done ∷ fail 7 ∷ [] }) 0
      one_page_log-AllRestorable
      (unfold last_image decoded image_in has_commit commits or_else in refl)

replay-replay_each_example :
    (let attempts : List (List Fate) = (done ∷ fail 7 ∷ []) ∷ (fail 0 ∷ []) ∷ [] in
      let g = replay_each attempts one_page_log (clean header_page []) in
      (r : IsReplayed one_page_log g.contents (replay one_page_log (clean g.contents g.synced)))
      × ((k : PageId) → page_at k r.contents ≡ page_after one_page_log header_page k))
replay-replay_each_example =
    replay-replay_each ((done ∷ fail 7 ∷ []) ∷ (fail 0 ∷ []) ∷ []) one_page_log
      (clean header_page []) one_page_log-AllRestorable

abbrev pub empty_dir : Directory
empty_dir = record { data_file = none; wal_file = none; new_data = []; new_wal = [] }

six-ne-seven : IsOfOther 7 (commit 6)
unfolding txn_of
six-ne-seven h = omega arith

-- A database with no data page, and the log of one that allocates page 1.
header_page-IsPage : IsPage header_page
header_page-IsPage = encode-IsPage (record { page_count = 1 }) (omega arith)

header_page_first : page_at 0 header_page ≡ header_page
header_page_first =
    page_at_first header_page (omega (arith, header_page-IsPage))
    ∙ take_all 4096 header_page (omega (arith, header_page-IsPage))

abbrev pub old_records : List WalRecord
old_records = commit 6 ∷ []

before-IsDatabase : IsDatabase (decoded 5 old_records) header_page 1
unfolding decoded last_image image_in or_else image_or
before-IsDatabase = record {
  good = (tt, tt);
  header = rw header_page_first (decode-encode (record { page_count = 1 }) (omega arith));
  reached = inl (omega (arith, header_page-IsPage));
  positive = omega arith;
  room = omega arith;
}

grown-IsTransaction : IsTransaction 1 2 ((1, filled) ∷ [])
unfolding BTreeMap.get
grown-IsTransaction = record {
  data_pages = ((omega arith, omega arith, filled-IsPage), tt);
  sorted = (tt, tt);
  grown = omega arith;
  last = inr (1, filled, refl, omega arith);
  room = omega arith;
}

filled_sealed : seal_all ((1, filled) ∷ []) ≡ ok ((1, seal filled) ∷ [])
unfolding seal_all
filled_sealed = rw (filled_verifies, map_err) refl

abbrev new_header : Page
new_header = FileHeader.encode (record { page_count = 2 })

abbrev new_records : List WalRecord
new_records = page_image 7 0 new_header ∷ page_image 7 1 (seal filled) ∷ commit 7 ∷ []

new_records_eq : images 7 2 1 ((1, seal filled) ∷ []) ++ (commit 7 ∷ []) ≡ new_records
unfolding images images_of
new_records_eq = refl

new_records-IsRecord : All IsRecord new_records
new_records-IsRecord = (
  (omega arith, omega arith, encode-IsPage (record { page_count = 2 }) (omega arith)),
  ((omega arith, omega arith, seal-IsPage filled filled-IsPage), (omega arith, tt)),
)

old_records-IsRecord : All IsRecord old_records
old_records-IsRecord = (omega arith, tt)

all_fit : length (log_bytes 5 (old_records ++ new_records)) < 2 ^ 64
all_fit =
    let all : All IsRecord (old_records ++ new_records) =
      All-append IsRecord old_records new_records old_records-IsRecord new_records-IsRecord in
    omega (
      arith,
      length-log_bytes 5 (old_records ++ new_records) all (omega arith),
      length-encodings-le 5 (old_records ++ new_records) all,
    )

log-SurvivesCrash_example :
    (let sealed : List (PageId × Page) = (1, seal filled) ∷ [] in
      let after = log 7 (images 7 2 1 sealed) (log_state 5 old_records [] (fail 100 ∷ [])) in
      SurvivesCrash 5 old_records header_page 1 2 sealed
        (do_read 1 ∷ [])
        after.0
        (open_with_wal (clean header_page []) (left_behind after.1) default_options empty_dir))
log-SurvivesCrash_example =
    log-SurvivesCrash 5 old_records 7 1 2 header_page [] ((1, filled) ∷ []) ((1, seal filled) ∷ [])
      (fail 100 ∷ []) default_options empty_dir (do_read 1 ∷ []) old_records-IsRecord
      (six-ne-seven, tt) before-IsDatabase grown-IsTransaction filled_sealed (omega arith)
      (rw new_records_eq (omega arith)) (rw new_records_eq all_fit) (omega arith) tt

abbrev old_log : File
old_log = record { contents = log_bytes 5 old_records; synced = []; fates = [] }

abbrev old_found : OpenedWal
old_found = record {
  wal = settled 5 old_records [];
  records = decoded 5 old_records;
  discarded = none;
}

open_with_wal-IsReopened_example :
    IsReopened
      (do_read 1 ∷ [])
      1
      (page_after (decoded 5 old_records) header_page)
      6
      (open_with_wal (clean header_page []) old_log default_options empty_dir)
open_with_wal-IsReopened_example =
    open_with_wal-IsReopened 5 old_records header_page [] [] 1 old_log old_found default_options
      empty_dir (do_read 1 ∷ []) (open_clean 5 old_records old_records-IsRecord (omega arith) [])
      refl (omega arith) before-IsDatabase (omega arith) tt

filled_loggable : AllLoggable 2 ((1, seal filled) ∷ [])
filled_loggable =
    (seal_all-AllLoggable 2 ((1, filled) ∷ []) ((1, seal filled) ∷ [])
      grown-IsTransaction.data_pages filled_sealed).1

log-IsAtomic_example :
    (let f = clean header_page [] in
      let qs = images 7 2 1 ((1, seal filled) ∷ []) in
      IsAtomic
        (old_page 5 old_records f)
        (new_page 5 old_records qs f)
        f
        (log 7 qs (log_state 5 old_records [] (fail 100 ∷ []))))
log-IsAtomic_example =
    let qs = images 7 2 1 ((1, seal filled) ∷ []) in
    log-IsAtomic 5 old_records qs 7 (clean header_page []) (six-ne-seven, tt)
      (images-IsImageOf 7 2 1 ((1, seal filled) ∷ [])) (tt, tt)
      (images-IsRestorable 7 2 1 ((1, seal filled) ∷ []) (omega arith) (omega arith)
        filled_loggable)
      (fail 100 ∷ []) old_records-IsRecord (rw new_records_eq new_records-IsRecord)
      (rw new_records_eq (omega arith)) (rw new_records_eq all_fit)
