-- ===== src/Tests/Engine.antt =====
-- The theorems on recovery, the page cache and transactions at concrete inputs.
use oxen_db.Prelude.{
  write_le, splice, overwrite, to_le_bytes, from_le_bytes, read_le, take, drop, ℕ, ◌≡◌, ◌<◌, ◌⊎◌,
  inr, refl, true, false, none, some, List, [], ◌∷◌, length, get_or, get_or-drop_congr, ◌∙◌,
  replicate, ok, err, corruption, invalid_argument, arith,
}
use oxen_db.Checksum.Hw.Laws.{crc32c_checksum}
use oxen_db.File.{File}
use oxen_db.Page.{
  Page, IsPage, PageId, zeroed, page_id, heap, new, seal, verify, set_lsn, write_payload,
}
use oxen_db.Page.Laws.{verify-zeroed, verify-seal-new, verify_untyped, drop-seal}
use oxen_db.BTreeMap
use oxen_db.Wal.Record.{WalRecord, DecodedRecord, page_image, commit}
use oxen_db.Recovery.{note_commit, committed, validate_image, take_image, collect, replay}
use oxen_db.Recovery.Laws.{last_image, collect-committed, has_commit, commits}
use oxen_db.Recovery.Refused.{replay_refuses}
use oxen_db.Disk.{DiskManager, read_page, write_page}
use oxen_db.Disk.Laws.{sound, read_page-write_page}
use oxen_db.BufferPool.{PoolState, find_victim}
use oxen_db.BufferPool.Clock.{find_victim_finds}
use oxen_db.BufferPool.Pool.{BufferPool, shard_index}
use oxen_db.BufferPool.Pool as Pool
use oxen_db.BufferPool.Pool.Sizes.{new-capacity}
use oxen_db.Db.{Database, default_report}
use oxen_db.Db.Txn.{WriteTxn, seal_all, commit_pages, commit_txn}
use oxen_db.Db.Txn.Laws.{commit_txn-err}

abbrev no_file : File
no_file = record { contents = []; synced = []; fates = [] }

-- A sealed page, and a log of one transaction that wrote it.
abbrev filled_page : Page
filled_page = write_payload 0 (1 ∷ []) (set_lsn 4 (new 1 heap))

abbrev good_page : Page
good_page = seal filled_page

abbrev logged : WalRecord → DecodedRecord
logged r = record { seq = 1; wal_record = r; len = 25 }

abbrev good_log : List DecodedRecord
good_log = logged (page_image 7 1 good_page) ∷ logged (commit 7) ∷ []

good_page_verifies : verify good_page 1 ≡ ok (record { page_type = heap; page_id = 1; lsn = 4 })
good_page_verifies = verify-seal-new heap 1 4 0 (1 ∷ []) (omega arith) (omega arith)

good_log_collects : collect (committed good_log) good_log [] ≡ ok ((1, good_page) ∷ [])
unfolding collect committed note_commit take_image validate_image BTreeMap.add BTreeMap.contains
    BTreeMap.insert
good_log_collects = rw (good_page_verifies, BTreeMap.insert) refl

collect-committed_example : BTreeMap.get 1 ((1, good_page) ∷ []) ≡ last_image good_log 1 good_log
collect-committed_example = collect-committed good_log ((1, good_page) ∷ []) 1 good_log_collects

-- Behind a good image, the image of a page that is not sealed.
replay_refuses_example :
    replay
      (logged (page_image 7 1 good_page) ∷ logged (page_image 7 2 zeroed) ∷ logged (commit 7) ∷ [])
      no_file
    ≡ (err corruption, no_file)
replay_refuses_example =
    replay_refuses (logged (page_image 7 1 good_page) ∷ []) (logged (commit 7) ∷ [])
      (logged (page_image 7 2 zeroed)) 7 2 zeroed corruption no_file refl
      (unfold has_commit commits in refl)
      (inr (λ same. absurd (omega (arith, same)), verify-zeroed 2))

-- Three frames, of which the last is not pinned and was used lately.
abbrev three_frames : PoolState
three_frames = record {
  page_table = [];
  frame_pages = some 1 ∷ some 2 ∷ some 3 ∷ [];
  pin_counts = 1 ∷ 2 ∷ 0 ∷ [];
  ref_bits = true ∷ true ∷ true ∷ [];
  clock_hand = 0;
  free_frames = [];
}

find_victim_finds_example :
    (g : ℕ) × ((find_victim three_frames).0 ≡ some g) × (get_or three_frames.pin_counts g 0 ≡ 0)
unfolding get_or
find_victim_finds_example = find_victim_finds three_frames 2 (omega arith) (omega arith) refl

abbrev small_disk : DiskManager
small_disk = record { file = no_file; page_count = 9 }

new-capacity_example :
    (p : BufferPool) × (Pool.new small_disk 300 ≡ ok p)
    × (Pool.capacity p ≡ 300)
    × ((id : PageId) → shard_index id (length p.shards) < length p.shards)
new-capacity_example = new-capacity small_disk 300 (omega arith)

abbrev small_db : Database
small_db = record {
  pool = record { disk = small_disk; shards = [] };
  auto_checkpoint_bytes = none;
  wal = record {
    file = no_file;
    durable_len = 24;
    pending = [];
    next_seq = 1;
    is_poisoned = false;
  };
  next_txn = 1;
  is_poisoned = false;
  report = default_report;
}

-- A transaction that wrote a page without a type.
abbrev bad_txn : WriteTxn
bad_txn = record { db = small_db; dirty = (1, zeroed) ∷ []; page_count = 9 }

sealed_type : get_or (seal zeroed) 4 0 ≡ 0
unfolding zeroed get_or replicate
sealed_type = get_or-drop_congr 4 (seal zeroed) zeroed 0 (drop-seal 4 zeroed (omega arith)) ∙ refl

bad_txn_refused : (commit_txn bad_txn).0 ≡ err invalid_argument
unfolding commit_txn commit_pages seal_all
bad_txn_refused = rw (verify_untyped (seal zeroed) 1 sealed_type) refl

commit_txn-err_example :
    ((commit_txn bad_txn).1 ≡ bad_txn.db) ⊎ ((commit_txn bad_txn).1.is_poisoned ≡ true)
commit_txn-err_example = commit_txn-err bad_txn invalid_argument bad_txn_refused

filled_page-IsPage : IsPage filled_page
unfolding write_payload set_lsn new zeroed write_le splice overwrite to_le_bytes replicate take drop
filled_page-IsPage = refl

filled_page_id : page_id filled_page ≡ 1
unfolding page_id write_payload set_lsn new zeroed write_le splice to_le_bytes replicate read_le
    from_le_bytes take drop overwrite
filled_page_id = refl

read_page-write_page_example :
    (let s = write_page 1 (sound [] [] 9, filled_page) in
      (s.0 ≡ ok tt) × (s.1.1 ≡ seal filled_page) × ((read_page 1 s.1.0).0 ≡ ok (seal filled_page)))
read_page-write_page_example =
    read_page-write_page [] [] 9 filled_page 1 filled_page-IsPage (omega arith) (omega arith)
      filled_page_id good_page_verifies
