-- ===== src/Db/Reopened.antt =====
-- Opening a database with its log: the pages that the data file and the log's records stand for.
use oxen_db.Prelude.{
  ℕ, ◌+◌, ◌*◌, ◌^◌, ◌≤◌, ◌<◌, ◌≡◌, ◌⊎◌, inl, inr, refl, ◌∙◌, ap, false, none, some, List, [],
  length, ltb, ◌==◌, ◌&&◌, ok, err, Result, if◌then◌else◌, arith,
}
use mathlib.Core.Path.{fun_ext}
use oxen_db.Checksum.{Checksum}
use oxen_db.File.{File}
use oxen_db.Page.{Page, PageId, page_size}
use oxen_db.FileHeader
use oxen_db.FileHeader.{FileHeader}
use oxen_db.Disk.{DiskManager}
use oxen_db.Disk.Laws.{sound}
use oxen_db.Disk.Stored.{Stored}
use oxen_db.Disk.View.{Stored-page_at}
use oxen_db.Disk.Opened.{open_file-header}
use oxen_db.BufferPool.{shard_count_for}
use oxen_db.BufferPool.Pool as Pool
use oxen_db.BufferPool.Pool.{BufferPool}
use oxen_db.Wal.Record.{WalRecord, DecodedRecord}
use oxen_db.Wal.Log as Log
use oxen_db.Wal.Log.{Wal, OpenedWal}
use oxen_db.Wal.Log.Reopen.{settled}
use oxen_db.Wal.Log.Append.{log_state}
use oxen_db.Wal.Log.Reset.{reset-settled}
use oxen_db.Recovery.{RecoveryStats}
use oxen_db.Recovery.Laws.{last_image}
use oxen_db.Recovery.Writes.{clean}
use oxen_db.Recovery.Restored.{AllRestorable, page_after, replay-clean}
use oxen_db.Db.{
  Database, Directory, Options, OpenReport, page_count, replay_and_open, reset_wal, open_with_wal,
  assemble,
}
use oxen_db.Db.Txn.Cache.{Call, Expected, AreReady, IsFaithful, new-IsFaithful}

-- The file, with the images of the records, reaches to the end of the last page.
abbrev pub IsReached : List DecodedRecord → List ℕ → ℕ → Type 0
IsReached records bs count =
    (count * page_size ≤ length bs)
    ⊎ ((k : PageId) × (page : Page) × (last_image records k records ≡ some page) × (count ≤ k + 1))

-- The data pages, as a map.
unfoldable pub data_pages : ℕ → (PageId → Page) → Expected
data_pages count pages id = if ltb 0 id && ltb id count then some (pages id) else none

data_pages_congr :
    (count : ℕ) (pages pages' : PageId → Page)
    → ((id : PageId) → 0 < id → id < count → pages id ≡ pages' id)
    → data_pages count pages ≡ data_pages count pages'
unfolding data_pages
data_pages_congr count pages pages' same = fun_ext λ id. ground (arith, same id)

module _ ⦃c : Checksum⦄ where
  -- The data file and the records of the log stand for a database with this page count: replay can
  -- restore every image, and gives the file a header with the count and all the pages it counts.
  pub record IsDatabase (records : List DecodedRecord) (bs : List ℕ) (count : ℕ) : Type 0 where
    pub good : AllRestorable records
    pub header : FileHeader.decode (page_after records bs 0) ≡ ok (record { page_count = count })
    pub reached : IsReached records bs count
    pub positive : 0 < count
    pub room : count * page_size < 2 ^ 64

  covers_all :
      (records : List DecodedRecord) (bs contents : List ℕ) (count : ℕ)
      → length bs ≤ length contents
      → ((k : PageId) (page : Page)
          → last_image records k records ≡ some page
          → k * page_size + page_size ≤ length contents)
      → IsReached records bs count
      → count * page_size ≤ length contents
  covers_all records bs contents count longer covered (inl all) = omega arith
  covers_all records bs contents count longer covered (inr (k, page, image, most)) =
      omega (arith, covered k page image)

  module _ (records : List DecodedRecord) (bs synced : List ℕ) (count : ℕ)
      (d : IsDatabase records bs count) where
    -- What replay and the open of the data file give.
    record IsRestored (after : Result (RecoveryStats × DiskManager) × File) : Type 0 where
      stats : RecoveryStats
      contents : List ℕ
      synced_contents : List ℕ
      result : after ≡ (
        ok (stats, sound contents synced_contents count),
        (sound contents synced_contents count).file,
      )
      stored : (id : PageId) → id < count → Stored contents id (page_after records bs id)

    replay_and_open-IsRestored : IsRestored (replay_and_open records (clean bs synced))
    unfolding replay_and_open
    replay_and_open-IsRestored =
        let r = replay-clean records bs synced d.good in
        let all = covers_all records bs r.contents count r.longer r.covered d.reached in
        let opens =
          open_file-header r.contents r.synced (record { page_count = count })
            (ap FileHeader.decode (r.pages 0) ∙ d.header) (omega (arith, d.positive, all)) all
            d.room in
        record {
          stats = r.stats;
          contents = r.contents;
          synced_contents = r.synced;
          result = rw (r.result, opens) refl;
          stored = λ id inside.
              rw r.pages at (Stored-page_at r.contents id (omega (arith, inside, all)));
        }

  -- A database that has been opened: it has this page count and stores these data pages, its cache
  -- answers the calls `cs` by them, its log is empty, numbered on from `next`.
  pub record IsReopened (cs : List Call) (count : ℕ) (pages : PageId → Page) (next : ℕ)
      (after : Result Database × Directory) : Type 0 where
    pub db : Database
    pub dir : Directory
    pub result : after ≡ (ok db, dir)
    pub counted : page_count db ≡ count
    pub stored :
        (id : PageId) → 0 < id → id < count → Stored db.pool.disk.file.contents id (pages id)
    pub served : IsFaithful cs db.pool (data_pages count pages)
    pub log_is : db.wal ≡ log_state next [] [] []
    pub usable : db.is_poisoned ≡ false

  -- What is at page 0, and behind the page count, is not among the data pages.
  pub IsReopened-congr :
      (cs : List Call) (count : ℕ) (pages pages' : PageId → Page) (next : ℕ)
      (after : Result Database × Directory)
      → ((id : PageId) → 0 < id → id < count → pages id ≡ pages' id)
      → IsReopened cs count pages next after
      → IsReopened cs count pages' next after
  IsReopened-congr cs count pages pages' next after same o = record {
    db = o.db;
    dir = o.dir;
    result = o.result;
    counted = o.counted;
    stored = λ id positive inside. rw (same id positive inside) at (o.stored id positive inside);
    served = rw (data_pages_congr count pages pages' same) at o.served;
    log_is = o.log_is;
    usable = o.usable;
  }

  reset_wal-reset : (w e : Wal) → Log.reset w ≡ (ok tt, e) → reset_wal w w.file ≡ (ok e, e.file)
  unfolding reset_wal
  reset_wal-reset w e h =
      ap
        (λ (x : Result (Unit {0}) × Wal).
          (elim x.0 as (λ _. Result Wal) [ ok u ↦ ok x.1 | err e ↦ err e ], x.1.file))
        h

  -- The pool of a positive capacity is made.
  abbrev new_pool : DiskManager → ℕ → BufferPool
  new_pool disk total =
      let n = shard_count_for total in
      record { disk = disk; shards = Pool.new_shards disk total n 0 n }

  assembled :
      (disk : DiskManager) (w : Wal) (options : Options) (report : OpenReport)
      → 0 < options.buffer_pool_pages
      → assemble disk w options report
        ≡ ok (record {
          pool = new_pool disk options.buffer_pool_pages;
          auto_checkpoint_bytes = options.auto_checkpoint_bytes;
          wal = w;
          next_txn = 1;
          is_poisoned = false;
          report = report;
        })
  unfolding assemble Pool.new
  assembled disk w options report frames =
      let nonzero : (options.buffer_pool_pages == 0) ≡ false = ground (arith, frames) in
      rw (assemble, nonzero) refl

  data_pages-some :
      (count : ℕ) (pages : PageId → Page) (id : PageId) (page : Page)
      → data_pages count pages id ≡ some page
      → (id < count) × (pages id ≡ page)
  unfolding data_pages
  data_pages-some count pages id page h = ground (arith, h)

  module _ (first : ℕ) (rs : List WalRecord) (bs synced log_synced : List ℕ) (count : ℕ)
      (wal_file : File) (found : OpenedWal) (options : Options) (dir : Directory)
      (cs : List Call) where
    -- While the calls of both files succeed, a log that opens with the records `rs` in its file and
    -- that stands with the data file for a database, gives an open database: the page count is that
    -- of the header, every data page below it is stored, the newest committed image of the log or else
    -- the page of the file, the cache answers the calls `cs` by these pages, and the log is empty and
    -- numbered on. The log's numbers fit 64 bits, the pool has a frame, and the pages that the
    -- calls install are sealed, have their own id and lie within the page count.
    pub open_with_wal-IsReopened :
        Log.open_file wal_file ≡ (ok found, found.wal.file)
        → found.wal ≡ settled first rs log_synced
        → first + length rs < 2 ^ 64
        → IsDatabase found.records bs count
        → 0 < options.buffer_pool_pages
        → AreReady count cs
        → IsReopened cs count
            (page_after found.records bs)
            (first + length rs)
            (open_with_wal (clean bs synced) wal_file options dir)
    unfolding open_with_wal Pool.new page_count
    open_with_wal-IsReopened opens same small d frames ready =
        let r = replay_and_open-IsRestored found.records bs synced count d in
        let emptied = log_state (first + length rs) [] [] [] in
        let reset =
          reset_wal-reset (settled first rs log_synced) emptied
            (reset-settled first rs small log_synced) in
        let disk = sound r.contents r.synced_contents count in
        let total = options.buffer_pool_pages in
        let nonzero : (total == 0) ≡ false = ground (arith, frames) in
        record {
          db = record {
            pool = new_pool disk total;
            auto_checkpoint_bytes = options.auto_checkpoint_bytes;
            wal = emptied;
            next_txn = 1;
            is_poisoned = false;
            report = record {
              created = false;
              recovery = r.stats;
              discarded_wal_tail = found.discarded;
            };
          };
          dir = record dir { data_file = some disk.file; wal_file = some emptied.file };
          result = rw (opens, r.result, same, reset, assembled disk emptied options _ frames) refl;
          counted = refl;
          stored = λ id _ inside. r.stored id inside;
          served =
              new-IsFaithful disk total (new_pool disk total) cs
                (data_pages count (page_after found.records bs)) frames d.room (rw nonzero refl)
                ready
                (λ id page e.
                  let (inside, there) = data_pages-some count _ id page e in
                  rw there at (r.stored id inside));
          log_is = refl;
          usable = refl;
        }
