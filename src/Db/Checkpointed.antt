-- ===== src/Db/Checkpointed.antt =====
-- What a checkpoint that succeeds makes durable: the data file alone has every page of the cache.
use oxen_db.Prelude.{ℕ, ◌+◌, ◌*◌, ◌^◌, ◌<◌, ◌≡◌, sym, ◌∙◌, List, [], length, arith}
use oxen_db.Prelude.Op.{After, After-map, After-both, After-and_then}
use oxen_db.Checksum.{Checksum}
use oxen_db.File.{Fate}
use oxen_db.Page.{Page, PageId, page_size}
use oxen_db.FileHeader.Laws.{encode-IsPage}
use oxen_db.Disk
use oxen_db.Disk.{DiskManager}
use oxen_db.Disk.Stored.{Stored, Stored-write_at, Stored-write_at_other}
use oxen_db.BufferPool.{PageHandle}
use oxen_db.BufferPool.Pool as Pool
use oxen_db.BufferPool.Pool.{BufferPool, shard_index}
use oxen_db.BufferPool.Pool.Coherent.{PoolHolds, IsPoolCoherent}
use oxen_db.BufferPool.Pool.Flushing.{flush_all-PoolKeepsBut}
use oxen_db.BufferPool.Pool.Cleaned.{flush_all-Stored}
use oxen_db.Wal.Record.{WalRecord}
use oxen_db.Wal.Log as Log
use oxen_db.Wal.Log.{Wal}
use oxen_db.Wal.Log.Append.{log_state}
use oxen_db.Wal.Log.Reset.{reset-After}
use oxen_db.BufferPool.Pool.DiskSteps.{Follows}
use oxen_db.Db.Checkpoint.{write_checkpoint-Follows}
use oxen_db.Disk.Calls.{header_of, sync_disk-synced, write_file_header-Overwrites}
use oxen_db.Db.Steps.{on_pool-whole, on_disk-whole, on_wal-whole}
use oxen_db.Db.{Database, on_pool, on_disk, on_wal, page_count, write_checkpoint}

module _ ⦃c : Checksum⦄ where
  -- The data file has every page that the cache of `db` held, under a header with its page count, all
  -- of it synced; the log is empty, and its next record is number `next`.
  pub record IsCheckpointed (n : ℕ) (db : Database) (next : ℕ) (e : Database) : Type 0 where
    pub synced : e.pool.disk.file.synced ≡ e.pool.disk.file.contents
    pub header : Stored e.pool.disk.file.contents 0 (header_of (page_count db))
    pub pages :
        (id : PageId) (page : Page)
        → 0 < id
        → PoolHolds n db.pool id page
        → Stored e.pool.disk.file.contents id page
    pub counted : page_count e ≡ page_count db
    pub log_ahead : List Fate
    pub log_is : e.wal ≡ log_state next [] [] log_ahead

  -- The disk stores what the pool of `db` held.
  record HasPages (n : ℕ) (db : Database) (d : DiskManager) : Type 0 where
    has_pages :
        (id : PageId) (page : Page)
        → 0 < id
        → PoolHolds n db.pool id page
        → Stored d.file.contents id page
    has_count : d.page_count ≡ page_count db

  module _ (n : ℕ) (held : ℕ → List PageHandle) (index : (id : PageId) → shard_index id n < n)
      (db : Database) (v : IsPoolCoherent held n db.pool) where
    room : page_count db * page_size < 2 ^ 64
    unfolding page_count
    room = (v.coherent (shard_index 0 n) (index 0)).room

    flushed :
        After
          (on_pool Pool.flush_all db)
          (λ _ d. HasPages n db d.pool.disk × (d.wal ≡ db.wal))
          (λ _. Unit {0})
    unfolding page_count
    flushed =
        After-map (on_pool Pool.flush_all db) _ _ _ _
          (on_pool-whole Pool.flush_all db (λ _ q. HasPages n db q.disk) (λ _. Unit {0})
            (After-map (Pool.flush_all db.pool) _ _ _ _
              (After-both (Pool.flush_all db.pool) _ _ _ _
                (flush_all-PoolKeepsBut n index held db.pool v)
                (flush_all-Stored n index held db.pool v))
              (λ _ q h. record { has_pages = λ id page _ w. h.1 id page w; has_count = h.0.count })
              (λ q h. tt)))
          (λ _ d h. h) (λ d h. tt)

    header_written :
        (d : Database)
        → HasPages n db d.pool.disk
        → After
            (on_disk Disk.write_file_header d)
            (λ _ e.
              (HasPages n db e.pool.disk
                × Stored e.pool.disk.file.contents 0 (header_of (page_count db)))
              × (e.wal ≡ d.wal))
            (λ _. Unit {0})
    header_written d has =
        After-map (on_disk Disk.write_file_header d) _ _ _ _
          (on_disk-whole Disk.write_file_header d _ _ (write_file_header-Overwrites d.pool.disk))
          (λ _ e w.
            let header = header_of d.pool.disk.page_count in
            let size : length header ≡ page_size =
              encode-IsPage (record { page_count = d.pool.disk.page_count })
                (omega (arith, has.has_count, room)) in
            (
              (
                record {
                  has_pages = λ id page positive h. rw w.0.contents (
                      Stored-write_at_other 0 header d.pool.disk.file.contents id page
                        (λ zero'. absurd (omega arith)) (omega (arith, size))
                        (has.has_pages id page positive h));
                  has_count = w.0.same_count ∙ has.has_count;
                },
                rw (w.0.contents, ← has.has_count)
                    (Stored-write_at 0 header d.pool.disk.file.contents size),
              ),
              w.1,
            ))
          (λ e w. tt)

    emptied :
        (first : ℕ) (rs : List WalRecord) (fates : List Fate) (d : Database)
        → d.wal ≡ log_state first rs [] fates
        → first + length rs < 2 ^ 64
        → HasPages n db d.pool.disk
        → Stored d.pool.disk.file.contents 0 (header_of (page_count db))
        → d.pool.disk.file.synced ≡ d.pool.disk.file.contents
        → After (on_wal Log.reset d) (λ _. IsCheckpointed n db (first + length rs)) (λ _. Unit {0})
    unfolding page_count
    emptied first rs fates d same small has header synced =
        After-map (on_wal Log.reset d) _ _ _ _
          (on_wal-whole Log.reset d
            (λ _ w. (rest : List Fate) × (w ≡ log_state (first + length rs) [] [] rest))
            (λ _. Unit {0}) (rw same (reset-After first rs small fates)))
          (λ _ e he. record {
            synced = rw he.1 synced;
            header = rw he.1 header;
            pages = λ id page positive h. rw he.1 (has.has_pages id page positive h);
            counted = rw he.1 has.has_count;
            log_ahead = he.0.0;
            log_is = he.0.1;
          })
          (λ e h. tt)

    checkpointed :
        (first : ℕ) (rs : List WalRecord) (fates : List Fate)
        → db.wal ≡ log_state first rs [] fates
        → first + length rs < 2 ^ 64
        → After (write_checkpoint db) (λ _. IsCheckpointed n db (first + length rs)) (λ _. Unit {0})
    unfolding write_checkpoint
    checkpointed first rs fates log_is small =
        After-and_then (on_pool Pool.flush_all db) _ _ _ _ flushed (λ _ a ha.
          After-and_then (on_disk Disk.write_file_header a) _ _ _ _ (header_written a ha.0)
            (λ _ b hb.
              After-and_then (on_disk Disk.sync_disk b) _ _ _ _
                (After-map (on_disk Disk.sync_disk b) _ _ _ _
                  (on_disk-whole Disk.sync_disk b _ _ (sync_disk-synced b.pool.disk)) (λ _ x h. h)
                  (λ x h. tt))
                (λ _ d hd.
                  emptied first rs fates d (hd.1 ∙ hb.1 ∙ ha.1 ∙ log_is) small
                    (record {
                      has_pages =
                          λ id page positive h. rw hd.0.0 (hb.0.0.has_pages id page positive h);
                      has_count = hd.0.2 ∙ hb.0.0.has_count;
                    })
                    (rw hd.0.0 hb.0.1) (hd.0.1 ∙ sym hd.0.0))))

    -- A checkpoint of a cache in good order over a log with nothing pending, whose numbers fit 64
    -- bits, either succeeds, and the data file has every page of the cache under a header with the
    -- page count, all synced, and the log is empty and numbered on; or fails, and the cache is in good
    -- order and holds every data page that it held. Every page id has a shard.
    pub write_checkpoint-IsCheckpointed :
        (first : ℕ) (rs : List WalRecord) (fates : List Fate)
        → db.wal ≡ log_state first rs [] fates
        → first + length rs < 2 ^ 64
        → After
            (write_checkpoint db)
            (λ _. IsCheckpointed n db (first + length rs))
            (λ e. Follows held n db.pool e.pool)
    write_checkpoint-IsCheckpointed first rs fates log_is small =
        After-map (write_checkpoint db) _ _ _ _
          (After-both (write_checkpoint db) _ _ _ _ (checkpointed first rs fates log_is small)
            (write_checkpoint-Follows held n index db v))
          (λ _ e h. h.0) (λ e h. h.1)
