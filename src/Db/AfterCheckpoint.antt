-- ===== src/Db/AfterCheckpoint.antt =====
-- Opening a database whose process ended after a checkpoint.
use oxen_db.Prelude.{
  ℕ, ◌+◌, ◌*◌, ◌-◌, ◌^◌, ◌≤◌, ◌<◌, ◌≡◌, inl, refl, ◌∙◌, ap, false, none, List, [], length, ◌==◌,
  arith,
}
use native.Mathlib.Decide.{dec_lt}
use native.Mathlib.Nat.{add-zero}
use oxen_db.Prelude.Op.{After, After-map}
use oxen_db.Checksum.{Checksum}
use oxen_db.File.{File, Fate}
use oxen_db.Page.{Page, PageId, page_size}
use oxen_db.FileHeader
use oxen_db.FileHeader.Laws.{decode-encode}
use oxen_db.Disk.Stored.{Stored}
use oxen_db.Disk.Calls.{header_of}
use oxen_db.Disk.View.{page_at, page_at-Stored}
use oxen_db.BufferPool.{PageHandle}
use oxen_db.BufferPool.Pool.{shard_index}
use oxen_db.BufferPool.Pool.Coherent.{PoolHolds, IsPoolCoherent}
use oxen_db.BufferPool.Pool.DiskSteps.{Follows}
use oxen_db.Wal.Record.{WalRecord}
use oxen_db.Wal.Log.{OpenedWal}
use oxen_db.Wal.Log.Scan.{decoded}
use oxen_db.Wal.Log.Reopen.{log_bytes, settled, open_clean}
use oxen_db.Wal.Log.Append.{log_state}
use oxen_db.Recovery.Laws.{last_image}
use oxen_db.Recovery.Writes.{clean, image_or}
use oxen_db.Recovery.Restored.{page_after}
use oxen_db.Db.{Database, Directory, Options, page_count, write_checkpoint, open_with_wal}
use oxen_db.Db.Checkpointed.{IsCheckpointed, write_checkpoint-IsCheckpointed}
use oxen_db.Db.Reopened.{IsDatabase, IsReopened, IsReopened-congr, open_with_wal-IsReopened}
use oxen_db.Db.Txn.Cache.{Call, AreReady}
use oxen_db.Db.Txn.Crash.{left_behind}

-- The data file of a database as a new process meets it.
abbrev pub data_left : Database → File
data_left db = clean db.pool.disk.file.contents db.pool.disk.file.synced

no_log :
    (contents : List ℕ) (first : ℕ) (k : PageId)
    → page_after (decoded first []) contents k ≡ page_at k contents
unfolding decoded last_image image_or
no_log contents first k = refl

module _ ⦃c : Checksum⦄ where
  module _ (n : ℕ) (db e : Database) (next : ℕ) (pages : PageId → Page)
      (o : IsCheckpointed n db next e) (positive : 0 < page_count db)
      (room : page_count db * page_size < 2 ^ 64)
      (shown : (id : PageId)
        → 0 < id
        → id < page_count db
        → PoolHolds n db.pool id (pages id)) where
    stored :
        (id : PageId) → 0 < id → id < page_count db → Stored e.pool.disk.file.contents id (pages id)
    stored id above inside = o.pages id (pages id) above (shown id above inside)

    whole_file : page_count db * page_size ≤ length e.pool.disk.file.contents
    whole_file = elim (dec_lt 1 (page_count db)) [
      | yes more ↦
          let last = stored (page_count db - 1) (omega arith) (omega arith) in
          omega (arith, last.covers)
      | no one ↦ omega (arith, o.header.covers, positive)
    ]

    alone-IsDatabase : IsDatabase (decoded next []) e.pool.disk.file.contents (page_count db)
    unfolding decoded
    alone-IsDatabase =
        let nonzero : (page_count db == 0) ≡ false = ground (arith, positive) in
        record {
          good = tt;
          header =
              ap FileHeader.decode (
                no_log e.pool.disk.file.contents next 0
                ∙ page_at-Stored e.pool.disk.file.contents 0 (header_of (page_count db)) o.header)
              ∙ decode-encode (record { page_count = page_count db }) (omega (arith, room))
              ∙ rw nonzero refl;
          reached = inl whole_file;
          positive = positive;
          room = room;
        }

    alone-IsReopened :
        (options : Options) (dir : Directory) (cs : List Call)
        → next < 2 ^ 64
        → 0 < options.buffer_pool_pages
        → AreReady (page_count db) cs
        → IsReopened cs
            (page_count db)
            pages
            next
            (open_with_wal (data_left e) (left_behind e.wal) options dir)
    unfolding log_state
    alone-IsReopened options dir cs small frames ready =
        let contents = e.pool.disk.file.contents in
        let bytes = log_bytes next [] in
        let found : OpenedWal = record {
          wal = settled next [] bytes;
          records = decoded next [];
          discarded = none;
        } in
        let opens = open_clean next [] tt (omega arith) bytes in
        IsReopened-congr cs (page_count db) (page_after (decoded next []) contents) pages next _
          (λ id above inside.
            no_log contents next id
            ∙ page_at-Stored contents id (pages id) (stored id above inside))
          (rw (add-zero) at (
            open_with_wal-IsReopened next [] contents e.pool.disk.file.synced bytes (page_count db)
              (left_behind e.wal) found options dir cs (rw o.log_is opens) refl (omega arith)
              alone-IsDatabase frames ready))

  count_room :
      (n : ℕ) (held : ℕ → List PageHandle) (db : Database)
      → ((id : PageId) → shard_index id n < n)
      → IsPoolCoherent held n db.pool
      → page_count db * page_size < 2 ^ 64
  unfolding page_count
  count_room n held db index v = (v.coherent (shard_index 0 n) (index 0)).room

  -- When a checkpoint succeeds, a process that opens the database after it, and whose file calls
  -- succeed, finds the page count and every data page of the cache, its own cache answers the calls
  -- `cs` by them, and its log is empty and numbered on. When it fails, the cache is in good order and
  -- holds every data page that it held. Before, the cache is in good order and holds the pages `pages`,
  -- every page id has a shard, nothing is pending in the log, its numbers fit 64 bits, the new pool
  -- has a frame, and the pages that `cs` install are sealed, have their own id and lie within the
  -- page count, which is not zero.
  pub write_checkpoint-IsReopened :
      (n : ℕ) (held : ℕ → List PageHandle) (db : Database) (pages : PageId → Page) (first : ℕ)
      (rs : List WalRecord) (fates : List Fate) (options : Options) (dir : Directory)
      (cs : List Call)
      → ((id : PageId) → shard_index id n < n)
      → IsPoolCoherent held n db.pool
      → ((id : PageId) → 0 < id → id < page_count db → PoolHolds n db.pool id (pages id))
      → 0 < page_count db
      → db.wal ≡ log_state first rs [] fates
      → first + length rs < 2 ^ 64
      → 0 < options.buffer_pool_pages
      → AreReady (page_count db) cs
      → After
          (write_checkpoint db)
          (λ _ e.
            IsReopened cs
              (page_count db)
              pages
              (first + length rs)
              (open_with_wal (data_left e) (left_behind e.wal) options dir))
          (λ e. Follows held n db.pool e.pool)
  write_checkpoint-IsReopened n held db pages first rs fates options dir cs index v shown positive
        log_is small frames ready =
      After-map (write_checkpoint db) _ _ _ _
        (write_checkpoint-IsCheckpointed n held index db v first rs fates log_is small)
        (λ _ e o.
          alone-IsReopened n db e (first + length rs) pages o positive
            (count_room n held db index v) shown options dir cs small frames ready)
        (λ e h. h)
