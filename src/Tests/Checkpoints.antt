-- ===== src/Tests/Checkpoints.antt =====
-- The theorem on a checkpoint and the opening after it, at a concrete database.
use oxen_db.Prelude.{◌<◌, ◌≡◌, refl, [], ◌∷◌, none, false, arith, ok, replicate, get_or}
use oxen_db.Prelude.Op.{After, After-ok}
use oxen_db.Disk.Outcomes.{IsReady, IsReady-seal}
use oxen_db.BufferPool.Pool.{BufferPool}
use oxen_db.BufferPool.Pool.Coherent.{PoolHolds, PoolKeepsBut}
use oxen_db.BufferPool.Pool.Calls.{install_page-PoolKeepsBut}
use oxen_db.Checksum.Hw.Laws.{crc32c_checksum}
use mathlib.Core.Path.{subst}
use oxen_db.Page.{PageId, seal, set_lsn, new, heap}
use oxen_db.Disk.{DiskManager}
use oxen_db.BTreeMap.{get}
use oxen_db.BufferPool.{
  shard_count_for, acquire_frame, acquire_from, ascending, install_cached, map_page, install_page,
  new_shard, new_state, on_state, remove, set_frame, table_insert, touch, ilog2, ilog2_from, clamp,
}
use oxen_db.BufferPool.Consistent.{nil-FitsU32}
use oxen_db.BufferPool.Pool as Pool
use oxen_db.BufferPool.Pool.Start.{shard_index-lt-shard_count_for, new-IsPoolCoherent}
use oxen_db.BufferPool.Pool.DiskSteps.{Follows}
use oxen_db.Wal.Log.Append.{log_state}
use oxen_db.Db.{
  Database, default_options, default_report, page_count, write_checkpoint, open_with_wal,
}
use oxen_db.Db.Reopened.{IsReopened}
use oxen_db.Db.AfterCheckpoint.{data_left, write_checkpoint-IsReopened}
use oxen_db.Db.Txn.Cache.{do_read}
use oxen_db.Db.Txn.Crash.{left_behind}
use oxen_db.Tests.Cache.{stored_disk, other_page, other_page_id, set_lsn-new-IsPage}
use oxen_db.Tests.Crashes.{empty_dir, old_records}

-- A disk with one data page, a cache of two frames over it, and another content of the page that is
-- only in the cache.
abbrev small_disk : DiskManager
small_disk = record { file = record stored_disk.file { fates = [] }; page_count = 2 }

abbrev fresh_pool : BufferPool
fresh_pool = record {
  disk = small_disk;
  shards = Pool.new_shards small_disk 2 (shard_count_for 2) 0 (shard_count_for 2);
}

other_page-IsReady_small : IsReady seal 2 1 other_page
other_page-IsReady_small =
    IsReady-seal 2 1 (set_lsn 8 (new 1 heap)) (omega arith) (omega arith) set_lsn-new-IsPage
      other_page_id

abbrev used_pool : BufferPool
used_pool = (Pool.install_page 1 other_page fresh_pool).1

other_page_installed : (Pool.install_page 1 other_page fresh_pool).0 ≡ ok tt
unfolding Pool.install_page Pool.on_page Pool.on_shard Pool.shard_index Pool.new_shards
    Pool.frames_of get acquire_frame acquire_from ascending install_cached map_page install_page
    new_shard new_state on_state remove set_frame table_insert touch replicate get_or
    shard_count_for ilog2 ilog2_from clamp
other_page_installed = rw other_page-IsReady_small.own refl

used_pool_keeps :
    PoolKeepsBut (λ _. []) (◌≡◌ 1) (shard_count_for 2) fresh_pool used_pool
    × PoolHolds (shard_count_for 2) used_pool 1 other_page
used_pool_keeps = After-ok (Pool.install_page 1 other_page fresh_pool) tt _ _ other_page_installed (
    install_page-PoolKeepsBut (shard_count_for 2) (shard_index-lt-shard_count_for 2) (λ _. [])
      fresh_pool 1 other_page (λ _. nil-FitsU32)
      (new-IsPoolCoherent small_disk 2 (omega arith) (omega arith)) other_page-IsReady_small)

abbrev used_db : Database
used_db = record {
  pool = used_pool;
  auto_checkpoint_bytes = none;
  wal = log_state 5 old_records [] [];
  next_txn = 1;
  is_poisoned = false;
  report = default_report;
}

used_db_counts : page_count used_db ≡ 2
unfolding page_count
used_db_counts = used_pool_keeps.0.count

only_page : (id : PageId) → 0 < id → id < 2 → PoolHolds (shard_count_for 2) used_pool id other_page
only_page id above inside =
    let one : 1 ≡ id = omega (arith, above, inside) in
    subst (λ i. PoolHolds (shard_count_for 2) used_pool i other_page) one used_pool_keeps.1

write_checkpoint-IsReopened_example :
    After
      (write_checkpoint used_db)
      (λ _ e.
        IsReopened
          (do_read 1 ∷ [])
          (page_count used_db)
          (λ _. other_page)
          6
          (open_with_wal (data_left e) (left_behind e.wal) default_options empty_dir))
      (λ e. Follows (λ _. []) (shard_count_for 2) used_db.pool e.pool)
write_checkpoint-IsReopened_example =
    write_checkpoint-IsReopened (shard_count_for 2) (λ _. []) used_db (λ _. other_page) 5
      old_records [] default_options empty_dir (do_read 1 ∷ []) (shard_index-lt-shard_count_for 2)
      used_pool_keeps.0.coherent
      (λ id above inside. only_page id above (omega (arith, inside, used_db_counts)))
      (omega (arith, used_db_counts)) refl (omega arith) (omega arith) tt
