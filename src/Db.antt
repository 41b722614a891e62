-- ===== src/Db.antt =====
-- crates/oxendb/src/db/mod.rs: the database handle. The locks are left out: one call runs at a time.
pub mod Steps
pub mod Checkpoint
pub mod Checkpointed
pub mod Reopened
pub mod AfterCheckpoint
pub mod Txn
use oxen_db.Prelude.{
  ℕ, zero, suc, ◌+◌, ◌*◌, ◌%◌, ◌^◌, Bool, true, false, not, Option, none, some, List, [], ◌∷◌, leb,
  ltb, ◌==◌, if◌then◌else◌, Result, ok, err, Error, io, invalid_argument, poisoned,
}
use oxen_db.Prelude.Op.{Op, and_then, pure, raise, lift, get, modify, ◌>>=◌, ◌>>◌}
use oxen_db.Checksum.{Checksum}
use oxen_db.File.{File, Fate, empty_file}
use oxen_db.Page.{Page, PageId}
use oxen_db.Disk
use oxen_db.Disk.{DiskManager}
use oxen_db.BufferPool.Pool
use oxen_db.BufferPool.Pool.{BufferPool}
use oxen_db.Recovery
use oxen_db.Recovery.{RecoveryStats}
use oxen_db.Wal.Log
use oxen_db.Wal.Record.{DecodedRecord}
use oxen_db.Wal.Log.{Wal, OpenedWal, DiscardedTail}

pub record Options : Type 0 where
  pub buffer_pool_pages : ℕ
  pub create_if_missing : Bool
  pub auto_checkpoint_bytes : Option ℕ

abbrev pub default_options : Options
default_options = record {
  buffer_pool_pages = 4096;
  create_if_missing = true;
  auto_checkpoint_bytes = some (4 * 1024 * 1024);
}

pub record OpenReport : Type 0 where
  pub created : Bool
  pub recovery : RecoveryStats
  pub discarded_wal_tail : Option DiscardedTail

abbrev pub default_report : OpenReport
default_report = record {
  created = false;
  recovery = record { committed_txns = 0; incomplete_txns = 0; pages_restored = 0 };
  discarded_wal_tail = none;
}

-- The disk is the one inside the pool, which shares it.
pub record Database : Type 0 where
  pub pool : BufferPool
  pub auto_checkpoint_bytes : Option ℕ
  pub wal : Wal
  pub next_txn : ℕ
  pub is_poisoned : Bool
  pub report : OpenReport

-- The two paths of a database, `<path>` and `<path>-wal`: a file, or the fates of one that is made.
pub record Directory : Type 0 where
  pub data_file : Option File
  pub wal_file : Option File
  pub new_data : List Fate
  pub new_wal : List Fate

unfoldable pub on_pool : {A : Type 0} → Op BufferPool A → Op Database A
on_pool m db = let (r, p) = m db.pool in (r, record db { pool = p })

unfoldable pub on_disk : {A : Type 0} → Op DiskManager A → Op Database A
on_disk m db = let (r, p) = Pool.on_disk m db.pool in (r, record db { pool = p })

unfoldable pub on_wal : {A : Type 0} → Op Wal A → Op Database A
on_wal m db = let (r, w) = m db.wal in (r, record db { wal = w })

unfoldable pub page_count : Database → ℕ
page_count db = db.pool.disk.page_count

unfoldable pub check_poisoned : Op Database (Unit {0})
check_poisoned db = if db.is_poisoned then (err poisoned, db) else (ok tt, db)

unfoldable pub poison : Database → Database
poison db = record db { is_poisoned = true }

unfoldable pub next_txn_id : Op Database ℕ
next_txn_id db = (ok db.next_txn, record db { next_txn = (db.next_txn + 1) % 2 ^ 64 })

-- What poisons the database when it fails.
unfoldable pub or_poison : Result (Unit {0}) × Database → Result (Unit {0}) × Database
or_poison (ok u, db) = (ok u, db)
or_poison (err e, db) = (err e, poison db)

unfoldable pub assemble : DiskManager → Wal → Options → OpenReport → Result Database
assemble disk wal options report = elim (Pool.new disk options.buffer_pool_pages) [
  | err e ↦ err e
  | ok pool ↦ ok (record {
    pool = pool;
    auto_checkpoint_bytes = options.auto_checkpoint_bytes;
    wal = wal;
    next_txn = 1;
    is_poisoned = false;
    report = report;
  })
]

-- A file method on the data file or on the log, at its path.
unfoldable pub at_data : {A : Type 0} → File → Op File A → Op Directory A
at_data f m dir = let (r, f') = m f in (r, record dir { data_file = some f' })

unfoldable pub at_wal : {A : Type 0} → File → Op File A → Op Directory A
at_wal f m dir = let (r, f') = m f in (r, record dir { wal_file = some f' })

-- `create_new` refuses a path that is taken.
unfoldable pub create_data_file : {A : Type 0} → Op File A → Op Directory A
unfolding at_data
create_data_file m dir = elim dir.data_file [
  | some f ↦ (err io, dir)
  | none ↦ at_data (empty_file dir.new_data) m dir
]

unfoldable pub create_wal_file : {A : Type 0} → Op File A → Op Directory A
unfolding at_wal
create_wal_file m dir = elim dir.wal_file [
  | some f ↦ (err io, dir)
  | none ↦ at_wal (empty_file dir.new_wal) m dir
]

module _ ⦃c : Checksum⦄ where
  unfoldable pub create : Options → Op Directory Database
  unfolding create_data_file create_wal_file
  create options = do
    disk ← create_data_file Disk.create_in
    wal ← create_wal_file Log.create_in
    lift (assemble disk wal options (record default_report { created = true }))

  -- Without a log there is nothing to recover.
  unfoldable pub open_without_wal : File → Options → Op Directory Database
  unfolding at_data create_wal_file
  open_without_wal data_file options = do
    disk ← at_data data_file Disk.open_file
    wal ← create_wal_file Log.create_in
    lift (assemble disk wal options default_report)

  -- Recovery writes to the data file before it is opened, so the disk is the file as replay left it.
  unfoldable pub replay_and_open : List DecodedRecord → Op File (RecoveryStats × DiskManager)
  replay_and_open records = do
    stats ← Recovery.replay records
    disk ← Disk.open_file
    pure (stats, disk)

  unfoldable pub reset_wal : Wal → Op File Wal
  reset_wal wal f =
      let (r, w) = Log.reset (record wal { file = f }) in
      (elim r [ ok u ↦ ok w | err e ↦ err e ], w.file)

  unfoldable pub open_with_wal : File → File → Options → Op Directory Database
  unfolding at_data at_wal replay_and_open reset_wal
  open_with_wal data_file wal_file options = do
    opened ← at_wal wal_file Log.open_file
    recovered ← at_data data_file (replay_and_open opened.records)
    wal ← at_wal opened.wal.file (reset_wal opened.wal)
    lift (
        assemble recovered.1 wal options (record {
          created = false;
          recovery = recovered.0;
          discarded_wal_tail = opened.discarded;
        }))

  unfoldable pub open_paths : Options → Option File → Option File → Op Directory Database
  unfolding create open_without_wal open_with_wal
  open_paths options (some data_file) none = open_without_wal data_file options
  open_paths options (some data_file) (some wal_file) = open_with_wal data_file wal_file options
  open_paths options none (some wal_file) = raise invalid_argument
  open_paths options none none =
      if not options.create_if_missing then raise invalid_argument else create options

  unfoldable pub open_database : Options → Op Directory Database
  unfolding open_paths
  open_database options dir = open_paths options dir.data_file dir.wal_file dir

  unfoldable pub write_checkpoint : Op Database (Unit {0})
  unfolding on_pool on_disk on_wal
  write_checkpoint = do
    on_pool Pool.flush_all
    on_disk Disk.write_file_header
    on_disk Disk.sync_disk
    on_wal Log.reset

  unfoldable pub checkpoint_locked : Op Database (Unit {0})
  unfolding or_poison
  checkpoint_locked db = or_poison (write_checkpoint db)

  unfoldable pub checkpoint : Op Database (Unit {0})
  unfolding check_poisoned
  checkpoint = do check_poisoned; checkpoint_locked

  -- `close` consumes the handle; what it does is a checkpoint.
  unfoldable pub close : Op Database (Unit {0})
  close = checkpoint

  unfoldable pub auto_checkpoint : Option ℕ → Op Database (Unit {0})
  auto_checkpoint none db = (ok tt, db)
  auto_checkpoint (some limit) db =
      if leb limit db.wal.durable_len then checkpoint_locked db else (ok tt, db)

  unfoldable pub maybe_auto_checkpoint : Op Database (Unit {0})
  unfolding auto_checkpoint
  maybe_auto_checkpoint db = auto_checkpoint db.auto_checkpoint_bytes db
