-- ===== src/Lib.antt =====
-- oxenDB: the storage engine of crates/oxendb, modelled from its data formats up to transactions.
--
-- A database is a data file of 4096-byte pages and a write-ahead log beside it. A write transaction
-- copies the pages it touches, seals them, appends their images and a commit record to the log,
-- flushes the log, and only then installs the pages in the page cache. A checkpoint writes the cache
-- to the data file and empties the log. Opening a database reads the log up to the first byte that
-- is no record, and writes the images of the committed transactions to the data file.
--
-- The files, with the code under crates/oxendb/src that each models:
--   Checksum            storage/checksum: CRC32C (Crc), the processor's loops (Hw), and the
--                       interface that the other parts take the checksum by
--   Page, FileHeader    storage/page.rs and storage/file_header.rs
--   Wal.Record, Wal.Log storage/wal/record.rs and storage/wal/log.rs; Wal.Log.Torn has what opening
--                       finds after a write that was cut off, Wal.Log.AfterReset after a reset
--   Recovery            storage/recovery.rs; Recovery.Restored has what the data file holds after a
--                       replay, Recovery.Atomic what one transaction's records add to it,
--                       Recovery.Refused what stops a replay
--   Disk                storage/disk.rs; Disk.View is the data file as a map of pages
--   BufferPool          storage/buffer_pool.rs: one shard; BufferPool.Pool has all of them,
--                       BufferPool.Consistent the invariant of the bookkeeping,
--                       BufferPool.Interleaving the critical sections in any order, and
--                       BufferPool.Coherent the pages that a shard and the disk hold
--   Db, Db.Txn          db/mod.rs and db/txn.rs; Db.Txn.Cache is the cache as
--                       transactions see it, Db.Txn.Visible what a commit leaves for later reads,
--                       Db.Reopened opening with a log, Db.AfterCheckpoint opening after a
--                       checkpoint, Db.Txn.AfterCrash a crash during a commit
--   File, BTreeMap      what the code uses of std::fs and std::collections
-- An operation keeps its Rust name. Where Rust would lose the method's receiver the model adds a
-- suffix: `create_in` and `open_file` work on a file, `open_database` on the two paths,
-- `read_page_in` on a write transaction, `commit_txn` commits.
--
-- A method that takes `&mut self` or locks its state, and returns a Result, is an `Op S A`: a state
-- to a result and the state after it, on errors too. A byte is a number below 256, a page a list of
-- bytes. Integers are natural numbers; where the source adds or multiplies u64 values that could
-- overflow, the model has the remainder by 2^64, as a release build computes.
-- A file is its contents, the contents that were synced, and a list of outcomes: each call takes the
-- next one, and a write that fails may have written any part of its bytes. An empty list means that
-- every call succeeds. A crash ends the process: the next one finds the contents as they are then.
--
-- Loops are structural recursion. Two run on fuel. The loop of Wal::open takes one round for each
-- record, so the length of the file is enough, which the results on `open_file` show: they give
-- its exact outcome. The base-2 logarithm of the standard library halves its argument, so the
-- argument is enough.
--
-- Threads are modelled in one place: BufferPool.Interleaving has the critical sections of a shard as
-- steps that come in any order. Elsewhere an operation is one step. A handle is a pin on a frame;
-- pin counts are u32 and wrap around, as a release build computes, and the results that need it
-- assume that no frame has 2^32 handles at once.
--
-- Not modelled: the locks themselves, the texts of errors, and the names of paths. The instructions
-- for CRC32C are parameters, with the law that their manuals give.
pub mod Prelude
pub mod Checksum
pub mod File
pub mod Page
pub mod FileHeader
pub mod Wal
pub mod BTreeMap
pub mod Recovery
pub mod Disk
pub mod BufferPool
pub mod Db
mod Tests
