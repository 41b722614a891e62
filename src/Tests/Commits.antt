-- ===== src/Tests/Commits.antt =====
-- The theorem on what a commit leaves for later reads, at a concrete transaction.
use oxen_db.Prelude.{[], ◌∷◌, some, arith, false}
use oxen_db.Prelude.Op.{After}
use oxen_db.Checksum.Hw.Laws.{crc32c_checksum}
use oxen_db.Page.{new, set_lsn, heap}
use oxen_db.BufferPool.{shard_count_for}
use oxen_db.BufferPool.Pool.Start.{
  shard_index-lt-shard_count_for, new-IsPoolCoherent, new-PoolHolds,
}
use oxen_db.Db.{Database, default_report, page_count}
use oxen_db.Db.Txn.{WriteTxn, commit_txn, read_cached}
use oxen_db.Db.Txn.Cache.{Agrees}
use oxen_db.Db.Txn.Visible.{expect_all, sealed_pages}
use oxen_db.Db.Txn.Visible.Commit.{read_cached-commit_txn}
use oxen_db.Tests.Cache.{
  stored_disk, stored_pages, two_frames, stored_pages_stored, set_lsn-new-IsPage,
}

-- Two frames over a disk whose third call fails, and a log that is checkpointed at every commit.
abbrev busy_db : Database
busy_db = record {
  pool = two_frames;
  auto_checkpoint_bytes = some 0;
  wal = record {
    file = record { contents = []; synced = []; fates = [] };
    durable_len = 24;
    pending = [];
    next_seq = 1;
    is_poisoned = false;
  };
  next_txn = 1;
  is_poisoned = false;
  report = default_report;
}

-- A transaction that wrote one page and allocated another.
abbrev one_page_txn : WriteTxn
one_page_txn = record { db = busy_db; dirty = (1, set_lsn 8 (new 1 heap)) ∷ []; page_count = 10 }

read_cached-commit_txn_example :
    After
      (commit_txn one_page_txn)
      (λ _ d.
        After
          (read_cached 1 d.pool)
          (λ page _. Agrees (expect_all (sealed_pages one_page_txn.dirty) stored_pages 1) page)
          (λ _. Unit {0}))
      (λ _. Unit {0})
unfolding page_count
read_cached-commit_txn_example =
    read_cached-commit_txn (shard_count_for 2) one_page_txn stored_pages 1
      (shard_index-lt-shard_count_for 2) (omega arith) (omega arith)
      ((omega arith, omega arith, set_lsn-new-IsPage), tt)
      (new-IsPoolCoherent stored_disk 2 (omega arith) (omega arith))
      (λ j page _ e. new-PoolHolds stored_disk 2 j page (stored_pages_stored j page e))
      (omega arith)
