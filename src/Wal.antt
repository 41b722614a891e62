-- ===== src/Wal.antt =====
-- crates/oxendb/src/storage/wal: records of the write-ahead log, and the log file.
pub mod Record
pub mod Log
