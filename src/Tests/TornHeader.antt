-- ===== src/Tests/TornHeader.antt =====
-- A process that ends within the write of the log's header, at a concrete log.
use oxen_db.Prelude.{
  [], ◌∷◌, ◌≡◌, refl, err, corruption, take, drop, replicate, splice, overwrite, write_le, read_le,
  to_le_bytes, from_le_bytes,
}
use oxen_db.Checksum.Crc.{finalize, update_bytewise, table, table_zero}
use oxen_db.Checksum.Hw.Laws.{crc32c_checksum, reference}
use oxen_db.File.{done, fail, reopen, read_to_end, set_len, write_all_at, write_at, resize}
use oxen_db.FileHeader.{bytes_eq}
use oxen_db.Wal.Record.{commit, body_of}
use oxen_db.Wal.Record.Encode.{encoding, covered}
use oxen_db.Wal.Log.{open_file, reset, decode_header, encode_header}
use oxen_db.Wal.Log.Scan.{encodings}
use oxen_db.Wal.Log.Reopen.{log_bytes}
use oxen_db.Wal.Log.Append.{log_state}
use oxen_db.Db.Txn.Crash.{left_behind}

-- The header has the checksum of the new first number, and the old first number.
torn_header_refused :
    (open_file (left_behind (reset (log_state 5 (commit 1 ∷ []) [] (done ∷ fail 4 ∷ []))).1)).0
    ≡ err corruption
unfolding open_file reopen read_to_end decode_header reset log_state encodings set_len write_all_at
    write_at take encode_header write_le splice overwrite to_le_bytes replicate drop resize bytes_eq
    read_le from_le_bytes log_bytes encoding body_of covered reference finalize update_bytewise
    table table_zero
torn_header_refused = refl
