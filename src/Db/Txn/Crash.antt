-- ===== src/Db/Txn/Crash.antt =====
-- Logging a transaction, and opening the log after it.
use oxen_db.Prelude.{
  ℕ, ◌+◌, ◌^◌, ◌≤◌, ◌<◌, ◌≡◌, ◌≢◌, ◌⊎◌, inl, inr, refl, List, [], ◌∷◌, ◌++◌, length, length-append,
  take, take_all, All, All-append, Result, ok, err, io, arith,
}
use oxen_db.Checksum.{Checksum}
use oxen_db.File.{File, Fate}
use oxen_db.Wal.Record.{WalRecord, TxnId, IsRecord, commit}
use oxen_db.Wal.Log.{Wal, OpenedWal, open_file}
use oxen_db.Wal.Log.Scan.{decoded}
use oxen_db.Wal.Log.Reopen.{log_bytes, settled, open_clean}
use oxen_db.Wal.Log.Append.{log_state, IsInterrupted}
use oxen_db.Wal.Log.Torn.{open_interrupted}
use oxen_db.Db.Txn.{log}
use oxen_db.Db.Txn.Durable.{log-log_state}

-- The file of a log as a new process meets it.
abbrev pub left_behind : Wal → File
left_behind w = record { contents = w.file.contents; synced = w.file.synced; fates = [] }

module _ ⦃c : Checksum⦄ where
  -- What the next open finds: the old records and the first few of the new ones, all of them if the
  -- result is a success.
  pub record IsRecovered (first : ℕ) (rs qs : List WalRecord) (after : Result (Unit {0}) × Wal)
      : Type 0 where
    pub kept : ℕ
    pub found : OpenedWal
    pub file : File
    pub opens : open_file (left_behind after.1) ≡ (ok found, file)
    pub finds : found.records ≡ decoded first (rs ++ take kept qs)
    pub synced : List ℕ
    pub log_is : found.wal ≡ settled first (rs ++ take kept qs) synced
    pub file_is : file ≡ found.wal.file
    pub fits : kept ≤ length qs
    pub all_kept : (after.0 ≢ ok tt) ⊎ (kept ≡ length qs)

  module _ (first : ℕ) (rs qs : List WalRecord) (old : All IsRecord rs) (new : All IsRecord qs)
      (small : first + length rs + length qs < 2 ^ 64) where
    after_success :
        (rest : List Fate) → IsRecovered first rs qs (ok tt, log_state first (rs ++ qs) [] rest)
    unfolding log_state
    after_success rest = record {
      kept = length qs;
      found = _;
      file = _;
      opens =
          open_clean first (rs ++ qs) (All-append IsRecord rs qs old new)
            (omega (arith, length-append rs qs)) (log_bytes first (rs ++ qs));
      finds = rw (take_all (length qs) qs (omega arith)) refl;
      synced = log_bytes first (rs ++ qs);
      log_is = rw (take_all (length qs) qs (omega arith)) refl;
      file_is = refl;
      fits = omega arith;
      all_kept = inr refl;
    }

    after_failure : (w : Wal) → IsInterrupted first rs qs w → IsRecovered first rs qs (err io, w)
    after_failure w cut =
        let o = open_interrupted first cut.written_bytes rs qs w.file.synced old new small in
        record {
          kept = o.0;
          found = record {
            wal = settled first (rs ++ take o.0 qs) o.2;
            records = decoded first (rs ++ take o.0 qs);
            discarded = o.3;
          };
          file = (settled first (rs ++ take o.0 qs) o.2).file;
          opens = rw cut.bytes o.4;
          finds = refl;
          synced = o.2;
          log_is = refl;
          file_is = refl;
          fits = o.1;
          all_kept = inl (λ h. absurd (ground arith));
        }

  -- Whatever calls fail while a transaction is logged behind the records `rs`, an open of the
  -- file as it was left, whose own calls succeed, gives back all of `rs` and then the first few
  -- of the transaction's records, in order; when logging succeeded, all of them with the commit
  -- record. All fields, numbers and the log's size fit their integers.
  pub open_file-log :
      (first : ℕ) (rs qs : List WalRecord) (txn : TxnId) (fates : List Fate)
      → All IsRecord rs
      → All IsRecord (qs ++ (commit txn ∷ []))
      → first + length rs + length (qs ++ (commit txn ∷ [])) < 2 ^ 64
      → length (log_bytes first (rs ++ (qs ++ (commit txn ∷ [])))) < 2 ^ 64
      → IsRecovered first rs (qs ++ (commit txn ∷ [])) (log txn qs (log_state first rs [] fates))
  open_file-log first rs qs txn fates old new small room =
      elim (log-log_state first rs qs txn fates (omega (arith, length-append qs (commit txn ∷ [])))
        room) [
          | inl done ↦ rw done.1 (after_success first rs _ old new small done.0)
          | inr failed ↦ rw failed.1 (after_failure first rs _ old new small failed.0 failed.2)
        ]
