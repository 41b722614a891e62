-- ===== src/Db/Txn/Durable.antt =====
-- What `WriteTxn::log` leaves in the log.
use oxen_db.Prelude.{
  ℕ, ◌+◌, ◌^◌, ◌<◌, ◌≡◌, ◌⊎◌, refl, List, [], ◌∷◌, ◌++◌, length, length-append, ok, err, io, arith,
}
use mathlib.Core.List.{append_assoc, append-nil}
use oxen_db.Checksum.{Checksum}
use oxen_db.File.{Fate}
use oxen_db.Wal.Record.{WalRecord, TxnId, commit}
use oxen_db.Wal.Log.{Wal, flush}
use oxen_db.Wal.Log.Reopen.{log_bytes}
use oxen_db.Wal.Log.Append.{log_state, IsInterrupted, append-log_state, flush-log_state}
use oxen_db.Db.Txn.{append_all, log}

module _ ⦃c : Checksum⦄ where
  append_all-log_state :
      (first : ℕ) (rs ps qs : List WalRecord) (fates : List Fate)
      → first + length rs + length ps + length qs < 2 ^ 64
      → append_all qs (log_state first rs ps fates) ≡ (ok tt, log_state first rs (ps ++ qs) fates)
  unfolding append_all
  append_all-log_state first rs ps [] fates h = rw append-nil refl
  append_all-log_state first rs ps (q ∷ qs) fates h =
      let one = append-log_state first rs ps fates q (omega arith) in
      let more =
        append_all-log_state first rs (ps ++ (q ∷ [])) qs fates
          (omega (arith, length-append ps (q ∷ []))) in
      rw one (rw append_assoc at more)

  log_is_flush :
      (first : ℕ) (rs qs : List WalRecord) (txn : TxnId) (fates : List Fate)
      → first + length rs + length qs + 1 < 2 ^ 64
      → log txn qs (log_state first rs [] fates)
        ≡ flush (log_state first rs (qs ++ (commit txn ∷ [])) fates)
  unfolding log
  log_is_flush first rs qs txn fates h =
      rw
        (
          append_all-log_state first rs [] qs fates (omega arith),
          append-log_state first rs qs fates (commit txn) (omega arith),
        )
        refl

  -- Whatever calls of the file fail, logging a transaction on a log in good order, whose size
  -- and numbers stay in 64 bits, either makes all its records and its commit record durable,
  -- behind the records that were there, or fails, poisons the log, and leaves a part of their
  -- bytes behind the old records.
  pub log-log_state :
      (first : ℕ) (rs qs : List WalRecord) (txn : TxnId) (fates : List Fate)
      → first + length rs + length qs + 1 < 2 ^ 64
      → length (log_bytes first (rs ++ (qs ++ (commit txn ∷ [])))) < 2 ^ 64
      → ((rest : List Fate) × (log txn qs (log_state first rs [] fates)
            ≡ (ok tt, log_state first (rs ++ (qs ++ (commit txn ∷ []))) [] rest)))
        ⊎ ((w : Wal) × (log txn qs (log_state first rs [] fates) ≡ (err io, w))
            × IsInterrupted first rs (qs ++ (commit txn ∷ [])) w)
  log-log_state first rs qs txn fates small room =
      rw (log_is_flush first rs qs txn fates small)
        (flush-log_state first rs (qs ++ (commit txn ∷ [])) fates room)
