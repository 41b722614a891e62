-- ===== src/Wal/Log/Append.antt =====
-- The log as a list of records: what `append`, `flush` and `reset` do to it.
use oxen_db.Prelude.{
  ℕ, ◌+◌, ◌%◌, ◌^◌, ◌<◌, ◌≡◌, ◌⊎◌, inl, inr, refl, sym, ◌∙◌, ap, true, false, List, [], ◌∷◌, ◌++◌,
  length, take, length-append, to_le_bytes, Result, ok, err, io, poisoned, take_all, arith,
}
use mathlib.Core.List.{append-nil}
use oxen_db.Prelude.Op.{◌>>=◌, modify}
use oxen_db.Checksum.{Checksum}
use oxen_db.File.{Fate, done, fail, write_at, write_all_at, sync}
use oxen_db.File.Laws.{write_at_end}
use oxen_db.Wal.Record.{WalRecord}
use oxen_db.Wal.Record.Encode.{encoding, encode-encoding}
use oxen_db.Wal.Log.{
  Wal, append, flush, flush_file, flushed, flush_pending, poison_on_error, reset, check_poisoned,
}
use oxen_db.Wal.Log.Scan.{encodings}
use oxen_db.Wal.Log.Reopen.{log_bytes}
use oxen_db.Wal.Log.Torn.{encodings-append, log_bytes-append}

module _ ⦃c : Checksum⦄ where
  -- A log in good order: the records `rs`, numbered from `first` on, are in the file and synced,
  -- and the records `ps` are appended and not yet flushed.
  unfoldable pub log_state : ℕ → List WalRecord → List WalRecord → List Fate → Wal
  log_state first rs ps fates = record {
    file = record { contents = log_bytes first rs; synced = log_bytes first rs; fates = fates };
    durable_len = length (log_bytes first rs);
    pending = encodings (first + length rs) ps;
    next_seq = first + length rs + length ps;
    is_poisoned = false;
  }

  -- On a log in good order whose numbers stay in 64 bits, `append` adds the record to those that
  -- wait, and returns its number.
  pub append-log_state :
      (first : ℕ) (rs ps : List WalRecord) (fates : List Fate) (r : WalRecord)
      → first + length rs + length ps + 1 < 2 ^ 64
      → append r (log_state first rs ps fates)
        ≡ (ok (first + length rs + length ps), log_state first rs (ps ++ (r ∷ [])) fates)
  unfolding append log_state
  append-log_state first rs ps fates r small =
      rw
        (
          encode-encoding r (first + length rs + length ps) (encodings (first + length rs) ps),
          encodings-append (first + length rs) ps (r ∷ []),
          next,
          count,
        )
        (unfold encodings in rw append-nil refl)
    where
      next : (first + length rs + length ps + 1) % 2 ^ 64 ≡ first + length rs + length ps + 1
      next = omega arith

      count : first + length rs + length (ps ++ (r ∷ [])) ≡ first + length rs + length ps + 1
      count = omega (arith, length-append ps (r ∷ []))

  flush_pending_some :
      (p : List ℕ) (w : Wal)
      → 0 < length p
      → flush_pending p w ≡ (poison_on_error flush_file >>= λ _. modify flushed) w
  unfolding flush_pending
  flush_pending_some [] w h = absurd (omega arith)
  flush_pending_some (b ∷ bs) w h = refl

  some_bytes : (n : ℕ) (r : WalRecord) (rs : List WalRecord) → 0 < length (encodings n (r ∷ rs))
  unfolding encodings encoding to_le_bytes
  some_bytes n r rs = omega arith

  -- What a flush that fails leaves: a poisoned log, whose file has a part of the pending bytes
  -- behind the records that were there.
  pub record IsInterrupted (first : ℕ) (rs ps : List WalRecord) (w : Wal) : Type 0 where
    pub written_bytes : ℕ
    pub poisoned_log : w.is_poisoned ≡ true
    pub bytes :
        w.file.contents
        ≡ log_bytes first rs ++ take written_bytes (encodings (first + length rs) ps)

  -- The outcome of a flush, as the calls to come decide it.
  abbrev Outcome : (first : ℕ) (rs ps : List WalRecord) → Result (Unit {0}) × Wal → Type 0
  Outcome first rs ps r =
      ((rest : List Fate) × (r ≡ (ok tt, log_state first (rs ++ ps) [] rest)))
      ⊎ ((w : Wal) × (r ≡ (err io, w)) × IsInterrupted first rs ps w)

  module _ (first : ℕ) (rs ps : List WalRecord)
      (room : length (log_bytes first (rs ++ ps)) < 2 ^ 64) where
    abbrev pending_bytes : List ℕ
    pending_bytes = encodings (first + length rs) ps

    all_bytes :
        write_at (length (log_bytes first rs)) pending_bytes (log_bytes first rs)
        ≡ log_bytes first (rs ++ ps)
    all_bytes = write_at_end (log_bytes first rs) pending_bytes ∙ log_bytes-append first rs ps

    some_of_the_bytes :
        (n : ℕ)
        → write_at (length (log_bytes first rs)) (take n pending_bytes) (log_bytes first rs)
          ≡ log_bytes first rs ++ take n pending_bytes
    some_of_the_bytes n = write_at_end (log_bytes first rs) (take n pending_bytes)

    new_len :
        (length (log_bytes first rs) + length pending_bytes) % 2 ^ 64
        ≡ length (log_bytes first (rs ++ ps))
    new_len = omega (
      arith,
      length-append (log_bytes first rs) pending_bytes,
      ap length (log_bytes-append first rs ps),
    )

    count : first + length rs + length ps ≡ first + length (rs ++ ps) + 0
    count = omega (arith, length-append rs ps)

    -- The log after a failure, with what the file then holds.
    abbrev failed : List ℕ → List Fate → Wal
    failed contents rest = record {
      file = record { contents = contents; synced = log_bytes first rs; fates = rest };
      durable_len = length (log_bytes first rs);
      pending = pending_bytes;
      next_seq = first + length rs + length ps;
      is_poisoned = true;
    }

    abbrev run : List Fate → Result (Unit {0}) × Wal
    run fates = (poison_on_error flush_file >>= λ _. modify flushed) (log_state first rs ps fates)

    write_failed : (n : ℕ) (rest : List Fate) → Outcome first rs ps (run (fail n ∷ rest))
    unfolding flush_file poison_on_error log_state write_all_at sync
    write_failed n rest = inr (
      failed (log_bytes first rs ++ take n pending_bytes) rest,
      rw (some_of_the_bytes n) refl,
      record { written_bytes = n; poisoned_log = refl; bytes = refl },
    )

    sync_failed : (n : ℕ) (rest : List Fate) → Outcome first rs ps (run (done ∷ fail n ∷ rest))
    unfolding flush_file poison_on_error log_state write_all_at sync
    sync_failed n rest = inr (
      failed (log_bytes first (rs ++ ps)) rest,
      rw all_bytes refl,
      record {
        written_bytes = length pending_bytes;
        poisoned_log = refl;
        bytes =
            rw (take_all (length pending_bytes) pending_bytes (omega arith))
              (sym (log_bytes-append first rs ps));
      },
    )

    all_done :
        (rest : List Fate) → run (done ∷ done ∷ rest) ≡ (ok tt, log_state first (rs ++ ps) [] rest)
    unfolding flush_file poison_on_error log_state write_all_at sync flushed encodings
    all_done rest = rw (all_bytes, new_len, count) refl

    last_done : run (done ∷ []) ≡ (ok tt, log_state first (rs ++ ps) [] [])
    unfolding flush_file poison_on_error log_state write_all_at sync flushed encodings
    last_done = rw (all_bytes, new_len, count) refl

    none_fail : run [] ≡ (ok tt, log_state first (rs ++ ps) [] [])
    unfolding flush_file poison_on_error log_state write_all_at sync flushed encodings
    none_fail = rw (all_bytes, new_len, count) refl

    by_fates : (fates : List Fate) → Outcome first rs ps (run fates)
    by_fates [] = inl ([], none_fail)
    by_fates (fail n ∷ rest) = write_failed n rest
    by_fates (done ∷ []) = inl ([], last_done)
    by_fates (done ∷ done ∷ rest) = inl (rest, all_done rest)
    by_fates (done ∷ fail n ∷ rest) = sync_failed n rest

  flush_by_records :
      (first : ℕ) (rs ps : List WalRecord) (fates : List Fate)
      → length (log_bytes first (rs ++ ps)) < 2 ^ 64
      → Outcome first rs ps
          (flush_pending (encodings (first + length rs) ps) (log_state first rs ps fates))
  flush_by_records first rs [] fates room =
      inl (fates, unfold encodings flush_pending in rw append-nil refl)
  flush_by_records first rs (p ∷ ps) fates room =
      rw
        (flush_pending_some (encodings (first + length rs) (p ∷ ps))
          (log_state first rs (p ∷ ps) fates) (some_bytes (first + length rs) p ps))
        (by_fates first rs (p ∷ ps) room fates)

  -- While the log stays shorter than 2^64 bytes, whatever calls fail, a flush of a log in good
  -- order either succeeds, and then every appended record is in the file and synced, or it fails
  -- with an I/O error, and then the log is poisoned and its file has the old records followed by
  -- a part of the new ones.
  pub flush-log_state :
      (first : ℕ) (rs ps : List WalRecord) (fates : List Fate)
      → length (log_bytes first (rs ++ ps)) < 2 ^ 64
      → ((rest : List Fate) × (flush (log_state first rs ps fates)
            ≡ (ok tt, log_state first (rs ++ ps) [] rest)))
        ⊎ ((w : Wal) × (flush (log_state first rs ps fates) ≡ (err io, w))
            × IsInterrupted first rs ps w)
  unfolding flush log_state
  flush-log_state first rs ps fates room = flush_by_records first rs ps fates room

  -- A poisoned log refuses `append`, `flush` and `reset`, and changes nothing.
  pub poisoned_refuses :
      (w : Wal) (r : WalRecord)
      → w.is_poisoned ≡ true
      → (append r w ≡ (err poisoned, w))
        × (flush w ≡ (err poisoned, w))
        × (reset w ≡ (err poisoned, w))
  unfolding append flush reset check_poisoned
  poisoned_refuses w r h = (ground arith, ground arith, ground arith)
