-- ===== src/Wal/Log/Reset.antt =====
-- Emptying a log, whatever calls of its file fail.
use oxen_db.Prelude.{false, Result}
use oxen_db.Prelude.{
  ℕ, ◌+◌, ◌^◌, ◌<◌, ◌≡◌, ◌⊎◌, inl, inr, refl, sym, ◌∙◌, ap, arith, List, [], ◌∷◌, length, ok, err,
  io,
}
use mathlib.Core.List.{append-nil}
use native.Mathlib.Nat.{add-zero}
use oxen_db.Prelude.Op.{After}
use oxen_db.Checksum.{Checksum}
use oxen_db.File.{Fate, done, fail, write_at, write_all_at, set_len, sync, resize}
use oxen_db.File.Laws.{resize-append, write_at_whole}
use oxen_db.Wal.Record.{WalRecord}
use oxen_db.Wal.Log.{Wal, wal_header_size, reset, encode_header}
use oxen_db.Wal.Log.Header.{length-encode_header}
use oxen_db.Wal.Log.Scan.{encodings}
use oxen_db.Wal.Log.Reopen.{log_bytes, settled}
use oxen_db.Wal.Log.Append.{log_state}

module _ ⦃c : Checksum⦄ where
  pub log_bytes-nil : (n : ℕ) → log_bytes n [] ≡ encode_header n
  unfolding log_bytes encodings
  log_bytes-nil n = append-nil (encode_header n)

  -- A log that has been opened, with these outcomes of its calls ahead.
  abbrev pub with_fates : ℕ → List WalRecord → List ℕ → List Fate → Wal
  with_fates first rs synced fates = record (settled first rs synced) {
    file = record { contents = log_bytes first rs; synced = synced; fates = fates };
  }

  pub with_fates-log_state :
      (first : ℕ) (rs : List WalRecord) (fates : List Fate)
      → log_state first rs [] fates ≡ with_fates first rs (log_bytes first rs) fates
  unfolding log_state encodings
  with_fates-log_state first rs fates = rw add-zero refl

  module _ (first : ℕ) (rs : List WalRecord) (small : first + length rs < 2 ^ 64) where
    abbrev next : ℕ
    next = first + length rs

    pub cut : resize 24 (log_bytes first rs) ≡ encode_header first
    unfolding log_bytes
    cut =
        resize-append 24 (encode_header first) (encodings first rs)
          (length-encode_header first (omega arith))

    pub length-next : length (encode_header next) ≡ 24
    length-next = length-encode_header next small

    pub rewrite : write_at 0 (encode_header next) (encode_header first) ≡ encode_header next
    rewrite =
        write_at_whole (encode_header first) (encode_header next)
          (length-encode_header first (omega arith) ∙ sym length-next)

    -- The log that the three calls leave.
    emptied :
        (rest : List Fate)
        → (let bs = write_at 0 (encode_header next) (resize 24 (log_bytes first rs)) in
            let w : Wal = record {
              file = record { contents = bs; synced = bs; fates = rest };
              durable_len = wal_header_size;
              pending = [];
              next_seq = next;
              is_poisoned = false;
            } in
            w ≡ log_state next [] [] rest)
    unfolding log_state encodings
    emptied rest = rw (cut, rewrite, log_bytes-nil, length-next, add-zero, add-zero) refl

    emptied_ok :
        (rest : List Fate) (m : Result (Unit {0}) × Wal) (w : Wal)
        → m ≡ (ok tt, w)
        → w ≡ log_state next [] [] rest
        → m ≡ (ok tt, log_state next [] [] rest)
    emptied_ok rest m w e h = e ∙ ap (λ (x : Wal). (ok tt, x)) h

    reset-outcomes :
        (synced : List ℕ) (fates : List Fate)
        → ((rest : List Fate) × (reset (with_fates first rs synced fates)
              ≡ (ok tt, log_state next [] [] rest)))
          ⊎ ((w : Wal) × (reset (with_fates first rs synced fates) ≡ (err io, w)))
    unfolding reset set_len write_all_at sync
    reset-outcomes synced [] = inl ([], emptied_ok [] _ _ refl (emptied []))
    reset-outcomes synced (fail n ∷ rest) = inr (_, refl)
    reset-outcomes synced (done ∷ []) = inl ([], emptied_ok [] _ _ refl (emptied []))
    reset-outcomes synced (done ∷ fail n ∷ rest) = inr (_, refl)
    reset-outcomes synced (done ∷ done ∷ []) = inl ([], emptied_ok [] _ _ refl (emptied []))
    reset-outcomes synced (done ∷ done ∷ fail n ∷ rest) = inr (_, refl)
    reset-outcomes synced (done ∷ done ∷ done ∷ rest) =
        inl (rest, emptied_ok rest _ _ refl (emptied rest))

    pub reset-settled :
        (synced : List ℕ) → reset (settled first rs synced) ≡ (ok tt, log_state next [] [] [])
    unfolding reset set_len write_all_at sync
    reset-settled synced = emptied_ok [] _ _ refl (emptied [])

    -- While the file's calls succeed and the numbers fit 64 bits, `reset` of a log with nothing
    -- pending drops the records that are in the file, and goes on counting.
    pub reset-log_state : reset (log_state first rs [] []) ≡ (ok tt, log_state next [] [] [])
    reset-log_state =
        ap reset (with_fates-log_state first rs []) ∙ reset-settled (log_bytes first rs)

    -- Whatever calls of the file fail, `reset` of a log with nothing pending either drops its records
    -- and goes on counting, or fails, when the numbers fit 64 bits.
    pub reset-After :
        (fates : List Fate)
        → After
            (reset (log_state first rs [] fates))
            (λ _ w. (rest : List Fate) × (w ≡ log_state next [] [] rest))
            (λ _. Unit {0})
    reset-After fates =
        rw (with_fates-log_state first rs fates) (elim (reset-outcomes (log_bytes first rs) fates) [
          | inl good ↦ rw good.1 (good.0, refl)
          | inr bad ↦ rw bad.1 tt
        ])
