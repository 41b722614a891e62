-- ===== src/Wal/Log/AfterReset.antt =====
-- Opening a log whose process ended while it was emptied, or after it was.
use oxen_db.Prelude.{
  ℕ, ◌+◌, ◌^◌, ◌≤◌, ◌<◌, ◌≡◌, ◌⊎◌, inl, inr, refl, ◌∙◌, ap, arith, none, true, List, [], ◌∷◌,
  length, drop, take, take_all, ok, All,
}
use oxen_db.Prelude.Op.{After}
use oxen_db.Checksum.{Checksum}
use oxen_db.File.{File, Fate, done, fail, write_at, write_all_at, set_len, sync, resize}
use oxen_db.Wal.Record.{WalRecord, IsRecord}
use oxen_db.Wal.Log.{Wal, open_file, reset, encode_header}
use oxen_db.Wal.Log.Scan.{decoded}
use oxen_db.Wal.Log.Reopen.{log_bytes, settled, open_clean}
use oxen_db.Wal.Log.Append.{log_state}
use oxen_db.Wal.Log.Reset.{
  with_fates, with_fates-log_state, log_bytes-nil, cut, rewrite, length-next,
}
use oxen_db.Db.Txn.Crash.{left_behind}

-- The write of the new header does not stop within it: it has no effect, or stores all of it.
abbrev pub IsUntorn : List Fate → Type 0
IsUntorn [] = Unit {0}
IsUntorn (fail n ∷ rest) = Unit {0}
IsUntorn (done ∷ []) = Unit {0}
IsUntorn (done ∷ done ∷ rest) = Unit {0}
IsUntorn (done ∷ fail n ∷ rest) = (n ≡ 0) ⊎ (24 ≤ n)

module _ ⦃c : Checksum⦄ where
  -- The next process finds these records in the file, numbered from `first` on, and nothing else.
  abbrev pub Opens : ℕ → List WalRecord → File → Type 0
  Opens first rs f = open_file f ≡ (
    ok (record { wal = settled first rs f.synced; records = decoded first rs; discarded = none }),
    f,
  )

  no_write : (bs : List ℕ) → write_at 0 [] bs ≡ bs
  unfolding write_at drop
  no_write bs = refl

  opens :
      (first : ℕ) (rs : List WalRecord)
      → All IsRecord rs
      → first + length rs < 2 ^ 64
      → (contents synced : List ℕ) → contents ≡ log_bytes first rs
      → Opens first rs (record { contents = contents; synced = synced; fates = [] })
  opens first rs all small contents synced e = rw e (open_clean first rs all small synced)

  module _ (first : ℕ) (rs : List WalRecord) (all : All IsRecord rs)
      (small : first + length rs < 2 ^ 64) where
    emptied_bytes :
        write_at 0 (encode_header (first + length rs)) (resize 24 (log_bytes first rs))
        ≡ log_bytes (first + length rs) []
    emptied_bytes = rw (cut first rs small, rewrite first rs small, log_bytes-nil) refl

    emptied-Opens :
        (src synced : List ℕ)
        → src ≡ encode_header (first + length rs)
        → Opens (first + length rs) [] (record {
          contents = write_at 0 src (resize 24 (log_bytes first rs));
          synced = synced;
          fates = [];
        })
    emptied-Opens src synced e =
        opens (first + length rs) [] tt (omega (arith, small)) _ synced
          (ap (λ bs. write_at 0 bs (resize 24 (log_bytes first rs))) e ∙ emptied_bytes)

    cut-Opens :
        (synced : List ℕ)
        → Opens first [] (record {
          contents = write_at 0 [] (resize 24 (log_bytes first rs));
          synced = synced;
          fates = [];
        })
    cut-Opens synced =
        opens first [] tt (omega (arith, small)) _ synced
          (rw (no_write, cut first rs small, log_bytes-nil) refl)

    abbrev IsEmptied : Wal → Type 0
    IsEmptied w = Opens (first + length rs) [] (left_behind w)

    abbrev IsInterrupted : Wal → Type 0
    IsInterrupted w =
        (w.is_poisoned ≡ true)
        × (Opens first rs (left_behind w) ⊎ (Opens first [] (left_behind w) ⊎ IsEmptied w))

    outcomes :
        (synced : List ℕ) (fates : List Fate)
        → IsUntorn fates
        → After (reset (with_fates first rs synced fates)) (λ _ w. IsEmptied w) IsInterrupted
    unfolding reset set_len write_all_at sync take
    outcomes synced [] h = emptied-Opens _ _ refl
    outcomes synced (fail n ∷ rest) h = (refl, inl (opens first rs all small _ synced refl))
    outcomes synced (done ∷ []) h = emptied-Opens _ _ refl
    outcomes synced (done ∷ fail n ∷ rest) (inl e) = (refl, inr (inl (rw e (cut-Opens synced))))
    outcomes synced (done ∷ fail n ∷ rest) (inr e) = (
      refl,
      inr (
          inr (
            emptied-Opens _ synced (
              take_all n (encode_header (first + length rs))
                (omega (arith, e, length-next first rs small))))),
    )
    outcomes synced (done ∷ done ∷ []) h = emptied-Opens _ _ refl
    outcomes synced (done ∷ done ∷ fail n ∷ rest) h =
        (refl, inr (inr (emptied-Opens _ synced refl)))
    outcomes synced (done ∷ done ∷ done ∷ rest) h = emptied-Opens _ _ refl

    -- Whatever calls of the file fail, unless the write of the header stops within it, the process
    -- that opens the log after `reset` finds no record and goes on counting when `reset` succeeds.
    -- When it fails, the log is poisoned, and the next process finds either all old records, or none
    -- and counts from the old or from the new first number. The log has nothing pending before,
    -- and the records and their numbers fit their integers.
    pub reset-Opens :
        (fates : List Fate)
        → IsUntorn fates
        → After
            (reset (log_state first rs [] fates))
            (λ _ w. Opens (first + length rs) [] (left_behind w))
            (λ w.
              (w.is_poisoned ≡ true)
              × (Opens first rs (left_behind w)
                  ⊎ (Opens first [] (left_behind w)
                      ⊎ Opens (first + length rs) [] (left_behind w))))
    reset-Opens fates h =
        rw (with_fates-log_state first rs fates) (outcomes (log_bytes first rs) fates h)
