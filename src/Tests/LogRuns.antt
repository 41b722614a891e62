-- ===== src/Tests/LogRuns.antt =====
-- The theorems on the log file at concrete inputs.
use oxen_db.Prelude.{
  ℕ, ◌^◌, ◌≤◌, ◌<◌, ◌≡◌, ◌⊎◌, inl, refl, ◌∙◌, true, none, some, Option, List, [], ◌∷◌, ◌++◌, length,
  length-append, take, read_le, from_le_bytes, drop, All, ok, err, io, arith,
}
use mathlib.Core.List.{append-nil}
use oxen_db.Checksum.Hw.Laws.{crc32c_checksum}
use oxen_db.File.{File, Fate, done, fail}
use oxen_db.Wal.Record.{WalRecord, IsRecord, commit, decode, len_of}
use oxen_db.Wal.Record.Encode.{encoding, length-encoding}
use oxen_db.Wal.Log.{Wal, DiscardedTail, invalid_record, open_file, append, flush, reset}
use oxen_db.Wal.Log.Scan.{encodings, decoded, Stops}
use oxen_db.Wal.Log.Reopen.{log_bytes, length-log_bytes, settled, open_clean, open_damaged}
use oxen_db.Wal.Log.Append.{log_state, IsInterrupted, append-log_state, flush-log_state}
use oxen_db.Db.Txn.{log}
use oxen_db.Db.Txn.Durable.{log-log_state}
use oxen_db.Db.Txn.Crash.{left_behind, IsRecovered, open_file-log}
use oxen_db.Wal.Log.Reset.{reset-log_state}
use oxen_db.Wal.Log.AfterReset.{Opens, reset-Opens}
use oxen_db.Prelude.Op.{After}
use oxen_db.Wal.Log.Torn.{open_interrupted}

abbrev first_two : List WalRecord
first_two = commit 1 ∷ commit 2 ∷ []

first_two-IsRecord : All IsRecord first_two
first_two-IsRecord = (omega arith, (omega arith, tt))

open_clean_example :
    let f : File = record { contents = log_bytes 5 first_two; synced = []; fates = [] } in
    open_file f ≡ (
      ok (record { wal = settled 5 first_two []; records = decoded 5 first_two; discarded = none }),
      f,
    )
open_clean_example = open_clean 5 first_two first_two-IsRecord (omega arith) []

-- A preallocated end of the file reads as zeros.
abbrev zero_tail : List ℕ
zero_tail = 0 ∷ 0 ∷ 0 ∷ 0 ∷ 0 ∷ []

zero_tail_invalid : Stops 7 (decode zero_tail) invalid_record
unfolding decode read_le from_le_bytes take drop
zero_tail_invalid = refl

open_damaged_example :
    let g : File = record {
      contents = log_bytes 5 first_two;
      synced = log_bytes 5 first_two;
      fates = [];
    } in
    open_file (record { contents = log_bytes 5 first_two ++ zero_tail; synced = []; fates = [] })
    ≡ (
      ok (record {
        wal = settled 5 first_two g.synced;
        records = decoded 5 first_two;
        discarded = some (record { bytes = 5; reason = invalid_record });
      }),
      g,
    )
open_damaged_example =
    open_damaged 5 first_two first_two-IsRecord (omega arith) [] zero_tail invalid_record
      (omega arith) zero_tail_invalid

open_interrupted_example :
    (kept : ℕ) × (kept ≤ 2)
    × (after : List ℕ) × (discarded : Option DiscardedTail) × (let w =
          settled 5 (first_two ++ take kept first_two) after in
        open_file (record {
          contents = log_bytes 5 first_two ++ take 30 (encodings 7 first_two);
          synced = [];
          fates = [];
        })
        ≡ (
          ok (record {
            wal = w;
            records = decoded 5 (first_two ++ take kept first_two);
            discarded = discarded;
          }),
          w.file,
        ))
open_interrupted_example =
    open_interrupted 5 30 first_two first_two [] first_two-IsRecord first_two-IsRecord (omega arith)

append-log_state_example :
    append (commit 3) (log_state 5 first_two [] [])
    ≡ (ok 7, log_state 5 first_two (commit 3 ∷ []) [])
append-log_state_example = append-log_state 5 first_two [] [] (commit 3) (omega arith)

reset-log_state_example : reset (log_state 5 first_two [] []) ≡ (ok tt, log_state 7 [] [] [])
reset-log_state_example = reset-log_state 5 first_two (omega arith)

-- The cut of the file succeeds, and the write of the header fails before its first byte.
reset-Opens_example :
    After
      (reset (log_state 5 first_two [] (done ∷ fail 0 ∷ [])))
      (λ _ w. Opens 7 [] (left_behind w))
      (λ w.
        (w.is_poisoned ≡ true)
        × (Opens 5 first_two (left_behind w)
            ⊎ (Opens 5 [] (left_behind w) ⊎ Opens 7 [] (left_behind w))))
reset-Opens_example =
    reset-Opens 5 first_two first_two-IsRecord (omega arith) (done ∷ fail 0 ∷ []) (inl refl)

two_encodings : length (encodings 5 first_two) ≡ 50
unfolding encodings len_of
two_encodings =
    length-append (encoding (commit 1) 5) (encoding (commit 2) 6 ++ [])
    ∙ rw (length-encoding (commit 1) 5 (omega arith))
        (rw (append-nil, length-encoding (commit 2) 6 (omega arith)) refl)

two_records : length (log_bytes 5 first_two) < 2 ^ 64
two_records =
    omega (arith, length-log_bytes 5 first_two first_two-IsRecord (omega arith), two_encodings)

flush-log_state_example :
    ((rest : List Fate) × (flush (log_state 5 [] first_two (done ∷ fail 0 ∷ []))
        ≡ (ok tt, log_state 5 first_two [] rest)))
    ⊎ ((w : Wal) × (flush (log_state 5 [] first_two (done ∷ fail 0 ∷ [])) ≡ (err io, w))
        × IsInterrupted 5 [] first_two w)
flush-log_state_example = flush-log_state 5 [] first_two (done ∷ fail 0 ∷ []) two_records

abbrev dead : Wal
dead = record {
  file = record { contents = []; synced = []; fates = [] };
  durable_len = 24;
  pending = [];
  next_seq = 5;
  is_poisoned = true;
}

three_encodings : length (encodings 5 (commit 1 ∷ commit 2 ∷ commit 3 ∷ [])) ≡ 75
unfolding encodings len_of
three_encodings =
    length-append (encoding (commit 1) 5) (encoding (commit 2) 6 ++ (encoding (commit 3) 7 ++ []))
    ∙ rw
        (
          length-append (encoding (commit 2) 6) (encoding (commit 3) 7 ++ []),
          append-nil,
          length-encoding (commit 1) 5 (omega arith),
          length-encoding (commit 2) 6 (omega arith),
          length-encoding (commit 3) 7 (omega arith),
        )
        refl

three_records : length (log_bytes 5 (commit 1 ∷ commit 2 ∷ commit 3 ∷ [])) < 2 ^ 64
three_records = omega (
  arith,
  length-log_bytes 5 (commit 1 ∷ commit 2 ∷ commit 3 ∷ [])
      (omega arith, (omega arith, (omega arith, tt))) (omega arith),
  three_encodings,
)

log-log_state_example :
    ((rest : List Fate) × (log 3 (commit 2 ∷ []) (log_state 5 (commit 1 ∷ []) [] (fail 4 ∷ []))
        ≡ (ok tt, log_state 5 (commit 1 ∷ commit 2 ∷ commit 3 ∷ []) [] rest)))
    ⊎ ((w : Wal) × (log 3 (commit 2 ∷ []) (log_state 5 (commit 1 ∷ []) [] (fail 4 ∷ []))
          ≡ (err io, w))
        × IsInterrupted 5 (commit 1 ∷ []) (commit 2 ∷ commit 3 ∷ []) w)
log-log_state_example =
    log-log_state 5 (commit 1 ∷ []) (commit 2 ∷ []) 3 (fail 4 ∷ []) (omega arith) three_records

open_file-log_example :
    IsRecovered 5
      (commit 1 ∷ [])
      (commit 2 ∷ commit 3 ∷ [])
      (log 3 (commit 2 ∷ []) (log_state 5 (commit 1 ∷ []) [] (fail 4 ∷ [])))
open_file-log_example =
    open_file-log 5 (commit 1 ∷ []) (commit 2 ∷ []) 3 (fail 4 ∷ []) (omega arith, tt)
      (omega arith, (omega arith, tt)) (omega arith) three_records
