-- ===== src/Wal/Log.antt =====
-- crates/oxendb/src/storage/wal/log.rs: the log file, a header followed by records.
pub mod Header
pub mod Scan
pub mod Reopen
pub mod Torn
pub mod Append
pub mod Reset
pub mod AfterReset
use oxen_db.Prelude.{
  ℕ, zero, suc, ◌+◌, ◌-◌, ◌%◌, ◌^◌, Bool, true, false, ◌&&◌, ◌||◌, not, Option, none, some, List,
  [], ◌∷◌, ◌++◌, length, drop, take, slice, splice, replicate, read_le, write_le, ltb, ◌==◌,
  if◌then◌else◌, Error, corruption, unsupported_format, invalid_argument, poisoned, Result, ok, err,
  guard,
}
use oxen_db.Prelude
use oxen_db.Prelude.Op.{Op, and_then, pure, raise, lift, get, modify, ◌>>=◌, ◌>>◌}
use oxen_db.Checksum.{Checksum}
use oxen_db.File.{
  File, Fate, empty_file, write_all_at, set_len, sync, reopen, read_to_end, sync_parent_dir,
}
use oxen_db.FileHeader.{bytes_eq}
use oxen_db.Wal.Record.{
  WalRecord, DecodedRecord, Decoded, DecodeError, encode, decode, incomplete, invalid,
}

-- `b"oxenWAL\0"`
abbrev pub wal_magic : List ℕ
wal_magic = b'o' ∷ b'x' ∷ b'e' ∷ b'n' ∷ b'W' ∷ b'A' ∷ b'L' ∷ 0 ∷ []

abbrev pub wal_format_version : ℕ
wal_format_version = 1

abbrev pub wal_header_size : ℕ
wal_header_size = 24

-- Why reading stopped; the source keeps a text.
pub data StopReason : Type 0 where
  wrong_seq incomplete_record invalid_record : StopReason

pub record DiscardedTail : Type 0 where
  pub bytes : ℕ
  pub reason : StopReason

pub record Wal : Type 0 where
  pub file : File
  pub durable_len : ℕ
  pub pending : List ℕ
  pub next_seq : ℕ
  pub is_poisoned : Bool

pub record OpenedWal : Type 0 where
  pub wal : Wal
  pub records : List DecodedRecord
  pub discarded : Option DiscardedTail

-- The variables of the loop of `open`; `stop_reason` is set where the source breaks.
pub record ScanState : Type 0 where
  pub offset : ℕ
  pub next_seq : ℕ
  pub records : List DecodedRecord
  pub stop_reason : Option StopReason

-- One round: what the body does with the decoded record.
unfoldable pub advance : Decoded → ScanState → ScanState
advance (Decoded.ok d) s =
    if d.seq == s.next_seq
    then record s {
      offset = s.offset + d.len;
      next_seq = (s.next_seq + 1) % 2 ^ 64;
      records = s.records ++ (d ∷ []);
    }
    else record s { stop_reason = some wrong_seq }
advance (Decoded.err incomplete) s = record s { stop_reason = some incomplete_record }
advance (Decoded.err invalid) s = record s { stop_reason = some invalid_record }

unfoldable pub is_none {ℓ} : {A : Type ℓ} → Option A → Bool
is_none none = true
is_none (some a) = false

-- `while offset < contents.len()`, left by `break` once there is a reason
unfoldable pub running : List ℕ → ScanState → Bool
running contents s = ltb s.offset (length contents) && is_none s.stop_reason

-- A method of the file that a log holds.
unfoldable pub on_file : {A : Type 0} → Op File A → Op Wal A
on_file m w = let (r, f) = m w.file in (r, record w { file = f })

unfoldable pub check_poisoned : Op Wal (Unit {0})
check_poisoned w = if w.is_poisoned then (err poisoned, w) else (ok tt, w)

-- `if let Err(err) = result { self.poisoned = true; return Err(err) }`
unfoldable pub poison_on_error : Op Wal (Unit {0}) → Op Wal (Unit {0})
poison_on_error m w = elim (m w).0 [
  | ok u ↦ m w
  | err e ↦ (err e, record (m w).1 { is_poisoned = true })
]

module _ ⦃c : Checksum⦄ where
  unfoldable pub encode_header : ℕ → List ℕ
  encode_header first_seq =
      let h1 = splice 4 wal_magic (replicate wal_header_size 0) in
      let h2 = write_le 4 12 wal_format_version h1 in
      let h3 = write_le 8 16 first_seq h2 in write_le 4 0 (c.crc32c (drop 4 h3)) h3

  unfoldable pub decode_header : List ℕ → Result ℕ
  decode_header contents =
      if ltb (length contents) wal_header_size || not (bytes_eq (slice 4 8 contents) wal_magic)
      then err unsupported_format
      else let header = take wal_header_size contents in
        if not (read_le 4 0 header == c.crc32c (drop 4 header))
        then err corruption
        else if not (read_le 4 12 header == wal_format_version)
        then err unsupported_format
        else ok (read_le 8 16 header)

  -- The loop of `open`, on fuel: each round but the last takes at least 25 bytes.
  unfoldable pub scan : ℕ → List ℕ → ScanState → ScanState
  scan zero contents s = s
  scan (suc fuel) contents s = elim (running contents s) [
    | true ↦ scan fuel contents (advance (decode (drop s.offset contents)) s)
    | false ↦ s
  ]

  unfoldable pub scan_all : List ℕ → ℕ → ScanState
  scan_all contents first_seq =
      scan (suc (length contents)) contents (record {
        offset = wal_header_size;
        next_seq = first_seq;
        records = [];
        stop_reason = none;
      })

  unfoldable pub discarded_tail : List ℕ → ScanState → Option DiscardedTail
  discarded_tail contents s = elim s.stop_reason [
    | none ↦ none
    | some reason ↦ some (record { bytes = length contents - s.offset; reason = reason })
  ]

  unfoldable pub truncate_tail : Option DiscardedTail → ℕ → Op File (Unit {0})
  truncate_tail none offset = pure tt
  truncate_tail (some d) offset = do set_len offset; sync

  -- `Wal::create`; `create_new` refuses a path that exists.
  unfoldable pub create_in : Op File Wal
  create_in = do
    write_all_at (encode_header 0) 0
    sync
    sync_parent_dir
    file ← get
    pure (record {
      file = file;
      durable_len = wal_header_size;
      pending = [];
      next_seq = 0;
      is_poisoned = false;
    })

  unfoldable pub open_file : Op File OpenedWal
  unfolding discarded_tail truncate_tail
  open_file = do
    reopen
    contents ← read_to_end
    first_seq ← lift (decode_header contents)
    let s = scan_all contents first_seq
    truncate_tail (discarded_tail contents s) s.offset
    file ← get
    pure (record {
      wal = record {
        file = file;
        durable_len = s.offset;
        pending = [];
        next_seq = s.next_seq;
        is_poisoned = false;
      };
      records = s.records;
      discarded = discarded_tail contents s;
    })

  unfoldable pub append_record : WalRecord → Wal → Wal
  append_record r w = record w {
    pending = encode r w.next_seq w.pending;
    next_seq = (w.next_seq + 1) % 2 ^ 64;
  }

  unfoldable pub append : WalRecord → Op Wal ℕ
  unfolding check_poisoned append_record
  append r = do check_poisoned; w ← get; modify (append_record r); pure w.next_seq

  -- The writes of `flush`, and the bookkeeping after them.
  unfoldable pub flush_file : Op Wal (Unit {0})
  unfolding on_file
  flush_file = do w ← get; on_file (write_all_at w.pending w.durable_len); on_file sync

  unfoldable pub flushed : Wal → Wal
  flushed w = record w { durable_len = (w.durable_len + length w.pending) % 2 ^ 64; pending = [] }

  unfoldable pub flush_pending : List ℕ → Op Wal (Unit {0})
  unfolding flush_file flushed poison_on_error
  flush_pending [] = pure tt
  flush_pending (b ∷ bs) = do poison_on_error flush_file; modify flushed

  unfoldable pub flush : Op Wal (Unit {0})
  unfolding check_poisoned flush_pending
  flush = do check_poisoned; w ← get; flush_pending w.pending

  unfoldable pub reset_file : Op Wal (Unit {0})
  unfolding on_file
  reset_file = do
    w ← get
    on_file (set_len wal_header_size)
    on_file (write_all_at (encode_header w.next_seq) 0)
    on_file sync

  unfoldable pub reset_empty : List ℕ → Op Wal (Unit {0})
  unfolding reset_file poison_on_error
  reset_empty (b ∷ bs) = raise invalid_argument
  reset_empty [] = do
    poison_on_error reset_file
    modify (λ w. record w { durable_len = wal_header_size })

  unfoldable pub reset : Op Wal (Unit {0})
  unfolding check_poisoned reset_empty
  reset = do check_poisoned; w ← get; reset_empty w.pending
