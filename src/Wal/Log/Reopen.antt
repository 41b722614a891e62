-- ===== src/Wal/Log/Reopen.antt =====
-- Opening a log file: which records it gives back, and what is cut off.
use oxen_db.Prelude.{
  ℕ, suc, ◌+◌, ◌*◌, ◌-◌, ◌^◌, ◌≤◌, ◌<◌, ◌≡◌, refl, ◌∙◌, none, some, false, List, [], ◌∷◌, ◌++◌,
  length, drop, length-append, drop_of-append, All, ok, arith,
}
use mathlib.Core.List.{append_assoc, append-nil}
use oxen_db.Checksum.{Checksum}
use oxen_db.File.{File, reopen, read_to_end, set_len, sync, resize}
use oxen_db.File.Laws.{resize-append}
use oxen_db.Wal.Record.{WalRecord, IsRecord, decode, page_image_len}
use oxen_db.Wal.Record.Encode.{encoding, length-encoding}
use oxen_db.Wal.Record.Decode.{len_of_bounds}
use oxen_db.Wal.Log.{
  Wal, StopReason, encode_header, decode_header, open_file, scan, scan_all, discarded_tail,
  truncate_tail,
}
use oxen_db.Wal.Log.Header.{decode_header-encode_header, length-encode_header}
use oxen_db.Wal.Log.Scan.{
  encodings, decoded, Stops, at_offset, stopped, scan-encodings, scan_end, scan_tail,
}

module _ ⦃c : Checksum⦄ where
  -- A log file that holds the records `rs`, the first numbered `first`.
  unfoldable pub log_bytes : ℕ → List WalRecord → List ℕ
  log_bytes first rs = encode_header first ++ encodings first rs

  -- A log that has been opened: the records `rs` are in the file, whatever was synced before.
  abbrev pub settled : ℕ → List WalRecord → List ℕ → Wal
  settled first rs synced = record {
    file = record { contents = log_bytes first rs; synced = synced; fates = [] };
    durable_len = length (log_bytes first rs);
    pending = [];
    next_seq = first + length rs;
    is_poisoned = false;
  }

  length-le-encodings :
      (n : ℕ) (rs : List WalRecord) → All IsRecord rs → length rs ≤ length (encodings n rs)
  unfolding encodings
  length-le-encodings n [] h = omega arith
  length-le-encodings n (r ∷ rs) h = omega (
    arith,
    length-append (encoding r n) (encodings (n + 1) rs),
    length-encoding r n h.0,
    len_of_bounds r,
    length-le-encodings (n + 1) rs h.1,
  )

  -- No record is longer than a page image.
  pub length-encodings-le :
      (n : ℕ) (rs : List WalRecord)
      → All IsRecord rs
      → length (encodings n rs) ≤ length rs * page_image_len
  unfolding encodings
  length-encodings-le n [] h = omega arith
  length-encodings-le n (r ∷ rs) h = omega (
    arith,
    length-append (encoding r n) (encodings (n + 1) rs),
    length-encoding r n h.0,
    len_of_bounds r,
    length-encodings-le (n + 1) rs h.1,
  )

  module _ (first : ℕ) (rs : List WalRecord) (fits : All IsRecord rs)
      (small : first + length rs < 2 ^ 64) where
    pub length-log_bytes : length (log_bytes first rs) ≡ 24 + length (encodings first rs)
    unfolding log_bytes
    length-log_bytes = omega (
      arith,
      length-append (encode_header first) (encodings first rs),
      length-encode_header first (omega arith),
    )

    behind_header :
        (tail : List ℕ) → drop 24 (log_bytes first rs ++ tail) ≡ encodings first rs ++ tail
    unfolding log_bytes
    behind_header tail = rw append_assoc (
        drop_of-append 24 (encode_header first) (encodings first rs ++ tail)
          (length-encode_header first (omega arith)))

    header-log_bytes : (tail : List ℕ) → decode_header (log_bytes first rs ++ tail) ≡ ok first
    unfolding log_bytes
    header-log_bytes tail =
        rw append_assoc
          (decode_header-encode_header first (omega arith) (encodings first rs ++ tail))

    enough :
        (tail : List ℕ)
        → suc (length (log_bytes first rs ++ tail))
          ≡ length rs + suc (length (log_bytes first rs ++ tail) - length rs)
    enough tail = omega (
      arith,
      length-append (log_bytes first rs) tail,
      length-log_bytes,
      length-le-encodings first rs fits,
    )

    scan_all-records :
        (tail : List ℕ)
        → scan_all (log_bytes first rs ++ tail) first
          ≡ scan
              (suc (length (log_bytes first rs ++ tail) - length rs))
              (log_bytes first rs ++ tail)
              (at_offset (length (log_bytes first rs)) (first + length rs) (decoded first rs))
    unfolding scan_all
    scan_all-records tail =
        rw (enough tail, length-log_bytes)
          (scan-encodings rs _ (log_bytes first rs ++ tail) 24 first [] tail fits small
            (behind_header tail))

    scan_clean :
        scan_all (log_bytes first rs) first
        ≡ at_offset (length (log_bytes first rs)) (first + length rs) (decoded first rs)
    scan_clean =
        rw append-nil at (scan_all-records [])
        ∙ scan_end _ (log_bytes first rs) (length (log_bytes first rs)) (first + length rs)
            (decoded first rs) (omega arith)

    header_clean : decode_header (log_bytes first rs) ≡ ok first
    header_clean = rw append-nil at (header-log_bytes [])

    scan_damaged :
        (tail : List ℕ) (why : StopReason)
        → 0 < length tail
        → Stops (first + length rs) (decode tail) why
        → scan_all (log_bytes first rs ++ tail) first
          ≡ stopped (length (log_bytes first rs)) (first + length rs) (decoded first rs) why
    scan_damaged tail why some_tail stops =
        scan_all-records tail
        ∙ scan_tail _ (log_bytes first rs ++ tail) (length (log_bytes first rs)) (first + length rs)
            (decoded first rs) tail why
            (drop_of-append (length (log_bytes first rs)) (log_bytes first rs) tail refl) some_tail
            stops

    cut :
        (tail : List ℕ)
        → resize (length (log_bytes first rs)) (log_bytes first rs ++ tail) ≡ log_bytes first rs
    cut tail = resize-append (length (log_bytes first rs)) (log_bytes first rs) tail refl

    length_cut :
        (tail : List ℕ)
        → length (log_bytes first rs ++ tail) - length (log_bytes first rs) ≡ length tail
    length_cut tail = omega (arith, length-append (log_bytes first rs) tail)

    -- While the file's calls succeed and the records fit their integers, an undamaged log gives
    -- back all its records in order, and the file stays as it is.
    pub open_clean :
        (synced : List ℕ)
        → (let f : File = record { contents = log_bytes first rs; synced = synced; fates = [] } in
            open_file f ≡ (
              ok (record {
                wal = settled first rs synced;
                records = decoded first rs;
                discarded = none;
              }),
              f,
            ))
    unfolding open_file reopen read_to_end discarded_tail truncate_tail
    open_clean synced = rw (header_clean, scan_clean) refl

    -- While the file's calls succeed and the records fit their integers, bytes behind the last
    -- record that are no record with the next number are cut off, and the cut is synced; every
    -- record before them is given back.
    pub open_damaged :
        (synced tail : List ℕ) (why : StopReason)
        → 0 < length tail
        → Stops (first + length rs) (decode tail) why
        → (let g : File = record {
          contents = log_bytes first rs;
          synced = log_bytes first rs;
          fates = [];
        } in
            open_file
              (record { contents = log_bytes first rs ++ tail; synced = synced; fates = [] })
            ≡ (
              ok (record {
                wal = settled first rs (log_bytes first rs);
                records = decoded first rs;
                discarded = some (record { bytes = length tail; reason = why });
              }),
              g,
            ))
    unfolding open_file reopen read_to_end discarded_tail truncate_tail set_len sync
    open_damaged synced tail why some_tail stops =
        rw (header-log_bytes tail, scan_damaged tail why some_tail stops, cut tail, length_cut tail)
          refl
