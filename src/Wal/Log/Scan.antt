-- ===== src/Wal/Log/Scan.antt =====
-- Reading a log: the records that `open` finds, and what it throws away.
use oxen_db.Prelude.{
  ℕ, zero, suc, ◌+◌, ◌%◌, ◌^◌, ◌≤◌, ◌<◌, ◌≡◌, ◌≢◌, refl, sym, ◌∙◌, ap, true, false, none, some,
  List, [], ◌∷◌, ◌++◌, length, drop, length-drop, length-append, drop-drop, drop_of-append, All,
  ltb, ==_refl, arith,
}
use mathlib.Core.List.{append_assoc, append-nil}
use oxen_db.Checksum.{Checksum}
use oxen_db.Wal.Record.{
  WalRecord, DecodedRecord, Decoded, IsRecord, decode, len_of, incomplete, invalid,
}
use oxen_db.Wal.Record.Encode.{encoding, length-encoding}
use oxen_db.Wal.Record.Decode.{decode-encoding, len_of_bounds}
use oxen_db.Wal.Log.{
  ScanState, StopReason, wrong_seq, incomplete_record, invalid_record, advance, running, scan,
  is_none,
}

-- The decoded form of records that are numbered from `n` on.
unfoldable pub decoded : ℕ → List WalRecord → List DecodedRecord
decoded n [] = []
decoded n (r ∷ rs) = record { seq = n; wal_record = r; len = len_of r } ∷ decoded (n + 1) rs

-- The loop's state as long as it runs.
abbrev pub at_offset : ℕ → ℕ → List DecodedRecord → ScanState
at_offset o n acc = record { offset = o; next_seq = n; records = acc; stop_reason = none }

-- The bytes that follow the records are no record with the next number, and this is why.
abbrev pub Stops : ℕ → Decoded → StopReason → Type 0
Stops n (Decoded.ok d) why = (d.seq ≢ n) × (why ≡ wrong_seq)
Stops n (Decoded.err incomplete) why = why ≡ incomplete_record
Stops n (Decoded.err invalid) why = why ≡ invalid_record

module _ ⦃c : Checksum⦄ where
  -- The bytes of records that are numbered from `n` on.
  unfoldable pub encodings : ℕ → List WalRecord → List ℕ
  encodings n [] = []
  encodings n (r ∷ rs) = encoding r n ++ encodings (n + 1) rs

  in_range :
      (contents xs : List ℕ) (o : ℕ)
      → drop o contents ≡ xs
      → 0 < length xs
      → ltb o (length contents) ≡ true
  in_range contents xs o e h = ground (arith, length-drop o contents, ap length e)

  scan_more :
      (fuel : ℕ) (contents : List ℕ) (s : ScanState)
      → running contents s ≡ true
      → scan (suc fuel) contents s
        ≡ scan fuel contents (advance (decode (drop s.offset contents)) s)
  unfolding scan
  scan_more fuel contents s h = rw (h, scan) refl

  pub scan_done :
      (fuel : ℕ) (contents : List ℕ) (s : ScanState)
      → running contents s ≡ false
      → scan fuel contents s ≡ s
  unfolding scan
  scan_done zero contents s h = refl
  scan_done (suc fuel) contents s h = rw (h, scan) refl

  scan-record :
      (fuel : ℕ) (contents : List ℕ) (o n : ℕ) (acc : List DecodedRecord) (r : WalRecord)
      (rest : List ℕ)
      → IsRecord r
      → n + 1 < 2 ^ 64
      → drop o contents ≡ encoding r n ++ rest
      → scan (suc fuel) contents (at_offset o n acc)
        ≡ scan fuel contents (
            at_offset
              (o + len_of r)
              (n + 1)
              (acc ++ (record { seq = n; wal_record = r; len = len_of r } ∷ [])))
  unfolding running is_none advance
  scan-record fuel contents o n acc r rest fits small e =
      let more : ltb o (length contents) ≡ true = in_range contents (encoding r n ++ rest) o e (
        omega
          (arith, length-append (encoding r n) rest, length-encoding r n fits, len_of_bounds r)) in
      let next : (n + 1) % 2 ^ 64 ≡ n + 1 = omega arith in
      scan_more fuel contents (at_offset o n acc) (rw more refl)
      ∙ rw (e, decode-encoding r n rest fits (omega arith), ==_refl n, next) refl

  -- The loop reads every record of a run, in order.
  pub scan-encodings :
      (rs : List WalRecord) (fuel : ℕ) (contents : List ℕ) (o n : ℕ) (acc : List DecodedRecord)
      (tail : List ℕ)
      → All IsRecord rs
      → n + length rs < 2 ^ 64
      → drop o contents ≡ encodings n rs ++ tail
      → scan (length rs + fuel) contents (at_offset o n acc)
        ≡ scan fuel contents
            (at_offset (o + length (encodings n rs)) (n + length rs) (acc ++ decoded n rs))
  scan-encodings [] fuel contents o n acc tail fits small e =
      let e0 : 0 + fuel ≡ fuel = omega arith in
      let e1 : o + 0 ≡ o = omega arith in
      let e2 : n + 0 ≡ n = omega arith in
      unfold encodings decoded in rw (e0, e1, e2, append-nil) refl
  scan-encodings (r ∷ rs) fuel contents o n acc tail fits small e = rw suc-fuel (
      scan-record (length rs + fuel) contents o n acc r (encodings (n + 1) rs ++ tail) fits.0
        (omega arith) split
      ∙ scan-encodings rs fuel contents (o + len_of r) (n + 1)
          (acc ++ (record { seq = n; wal_record = r; len = len_of r } ∷ [])) tail fits.1
          (omega arith) next
      ∙ finish)
    where
      suc-fuel : suc (length rs) + fuel ≡ suc (length rs + fuel)
      suc-fuel = omega arith

      split : drop o contents ≡ encoding r n ++ (encodings (n + 1) rs ++ tail)
      split = e ∙ (unfold encodings in append_assoc (encoding r n) (encodings (n + 1) rs) tail)

      next : drop (o + len_of r) contents ≡ encodings (n + 1) rs ++ tail
      next =
          sym (drop-drop (len_of r) o contents)
          ∙ ap (drop (len_of r)) split
          ∙ drop_of-append (len_of r) (encoding r n) _ (length-encoding r n fits.0)

      end : o + len_of r + length (encodings (n + 1) rs) ≡ o + length (encodings n (r ∷ rs))
      end =
          unfold encodings in
          omega
            (arith, length-append (encoding r n) (encodings (n + 1) rs), length-encoding r n fits.0)

      count : n + 1 + length rs ≡ n + suc (length rs)
      count = omega arith

      finish :
          scan fuel contents (
            at_offset (o + len_of r + length (encodings (n + 1) rs)) (n + 1 + length rs) (
              (acc ++ (record { seq = n; wal_record = r; len = len_of r } ∷ []))
              ++ decoded (n + 1) rs))
          ≡ scan fuel contents (
              at_offset
                (o + length (encodings n (r ∷ rs)))
                (n + suc (length rs))
                (acc ++ decoded n (r ∷ rs)))
      finish = rw (end, count, append_assoc) (unfold decoded in refl)

  -- The loop ends at the end of the file.
  pub scan_end :
      (fuel : ℕ) (contents : List ℕ) (o n : ℕ) (acc : List DecodedRecord)
      → length contents ≤ o
      → scan fuel contents (at_offset o n acc) ≡ at_offset o n acc
  unfolding running
  scan_end fuel contents o n acc h =
      let stop : ltb o (length contents) ≡ false = ground arith in
      scan_done fuel contents (at_offset o n acc) (rw stop refl)

  abbrev pub stopped : ℕ → ℕ → List DecodedRecord → StopReason → ScanState
  stopped o n acc why = record { offset = o; next_seq = n; records = acc; stop_reason = some why }

  scan-stopped :
      (fuel : ℕ) (contents : List ℕ) (o n : ℕ) (acc : List DecodedRecord) (why : StopReason)
      → scan fuel contents (stopped o n acc why) ≡ stopped o n acc why
  unfolding running is_none
  scan-stopped fuel contents o n acc why =
      scan_done fuel contents (stopped o n acc why) (ground arith)

  advance-Stops :
      (d : Decoded) (o n : ℕ) (acc : List DecodedRecord) (why : StopReason)
      → Stops n d why
      → advance d (at_offset o n acc) ≡ stopped o n acc why
  unfolding advance
  advance-Stops (Decoded.ok d) o n acc why h = ground arith
  advance-Stops (Decoded.err incomplete) o n acc why h = rw h refl
  advance-Stops (Decoded.err invalid) o n acc why h = rw h refl

  -- Bytes that are no record with the next number stop the loop, and it keeps its place.
  pub scan_tail :
      (fuel : ℕ) (contents : List ℕ) (o n : ℕ) (acc : List DecodedRecord) (tail : List ℕ)
      (why : StopReason)
      → drop o contents ≡ tail
      → 0 < length tail
      → Stops n (decode tail) why
      → scan (suc fuel) contents (at_offset o n acc) ≡ stopped o n acc why
  unfolding running is_none
  scan_tail fuel contents o n acc tail why e h stop =
      scan_more fuel contents (at_offset o n acc) (rw (in_range contents tail o e h) refl)
      ∙ rw (e, advance-Stops (decode tail) o n acc why stop)
          (scan-stopped fuel contents o n acc why)
