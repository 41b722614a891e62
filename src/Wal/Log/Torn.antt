-- ===== src/Wal/Log/Torn.antt =====
-- A log file whose last write was interrupted.
use oxen_db.Prelude.{
  ℕ, zero, suc, ◌+◌, ◌-◌, ◌^◌, ◌≤◌, ◌<◌, ◌≡◌, ◌⊎◌, inl, inr, refl, ◌∙◌, ap, none, some, Option,
  List, [], ◌∷◌, ◌++◌, length, take, length-append, length-take, take-append_le, take-append_add,
  take-nil, All, All-append, All-take, ok, arith,
}
use mathlib.Core.List.{append_assoc, append-nil}
use native.Mathlib.Decide.{dec_lt}
use oxen_db.Checksum.{Checksum}
use oxen_db.Wal.Record.{WalRecord, IsRecord, decode, len_of}
use oxen_db.Wal.Record.Encode.{encoding, length-encoding}
use oxen_db.Wal.Record.Decode.{decode_torn}
use oxen_db.Wal.Log.{DiscardedTail, incomplete_record, open_file}
use oxen_db.Wal.Log.Scan.{encodings, decoded, Stops}
use oxen_db.Wal.Log.Reopen.{log_bytes, settled, open_clean, open_damaged}

module _ ⦃c : Checksum⦄ where
  pub encodings-append :
      (n : ℕ) (rs qs : List WalRecord)
      → encodings n (rs ++ qs) ≡ encodings n rs ++ encodings (n + length rs) qs
  unfolding encodings
  encodings-append n [] qs = let e : n + 0 ≡ n = omega arith in rw e refl
  encodings-append n (r ∷ rs) qs =
      let e : n + suc (length rs) ≡ n + 1 + length rs = omega arith in
      rw (e, encodings-append (n + 1) rs qs, append_assoc) refl

  pub log_bytes-append :
      (first : ℕ) (rs qs : List WalRecord)
      → log_bytes first rs ++ encodings (first + length rs) qs ≡ log_bytes first (rs ++ qs)
  unfolding log_bytes
  log_bytes-append first rs qs = rw (append_assoc, encodings-append) refl

  -- The first `k` bytes of a run of records: the records that lie wholly in them, and a rest that
  -- is empty or an incomplete record.
  record IsTorn (n k : ℕ) (qs : List WalRecord) : Type 0 where
    kept : ℕ
    rest : List ℕ
    kept-le : kept ≤ length qs
    split : take k (encodings n qs) ≡ encodings n (take kept qs) ++ rest
    ends :
        (rest ≡ [])
        ⊎ ((0 < length rest) × Stops (n + length (take kept qs)) (decode rest) incomplete_record)

  torn_first :
      (n k : ℕ) (r : WalRecord)
      → IsRecord r
      → n < 2 ^ 64
      → k < len_of r
      → (take k (encoding r n) ≡ [])
        ⊎ ((0 < length (take k (encoding r n)))
            × Stops n (decode (take k (encoding r n))) incomplete_record)
  torn_first n zero r fits small h = inl (unfold take in refl)
  torn_first n (suc k) r fits small h = inr (
    omega (arith, length-take (suc k) (encoding r n), length-encoding r n fits),
    rw (decode_torn r n (suc k) fits small h) refl,
  )

  IsTorn-cut :
      (n k : ℕ) (r : WalRecord) (qs : List WalRecord)
      → IsRecord r
      → n < 2 ^ 64
      → k < len_of r
      → IsTorn n k (r ∷ qs)
  unfolding encodings take
  IsTorn-cut n k r qs fits small cut =
      let e : n + 0 ≡ n = omega arith in
      record {
        kept = 0;
        rest = take k (encoding r n);
        kept-le = omega arith;
        split =
            take-append_le k (encoding r n) (encodings (n + 1) qs)
              (omega (arith, length-encoding r n fits));
        ends = rw e (torn_first n k r fits small cut);
      }

  IsTorn-more :
      (n k : ℕ) (r : WalRecord) (qs : List WalRecord)
      → IsRecord r
      → len_of r ≤ k
      → IsTorn (n + 1) (k - len_of r) qs
      → IsTorn n k (r ∷ qs)
  IsTorn-more n k r qs fits whole t = record {
    kept = suc t.kept;
    rest = t.rest;
    kept-le = omega (arith, t.kept-le);
    split =
        unfold encodings take in
        let e : k ≡ length (encoding r n) + (k - len_of r) =
          omega (arith, length-encoding r n fits) in
        rw (append_assoc, ← t.split)
          (ap (λ (m : ℕ). take m (encoding r n ++ encodings (n + 1) qs)) e
            ∙ take-append_add (k - len_of r) (encoding r n) (encodings (n + 1) qs));
    ends =
        unfold take in
        let e : n + suc (length (take t.kept qs)) ≡ n + 1 + length (take t.kept qs) = omega arith in
        rw e t.ends;
  }

  torn : (n k : ℕ) (qs : List WalRecord) → All IsRecord qs → n + length qs < 2 ^ 64 → IsTorn n k qs
  torn n k [] fits small = record {
    kept = 0;
    rest = [];
    kept-le = omega arith;
    split = unfold encodings take in take-nil k;
    ends = inl refl;
  }
  torn n k (r ∷ qs) fits small = elim (dec_lt k (len_of r)) [
    | yes cut ↦ IsTorn-cut n k r qs fits.0 (omega arith) cut
    | no whole ↦
        IsTorn-more n k r qs fits.0 (omega arith)
          (torn (n + 1) (k - len_of r) qs fits.1 (omega arith))
  ]

  -- However far an interrupted write of the records `qs` got behind the records `rs`, an open
  -- whose calls succeed gives back all of `rs` and then the first few of `qs`, in order, and
  -- leaves a log file that holds exactly these. The records' fields and numbers fit their
  -- integers.
  pub open_interrupted :
      (first k : ℕ) (rs qs : List WalRecord) (synced : List ℕ)
      → All IsRecord rs
      → All IsRecord qs
      → first + length rs + length qs < 2 ^ 64
      → (kept : ℕ) × (kept ≤ length qs)
        × (after : List ℕ) × (discarded : Option DiscardedTail) × (let w =
              settled first (rs ++ take kept qs) after in
            open_file (record {
              contents = log_bytes first rs ++ take k (encodings (first + length rs) qs);
              synced = synced;
              fates = [];
            })
            ≡ (
              ok (record {
                wal = w;
                records = decoded first (rs ++ take kept qs);
                discarded = discarded;
              }),
              w.file,
            ))
  open_interrupted first k rs qs synced fr fq small = elim t.ends [
    | inl whole ↦ (
      t.kept,
      t.kept-le,
      synced,
      none,
      rw (contents_eq, whole, append-nil) (open_clean first all all_fit all_small synced),
    )
    | inr (some_rest, stops) ↦ (
      t.kept,
      t.kept-le,
      log_bytes first all,
      some (record { bytes = length t.rest; reason = incomplete_record }),
      rw contents_eq (
          open_damaged first all all_fit all_small synced t.rest incomplete_record some_rest
            (rw after_all at stops)),
    )
  ]
    where
      t : IsTorn (first + length rs) k qs
      t = torn (first + length rs) k qs fq small

      all : List WalRecord
      all = rs ++ take t.kept qs

      all_fit : All IsRecord all
      all_fit = All-append IsRecord rs _ fr (All-take IsRecord t.kept qs fq)

      contents_eq :
          log_bytes first rs ++ take k (encodings (first + length rs) qs)
          ≡ log_bytes first all ++ t.rest
      contents_eq =
          rw (t.split, ← append_assoc)
            (ap (λ (b : List ℕ). b ++ t.rest) (log_bytes-append first rs (take t.kept qs)))

      count : first + length rs + t.kept ≡ first + length all
      count = omega (arith, length-append rs (take t.kept qs), length-take t.kept qs, t.kept-le)

      after_all : first + length rs + length (take t.kept qs) ≡ first + length all
      after_all = omega (arith, length-append rs (take t.kept qs))

      all_small : first + length all < 2 ^ 64
      all_small = omega (arith, count, t.kept-le)
