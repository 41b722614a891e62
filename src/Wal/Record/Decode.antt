-- ===== src/Wal/Record/Decode.antt =====
-- Decoding a record: the round trip, torn records, and what an accepted record is.
use oxen_db.Prelude.{
  ℕ, ◌+◌, ◌≤◌, ◌<◌, ◌≡◌, refl, sym, ◌∙◌, ap, List, [], ◌∷◌, ◌++◌, length, drop, take, length-append,
  read_le, to_le_bytes, length-to_le_bytes, read_le-append, read_le-to_le_bytes, get_or-append,
  drop_of-append, take_of-append, drop-drop, read_le-drop, length-take, read_le-take,
  take-append_le, read_le-append_le, arith, IsU64, get_or, ltb, false, not, ◌&&◌, ◌==◌, ==_refl,
}
use mathlib.Core.List.{append_assoc, append-nil}
use oxen_db.Checksum.{Checksum}
use oxen_db.Wal.Record.{
  WalRecord, DecodedRecord, page_image, commit, decode, decode_body, ok, err, incomplete, len_of,
  type_of, txn_of, body_of, IsRecord,
}
use oxen_db.Wal.Record.Encode.{encoding, length-encoding, covered}

pub len_of_bounds : (r : WalRecord) → (25 ≤ len_of r) × (len_of r ≤ 4129)
unfolding len_of
len_of_bounds (page_image txn page_id page) = omega arith
len_of_bounds (commit txn) = omega arith

-- The fields of the bytes under the checksum.
module _ (r : WalRecord) (seq : ℕ) (fits : IsRecord r) (hseq : IsU64 seq) where
  seq_field : read_le 8 0 (covered r seq) ≡ seq
  unfolding covered
  seq_field = read_le-to_le_bytes 8 seq _ hseq

  type_field : get_or (covered r seq) 8 0 ≡ type_of r
  unfolding covered get_or
  type_field = get_or-append 8 0 0 (to_le_bytes 8 seq) _ (length-to_le_bytes 8 seq)

  behind_type : drop 9 (covered r seq) ≡ to_le_bytes 8 (txn_of r) ++ body_of r
  unfolding covered
  behind_type =
      rw
        (← append_assoc (to_le_bytes 8 seq) (type_of r ∷ [])
          (to_le_bytes 8 (txn_of r) ++ body_of r))
        (drop_of-append 9 (to_le_bytes 8 seq ++ (type_of r ∷ [])) _ (
          omega
            (arith, length-append (to_le_bytes 8 seq) (type_of r ∷ []), length-to_le_bytes 8 seq)))

  behind_txn : drop 17 (covered r seq) ≡ body_of r
  behind_txn =
      sym (drop-drop 8 9 (covered r seq))
      ∙ ap (drop 8) behind_type
      ∙ drop_of-append 8 (to_le_bytes 8 (txn_of r)) (body_of r) (length-to_le_bytes 8 (txn_of r))

txn_of-IsU64 : (r : WalRecord) → IsRecord r → IsU64 (txn_of r)
unfolding txn_of
txn_of-IsU64 (page_image txn page_id page) h = h.0
txn_of-IsU64 (commit txn) h = h

txn_field :
    (r : WalRecord) (seq : ℕ) → IsRecord r → IsU64 seq → read_le 8 9 (covered r seq) ≡ txn_of r
txn_field r seq fits hseq =
    read_le-drop 8 9 0 (covered r seq)
    ∙ rw (behind_type r seq fits hseq) (read_le-to_le_bytes 8 (txn_of r) _ (txn_of-IsU64 r fits))

module _ ⦃c : Checksum⦄ (r : WalRecord) (seq : ℕ) (fits : IsRecord r) (hseq : IsU64 seq) where
  abbrev crc : ℕ
  crc = c.crc32c (covered r seq)

  abbrev front : List ℕ
  front = to_le_bytes 4 (len_of r) ++ to_le_bytes 4 crc

  length-front : length front ≡ 8
  length-front = omega (
    arith,
    length-append (to_le_bytes 4 (len_of r)) (to_le_bytes 4 crc),
    length-to_le_bytes 4 (len_of r),
    length-to_le_bytes 4 crc,
  )

  encoding-front : encoding r seq ≡ front ++ covered r seq
  unfolding encoding
  encoding-front = sym (append_assoc (to_le_bytes 4 (len_of r)) (to_le_bytes 4 crc) (covered r seq))

  len_field : (tail : List ℕ) → read_le 4 0 (encoding r seq ++ tail) ≡ len_of r
  unfolding encoding
  len_field tail =
      rw append_assoc (read_le-to_le_bytes 4 (len_of r) _ (omega (arith, len_of_bounds r)))

  crc_field : read_le 4 4 (encoding r seq) ≡ crc
  unfolding encoding
  crc_field =
      read_le-append 4 4 0 _ _ (length-to_le_bytes 4 (len_of r))
      ∙ read_le-to_le_bytes 4 crc (covered r seq) (c.crc32c-IsU32 _)

  covered_field : drop 8 (encoding r seq) ≡ covered r seq
  covered_field = rw encoding-front (drop_of-append 8 front (covered r seq) length-front)

  field : (w k : ℕ) → read_le w (8 + k) (encoding r seq) ≡ read_le w k (covered r seq)
  field w k = rw encoding-front (read_le-append w 8 k front (covered r seq) length-front)

  type_byte : get_or (encoding r seq) 16 0 ≡ type_of r
  type_byte =
      rw encoding-front (get_or-append 8 8 0 front (covered r seq) length-front)
      ∙ type_field r seq fits hseq

  behind_front : (k : ℕ) → drop (8 + k) (encoding r seq) ≡ drop k (covered r seq)
  behind_front k = sym (drop-drop k 8 (encoding r seq)) ∙ ap (drop k) covered_field

  length-buffer : (tail : List ℕ) → length (encoding r seq ++ tail) ≡ len_of r + length tail
  length-buffer tail =
      omega (arith, length-append (encoding r seq) tail, length-encoding r seq fits)

  not_short : (tail : List ℕ) → ltb (length (encoding r seq ++ tail)) 4 ≡ false
  not_short tail = ground (arith, length-buffer tail, len_of_bounds r)

  not_cut : (tail : List ℕ) → ltb (length (encoding r seq ++ tail)) (len_of r) ≡ false
  not_cut tail = ground (arith, length-buffer tail)

possible : (r : WalRecord) → (not (len_of r == 4129) && not (len_of r == 25)) ≡ false
unfolding len_of
possible (page_image txn page_id page) = refl
possible (commit txn) = refl

module _ ⦃c : Checksum⦄ where
  decode_body-encoding :
      (r : WalRecord) (seq : ℕ)
      → IsRecord r
      → IsU64 seq
      → decode_body (encoding r seq) (len_of r)
        ≡ ok (record { seq = seq; wal_record = r; len = len_of r })
  unfolding decode_body len_of type_of txn_of body_of
  decode_body-encoding (page_image txn page_id page) seq fits hseq =
      let r = page_image txn page_id page in
      let body = behind_txn r seq fits hseq in
      let id_field : read_le 8 25 (encoding r seq) ≡ page_id =
        field r seq fits hseq 8 17
        ∙ read_le-drop 8 17 0 (covered r seq)
        ∙ rw body (read_le-to_le_bytes 8 page_id page fits.1) in
      let page_field : drop 33 (encoding r seq) ≡ page =
        behind_front r seq fits hseq 25
        ∙ sym (drop-drop 8 17 (covered r seq))
        ∙ ap (drop 8) body
        ∙ drop_of-append 8 (to_le_bytes 8 page_id) page (length-to_le_bytes 8 page_id) in
      rw
        (
          type_byte r seq fits hseq,
          field r seq fits hseq 8 0,
          seq_field r seq fits hseq,
          field r seq fits hseq 8 9,
          txn_field r seq fits hseq,
          id_field,
          page_field,
        )
        refl
  decode_body-encoding (commit txn) seq fits hseq =
      let r = commit txn in
      rw
        (
          type_byte r seq fits hseq,
          field r seq fits hseq 8 0,
          seq_field r seq fits hseq,
          field r seq fits hseq 8 9,
          txn_field r seq fits hseq,
        )
        refl

  -- A record whose fields and number fit their integers is read back as it was written, whatever
  -- follows it in the log.
  pub decode-encoding :
      (r : WalRecord) (seq : ℕ) (tail : List ℕ)
      → IsRecord r
      → IsU64 seq
      → decode (encoding r seq ++ tail) ≡ ok (record { seq = seq; wal_record = r; len = len_of r })
  unfolding decode
  decode-encoding r seq tail fits hseq =
      rw
        (
          not_short r seq fits hseq tail,
          len_field r seq fits hseq tail,
          possible r,
          not_cut r seq fits hseq tail,
          take_of-append (len_of r) (encoding r seq) tail (length-encoding r seq fits),
          crc_field r seq fits hseq,
          covered_field r seq fits hseq,
          ==_refl,
        )
        (decode_body-encoding r seq fits hseq)

  -- A record whose fields and number fit their integers, cut short anywhere, is incomplete.
  pub decode_torn :
      (r : WalRecord) (seq n : ℕ)
      → IsRecord r
      → IsU64 seq
      → n < len_of r
      → decode (take n (encoding r seq)) ≡ err incomplete
  unfolding decode
  decode_torn r seq n fits hseq short =
      let enc = encoding r seq in
      let size : length (take n enc) ≡ n =
        omega (arith, length-take n enc, length-encoding r seq fits) in
      let len : read_le 4 0 enc ≡ len_of r =
        ap (read_le 4 0) (sym (append-nil enc)) ∙ len_field r seq fits hseq [] in
      ground (arith, size, len, possible r, read_le-take 4 n enc)

  -- What an accepted record is: it lies within the buffer, has one of the two lengths, its stored
  -- checksum is that of its bytes, and its length and type agree.
  pub decode-ok :
      (buf : List ℕ) {d : DecodedRecord}
      → decode buf ≡ ok d
      → (d.len ≤ length buf)
        × (d.len ≡ len_of d.wal_record)
        × (read_le 4 4 (take d.len buf) ≡ c.crc32c (drop 8 (take d.len buf)))
        × (get_or (take d.len buf) 16 0 ≡ type_of d.wal_record)
  unfolding decode decode_body len_of type_of
  decode-ok buf e = ground arith

  -- Bytes behind a record that was accepted do not change how it is read.
  pub decode-append :
      (buf more : List ℕ) {d : DecodedRecord} → decode buf ≡ ok d → decode (buf ++ more) ≡ ok d
  unfolding decode
  decode-append buf more e = ground (
    arith,
    length-append buf more,
    read_le-append_le 4 buf more,
    take-append_le (read_le 4 0 buf) buf more,
  )
