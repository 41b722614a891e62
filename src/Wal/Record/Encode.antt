-- ===== src/Wal/Record/Encode.antt =====
-- The layout of an encoded record.
use oxen_db.Prelude.{
  ℕ, ◌+◌, ◌≡◌, refl, ◌∙◌, List, [], ◌∷◌, ◌++◌, length, drop, length-append, write_le, to_le_bytes,
  length-to_le_bytes, write_le-append, drop_of-append, arith,
}
use mathlib.Core.List.{append_assoc}
use oxen_db.Checksum.{Checksum}
use oxen_db.Wal.Record.{
  WalRecord, page_image, commit, encode, len_of, type_of, txn_of, body_of, IsRecord,
}

-- What the checksum covers: from the sequence number to the end.
unfoldable pub covered : WalRecord → ℕ → List ℕ
covered r seq = to_le_bytes 8 seq ++ (type_of r ∷ (to_le_bytes 8 (txn_of r) ++ body_of r))

length-body_of : (r : WalRecord) → IsRecord r → length (body_of r) + 25 ≡ len_of r
unfolding body_of len_of
length-body_of (page_image txn page_id page) h =
    omega (arith, length-append (to_le_bytes 8 page_id) page, length-to_le_bytes 8 page_id)
length-body_of (commit txn) h = refl

pub length-covered : (r : WalRecord) (seq : ℕ) → IsRecord r → length (covered r seq) + 8 ≡ len_of r
unfolding covered
length-covered r seq h = omega (
  arith,
  length-body_of r h,
  length-append (to_le_bytes 8 seq) (type_of r ∷ (to_le_bytes 8 (txn_of r) ++ body_of r)),
  length-append (to_le_bytes 8 (txn_of r)) (body_of r),
  length-to_le_bytes 8 seq,
  length-to_le_bytes 8 (txn_of r),
)

-- The buffer before the checksum is filled in.
abbrev zeros : List ℕ
zeros = 0 ∷ 0 ∷ 0 ∷ 0 ∷ []

blank : WalRecord → ℕ → List ℕ → List ℕ
blank r seq out =
    ((((out ++ to_le_bytes 4 (len_of r)) ++ zeros) ++ to_le_bytes 8 seq) ++ (type_of r ∷ []))
    ++ to_le_bytes 8 (txn_of r)
    ++ body_of r

blank-covered :
    (r : WalRecord) (seq : ℕ) (out : List ℕ)
    → blank r seq out ≡ (out ++ to_le_bytes 4 (len_of r)) ++ (zeros ++ covered r seq)
unfolding blank covered
blank-covered r seq out = simp append_assoc

length-front :
    (r : WalRecord) (out : List ℕ) → length (out ++ to_le_bytes 4 (len_of r)) ≡ length out + 4
length-front r out =
    omega (arith, length-append out (to_le_bytes 4 (len_of r)), length-to_le_bytes 4 (len_of r))

drop-blank :
    (r : WalRecord) (seq : ℕ) (out : List ℕ)
    → drop (length out + 8) (blank r seq out) ≡ covered r seq
drop-blank r seq out =
    let front = out ++ to_le_bytes 4 (len_of r) in
    rw (blank-covered r seq out, ← append_assoc front zeros (covered r seq))
      (drop_of-append (length out + 8) (front ++ zeros) (covered r seq)
        (omega (arith, length-append front zeros, length-front r out)))

module _ ⦃c : Checksum⦄ where
  -- The bytes of a record.
  unfoldable pub encoding : WalRecord → ℕ → List ℕ
  encoding r seq =
      to_le_bytes 4 (len_of r) ++ (to_le_bytes 4 (c.crc32c (covered r seq)) ++ covered r seq)

  pub length-encoding : (r : WalRecord) (seq : ℕ) → IsRecord r → length (encoding r seq) ≡ len_of r
  unfolding encoding
  length-encoding r seq h = omega (
    arith,
    length-covered r seq h,
    length-append (to_le_bytes 4 (len_of r))
        (to_le_bytes 4 (c.crc32c (covered r seq)) ++ covered r seq),
    length-append (to_le_bytes 4 (c.crc32c (covered r seq))) (covered r seq),
    length-to_le_bytes 4 (len_of r),
    length-to_le_bytes 4 (c.crc32c (covered r seq)),
  )

  -- `encode` appends the record's bytes, and leaves what was in the buffer as it was.
  pub encode-encoding :
      (r : WalRecord) (seq : ℕ) (out : List ℕ) → encode r seq out ≡ out ++ encoding r seq
  encode-encoding r seq out =
      shape
      ∙ rw (drop-blank r seq out, blank-covered r seq out)
          (write_le-append 4 (length out + 4) (c.crc32c (covered r seq))
            (out ++ to_le_bytes 4 (len_of r)) zeros (covered r seq) (length-front r out) refl)
      ∙ finish
    where
      finish :
          (out ++ to_le_bytes 4 (len_of r))
            ++ (to_le_bytes 4 (c.crc32c (covered r seq)) ++ covered r seq)
          ≡ out ++ encoding r seq
      finish =
          unfold encoding in
          append_assoc out (to_le_bytes 4 (len_of r))
            (to_le_bytes 4 (c.crc32c (covered r seq)) ++ covered r seq)

      shape :
          encode r seq out
          ≡ write_le 4
              (length out + 4)
              (c.crc32c (drop (length out + 8) (blank r seq out)))
              (blank r seq out)
      shape = unfold encode blank in refl
