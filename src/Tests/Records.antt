-- ===== src/Tests/Records.antt =====
-- The theorems on one log record at concrete inputs.
use oxen_db.Prelude.{◌≤◌, ◌≡◌, [], ◌∷◌, ◌++◌, length, take, drop, read_le, get_or, arith}
use oxen_db.Checksum.Hw.Laws.{crc32c_checksum}
use oxen_db.Wal.Record.{
  WalRecord, Decoded, commit, IsRecord, len_of, type_of, encode, decode, incomplete,
}
use oxen_db.Wal.Record.Encode.{encoding, encode-encoding}
use oxen_db.Wal.Record.Decode.{decode-encoding, decode_torn, decode-ok}

abbrev done : WalRecord
done = commit 5

done-IsRecord : IsRecord done
done-IsRecord = omega arith

encode-encoding_example : encode done 9 (1 ∷ 2 ∷ []) ≡ (1 ∷ 2 ∷ []) ++ encoding done 9
encode-encoding_example = encode-encoding done 9 (1 ∷ 2 ∷ [])

decode-encoding_example :
    decode (encoding done 9 ++ (7 ∷ 7 ∷ []))
    ≡ Decoded.ok (record { seq = 9; wal_record = done; len = len_of done })
decode-encoding_example = decode-encoding done 9 (7 ∷ 7 ∷ []) done-IsRecord (omega arith)

decode_torn_example : decode (take 11 (encoding done 9)) ≡ Decoded.err incomplete
decode_torn_example =
    decode_torn done 9 11 done-IsRecord (omega arith) (unfold len_of in omega arith)

decode-ok_example :
    (25 ≤ length (encoding done 9 ++ []))
    × (25 ≡ len_of done)
    × (read_le 4 4 (take 25 (encoding done 9 ++ []))
        ≡ crc32c_checksum.crc32c (drop 8 (take 25 (encoding done 9 ++ []))))
    × (get_or (take 25 (encoding done 9 ++ [])) 16 0 ≡ type_of done)
unfolding len_of
decode-ok_example =
    decode-ok (encoding done 9 ++ []) (decode-encoding done 9 [] done-IsRecord (omega arith))
