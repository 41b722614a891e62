-- ===== src/Recovery.antt =====
-- crates/oxendb/src/storage/recovery.rs: replaying committed page images.
pub mod Laws
pub mod Atomic
pub mod Writes
pub mod Restored
pub mod Refused
use oxen_db.Prelude.{
  ℕ, zero, suc, ◌-◌, ◌==◌, Bool, true, false, Option, none, some, List, [], ◌∷◌, length,
  if◌then◌else◌, Result, ok, err, Error, corruption, map_err,
}
use oxen_db.Prelude
use oxen_db.Prelude.Op.{Op, and_then, pure, lift, ◌>>=◌, ◌>>◌}
use oxen_db.Checksum.{Checksum}
use oxen_db.File.{File, write_all_at, sync, reopen}
use oxen_db.Page.{Page, PageId, file_offset, verify, header_id}
use oxen_db.FileHeader
use oxen_db.BTreeMap
use oxen_db.BTreeMap.{contains, add}
use oxen_db.Wal.Record.{WalRecord, DecodedRecord, TxnId, page_image, commit, txn_of}

pub record RecoveryStats : Type 0 where
  pub committed_txns : ℕ
  pub incomplete_txns : ℕ
  pub pages_restored : ℕ

-- One round of the loop that fills `committed`.
unfoldable pub note_commit : WalRecord → List TxnId → List TxnId
note_commit (page_image txn page_id page) done = done
note_commit (commit txn) done = add txn done

-- The transactions with a commit record.
unfoldable pub committed : List DecodedRecord → List TxnId
committed [] = []
committed (d ∷ ds) = note_commit d.wal_record (committed ds)

unfoldable pub all_txns : List DecodedRecord → List TxnId
all_txns [] = []
all_txns (d ∷ ds) = add (txn_of d.wal_record) (all_txns ds)

module _ ⦃c : Checksum⦄ where
  -- The error of either check becomes `corruption`.
  unfoldable pub validate_image : PageId → Page → Result (Unit {0})
  validate_image page_id page =
      if page_id == header_id
      then map_err corruption (Prelude.◌>>=◌ (FileHeader.decode page) (λ _. ok tt))
      else map_err corruption (Prelude.◌>>=◌ (verify page page_id) (λ _. ok tt))

  -- One round of the loop that fills `latest`.
  unfoldable pub take_image :
      List TxnId → WalRecord → List (PageId × Page) → Result (List (PageId × Page))
  take_image done (commit txn) latest = ok latest
  take_image done (page_image txn page_id page) latest =
      if contains txn done
      then Prelude.◌>>=◌ (validate_image page_id page)
          (λ _. ok (BTreeMap.insert page_id page latest))
      else ok latest

  unfoldable pub collect :
      List TxnId → List DecodedRecord → List (PageId × Page) → Result (List (PageId × Page))
  collect done [] latest = ok latest
  collect done (d ∷ ds) latest =
      Prelude.◌>>=◌ (take_image done d.wal_record latest) (λ latest'. collect done ds latest')

  -- The images are written in the order of the pages.
  unfoldable pub write_pages : List (PageId × Page) → Op File (Unit {0})
  write_pages [] = pure tt
  write_pages ((page_id, page) ∷ rest) = do
    write_all_at page (file_offset page_id)
    write_pages rest

  unfoldable pub write_latest : List (PageId × Page) → Op File (Unit {0})
  write_latest [] = pure tt
  write_latest (entry ∷ rest) = do reopen; write_pages (entry ∷ rest); sync

  unfoldable pub replay : List DecodedRecord → Op File RecoveryStats
  replay records = do
    let done = committed records
    latest ← lift (collect done records [])
    write_latest latest
    pure (record {
      committed_txns = length done;
      incomplete_txns = length (all_txns records) - length done;
      pages_restored = length latest;
    })
