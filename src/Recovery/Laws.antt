-- ===== src/Recovery/Laws.antt =====
-- What replay restores: of every page, the last image that a committed transaction logged.
use oxen_db.Prelude.{
  ◌==◌, ◌≡◌, refl, sym, ◌∙◌, ap, Bool, false, ◌||◌, Option, none, some, List, [], ◌∷◌,
  if◌then◌else◌, ok, Result-cases, Bool-cases, arith, inl, inr,
}
use oxen_db.Checksum.{Checksum}
use oxen_db.Page.{Page, PageId}
use oxen_db.BTreeMap
use oxen_db.BTreeMap.{contains, add}
use oxen_db.BTreeMap.Laws.{get-insert, contains-add}
use oxen_db.Wal.Record.{WalRecord, DecodedRecord, TxnId, page_image, commit}
use oxen_db.Recovery.{note_commit, committed, validate_image, take_image, collect}

unfoldable pub commits : TxnId → WalRecord → Bool
commits txn (page_image t page_id page) = false
commits txn (commit t) = t == txn

-- The log has a commit record of the transaction.
unfoldable pub has_commit : TxnId → List DecodedRecord → Bool
has_commit txn [] = false
has_commit txn (d ∷ ds) = commits txn d.wal_record || has_commit txn ds

-- The image of the page `k`, if the record is one, of a transaction that the log has committed.
unfoldable pub image_in : List DecodedRecord → PageId → WalRecord → Option Page
image_in log k (commit txn) = none
image_in log k (page_image txn page_id page) =
    if has_commit txn log then (if page_id == k then some page else none) else none

unfoldable pub or_else : Option Page → Option Page → Option Page
or_else (some a) b = some a
or_else none b = b

-- The newest image of a page among the records `ds` of the log.
unfoldable pub last_image : List DecodedRecord → PageId → List DecodedRecord → Option Page
last_image log k [] = none
last_image log k (d ∷ ds) = or_else (last_image log k ds) (image_in log k d.wal_record)

pub or_else_assoc : (a b c : Option Page) → or_else (or_else a b) c ≡ or_else a (or_else b c)
unfolding or_else
or_else_assoc (some a) b c = refl
or_else_assoc none b c = refl

note_commit-commits :
    (txn : TxnId) (r : WalRecord) (done : List TxnId)
    → contains txn (note_commit r done) ≡ (commits txn r || contains txn done)
unfolding note_commit commits
note_commit-commits txn (page_image t page_id page) done = refl
note_commit-commits txn (commit t) done = contains-add t txn done

pub or_else-none : (a : Option Page) → or_else a none ≡ a
unfolding or_else
or_else-none (some a) = refl
or_else-none none = refl

-- A transaction counts as committed exactly when the log has its commit record.
pub committed-has_commit :
    (txn : TxnId) (ds : List DecodedRecord) → contains txn (committed ds) ≡ has_commit txn ds
unfolding committed has_commit contains
committed-has_commit txn [] = refl
committed-has_commit txn (d ∷ ds) =
    note_commit-commits txn d.wal_record (committed ds)
    ∙ ap (◌||◌ (commits txn d.wal_record)) (committed-has_commit txn ds)

module _ ⦃c : Checksum⦄ where
  take_image-image_in :
      (log : List DecodedRecord) (r : WalRecord) (latest m : List (PageId × Page)) (k : PageId)
      → take_image (committed log) r latest ≡ ok m
      → BTreeMap.get k m ≡ or_else (image_in log k r) (BTreeMap.get k latest)
  unfolding take_image image_in or_else
  take_image-image_in log (commit txn) latest m k h = ground arith
  take_image-image_in log (page_image txn page_id page) latest m k h =
      elim (Bool-cases (has_commit txn log)) [
        | inr pending ↦ ground (arith, pending, committed-has_commit txn log)
        | inl done ↦ elim (Result-cases (validate_image page_id page)) [
          | inl good ↦
              ground (
                arith,
                done,
                good.1,
                committed-has_commit txn log,
                get-insert page_id k page latest,
              )
          | inr bad ↦ ground (arith, done, bad.1, committed-has_commit txn log)
        ]
      ]

  collect-last_image :
      (log ds : List DecodedRecord) (latest m : List (PageId × Page)) (k : PageId)
      → collect (committed log) ds latest ≡ ok m
      → BTreeMap.get k m ≡ or_else (last_image log k ds) (BTreeMap.get k latest)
  unfolding collect last_image or_else
  collect-last_image log [] latest m k h = ground arith
  collect-last_image log (d ∷ ds) latest m k h =
      elim (Result-cases (take_image (committed log) d.wal_record latest)) [
        | inr bad ↦ ground (arith, bad.1)
        | inl good ↦
            collect-last_image log ds good.0 m k (rw good.1 at h)
            ∙ ap (or_else (last_image log k ds))
                (take_image-image_in log d.wal_record latest good.0 k good.1)
            ∙ sym (
                or_else_assoc (last_image log k ds) (image_in log k d.wal_record)
                  (BTreeMap.get k latest))
      ]

  -- When every image that replay collects is good, the result holds for each page the newest
  -- image that a transaction with a commit record logged, and nothing for any other page.
  pub collect-committed :
      (records : List DecodedRecord) (latest : List (PageId × Page)) (k : PageId)
      → collect (committed records) records [] ≡ ok latest
      → BTreeMap.get k latest ≡ last_image records k records
  unfolding BTreeMap.get
  collect-committed records latest k h =
      collect-last_image records records [] latest k h ∙ or_else-none (last_image records k records)
