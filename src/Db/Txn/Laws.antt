-- ===== src/Db/Txn/Laws.antt =====
-- A transaction sees its own writes, and a commit that fails leaves nothing half done.
use oxen_db.Prelude.{
  ℕ, ◌<◌, ◌≡◌, refl, true, List, [], ◌∷◌, arith, Result, ok, err, Error, poisoned, ◌⊎◌, inl, inr,
  Result-cases,
}
use oxen_db.Prelude.Op.{and_then}
use oxen_db.Checksum.{Checksum}
use oxen_db.Page.{Page, PageId}
use oxen_db.BTreeMap.Laws.{get-insert}
use oxen_db.Db.{Database, check_poisoned, or_poison, poison, maybe_auto_checkpoint, checkpoint}
use oxen_db.Db.Txn.{
  WriteTxn, check_data_page, begin_read, begin_write, read_page_in, read_private, write_private,
  commit_sealed, commit_pages, commit_txn, seal_all, ignore_error,
}

module _ ⦃c : Checksum⦄ where
  -- A data page inside the database that the transaction wrote reads back as written, whatever
  -- was there before.
  pub read_page_in-write_private :
      {R : Type 0} (id : PageId) (page : Page) (f : Page → R) (t : WriteTxn)
      → 0 < id
      → id < t.page_count
      → (read_page_in id f (write_private id page t).1).0 ≡ ok (f page)
  unfolding read_page_in write_private read_private check_data_page
  read_page_in-write_private id page f t positive small =
      ground (arith, get-insert id id page t.dirty)

  -- A poisoned database starts no transaction and no checkpoint, and is left as it is.
  pub begin_refuses :
      (db : Database)
      → db.is_poisoned ≡ true
      → (begin_read db ≡ (err poisoned, db))
        × (begin_write db ≡ (err poisoned, db))
        × (checkpoint db ≡ (err poisoned, db))
  unfolding begin_read begin_write checkpoint check_poisoned
  begin_refuses db h = rw h (refl, refl, refl)

  -- After the log failed, the database is poisoned; a checkpoint that follows does not fail a commit.
  sealed_fails :
      (m : Result (Unit {0}) × Database) (follow : Database → Result (Unit {0}) × Database)
      (e : Error)
      → (and_then (or_poison m) (λ _ db. ignore_error (follow db))).0 ≡ err e
      → (and_then (or_poison m) (λ _ db. ignore_error (follow db))).1.is_poisoned ≡ true
  unfolding or_poison poison ignore_error
  sealed_fails (ok u, db) follow e h = ground arith
  sealed_fails (err e', db) follow e h = refl

  commit_sealed-err :
      (n : ℕ) (dirty : List (PageId × Page)) (db : Database) (e : Error)
      → (commit_sealed n dirty db).0 ≡ err e
      → (commit_sealed n dirty db).1.is_poisoned ≡ true
  unfolding commit_sealed
  commit_sealed-err n dirty db e h = sealed_fails _ maybe_auto_checkpoint e h

  commit_pages-err :
      (dirty : List (PageId × Page)) (n : ℕ) (db : Database) (e : Error)
      → (commit_pages dirty n db).0 ≡ err e
      → ((commit_pages dirty n db).1 ≡ db) ⊎ ((commit_pages dirty n db).1.is_poisoned ≡ true)
  unfolding commit_pages
  commit_pages-err [] n db e h = inl refl
  commit_pages-err (entry ∷ rest) n db e h = elim (Result-cases (seal_all (entry ∷ rest))) [
    | inl good ↦ inr (rw good.1 (commit_sealed-err n good.0 db e (rw good.1 at h)))
    | inr bad ↦ inl (rw bad.1 refl)
  ]

  -- A commit that reports an error either leaves the database as it was before, or poisons it.
  pub commit_txn-err :
      (t : WriteTxn) (e : Error)
      → (commit_txn t).0 ≡ err e
      → ((commit_txn t).1 ≡ t.db) ⊎ ((commit_txn t).1.is_poisoned ≡ true)
  unfolding commit_txn
  commit_txn-err t e h = commit_pages-err t.dirty t.page_count t.db e h
