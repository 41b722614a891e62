-- ===== src/Db/Txn.antt =====
-- crates/oxendb/src/db/txn.rs: read and write transactions over pages.
pub mod Cache
pub mod Visible
pub mod Crash
pub mod Images
pub mod Recovered
pub mod AfterCrash
pub mod Durable
pub mod Laws
use oxen_db.Prelude.{
  ℕ, zero, suc, ◌+◌, ◌%◌, ◌^◌, Bool, true, false, ◌||◌, Option, none, some, List, [], ◌∷◌, ltb, leb,
  ◌==◌, if◌then◌else◌, map, Result, ok, err, Error, invalid_argument, map_err, get_or,
}
use oxen_db.Prelude
use oxen_db.Prelude.Op.{Op, and_then, pure, raise, lift, get, modify, ◌>>=◌, ◌>>◌}
use oxen_db.Checksum.{Checksum}
use oxen_db.Page
use oxen_db.Page.{Page, PageId, PageType, header_id, seal, verify}
use oxen_db.FileHeader
use oxen_db.Disk
use oxen_db.BTreeMap
use oxen_db.BufferPool as ShardOps
use oxen_db.BufferPool.{PageHandle, no_frame}
use oxen_db.BufferPool.Pool
use oxen_db.BufferPool.Pool.{BufferPool, no_shard}
use oxen_db.Wal.Log
use oxen_db.Wal.Record.{WalRecord, TxnId, page_image, commit}
use oxen_db.Db.{
  Database, page_count, check_poisoned, poison, next_txn_id, or_poison, on_pool, on_disk, on_wal,
  maybe_auto_checkpoint,
}

-- `WriteTxn`: the database, with private copies of the pages that the transaction touched.
pub record WriteTxn : Type 0 where
  pub db : Database
  pub dirty : List (PageId × Page)
  pub page_count : ℕ

-- `check_data_page(id, page_count)`
unfoldable pub check_data_page : PageId → ℕ → Result (Unit {0})
check_data_page id page_count =
    if id == header_id || leb page_count id then err invalid_argument else ok tt

unfoldable pub on_db : {A : Type 0} → Op Database A → Op WriteTxn A
on_db m t = let (r, db) = m t.db in (r, record t { db = db })

-- The page behind a handle, which is dropped after the read.
unfoldable pub handle_page : PageHandle → BufferPool → Page
handle_page h p =
    let i = Pool.shard_index h.page_id (Prelude.length p.shards) in
    (get_or (get_or p.shards i (no_shard p.disk)).frames h.frame_id no_frame).page

unfoldable pub drop_handle : PageHandle → Op BufferPool (Unit {0})
drop_handle h = Pool.on_page h.page_id (ShardOps.unpin h.frame_id)

unfoldable pub images_of : TxnId → List (PageId × Page) → List WalRecord
images_of txn [] = []
images_of txn ((page_id, page) ∷ rest) = page_image txn page_id page ∷ images_of txn rest

module _ ⦃c : Checksum⦄ where
  unfoldable pub read_cached : PageId → Op BufferPool Page
  unfolding handle_page drop_handle
  read_cached id = do
    handle ← Pool.fetch_page id
    p ← get
    drop_handle handle
    pure (handle_page handle p)

  -- `ReadTxn::new` and `ReadTxn::read_page`
  unfoldable pub begin_read : Op Database (Unit {0})
  begin_read = check_poisoned

  unfoldable pub read_page : {R : Type 0} → PageId → (Page → R) → Op Database R
  unfolding on_pool read_cached
  read_page id f = do
    db ← get
    lift (check_data_page id (page_count db))
    page ← on_pool (read_cached id)
    pure (f page)

  -- `WriteTxn::new`
  unfoldable pub begin_write : Op Database WriteTxn
  unfolding check_poisoned
  begin_write = do
    check_poisoned
    db ← get
    pure (record { db = db; dirty = []; page_count = page_count db })

  unfoldable pub read_private : {R : Type 0} → Option Page → PageId → (Page → R) → Op WriteTxn R
  unfolding on_db on_pool
  read_private (some page) id f = pure (f page)
  read_private none id f = do page ← on_db (on_pool (read_cached id)); pure (f page)

  unfoldable pub read_page_in : {R : Type 0} → PageId → (Page → R) → Op WriteTxn R
  unfolding read_private
  read_page_in id f = do
    t ← get
    lift (check_data_page id t.page_count)
    read_private (BTreeMap.get id t.dirty) id f

  unfoldable pub copy_private : Option Page → PageId → Op WriteTxn Page
  unfolding on_db on_pool
  copy_private (some page) id = pure page
  copy_private none id = do
    copy ← on_db (on_pool (read_cached id))
    modify (λ t. record t { dirty = BTreeMap.insert id copy t.dirty })
    pure copy

  -- `page_mut`: the private copy; what the caller writes through it is `write_private`.
  unfoldable pub page_mut : PageId → Op WriteTxn Page
  unfolding copy_private
  page_mut id = do
    t ← get
    lift (check_data_page id t.page_count)
    copy_private (BTreeMap.get id t.dirty) id

  unfoldable pub write_private : PageId → Page → Op WriteTxn (Unit {0})
  write_private id page = modify (λ t. record t { dirty = BTreeMap.insert id page t.dirty })

  unfoldable pub allocate_page : PageType → Op WriteTxn PageId
  allocate_page page_type t =
      let id = t.page_count in
      (
        ok id,
        record t {
          dirty = BTreeMap.insert id (Page.new id page_type) t.dirty;
          page_count = (t.page_count + 1) % 2 ^ 64;
        },
      )

  -- The validation loop of `commit`: every page is sealed, and must then verify.
  unfoldable pub seal_all : List (PageId × Page) → Result (List (PageId × Page))
  seal_all [] = ok []
  seal_all ((id, page) ∷ rest) =
      Prelude.◌>>=◌ (map_err invalid_argument (verify (seal page) id))
        (λ _. Prelude.◌>>=◌ (seal_all rest) (λ rest'. ok ((id, seal page) ∷ rest')))

  -- The records of `commit`: the header first if the database grew, then the pages in order.
  unfoldable pub images : TxnId → ℕ → ℕ → List (PageId × Page) → List WalRecord
  unfolding images_of
  images txn new_count old_count dirty =
      if ltb old_count new_count
      then page_image txn header_id (FileHeader.encode (record { page_count = new_count }))
        ∷ images_of txn dirty
      else images_of txn dirty

  unfoldable pub append_all : List WalRecord → Op Log.Wal (Unit {0})
  append_all [] = pure tt
  append_all (r ∷ rs) = do seq ← Log.append r; append_all rs

  unfoldable pub log : TxnId → List WalRecord → Op Log.Wal (Unit {0})
  unfolding append_all
  log txn records = do append_all records; seq ← Log.append (commit txn); Log.flush

  unfoldable pub install_image : WalRecord → Op BufferPool (Unit {0})
  install_image (commit txn) = pure tt
  install_image (page_image txn page_id page) =
      if page_id == header_id then pure tt else Pool.install_page page_id page

  unfoldable pub install_images : List WalRecord → Op BufferPool (Unit {0})
  unfolding install_image
  install_images [] = pure tt
  install_images (r ∷ rs) = do install_image r; install_images rs

  unfoldable pub publish : ℕ → List WalRecord → Op Database (Unit {0})
  unfolding on_disk on_pool install_images
  publish new_count records = do
    on_disk (Disk.set_page_count new_count)
    on_pool (install_images records)

  unfoldable pub log_and_publish : ℕ → TxnId → List WalRecord → Op Database (Unit {0})
  unfolding on_wal log publish
  log_and_publish new_count txn records = do on_wal (log txn records); publish new_count records

  -- A checkpoint that fails is not reported by the commit that it follows.
  unfoldable pub ignore_error : Result (Unit {0}) × Database → Result (Unit {0}) × Database
  ignore_error (r, db) = (ok tt, db)

  unfoldable pub commit_sealed : ℕ → List (PageId × Page) → Op Database (Unit {0})
  unfolding next_txn_id or_poison log_and_publish images ignore_error
  commit_sealed new_count dirty = do
    txn ← next_txn_id
    db ← get
    λ s. or_poison (log_and_publish new_count txn (images txn new_count (page_count db) dirty) s)
    λ s. ignore_error (maybe_auto_checkpoint s)

  unfoldable pub commit_pages : List (PageId × Page) → ℕ → Op Database (Unit {0})
  unfolding seal_all commit_sealed
  commit_pages [] new_count = pure tt
  commit_pages (entry ∷ rest) new_count = do
    sealed ← lift (seal_all (entry ∷ rest))
    commit_sealed new_count sealed

  -- `commit` consumes the transaction and leaves the database.
  unfoldable pub commit_txn : WriteTxn → Result (Unit {0}) × Database
  unfolding commit_pages
  commit_txn t = commit_pages t.dirty t.page_count t.db

  -- `rollback`, and dropping the transaction
  unfoldable pub rollback : WriteTxn → Database
  rollback t = t.db
