-- ===== src/Db/Txn/Visible/Commit.antt =====
-- What a commit that succeeds leaves for later reads.
use oxen_db.Prelude.{
  ℕ, ◌+◌, ◌%◌, ◌*◌, ◌^◌, ◌≤◌, ◌<◌, ◌≡◌, inl, inr, refl, some, List, [], ◌∷◌, Result, Result-cases,
  ok, err,
}
use oxen_db.Prelude.Op.{After, After-map, After-and_then}
use oxen_db.Checksum.{Checksum}
use oxen_db.Page.{Page, PageId, page_size}
use oxen_db.Disk.{set_page_count}
use oxen_db.BufferPool.Pool.{BufferPool, shard_index}
use oxen_db.BufferPool.Pool.Coherent.{PoolHolds, IsPoolCoherent}
use oxen_db.BufferPool.Pool.DiskSteps.{Follows}
use oxen_db.Wal.Record.{TxnId}
use oxen_db.Db.{
  Database, on_disk, on_wal, or_poison, page_count, next_txn_id, maybe_auto_checkpoint,
}
use oxen_db.Db.Checkpoint.{
  on_pool-After, on_disk-After, on_wal-After, maybe_auto_checkpoint-Follows,
}
use oxen_db.Db.Txn.{
  WriteTxn, read_cached, images, seal_all, log, install_images, publish, log_and_publish,
  ignore_error, commit_sealed, commit_pages, commit_txn,
}
use oxen_db.BufferPool.Consistent.{nil-FitsU32}
use oxen_db.Db.Txn.Cache.{Expected, Agrees, agrees, read_cached-PoolHolds}
use oxen_db.Db.Txn.Visible.{
  sealed_pages, expect_all, AreDataPages, AreSealed, seal_all-AreSealed, Shows, images-Shows,
  grown-Shows,
}

module _ ⦃c : Checksum⦄ where
  module _ (n : ℕ) (index : (id : PageId) → shard_index id n < n) where
    publish-Shows :
        (txn : TxnId) (count old : ℕ) (sealed : List (PageId × Page)) (m : Expected) (db : Database)
        → db.pool.disk.page_count ≤ count
        → count * page_size < 2 ^ 64
        → AreSealed count sealed
        → Shows n index db.pool.disk.page_count m db.pool
        → After
            (publish count (images txn count old sealed) db)
            (λ _ d. Shows n index count (expect_all sealed m) d.pool)
            (λ _. Unit {0})
    unfolding publish
    publish-Shows txn count old sealed m db more room w s =
        After-and_then (on_disk (set_page_count count) db) _ _ _ _
          (on_disk-After (set_page_count count) db (λ _. Shows n index count m) (λ _. Unit {0})
            (grown-Shows n index count m db.pool more room s))
          (λ _ d t.
            on_pool-After (install_images (images txn count old sealed)) d
              (λ _. Shows n index count (expect_all sealed m)) (λ _. Unit {0})
              (images-Shows n index txn count old sealed m d.pool w t))

    log_and_publish-Shows :
        (txn : TxnId) (count old : ℕ) (sealed : List (PageId × Page)) (m : Expected) (db : Database)
        → db.pool.disk.page_count ≤ count
        → count * page_size < 2 ^ 64
        → AreSealed count sealed
        → Shows n index db.pool.disk.page_count m db.pool
        → After
            (log_and_publish count txn (images txn count old sealed) db)
            (λ _ d. Shows n index count (expect_all sealed m) d.pool)
            (λ _. Unit {0})
    unfolding log_and_publish
    log_and_publish-Shows txn count old sealed m db more room w s =
        let records = images txn count old sealed in
        After-and_then (on_wal (log txn records) db) _ _ _ _
          (After-map (on_wal (log txn records) db) _ (λ _ d. d.pool ≡ db.pool) _ (λ _. Unit {0})
            (on_wal-After (log txn records) db) (λ _ d e. e) (λ d e. tt))
          (λ _ d e. publish-Shows txn count old sealed m d (rw e more) room w (rw e s))

    or_poison-After :
        (r : Result (Unit {0}) × Database) (P : BufferPool → Type 0)
        → After r (λ _ d. P d.pool) (λ _. Unit {0})
        → After (or_poison r) (λ _ d. P d.pool) (λ _. Unit {0})
    unfolding or_poison
    or_poison-After (ok u, d) P h = h
    or_poison-After (err e, d) P h = tt

    ignore_error-After :
        (r : Result (Unit {0}) × Database) (P : BufferPool → Type 0)
        → After r (λ _ d. P d.pool) (λ d. P d.pool)
        → After (ignore_error r) (λ _ d. P d.pool) (λ _. Unit {0})
    unfolding ignore_error
    ignore_error-After (ok u, d) P h = h
    ignore_error-After (err e, d) P h = h

    -- What is expected and held for the data pages.
    abbrev Visible : Expected → BufferPool → Type 0
    Visible m p =
        IsPoolCoherent (λ _. []) n p
        × ((id : PageId) (page : Page) → 0 < id → m id ≡ some page → PoolHolds n p id page)

    followed :
        (count : ℕ) (m : Expected) (p q : BufferPool)
        → Shows n index count m p
        → Follows (λ _. []) n p q
        → Visible m q
    followed count m p q s f =
        (f.coherent, λ id page positive e. f.holds id page positive (s.shown id page positive e))

    commit_sealed-Visible :
        (count : ℕ) (sealed : List (PageId × Page)) (m : Expected) (db : Database)
        → db.pool.disk.page_count ≤ count
        → count * page_size < 2 ^ 64
        → AreSealed count sealed
        → Shows n index db.pool.disk.page_count m db.pool
        → After
            (commit_sealed count sealed db)
            (λ _ d. Visible (expect_all sealed m) d.pool)
            (λ _. Unit {0})
    unfolding commit_sealed next_txn_id page_count
    commit_sealed-Visible count sealed m db more room w s =
        let started : Database = record db { next_txn = (db.next_txn + 1) % 2 ^ 64 } in
        let old = db.pool.disk.page_count in
        let r = log_and_publish count db.next_txn (images db.next_txn count old sealed) started in
        After-and_then (or_poison r) _ _ _ _
          (or_poison-After r (Shows n index count (expect_all sealed m))
            (log_and_publish-Shows db.next_txn count old sealed m started more room w s))
          (λ _ d t. ignore_error-After (maybe_auto_checkpoint d) (Visible (expect_all sealed m)) (
            After-map (maybe_auto_checkpoint d) _ _ _ _
              (maybe_auto_checkpoint-Follows (λ _. []) n index d t.coherent)
              (λ _ e f. followed count (expect_all sealed m) d.pool e.pool t f)
              (λ e f. followed count (expect_all sealed m) d.pool e.pool t f)))

    commit_pages-Visible :
        (dirty : List (PageId × Page)) (count : ℕ) (m : Expected) (db : Database)
        → db.pool.disk.page_count ≤ count
        → count * page_size < 2 ^ 64
        → AreDataPages count dirty
        → Shows n index db.pool.disk.page_count m db.pool
        → After
            (commit_pages dirty count db)
            (λ _ d. Visible (expect_all (sealed_pages dirty) m) d.pool)
            (λ _. Unit {0})
    unfolding commit_pages expect_all
    commit_pages-Visible [] count m db more room w s = (s.coherent, s.shown)
    commit_pages-Visible (entry ∷ rest) count m db more room w s =
        elim (Result-cases (seal_all (entry ∷ rest))) [
          | inr bad ↦ rw bad.1 tt
          | inl good ↦
              let sealed = seal_all-AreSealed count (entry ∷ rest) good.0 w good.1 in
              rw (good.1, sealed.0)
                (commit_sealed-Visible count (sealed_pages (entry ∷ rest)) m db more room sealed.1
                  s)
        ]

  -- After a commit that succeeds, a read of a data page from the cache that succeeds gives the page
  -- that the transaction wrote last, sealed, or where it wrote none the page that the cache held
  -- before; a checkpoint that the commit runs changes nothing of this, also when it fails. No handle
  -- is out before, the cache is in good order, the transaction's pages are data pages below its page
  -- count, which is no less than the database's and whose bytes fit 64 bits, and every page id has a
  -- shard.
  pub read_cached-commit_txn :
      (n : ℕ) (t : WriteTxn) (m : Expected) (id : PageId)
      → ((j : PageId) → shard_index j n < n)
      → page_count t.db ≤ t.page_count
      → t.page_count * page_size < 2 ^ 64
      → AreDataPages t.page_count t.dirty
      → IsPoolCoherent (λ _. []) n t.db.pool
      → ((j : PageId) (page : Page) → 0 < j → m j ≡ some page → PoolHolds n t.db.pool j page)
      → 0 < id
      → After
          (commit_txn t)
          (λ _ d.
            After
              (read_cached id d.pool)
              (λ page _. Agrees (expect_all (sealed_pages t.dirty) m id) page)
              (λ _. Unit {0}))
          (λ _. Unit {0})
  unfolding commit_txn page_count
  read_cached-commit_txn n t m id index more room w v shown positive =
      After-map (commit_txn t) _ _ _ _
        (commit_pages-Visible n index t.dirty t.page_count m t.db more room w
          (record { coherent = v; count_is = refl; shown = shown }))
        (λ _ d h.
          After-map (read_cached id d.pool) _ _ _ _
            (read_cached-PoolHolds n index (λ _. []) d.pool id (λ _. nil-FitsU32) h.0)
            (λ page _ k.
              agrees (expect_all (sealed_pages t.dirty) m id) page
                (λ old e. k.2 old (h.1 id old positive e)))
            (λ _ _. tt))
        (λ _ _. tt)
