-- ===== src/Db/Txn/Visible.antt =====
-- Sealing, growing the file and installing pages: the steps of a commit, on the pages of the cache.
pub mod Commit
use oxen_db.Prelude.{
  ℕ, ◌+◌, ◌%◌, ◌*◌, ◌^◌, ◌≤◌, ◌<◌, ◌≡◌, ◌≢◌, inl, inr, refl, sym, ap, ◌∙◌, Bool, Bool-cases, true,
  false, Option, none, some, List, [], ◌∷◌, map, All, arith, Result, Result-cases, ok, err, ltb,
  ◌==◌, if◌then◌else◌, map_err, invalid_argument,
}
use oxen_db.Prelude
use mathlib.Core.Path.{subst}
use native.Mathlib.Decide.{ℕ_discrete}
use oxen_db.Prelude.Op.{Op, and_then, After, After-map, After-if, After-and_then, pure, ◌>>=◌, ◌>>◌}
use oxen_db.Checksum.{Checksum}
use oxen_db.Page.{Page, PageId, IsPage, page_size, page_id, seal, verify, header_id}
use oxen_db.Page.Laws.{verify-ok, seal_again, seal-IsPage}
use oxen_db.FileHeader
use oxen_db.Disk
use oxen_db.Disk.{DiskManager, set_page_count}
use oxen_db.Disk.Outcomes.{IsReady}
use oxen_db.BufferPool.{PageHandle}
use oxen_db.BufferPool.Pool as Pool
use oxen_db.BufferPool.Pool.{BufferPool, shard_index}
use oxen_db.BufferPool.Pool.Coherent.{PoolHolds, IsPoolCoherent, PoolKeepsBut}
use oxen_db.BufferPool.Pool.Calls.{install_page-PoolKeepsBut}
use oxen_db.BufferPool.Pool.DiskSteps.{Follows, Extends, Extends-Follows}
use oxen_db.Wal.Log
use oxen_db.Wal.Record.{TxnId, WalRecord, page_image, commit}
use oxen_db.Db.{
  Database, on_pool, on_disk, on_wal, or_poison, page_count, next_txn_id, maybe_auto_checkpoint,
}
use oxen_db.Db.Checkpoint.{
  on_pool-After, on_disk-After, on_wal-After, maybe_auto_checkpoint-Follows,
}
use oxen_db.Db.Txn.{
  WriteTxn, read_cached, images_of, images, seal_all, log, install_image, install_images, publish,
  log_and_publish, ignore_error, commit_sealed, commit_pages, commit_txn,
}
use oxen_db.BufferPool.Consistent.{nil-FitsU32}
use oxen_db.Db.Txn.Cache.{Expected, expect, Agrees, agrees, read_cached-PoolHolds}

-- The pages of a transaction, sealed.
abbrev pub sealed_pages : ⦃c : Checksum⦄ → List (PageId × Page) → List (PageId × Page)
sealed_pages dirty = map (λ e. (e.0, seal e.1)) dirty

-- What is expected when these pages are written, one after the other.
unfoldable pub expect_all : List (PageId × Page) → Expected → Expected
expect_all [] m = m
expect_all ((id, page) ∷ rest) m = expect_all rest (expect id page m)

ok_injective : {A : Type 0} {a b : A} → ok a ≡ ok b → a ≡ b
ok_injective e = ground (arith, e)

module _ ⦃c : Checksum⦄ where
  -- A transaction's pages: data pages below the page count, and of the size of a page.
  abbrev pub AreDataPages : ℕ → List (PageId × Page) → Type 0
  AreDataPages count dirty = All (λ e. (0 < e.0) × (e.0 < count) × IsPage e.1) dirty

  abbrev pub AreSealed : ℕ → List (PageId × Page) → Type 0
  AreSealed count dirty = All (λ e. IsReady seal count e.0 e.1) dirty

  -- Sealing that succeeds gives pages that can be written to their places.
  pub seal_all-AreSealed :
      (count : ℕ) (dirty sealed : List (PageId × Page))
      → AreDataPages count dirty
      → seal_all dirty ≡ ok sealed
      → (sealed ≡ sealed_pages dirty) × AreSealed count (sealed_pages dirty)
  unfolding seal_all
  seal_all-AreSealed count [] sealed w e = (ground (arith, e), tt)
  seal_all-AreSealed count ((id, page) ∷ rest) sealed w e =
      elim (Result-cases (verify (seal page) id)) [
        | inr bad ↦ absurd (ground (arith, rw (bad.1, map_err) at e))
        | inl good ↦ elim (Result-cases (seal_all rest)) [
          | inr bad ↦ absurd (ground (arith, rw (good.1, map_err, bad.1) at e))
          | inl more ↦
              let rest' = seal_all-AreSealed count rest more.0 w.1 more.1 in
              let whole : ok ((id, seal page) ∷ more.0) ≡ ok sealed =
                rw (good.1, map_err, more.1) at e in
              let own : page_id (seal page) ≡ id = (verify-ok (seal page) id good.1).3 in
              (
                sym (ok_injective whole) ∙ ap (◌∷◌ (id, seal page)) rest'.0,
                (
                  record {
                    positive = w.0.0;
                    inside = w.0.1;
                    shape = seal-IsPage page w.0.2;
                    own = own;
                    sealed = seal_again page;
                  },
                  rest'.1,
                ),
              )
        ]
      ]

  module _ (n : ℕ) (index : (id : PageId) → shard_index id n < n) where
    -- The pool is in order, and holds what is expected of the data pages.
    pub record Shows (count : ℕ) (m : Expected) (p : BufferPool) : Type 0 where
      pub coherent : IsPoolCoherent (λ _. []) n p
      pub count_is : p.disk.page_count ≡ count
      pub shown : (id : PageId) (page : Page) → 0 < id → m id ≡ some page → PoolHolds n p id page

    installed :
        (count : ℕ) (m : Expected) (p q : BufferPool) (id : PageId) (page : Page)
        → Shows count m p
        → PoolKeepsBut (λ _. []) (◌≡◌ id) n p q × PoolHolds n q id page
        → Shows count (expect id page m) q
    unfolding expect
    installed count m p q id page s k = record {
      coherent = k.0.coherent;
      count_is = k.0.count ∙ s.count_is;
      shown = λ j old positive e. elim (ℕ_discrete id j) [
        | yes same ↦
            let there : page ≡ old = ground (arith, e, same) in
            subst (λ x. PoolHolds n q x old) same (subst (PoolHolds n q id) there k.1)
        | no ne ↦ k.0.holds j old ne (s.shown j old positive (ground (arith, e, ne)))
      ];
    }

    install_images-Shows :
        (txn : TxnId) (count : ℕ) (sealed : List (PageId × Page)) (m : Expected) (p : BufferPool)
        → AreSealed count sealed
        → Shows count m p
        → After
            (install_images (images_of txn sealed) p)
            (λ _. Shows count (expect_all sealed m))
            (λ _. Unit {0})
    unfolding install_images images_of install_image expect_all
    install_images-Shows txn count [] m p w s = s
    install_images-Shows txn count ((id, page) ∷ rest) m p w s =
        let data_page : (id == 0) ≡ false = ground (arith, w.0.positive) in
        let ready : IsReady seal p.disk.page_count id page = rw s.count_is w.0 in
        rw data_page (
          After-and_then (Pool.install_page id page p) _ _ _ _
            (After-map (Pool.install_page id page p) _ _ _ _
              (install_page-PoolKeepsBut n index (λ _. []) p id page (λ _. nil-FitsU32) s.coherent
                ready)
              (λ _ q k. installed count m p q id page s k) (λ q k. tt))
            (λ _ q t. install_images-Shows txn count rest (expect id page m) q w.1 t))

    pub images-Shows :
        (txn : TxnId) (count old : ℕ) (sealed : List (PageId × Page)) (m : Expected)
        (p : BufferPool)
        → AreSealed count sealed
        → Shows count m p
        → After
            (install_images (images txn count old sealed) p)
            (λ _. Shows count (expect_all sealed m))
            (λ _. Unit {0})
    unfolding images install_images install_image
    images-Shows txn count old sealed m p w s = elim (Bool-cases (ltb old count)) [
      | inl grown ↦ rw grown (install_images-Shows txn count sealed m p w s)
      | inr same ↦ rw same (install_images-Shows txn count sealed m p w s)
    ]

    pub grown-Shows :
        (count : ℕ) (m : Expected) (p : BufferPool)
        → p.disk.page_count ≤ count
        → count * page_size < 2 ^ 64
        → Shows p.disk.page_count m p
        → After (Pool.on_disk (set_page_count count) p) (λ _. Shows count m) (λ _. Unit {0})
    unfolding Pool.on_disk set_page_count
    grown-Shows count m p more room s =
        let fits : ltb count p.disk.page_count ≡ false = ground (arith, more) in
        let e : DiskManager = record p.disk { page_count = count } in
        let follows : Follows (λ _. []) n p (record p { disk = e }) =
          Extends-Follows (λ _. []) n index p e s.coherent
            (record { room = room; grown = more; kept = λ id page _ there. there }) in
        rw fits (record {
          coherent = follows.coherent;
          count_is = refl;
          shown = λ id page positive there.
              follows.holds id page positive (s.shown id page positive there);
        })
