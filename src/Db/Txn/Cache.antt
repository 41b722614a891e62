-- ===== src/Db/Txn/Cache.antt =====
-- What transactions see of the page cache: through any calls, and any failures of the disk, it is a
-- map from ids to pages.
use oxen_db.Prelude.{
  false, ℕ, ◌*◌, ◌^◌, ◌≤◌, ◌<◌, ◌≡◌, refl, sym, ap, ◌∙◌, Option, none, some, List, [], ◌∷◌, length,
  arith, ok, if◌then◌else◌, ◌==◌, ==_refl,
}
use mathlib.Core.Path.{subst}
use native.Mathlib.Decide.{ℕ_discrete}
use oxen_db.Prelude.Op.{After, After-map, After-and_then}
use oxen_db.Checksum.{Checksum}
use oxen_db.Page.{Page, PageId, page_size, seal}
use oxen_db.Disk.{DiskManager}
use oxen_db.Disk.Stored.{Stored}
use oxen_db.Disk.Outcomes.{IsReady}
use oxen_db.BufferPool.Consistent.{FitsU32, nil-FitsU32}
use oxen_db.BufferPool.{PageHandle, Shard, unpin, shard_count_for}
use oxen_db.BufferPool.Consistent.Operations.{IsSound}
use oxen_db.BufferPool.Consistent.Writes.{unpin-IsSound}
use oxen_db.BufferPool.Coherent.{frame_at}
use oxen_db.BufferPool.Coherent.Flush.{Keeps-unpin}
use oxen_db.BufferPool.Pool as Pool
use oxen_db.BufferPool.Pool.{BufferPool, shard_index, on_shard, on_page}
use oxen_db.BufferPool.Pool.Coherent.{
  shard_at, PoolHolds, IsPoolCoherent, PoolKeepsBut, changed-PoolKeepsBut,
}
use oxen_db.BufferPool.Pool.Flushing.{flush_all-PoolKeepsBut}
use oxen_db.BufferPool.Pool.Calls.{
  Nothing, KeepsBut-Keeps, and_out, PoolFetched, fetch_page-PoolFetched, install_page-PoolKeepsBut,
  flush_page-PoolKeepsBut,
}
use oxen_db.BufferPool.Pool.Start.{
  new-IsPoolCoherent, new-PoolHolds, shard_index-lt-shard_count_for,
}
use oxen_db.Db.Txn.{handle_page, drop_handle, read_cached}

module _ (n : ℕ) (h : PageHandle) (q : BufferPool) (id : PageId) (size : length q.shards ≡ n)
    (same : h.page_id ≡ id) where
  handle_page_eq : handle_page h q ≡ (frame_at (shard_at q (shard_index id n)) h.frame_id).page
  unfolding handle_page
  handle_page_eq =
      ap (λ i. (frame_at (shard_at q i) h.frame_id).page)
        (ap (shard_index h.page_id) size ∙ ap (λ x. shard_index x n) same)

  drop_handle_eq : drop_handle h q ≡ (ok tt, (on_shard (shard_index id n) (unpin h.frame_id) q).1)
  unfolding drop_handle on_page on_shard unpin
  drop_handle_eq = rw (size, same) refl

-- Calls of the cache by transactions, recovery and checkpoints.
pub data Call : Type 0 where
  do_read : PageId → Call
  do_install : PageId → Page → Call
  do_flush : PageId → Call
  do_flush_all : Call

-- What is expected for each id, where anything is.
abbrev pub Expected : Type 0
Expected = PageId → Option Page

unfoldable pub expect : PageId → Page → Expected → Expected
expect id page m j = if id == j then some page else m j

abbrev pub Agrees : Option Page → Page → Type 0
Agrees none page = Unit {0}
Agrees (some expected) page = page ≡ expected

pub agrees :
    (o : Option Page) (page : Page) → ((old : Page) → o ≡ some old → old ≡ page) → Agrees o page
agrees none page h = tt
agrees (some old) page h = sym (h old refl)

module _ ⦃c : Checksum⦄ where
  module _ (n : ℕ) (index : (id : PageId) → shard_index id n < n) (held : ℕ → List PageHandle) where
    -- The handle of a fetch is dropped.
    dropped :
        (q : BufferPool) (i : ℕ) (h : PageHandle)
        → i < n
        → IsPoolCoherent (and_out n index held i h) n q
        → PoolKeepsBut held Nothing n q (on_shard i (unpin h.frame_id) q).1
    unfolding on_shard unpin
    dropped q i h inside v =
        let s : Shard = shard_at q i in
        let sound : IsSound (h ∷ held i) s = rw (==_refl i) at (v.sound i inside) in
        changed-PoolKeepsBut n q i Nothing (unpin h.frame_id s).1 held (and_out n index held i h) v
          (λ j ne. ground (arith, ne)) inside (λ id x. absurd x)
          (KeepsBut-Keeps (held i) s (unpin h.frame_id s).1 (unpin-IsSound [] (held i) h s sound)
            (Keeps-unpin s h.frame_id (v.coherent i inside)))
          index

    -- What a fetch and the drop of its handle leave.
    read_and_dropped :
        (p q r : BufferPool) (id : PageId) (h : PageHandle)
        → PoolFetched n index held p id h q
        → PoolKeepsBut held Nothing n q r
        → PoolKeepsBut held Nothing n p r
          × PoolHolds n r id (frame_at (shard_at q (shard_index id n)) h.frame_id).page
          × ((old : Page)
              → PoolHolds n p id old
              → old ≡ (frame_at (shard_at q (shard_index id n)) h.frame_id).page)
    read_and_dropped p q r id h f k =
        let now = k.holds id _ (λ x. x) f.current in
        (
          record {
            coherent = k.coherent;
            count = k.count ∙ f.keeps.count;
            holds = λ j old _ was. elim (ℕ_discrete id j) [
              | yes same ↦
                  let was' : PoolHolds n p id old = rw same was in
                  subst (λ x. PoolHolds n r x old) same
                    (subst (PoolHolds n r id) (sym (f.agrees old was')) now)
              | no ne ↦ k.holds j old (λ x. x) (f.keeps.holds j old ne was)
            ];
          },
          now,
          f.agrees,
        )

    -- A page that is read is the page that the cache held, and none is lost.
    pub read_cached-PoolHolds :
        (p : BufferPool) (id : PageId)
        → ((i : ℕ) → FitsU32 (held i))
        → IsPoolCoherent held n p
        → After
            (read_cached id p)
            (λ page q.
              PoolKeepsBut held Nothing n p q
              × PoolHolds n q id page
              × ((old : Page) → PoolHolds n p id old → old ≡ page))
            (PoolKeepsBut held Nothing n p)
    unfolding read_cached
    read_cached-PoolHolds p id fits v =
        After-and_then (Pool.fetch_page id p) _ _ _ _
          (fetch_page-PoolFetched n index held p id fits v)
          (λ h q f.
            let size = f.keeps.coherent.size in
            rw (drop_handle_eq n h q id size f.same_id, handle_page_eq n h q id size f.same_id)
              (read_and_dropped p q _ id h f
                (dropped q (shard_index id n) h (index id) f.keeps.coherent)))

  -- Every installed page can be written to its place.
  abbrev pub AreReady : ℕ → List Call → Type 0
  AreReady count [] = Unit {0}
  AreReady count (do_read id ∷ cs) = AreReady count cs
  AreReady count (do_install id page ∷ cs) = IsReady seal count id page × AreReady count cs
  AreReady count (do_flush id ∷ cs) = AreReady count cs
  AreReady count (do_flush_all ∷ cs) = AreReady count cs

  -- Pages that lie within the database lie within a larger one.
  pub AreReady-le : (n m : ℕ) (cs : List Call) → n ≤ m → AreReady n cs → AreReady m cs
  AreReady-le n m [] h r = tt
  AreReady-le n m (do_read id ∷ cs) h r = AreReady-le n m cs h r
  AreReady-le n m (do_install id page ∷ cs) h r = (
    record {
      positive = r.0.positive;
      inside = omega (arith, r.0.inside);
      shape = r.0.shape;
      own = r.0.own;
      sealed = r.0.sealed;
    },
    AreReady-le n m cs h r.1,
  )
  AreReady-le n m (do_flush id ∷ cs) h r = AreReady-le n m cs h r
  AreReady-le n m (do_flush_all ∷ cs) h r = AreReady-le n m cs h r

  -- Run one after the other, whether they succeed or fail, the calls answer as the map does: a read
  -- gives the expected page, and a page is expected from its successful `install_page` on.
  unfoldable pub IsFaithful : List Call → BufferPool → Expected → Type 0
  IsFaithful [] p m = Unit {0}
  IsFaithful (do_read id ∷ cs) p m =
      After (read_cached id p) (λ page q. Agrees (m id) page × IsFaithful cs q m)
        (λ q. IsFaithful cs q m)
  IsFaithful (do_install id page ∷ cs) p m =
      After (Pool.install_page id page p) (λ _ q. IsFaithful cs q (expect id page m))
        (λ q. IsFaithful cs q m)
  IsFaithful (do_flush id ∷ cs) p m =
      After (Pool.flush_page id p) (λ _ q. IsFaithful cs q m) (λ q. IsFaithful cs q m)
  IsFaithful (do_flush_all ∷ cs) p m =
      After (Pool.flush_all p) (λ _ q. IsFaithful cs q m) (λ q. IsFaithful cs q m)

  abbrev Represents : ℕ → BufferPool → Expected → Type 0
  Represents n p m = (id : PageId) (page : Page) → m id ≡ some page → PoolHolds n p id page

  module _ (n : ℕ) (index : (id : PageId) → shard_index id n < n) where
    kept :
        (p q : BufferPool) (m : Expected)
        → Represents n p m
        → PoolKeepsBut (λ _. []) Nothing n p q
        → Represents n q m
    kept p q m r k id page e = k.holds id page (λ x. x) (r id page e)

    installed :
        (p q : BufferPool) (id : PageId) (page : Page) (m : Expected)
        → Represents n p m
        → PoolKeepsBut (λ _. []) (◌≡◌ id) n p q × PoolHolds n q id page
        → Represents n q (expect id page m)
    unfolding expect
    installed p q id page m r k j old e = elim (ℕ_discrete id j) [
      | yes same ↦
          let there : page ≡ old = ground (arith, e, same) in
          subst (λ x. PoolHolds n q x old) same (subst (PoolHolds n q id) there k.1)
      | no ne ↦ k.0.holds j old ne (r j old (ground (arith, e, ne)))
    ]

    pub runs-IsFaithful :
        (cs : List Call) (p : BufferPool) (m : Expected)
        → IsPoolCoherent (λ _. []) n p
        → AreReady p.disk.page_count cs
        → Represents n p m
        → IsFaithful cs p m
    unfolding IsFaithful
    runs-IsFaithful [] p m v ready r = tt
    runs-IsFaithful (do_read id ∷ cs) p m v ready r =
        After-map (read_cached id p) _ _ _ _
          (read_cached-PoolHolds n index (λ _. []) p id (λ _. nil-FitsU32) v)
          (λ page q h. (
            agrees (m id) page (λ old e. h.2 old (r id old e)),
            runs-IsFaithful cs q m h.0.coherent (rw h.0.count ready) (kept p q m r h.0),
          ))
          (λ q k. runs-IsFaithful cs q m k.coherent (rw k.count ready) (kept p q m r k))
    runs-IsFaithful (do_install id page ∷ cs) p m v ready r =
        After-map (Pool.install_page id page p) _ _ _ _
          (install_page-PoolKeepsBut n index (λ _. []) p id page (λ _. nil-FitsU32) v ready.0)
          (λ _ q k.
            runs-IsFaithful cs q (expect id page m) k.0.coherent (rw k.0.count ready.1)
              (installed p q id page m r k))
          (λ q k. runs-IsFaithful cs q m k.coherent (rw k.count ready.1) (kept p q m r k))
    runs-IsFaithful (do_flush id ∷ cs) p m v ready r =
        After-map (Pool.flush_page id p) _ _ _ _ (flush_page-PoolKeepsBut n index (λ _. []) p id v)
          (λ _ q k. runs-IsFaithful cs q m k.coherent (rw k.count ready) (kept p q m r k))
          (λ q k. runs-IsFaithful cs q m k.coherent (rw k.count ready) (kept p q m r k))
    runs-IsFaithful (do_flush_all ∷ cs) p m v ready r =
        After-map (Pool.flush_all p) _ _ _ _ (flush_all-PoolKeepsBut n index (λ _. []) p v)
          (λ _ q k. runs-IsFaithful cs q m k.coherent (rw k.count ready) (kept p q m r k))
          (λ q k. runs-IsFaithful cs q m k.coherent (rw k.count ready) (kept p q m r k))

  -- A pool of a positive capacity that is made over a disk behaves as a map from ids to pages, from
  -- the pages that the disk stores: whatever calls are made one after the other, and whichever of
  -- them the disk lets fail, a read that succeeds gives the page that was last installed with
  -- success, or the stored one. The pages to be installed are sealed, have their own id and lie
  -- within the page count, and the database's size fits 64 bits.
  pub new-IsFaithful :
      (disk : DiskManager) (total : ℕ) (p : BufferPool) (cs : List Call) (m : Expected)
      → 0 < total
      → disk.page_count * page_size < 2 ^ 64
      → Pool.new disk total ≡ ok p
      → AreReady disk.page_count cs
      → ((id : PageId) (page : Page) → m id ≡ some page → Stored disk.file.contents id page)
      → IsFaithful cs p m
  unfolding Pool.new
  new-IsFaithful disk total p cs m positive room made ready stored =
      let n = shard_count_for total in
      let start : BufferPool = record { disk = disk; shards = Pool.new_shards disk total n 0 n } in
      let nonzero : (total == 0) ≡ false = ground (arith, positive) in
      let same : start ≡ p = ground (arith, made, nonzero) in
      rw (← same) (
        runs-IsFaithful n (shard_index-lt-shard_count_for total) cs start m
          (new-IsPoolCoherent disk total positive room) ready
          (λ id page e. new-PoolHolds disk total id page (stored id page e)))
