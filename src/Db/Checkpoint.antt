-- ===== src/Db/Checkpoint.antt =====
-- A checkpoint keeps every page of the cache, whether it succeeds or fails.
use oxen_db.Prelude.{ℕ, ◌*◌, ◌^◌, ◌<◌, ◌≡◌, refl, Option, none, some, List, leb, Result, ok, err}
use oxen_db.Prelude.Op.{Op, and_then, After, After-map, After-and_then, After-if}
use oxen_db.Checksum.{Checksum}
use oxen_db.Page.{PageId, page_size}
use oxen_db.Disk
use oxen_db.Disk.{DiskManager}
use oxen_db.BufferPool.{PageHandle}
use oxen_db.BufferPool.Pool as Pool
use oxen_db.BufferPool.Pool.{BufferPool, shard_index}
use oxen_db.BufferPool.Pool.Coherent.{IsPoolCoherent, PoolKeepsBut}
use oxen_db.BufferPool.Pool.Flushing.{flush_all-PoolKeepsBut}
use oxen_db.BufferPool.Pool.Calls.{Nothing}
use oxen_db.BufferPool.Pool.DiskSteps.{
  Follows, Follows-trans, Extends, on_disk-Follows, write_file_header-Extends, sync-Extends,
}
use oxen_db.Wal.Log
use oxen_db.Wal.Log.{Wal}
use oxen_db.Db.{
  Database, on_pool, on_disk, on_wal, or_poison, poison, write_checkpoint, checkpoint_locked,
  auto_checkpoint, maybe_auto_checkpoint,
}

-- A method of a part of the database, seen from the database.
pub on_pool-After :
    {A : Type 0} (m : Op BufferPool A) (db : Database) (P : A → BufferPool → Type 0)
    (Q : BufferPool → Type 0)
    → After (m db.pool) P Q
    → After (on_pool m db) (λ a d. P a d.pool) (λ d. Q d.pool)
unfolding on_pool
on_pool-After {A = A} m db P Q h = go (m db.pool) h
  where
    go :
        (w : Result A × BufferPool)
        → After w P Q
        → After (w.0, record db { pool = w.1 }) (λ a d. P a d.pool) (λ d. Q d.pool)
    go (ok a, p) x = x
    go (err e, p) x = x

pub on_disk-After :
    {A : Type 0} (m : Op DiskManager A) (db : Database) (P : A → BufferPool → Type 0)
    (Q : BufferPool → Type 0)
    → After (Pool.on_disk m db.pool) P Q
    → After (on_disk m db) (λ a d. P a d.pool) (λ d. Q d.pool)
unfolding on_disk
on_disk-After {A = A} m db P Q h = go (Pool.on_disk m db.pool) h
  where
    go :
        (w : Result A × BufferPool)
        → After w P Q
        → After (w.0, record db { pool = w.1 }) (λ a d. P a d.pool) (λ d. Q d.pool)
    go (ok a, p) x = x
    go (err e, p) x = x

pub on_wal-After :
    {A : Type 0} (m : Op Wal A) (db : Database)
    → After (on_wal m db) (λ _ d. d.pool ≡ db.pool) (λ d. d.pool ≡ db.pool)
unfolding on_wal
on_wal-After {A = A} m db = go (m db.wal)
  where
    go :
        (w : Result A × Wal)
        → After (w.0, record db { wal = w.1 }) (λ _ d. d.pool ≡ db.pool) (λ d. d.pool ≡ db.pool)
    go (ok a, p) = refl
    go (err e, p) = refl

module _ ⦃c : Checksum⦄ where
  module _ (held : ℕ → List PageHandle) (n : ℕ) (index : (id : PageId) → shard_index id n < n) where
    pool_room : (p : BufferPool) → IsPoolCoherent held n p → p.disk.page_count * page_size < 2 ^ 64
    pool_room p v = (v.coherent (shard_index 0 n) (index 0)).room

    pub PoolKeepsBut-Follows :
        {p q : BufferPool} → PoolKeepsBut held Nothing n p q → Follows held n p q
    PoolKeepsBut-Follows k = record {
      coherent = k.coherent;
      holds = λ id page _ h. k.holds id page (λ x. x) h;
    }

    -- The pool follows that of `db`, whether the method succeeds or fails.
    abbrev pub AfterFollows : Result (Unit {0}) × Database → Database → Type 0
    AfterFollows m db =
        After m (λ _ d. Follows held n db.pool d.pool) (λ d. Follows held n db.pool d.pool)

    then_follows :
        (db : Database) (m : Result (Unit {0}) × Database) (f : Op Database (Unit {0}))
        → AfterFollows m db
        → ((d : Database) → IsPoolCoherent held n d.pool → AfterFollows (f d) d)
        → AfterFollows (and_then m (λ _. f)) db
    then_follows db m f h k =
        After-and_then m (λ _. f) _ _ _ h
          (λ _ d a.
            After-map (f d) _ _ _ _ (k d a.coherent) (λ _ e b. Follows-trans a b)
              (λ e b. Follows-trans a b))

    wal-AfterFollows :
        (m : Op Wal (Unit {0})) (db : Database)
        → IsPoolCoherent held n db.pool
        → AfterFollows (on_wal m db) db
    wal-AfterFollows m db v =
        let same : (d : Database) → d.pool ≡ db.pool → Follows held n db.pool d.pool =
          λ d e. rw e (record { coherent = v; holds = λ id page _ h. h }) in
        After-map (on_wal m db) _ _ _ _ (on_wal-After m db) (λ _ d e. same d e) (λ d e. same d e)

    disk-AfterFollows :
        (m : Op DiskManager (Unit {0})) (db : Database)
        → IsPoolCoherent held n db.pool
        → After (m db.pool.disk) (λ _. Extends db.pool.disk) (Extends db.pool.disk)
        → AfterFollows (on_disk m db) db
    disk-AfterFollows m db v h =
        on_disk-After m db (λ _ q. Follows held n db.pool q) (Follows held n db.pool)
          (on_disk-Follows held n index db.pool m v h)

    pub write_checkpoint-Follows :
        (db : Database) → IsPoolCoherent held n db.pool → AfterFollows (write_checkpoint db) db
    unfolding write_checkpoint
    write_checkpoint-Follows db v =
        then_follows db (on_pool Pool.flush_all db) _
          (on_pool-After Pool.flush_all db (λ _ q. Follows held n db.pool q)
            (Follows held n db.pool)
            (After-map (Pool.flush_all db.pool) _ _ _ _
              (flush_all-PoolKeepsBut n index held db.pool v) (λ _ q k. PoolKeepsBut-Follows k)
              (λ q k. PoolKeepsBut-Follows k)))
          (λ d w.
            then_follows d (on_disk Disk.write_file_header d) _
              (disk-AfterFollows Disk.write_file_header d w
                (write_file_header-Extends d.pool.disk (pool_room d.pool w)))
              (λ e x.
                then_follows e (on_disk Disk.sync_disk e) _
                  (disk-AfterFollows Disk.sync_disk e x
                    (sync-Extends e.pool.disk (pool_room e.pool x)))
                  (λ f y. wal-AfterFollows Log.reset f y)))

    poisoned_too :
        (db : Database) (m : Result (Unit {0}) × Database)
        → AfterFollows m db
        → AfterFollows (or_poison m) db
    unfolding or_poison poison
    poisoned_too db (ok u, d) h = h
    poisoned_too db (err e, d) h = h

    auto_checkpoint-Follows :
        (limit : Option ℕ) (db : Database)
        → IsPoolCoherent held n db.pool
        → AfterFollows (auto_checkpoint limit db) db
    unfolding auto_checkpoint checkpoint_locked
    auto_checkpoint-Follows none db v = record { coherent = v; holds = λ id page _ h. h }
    auto_checkpoint-Follows (some limit) db v =
        After-if (leb limit db.wal.durable_len) _ (ok tt, db) _ _
          (λ _. poisoned_too db (write_checkpoint db) (write_checkpoint-Follows db v))
          (λ _. record { coherent = v; holds = λ id page _ h. h })

    -- A checkpoint after a commit keeps every page but the header's.
    pub maybe_auto_checkpoint-Follows :
        (db : Database) → IsPoolCoherent held n db.pool → AfterFollows (maybe_auto_checkpoint db) db
    unfolding maybe_auto_checkpoint
    maybe_auto_checkpoint-Follows db v = auto_checkpoint-Follows db.auto_checkpoint_bytes db v
