-- ===== src/Db/Steps.antt =====
-- What a method of one part of a database leaves, with the other parts as they were.
use oxen_db.Prelude.{◌≡◌, refl, Result, ok, err}
use oxen_db.Prelude.Op.{Op, After}
use oxen_db.Disk.{DiskManager}
use oxen_db.BufferPool.Pool as Pool
use oxen_db.BufferPool.Pool.{BufferPool, shard_index}
use oxen_db.Wal.Log.{Wal}
use oxen_db.Db.{Database, on_pool, on_disk, on_wal}

pub on_pool-whole :
    {A : Type 0} (m : Op BufferPool A) (db : Database) (P : A → BufferPool → Type 0)
    (Q : BufferPool → Type 0)
    → After (m db.pool) P Q
    → After (on_pool m db) (λ a d. P a d.pool × (d.wal ≡ db.wal)) (λ d. Q d.pool × (d.wal ≡ db.wal))
unfolding on_pool
on_pool-whole {A = A} m db P Q h = go (m db.pool) h
  where
    go :
        (w : Result A × BufferPool)
        → After w P Q
        → After
            (w.0, record db { pool = w.1 })
            (λ a d. P a d.pool × (d.wal ≡ db.wal))
            (λ d. Q d.pool × (d.wal ≡ db.wal))
    go (ok a, p) x = (x, refl)
    go (err e, p) x = (x, refl)

pub on_disk-whole :
    {A : Type 0} (m : Op DiskManager A) (db : Database) (P : A → DiskManager → Type 0)
    (Q : DiskManager → Type 0)
    → After (m db.pool.disk) P Q
    → After
        (on_disk m db)
        (λ a d. P a d.pool.disk × (d.wal ≡ db.wal))
        (λ d. Q d.pool.disk × (d.wal ≡ db.wal))
unfolding on_disk Pool.on_disk
on_disk-whole {A = A} m db P Q h = go (m db.pool.disk) h
  where
    go :
        (w : Result A × DiskManager)
        → After w P Q
        → After
            (w.0, record db { pool = record db.pool { disk = w.1 } })
            (λ a d. P a d.pool.disk × (d.wal ≡ db.wal))
            (λ d. Q d.pool.disk × (d.wal ≡ db.wal))
    go (ok a, p) x = (x, refl)
    go (err e, p) x = (x, refl)

pub on_wal-whole :
    {A : Type 0} (m : Op Wal A) (db : Database) (P : A → Wal → Type 0) (Q : Wal → Type 0)
    → After (m db.wal) P Q
    → After
        (on_wal m db)
        (λ a d. P a d.wal × (d.pool ≡ db.pool))
        (λ d. Q d.wal × (d.pool ≡ db.pool))
unfolding on_wal
on_wal-whole {A = A} m db P Q h = go (m db.wal) h
  where
    go :
        (w : Result A × Wal)
        → After w P Q
        → After
            (w.0, record db { wal = w.1 })
            (λ a d. P a d.wal × (d.pool ≡ db.pool))
            (λ d. Q d.wal × (d.pool ≡ db.pool))
    go (ok a, p) x = (x, refl)
    go (err e, p) x = (x, refl)
