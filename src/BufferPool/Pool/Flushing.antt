-- ===== src/BufferPool/Pool/Flushing.antt =====
-- Flushing every shard of a pool, and syncing the disk, keep every page.
use oxen_db.Prelude.{
  ℕ, zero, suc, ◌+◌, ◌≤◌, ◌<◌, ◌≡◌, refl, sym, ap, ◌∙◌, List, arith, Result, ok, err,
}
use mathlib.Core.Path.{subst}
use oxen_db.Prelude.Op.{After, After-map, After-and_then}
use oxen_db.Checksum.{Checksum}
use oxen_db.Page.{PageId}
use oxen_db.Disk.Outcomes.{SameDisk, sync_disk-SameDisk}
use oxen_db.Disk
use oxen_db.Disk.{DiskManager}
use oxen_db.BufferPool as ShardOps
use oxen_db.BufferPool.{FrameId, PageHandle, Shard}
use oxen_db.BufferPool.Consistent.Operations.{IsSound}
use oxen_db.BufferPool.Consistent.Writes.{flush_cached-IsSound}
use oxen_db.BufferPool.Coherent.{Keeps, Keeps-same}
use oxen_db.BufferPool.Coherent.Flush.{flush_cached-Keeps}
use oxen_db.BufferPool.Pool.{
  BufferPool, shard_index, no_shard, on_shard, on_disk, flush_shards, flush_all,
}
use oxen_db.BufferPool.Pool.Coherent.{shard_at, IsPoolCoherent, PoolKeepsBut, get_or_default}
use oxen_db.BufferPool.Pool.Calls.{Nothing, whole_shard}

module _ ⦃c : Checksum⦄ where
  pub disk_lifted :
      (p : BufferPool) (w : Result (Unit {0}) × DiskManager) (R : BufferPool → Type 0)
      → After w (λ _. SameDisk p.disk) (SameDisk p.disk)
      → ((e : DiskManager) → SameDisk p.disk e → R (record p { disk = e }))
      → After (w.0, record p { disk = w.1 }) (λ _. R) R
  disk_lifted p (ok u, e) R h f = f e h
  disk_lifted p (err x, e) R h f = f e h

  module _ (n : ℕ) (index : (id : PageId) → shard_index id n < n) (held : ℕ → List PageHandle) where
    pub PoolKeepsBut-trans :
        {p q r : BufferPool}
        → PoolKeepsBut held Nothing n p q
        → PoolKeepsBut held Nothing n q r
        → PoolKeepsBut held Nothing n p r
    PoolKeepsBut-trans a b = record {
      coherent = b.coherent;
      count = b.count ∙ a.count;
      holds = λ id page x h. b.holds id page x (a.holds id page x h);
    }

    pub flush_shard-PoolKeepsBut :
        (i : ℕ) (p : BufferPool)
        → i < n
        → IsPoolCoherent held n p
        → After
            (on_shard i ShardOps.flush_cached p)
            (λ _. PoolKeepsBut held Nothing n p)
            (PoolKeepsBut held Nothing n p)
    flush_shard-PoolKeepsBut i p inside v =
        let sound = v.sound i inside in
        whole_shard n index held p i ShardOps.flush_cached v inside
          (flush_cached-IsSound (held i) (shard_at p i) sound)
          (flush_cached-Keeps (held i) (shard_at p i) sound (v.coherent i inside))

    flush_shards-PoolKeepsBut :
        (k i : ℕ) (p : BufferPool)
        → i + k ≤ n
        → IsPoolCoherent held n p
        → After
            (flush_shards i k p)
            (λ _. PoolKeepsBut held Nothing n p)
            (PoolKeepsBut held Nothing n p)
    unfolding flush_shards
    flush_shards-PoolKeepsBut zero i p h v = record {
      coherent = v;
      count = refl;
      holds = λ id page _ was. was;
    }
    flush_shards-PoolKeepsBut (suc k) i p h v =
        After-and_then (on_shard i ShardOps.flush_cached p) _ _ _ _
          (flush_shard-PoolKeepsBut i p (omega arith) v)
          (λ _ q a.
            After-map (flush_shards (i + 1) k q) _ _ _ _
              (flush_shards-PoolKeepsBut k (i + 1) q (omega arith) a.coherent)
              (λ _ r b. PoolKeepsBut-trans a b) (λ r b. PoolKeepsBut-trans a b))

    synced :
        (p : BufferPool) (e : DiskManager)
        → IsPoolCoherent held n p
        → SameDisk p.disk e
        → PoolKeepsBut held Nothing n p (record p { disk = e })
    synced p e v same =
        let spot : (j : ℕ)
            → j < n
            → shard_at (record p { disk = e }) j ≡ record (shard_at p j) { disk = e } =
          λ j small.
            ap {A = Shard} {B = Shard} (λ s. record s { disk = e })
              (get_or_default p.shards j (no_shard e) (no_shard p.disk) (rw v.size small)) in
        let step : (j : ℕ) (small : j < n)
            → Keeps (shard_at p j) (shard_at (record p { disk = e }) j) =
          λ j small. subst (Keeps (shard_at p j)) (sym (spot j small)) (
            Keeps-same (shard_at p j) (record (shard_at p j) { disk = e }) (v.coherent j small) refl
              refl refl same) in
        record {
          coherent = record {
            size = v.size;
            sound = λ j small. subst (IsSound (held j)) (sym (spot j small)) (v.sound j small);
            coherent = λ j small. (step j small).coherent;
            own = λ j id small away. (step j small).fresh id (v.own j id small away);
          };
          count = same.same_count;
          holds = λ id page _ was. (step (shard_index id n) (index id)).holds id page was;
        }

    pub flush_all-PoolKeepsBut :
        (p : BufferPool)
        → IsPoolCoherent held n p
        → After (flush_all p) (λ _. PoolKeepsBut held Nothing n p) (PoolKeepsBut held Nothing n p)
    unfolding flush_all on_disk
    flush_all-PoolKeepsBut p v = rw v.size (
        After-and_then (flush_shards 0 n p) _ _ _ _
          (flush_shards-PoolKeepsBut n 0 p (omega arith) v)
          (λ _ q a.
            disk_lifted q (Disk.sync_disk q.disk) _ (sync_disk-SameDisk q.disk)
              (λ e same. PoolKeepsBut-trans a (synced q e a.coherent same))))
