-- ===== src/BufferPool/Pool/Cleaned.antt =====
-- After a flush of the pool that succeeds, the disk stores every page that the pool holds.
use oxen_db.Prelude.{
  ℕ, zero, suc, ◌+◌, ◌≤◌, ◌<◌, ◌≡◌, inl, inr, refl, sym, ap, ◌∙◌, List, set, arith, get_or-set_ne,
}
use mathlib.Core.Path.{subst}
use native.Mathlib.Decide.{ℕ_discrete}
use oxen_db.Prelude.Op.{After, After-map, After-both, After-and_then}
use oxen_db.Checksum.{Checksum}
use oxen_db.Page.{Page, PageId}
use oxen_db.Disk
use oxen_db.Disk.{DiskManager}
use oxen_db.Disk.Stored.{Stored}
use oxen_db.Disk.Outcomes.{sync_disk-SameDisk}
use oxen_db.BufferPool as ShardOps
use oxen_db.BufferPool.{PageHandle, Shard}
use oxen_db.BufferPool.Coherent.Evict.{stored_if_clean}
use oxen_db.BufferPool.Coherent.Flush.{IsClean, flush_cached-IsClean}
use oxen_db.BufferPool.Pool.{
  BufferPool, shard_index, no_shard, on_shard, on_disk, flush_shards, flush_all,
}
use oxen_db.BufferPool.Pool.Coherent.{
  shard_at, shard_at-set, PoolHolds, IsPoolCoherent, PoolKeepsBut, get_or_default,
}
use oxen_db.BufferPool.Pool.Calls.{Nothing, lifted}
use native.Mathlib.Nat.{add-zero, zero-add}
use oxen_db.BufferPool.Pool.Flushing.{flush_shard-PoolKeepsBut, PoolKeepsBut-trans, disk_lifted}

module _ ⦃c : Checksum⦄ where
  -- No page that one of the first `i` shards caches is dirty.
  abbrev CleanBelow : ℕ → BufferPool → Type 0
  CleanBelow i p = (j : ℕ) → j < i → IsClean (shard_at p j)

  synced :
      (q : BufferPool)
      → After
          (on_disk Disk.sync_disk q)
          (λ _ r. r.disk.file.contents ≡ q.disk.file.contents)
          (λ _. Unit {0})
  unfolding on_disk
  synced q =
      After-map (on_disk Disk.sync_disk q) _ _ _ _
        (disk_lifted q (Disk.sync_disk q.disk) (λ r. r.disk.file.contents ≡ q.disk.file.contents)
          (sync_disk-SameDisk q.disk) (λ e same. same.same_contents))
        (λ _ r h. h) (λ r h. tt)

  module _ (n : ℕ) (held : ℕ → List PageHandle) where
    cleaned :
        (p : BufferPool) (i : ℕ) (t : Shard)
        → IsPoolCoherent held n p
        → i < n
        → CleanBelow i p
        → IsClean t
        → CleanBelow (i + 1) (record { disk = t.disk; shards = set p.shards i t })
    cleaned p i t v inside below clean j small =
        let q : BufferPool = record { disk = t.disk; shards = set p.shards i t } in
        elim (ℕ_discrete i j) [
          | yes same ↦
              subst (λ m. IsClean (shard_at q m)) same
                (subst IsClean (sym (shard_at-set p i t (rw v.size inside))) clean)
          | no ne ↦
              let spot : shard_at q j ≡ record (shard_at p j) { disk = t.disk } =
                ap {A = Shard} {B = Shard} (λ s. record s { disk = t.disk })
                  (get_or-set_ne p.shards i j t (no_shard t.disk) ne
                    ∙ get_or_default p.shards j (no_shard t.disk) (no_shard p.disk)
                        (omega (arith, v.size))) in
              subst IsClean (sym spot) (below j (omega arith))
        ]

    flush_shard-CleanBelow :
        (p : BufferPool) (i : ℕ)
        → IsPoolCoherent held n p
        → i < n
        → CleanBelow i p
        → After (on_shard i ShardOps.flush_cached p) (λ _. CleanBelow (i + 1)) (λ _. Unit {0})
    unfolding on_shard
    flush_shard-CleanBelow p i v inside below =
        lifted p i (ShardOps.flush_cached (shard_at p i)) _ _ _ _
          (flush_cached-IsClean (held i) (shard_at p i) (v.sound i inside) (v.coherent i inside))
          (λ _ t clean. cleaned p i t v inside below clean) (λ t h. tt)

    held_below :
        (p : BufferPool) (id : PageId) (page : Page)
        → IsPoolCoherent held n p
        → CleanBelow n p
        → shard_index id n < n
        → PoolHolds n p id page
        → Stored p.disk.file.contents id page
    held_below p id page v clean inside (inl (f, there, same)) =
        let i = shard_index id n in
        rw (← same) (
          stored_if_clean (shard_at p i) id f (v.coherent i inside) there
            (clean i inside id f there))
    held_below p id page v clean inside (inr (new, stored)) = stored

  module _ (n : ℕ) (index : (id : PageId) → shard_index id n < n) (held : ℕ → List PageHandle) where
    flush_shards-CleanBelow :
        (k i : ℕ) (p : BufferPool)
        → i + k ≤ n
        → IsPoolCoherent held n p
        → CleanBelow i p
        → After
            (flush_shards i k p)
            (λ _ q. PoolKeepsBut held Nothing n p q × CleanBelow (i + k) q)
            (λ _. Unit {0})
    unfolding flush_shards
    flush_shards-CleanBelow zero i p h v below =
        (record { coherent = v; count = refl; holds = λ id page _ was. was }, rw add-zero below)
    flush_shards-CleanBelow (suc k) i p h v below =
        let inside : i < n = omega arith in
        let more : i + 1 + k ≡ i + suc k = omega arith in
        After-and_then (on_shard i ShardOps.flush_cached p) _ _ _ _
          (After-map (on_shard i ShardOps.flush_cached p) _ _ _ _
            (After-both (on_shard i ShardOps.flush_cached p) _ _ _ _
              (flush_shard-PoolKeepsBut n index held i p inside v)
              (flush_shard-CleanBelow n held p i v inside below))
            (λ _ q a. a) (λ q a. tt))
          (λ _ q a.
            After-map (flush_shards (i + 1) k q) _ _ _ _
              (flush_shards-CleanBelow k (i + 1) q (omega arith) a.0.coherent a.1)
              (λ _ r b. (PoolKeepsBut-trans n index held a.0 b.0, rw (← more) b.1)) (λ r b. tt))

    -- What a flush that succeeds leaves on disk: every page that the pool held.
    pub flush_all-Stored :
        (p : BufferPool)
        → IsPoolCoherent held n p
        → After
            (flush_all p)
            (λ _ q.
              (id : PageId) (page : Page)
              → PoolHolds n p id page
              → Stored q.disk.file.contents id page)
            (λ _. Unit {0})
    unfolding flush_all on_disk
    flush_all-Stored p v = rw v.size (
        After-and_then (flush_shards 0 n p) _ _ _ _
          (flush_shards-CleanBelow n 0 p (omega arith) v (λ j small. absurd (omega arith)))
          (λ _ q a.
            After-map (on_disk Disk.sync_disk q) _ _ _ _ (synced q)
              (λ _ r same id page h. rw same (
                held_below n held q id page a.0.coherent (rw zero-add at a.1) (index id)
                  (a.0.holds id page (λ x. x) h)))
              (λ r h. tt)))
