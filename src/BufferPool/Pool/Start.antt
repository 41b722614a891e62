-- ===== src/BufferPool/Pool/Start.antt =====
-- A new pool: every shard has a frame, and the pages are those on disk.
use oxen_db.Prelude.{
  none, ℕ, zero, suc, ◌+◌, ◌*◌, ◌/◌, ◌^◌, ◌≤◌, ◌<◌, ◌≡◌, refl, sym, ap, ◌∙◌, inr, Bool-cases, inl,
  true, false, [], get_or, length-replicate, arith, ltb,
}
use mathlib.Core.Path.{subst}
use native.Mathlib.Nat.{one-le-pow, le-div_iff_mul-le}
use oxen_db.Checksum.{Checksum}
use oxen_db.Page.{Page, PageId, page_size}
use oxen_db.Disk.{DiskManager}
use oxen_db.Disk.Stored.{Stored}
use oxen_db.BTreeMap.{get}
use oxen_db.BufferPool.{
  Shard, new_state, new_shard, shard_count_for, ilog2_from, ilog2, clamp, target_shard_frames,
  max_shards,
}
use oxen_db.BufferPool.Consistent.Pins.{new_state-IsConsistent}
use oxen_db.BufferPool.Consistent.Operations.{IsSound}
use oxen_db.BufferPool.Coherent.{Holds, IsCoherent}
use oxen_db.BufferPool.Pool.{BufferPool, frames_of, new_shards, shard_index, no_shard}
use oxen_db.BufferPool.Pool.Sizes.{length-new_shards, shard_index-lt}
use oxen_db.BufferPool.Pool.Coherent.{shard_at, PoolHolds, IsPoolCoherent}

ilog2_halves :
    (fuel n : ℕ) → ltb 1 n ≡ true → ilog2_from (suc fuel) n ≡ suc (ilog2_from fuel (n / 2))
unfolding ilog2_from
ilog2_halves fuel n more = rw (ilog2_from, more) refl

ilog2_ends : (fuel n : ℕ) → ltb 1 n ≡ false → ilog2_from (suc fuel) n ≡ 0
unfolding ilog2_from
ilog2_ends fuel n one = rw (ilog2_from, one) refl

-- `2 ^ ilog2 n` is at most `n`.
pow_ilog2_from-le : (fuel n : ℕ) → 0 < n → 2 ^ ilog2_from fuel n ≤ n
unfolding ilog2_from
pow_ilog2_from-le zero n h = omega arith
pow_ilog2_from-le (suc fuel) n h = elim (Bool-cases (ltb 1 n)) [
  | inl more ↦
      let half : 0 < n / 2 = ground (arith, more) in
      rw (ilog2_halves fuel n more) (omega (arith, pow_ilog2_from-le fuel (n / 2) half))
  | inr one ↦ rw (ilog2_ends fuel n one) (omega arith)
]

-- `n` rounds are enough: twice `2 ^ ilog2 n` exceeds `n`.
lt-pow_ilog2_from : (fuel n : ℕ) → n ≤ fuel → n < 2 ^ suc (ilog2_from fuel n)
unfolding ilog2_from
lt-pow_ilog2_from zero n h = omega arith
lt-pow_ilog2_from (suc fuel) n h = elim (Bool-cases (ltb 1 n)) [
  | inl more ↦
      let less : n / 2 ≤ fuel = ground (arith, more) in
      rw (ilog2_halves fuel n more) (omega (arith, lt-pow_ilog2_from fuel (n / 2) less))
  | inr one ↦ rw (ilog2_ends fuel n one) (ground (arith, one))
]

-- For a positive number the loop on fuel ends with the logarithm, rounded down: the fuel is enough.
pub ilog2_lem : (n : ℕ) → 0 < n → (2 ^ ilog2 n ≤ n) × (n < 2 ^ suc (ilog2 n))
unfolding ilog2
ilog2_lem n h = (pow_ilog2_from-le n n h, lt-pow_ilog2_from n n (omega arith))

-- Whatever the capacity, each shard gets a frame.
pub shard_count_for-le : (capacity : ℕ) → 0 < capacity → shard_count_for capacity ≤ capacity
unfolding shard_count_for clamp ilog2
shard_count_for-le capacity h =
    let wanted = clamp (capacity / target_shard_frames) 1 max_shards in
    let positive : 0 < wanted = ground arith in
    let small : wanted ≤ capacity = ground arith in
    omega (arith, pow_ilog2_from-le wanted wanted positive)

shard_count_for-positive : (capacity : ℕ) → 0 < shard_count_for capacity
unfolding shard_count_for
shard_count_for-positive capacity =
    one-le-pow (ilog2 (clamp (capacity / target_shard_frames) 1 max_shards)) 2 (omega arith)

frames_of-positive :
    (capacity i : ℕ) → 0 < capacity → 0 < frames_of capacity (shard_count_for capacity) i
unfolding frames_of
frames_of-positive capacity i h =
    let count = shard_count_for capacity in
    let some_frames : 0 < capacity / count =
      (le-div_iff_mul-le {k = count} {x = 1} {y = capacity} (shard_count_for-positive capacity)).1
        (omega (arith, shard_count_for-le capacity h)) in
    omega (arith, some_frames)

get_or-new_shards :
    (disk : DiskManager) (total count i n j : ℕ) (d : Shard)
    → j < n
    → get_or (new_shards disk total count i n) j d ≡ new_shard disk (frames_of total count (i + j))
unfolding new_shards get_or
get_or-new_shards disk total count i zero j d h = absurd (omega arith)
get_or-new_shards disk total count i (suc n) zero d h =
    ap (λ k. new_shard disk (frames_of total count k)) (omega arith)
get_or-new_shards disk total count i (suc n) (suc j) d h =
    get_or-new_shards disk total count (i + 1) n j d (omega arith)
    ∙ ap (λ k. new_shard disk (frames_of total count k)) (omega arith)

pub new_shard-IsSound : (disk : DiskManager) (n : ℕ) → 0 < n → IsSound [] (new_shard disk n)
unfolding new_shard
new_shard-IsSound disk n h = new_state-IsConsistent n h

empty_table :
    (disk : DiskManager) (n : ℕ) (id : PageId) → get id (new_shard disk n).state.page_table ≡ none
unfolding new_shard new_state get
empty_table disk n id = refl

new_shard-Holds :
    (disk : DiskManager) (n : ℕ) (id : PageId) (page : Page)
    → Stored disk.file.contents id page
    → Holds (new_shard disk n) id page
unfolding new_shard
new_shard-Holds disk n id page stored = inr (empty_table disk n id, stored)

start_shard :
    (disk : DiskManager) (total n i : ℕ)
    → i < n
    → shard_at (record { disk = disk; shards = new_shards disk total n 0 n }) i
      ≡ new_shard disk (frames_of total n i)
unfolding new_shard
start_shard disk total n i small =
    ap {A = Shard} {B = Shard} (λ s. record s { disk = disk })
      (get_or-new_shards disk total n 0 n i (no_shard disk) small)
    ∙ ap (λ k. new_shard disk (frames_of total n k)) (omega arith)

pub shard_index-lt-shard_count_for :
    (total : ℕ) (id : PageId) → shard_index id (shard_count_for total) < shard_count_for total
unfolding shard_count_for
shard_index-lt-shard_count_for total id =
    shard_index-lt id (ilog2 (clamp (total / target_shard_frames) 1 max_shards))

-- A new pool holds what the disk stores.
pub new-PoolHolds :
    (disk : DiskManager) (total : ℕ) (id : PageId) (page : Page)
    → Stored disk.file.contents id page
    → PoolHolds
        (shard_count_for total)
        (record {
          disk = disk;
          shards = new_shards disk total (shard_count_for total) 0 (shard_count_for total);
        })
        id
        page
new-PoolHolds disk total id page stored =
    let n = shard_count_for total in
    let i = shard_index id n in
    subst (λ s. Holds s id page)
      (sym (start_shard disk total n i (shard_index-lt-shard_count_for total id)))
      (new_shard-Holds disk (frames_of total n i) id page stored)

module _ ⦃c : Checksum⦄ where
  pub new_shard-IsCoherent :
      (disk : DiskManager) (n : ℕ)
      → disk.page_count * page_size < 2 ^ 64
      → IsCoherent (new_shard disk n)
  unfolding new_shard new_state get
  new_shard-IsCoherent disk n room = record {
    same_frames = length-replicate n _ ∙ sym (length-replicate n _);
    room = room;
    backed = λ id f e. absurd (ground (arith, e));
  }

  -- A new pool is in good order.
  pub new-IsPoolCoherent :
      (disk : DiskManager) (total : ℕ)
      → 0 < total
      → disk.page_count * page_size < 2 ^ 64
      → IsPoolCoherent
          (λ _. [])
          (shard_count_for total)
          (record {
            disk = disk;
            shards = new_shards disk total (shard_count_for total) 0 (shard_count_for total);
          })
  new-IsPoolCoherent disk total h room =
      let n = shard_count_for total in
      let p : BufferPool = record { disk = disk; shards = new_shards disk total n 0 n } in
      let spot : (i : ℕ) → i < n → shard_at p i ≡ new_shard disk (frames_of total n i) =
        start_shard disk total n in
      record {
        size = length-new_shards disk total n 0 n;
        sound = λ i small.
            subst (IsSound []) (sym (spot i small))
              (new_shard-IsSound disk (frames_of total n i) (frames_of-positive total i h));
        coherent = λ i small.
            subst IsCoherent (sym (spot i small))
              (new_shard-IsCoherent disk (frames_of total n i) room);
        own = λ i id small _.
            subst (λ s. get id s.state.page_table ≡ none) (sym (spot i small))
              (empty_table disk (frames_of total n i) id);
      }
