-- ===== src/BufferPool/Pool/Sizes.antt =====
-- How the pool spreads its frames over the shards, and its pages over the shards.
use oxen_db.Prelude.{
  ℕ, zero, suc, ◌+◌, ◌-◌, ◌*◌, ◌/◌, ◌%◌, ◌^◌, ◌<◌, ◌≡◌, refl, ap, length, length-replicate, ok,
  arith,
}
use native.Mathlib.Nat.{div-add-mod, mod-lt, one-le-pow}
use oxen_db.Prelude.Bits.{and_mask}
use oxen_db.Page.{PageId}
use oxen_db.Disk.{DiskManager}
use oxen_db.BufferPool.{new_shard, shard_count_for, ilog2, clamp, target_shard_frames, max_shards}
use oxen_db.BufferPool.Pool.{
  BufferPool, frames_of, new_shards, new, total_frames, capacity, shard_index,
}

pub length-new_shards :
    (disk : DiskManager) (total count i n : ℕ) → length (new_shards disk total count i n) ≡ n
unfolding new_shards
length-new_shards disk total count i zero = refl
length-new_shards disk total count i (suc n) = ap suc (length-new_shards disk total count (i + 1) n)

length_frames : (disk : DiskManager) (n : ℕ) → length (new_shard disk n).frames ≡ n
unfolding new_shard
length_frames disk n = length-replicate n _

-- The shards from `i` on take the quotient each, and the remainder one frame at a time.
total_frames-new_shards :
    (disk : DiskManager) (total count i n : ℕ)
    → total_frames (new_shards disk total count i n)
      ≡ n * (total / count) + ((total % count - i) - (total % count - (i + n)))
unfolding new_shards total_frames frames_of
total_frames-new_shards disk total count i zero = omega arith
total_frames-new_shards disk total count i (suc n) = ground (
  arith,
  length_frames disk (frames_of total count i),
  total_frames-new_shards disk total count (i + 1) n,
)

all_frames :
    (disk : DiskManager) (total count : ℕ)
    → 0 < count
    → total_frames (new_shards disk total count 0 count) ≡ total
all_frames disk total count h = omega (
  arith,
  total_frames-new_shards disk total count 0 count,
  div-add-mod total count,
  mod-lt total h,
)

pub shard_index-lt : (id : PageId) (k : ℕ) → shard_index id (2 ^ k) < 2 ^ k
unfolding shard_index
shard_index-lt id k =
    let hash = (id * 0x9E37_79B9_7F4A_7C15) % 2 ^ 64 / 2 ^ 32 in
    rw (and_mask k hash) (mod-lt hash (one-le-pow k 2 (omega arith)))

-- A pool of a positive size is made, has as many frames as were asked for, and has a shard for
-- every page.
pub new-capacity :
    (disk : DiskManager) (total : ℕ)
    → 0 < total
    → (p : BufferPool) × (new disk total ≡ ok p)
      × (capacity p ≡ total)
      × ((id : PageId) → shard_index id (length p.shards) < length p.shards)
unfolding new capacity shard_count_for
new-capacity disk total h =
    let k = ilog2 (clamp (total / target_shard_frames) 1 max_shards) in
    let count = shard_count_for total in
    let p : BufferPool = record { disk = disk; shards = new_shards disk total count 0 count } in
    let fits : length p.shards ≡ 2 ^ k = length-new_shards disk total count 0 count in
    (
      p,
      ground arith,
      all_frames disk total count (one-le-pow k 2 (omega arith)),
      λ id. rw fits (shard_index-lt id k),
    )
