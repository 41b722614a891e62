-- ===== src/BufferPool/Pool.antt =====
-- The whole pool of crates/oxendb/src/storage/buffer_pool.rs: shards over one disk.
pub mod Sizes
pub mod Coherent
pub mod Calls
pub mod Flushing
pub mod Cleaned
pub mod DiskSteps
pub mod Start
pub mod ShardCount
use Prim.Native.Nat.{bit_and}
use oxen_db.Prelude.{
  ℕ, zero, suc, ◌+◌, ◌-◌, ◌*◌, ◌/◌, ◌%◌, ◌^◌, Bool, true, false, List, [], ◌∷◌, length, get_or, set,
  ltb, ◌==◌, if◌then◌else◌, Result, ok, err, Error, invalid_argument,
}
use oxen_db.Prelude.Op.{Op, and_then, pure, raise, lift, get, modify, ◌>>=◌, ◌>>◌}
use oxen_db.Checksum.{Checksum}
use oxen_db.Page.{Page, PageId, page_id}
use oxen_db.Disk
use oxen_db.Disk.{DiskManager}
use oxen_db.BufferPool as ShardOps
use oxen_db.BufferPool.{Shard, PageHandle, new_shard, shard_count_for}

pub record BufferPool : Type 0 where
  pub disk : DiskManager
  pub shards : List Shard

-- `capacity / shard_count + usize::from(i < capacity % shard_count)`
unfoldable pub frames_of : ℕ → ℕ → ℕ → ℕ
frames_of capacity shard_count i =
    capacity / shard_count + (if ltb i (capacity % shard_count) then 1 else 0)

unfoldable pub new_shards : DiskManager → ℕ → ℕ → ℕ → ℕ → List Shard
new_shards disk capacity shard_count i zero = []
new_shards disk capacity shard_count i (suc n) =
    new_shard disk (frames_of capacity shard_count i)
    ∷ new_shards disk capacity shard_count (i + 1) n

unfoldable pub new : DiskManager → ℕ → Result BufferPool
new disk capacity =
    if capacity == 0
    then err invalid_argument
    else ok (record {
      disk = disk;
      shards = new_shards disk capacity (shard_count_for capacity) 0 (shard_count_for capacity);
    })

unfoldable pub total_frames : List Shard → ℕ
total_frames [] = 0
total_frames (s ∷ ss) = length s.frames + total_frames ss

unfoldable pub capacity : BufferPool → ℕ
capacity p = total_frames p.shards

-- The index of `shard_for`: high bits of a multiplicative hash, masked.
unfoldable pub shard_index : PageId → ℕ → ℕ
shard_index id shard_count =
    bit_and ((id * 0x9E37_79B9_7F4A_7C15) % 2 ^ 64 / 2 ^ 32) (shard_count - 1)

abbrev pub no_shard : DiskManager → Shard
no_shard disk = new_shard disk 0

-- A method of the shard `i`, which sees the disk as the other shards left it.
unfoldable pub on_shard : {A : Type 0} → ℕ → Op Shard A → Op BufferPool A
on_shard i m p =
    let s : Shard = record (get_or p.shards i (no_shard p.disk)) { disk = p.disk } in
    let (r, s') = m s in (r, record p { disk = s'.disk; shards = set p.shards i s' })

unfoldable pub on_disk : {A : Type 0} → Op DiskManager A → Op BufferPool A
on_disk m p = let (r, d) = m p.disk in (r, record p { disk = d })

unfoldable pub on_page : {A : Type 0} → PageId → Op Shard A → Op BufferPool A
unfolding on_shard
on_page id m p = on_shard (shard_index id (length p.shards)) m p

module _ ⦃c : Checksum⦄ where
  unfoldable pub fetch_page : PageId → Op BufferPool PageHandle
  unfolding on_page
  fetch_page id = on_page id (ShardOps.fetch_page id)

  unfoldable pub install_page : PageId → Page → Op BufferPool (Unit {0})
  unfolding on_page
  install_page id page p =
      if page_id page == id
      then on_page id (ShardOps.install_page id page) p
      else (err invalid_argument, p)

  unfoldable pub flush_page : PageId → Op BufferPool (Unit {0})
  unfolding on_page
  flush_page id = on_page id (ShardOps.flush_page id)

  unfoldable pub flush_shards : ℕ → ℕ → Op BufferPool (Unit {0})
  unfolding on_shard
  flush_shards i zero = pure tt
  flush_shards i (suc n) = do on_shard i ShardOps.flush_cached; flush_shards (i + 1) n

  unfoldable pub flush_all : Op BufferPool (Unit {0})
  unfolding on_disk
  flush_all p = (flush_shards 0 (length p.shards) >>= λ _. on_disk Disk.sync_disk) p
