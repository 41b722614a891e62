-- ===== src/BufferPool.antt =====
-- crates/oxendb/src/storage/buffer_pool.rs: the page cache. Here an operation is one step, without the
-- mutex and the frame locks; Interleaving has the steps in which threads take turns. A pin count is a
-- u32, and a handle is the frame that it pins.
pub mod Clock
pub mod Table
pub mod Consistent
pub mod Coherent
pub mod Guards
pub mod Hasher
pub mod Interleaving
pub mod Pool
use oxen_db.Prelude.{
  ℕ, zero, suc, ◌+◌, ◌-◌, ◌*◌, ◌/◌, ◌%◌, ◌^◌, ◌<◌, Bool, true, false, not, Option, none, some, List,
  [], ◌∷◌, ◌++◌, map, length, get_or, set, replicate, ltb, leb, ◌==◌, if◌then◌else◌, Result, ok,
  err, Error, invalid_argument, resource_exhausted,
}
use oxen_db.Prelude.Op.{Op, and_then, pure, raise, lift, get, modify, ◌>>=◌, ◌>>◌}
use oxen_db.Checksum.{Checksum}
use oxen_db.Page.{Page, PageId, zeroed, page_id}
use oxen_db.Disk
use oxen_db.Disk.{DiskManager}
use oxen_db.BTreeMap

abbrev pub FrameId : Type 0
FrameId = ℕ

pub record Frame : Type 0 where
  pub page : Page
  pub dirty : Bool

abbrev pub no_frame : Frame
no_frame = record { page = []; dirty = false }

-- `PageTable`: the hash map is an association list.
abbrev pub PageTable : Type 0
PageTable = List (PageId × FrameId)

unfoldable pub remove : PageId → PageTable → PageTable
remove id [] = []
remove id ((k, f) ∷ t) = if k == id then remove id t else (k, f) ∷ remove id t

unfoldable pub table_insert : PageId → FrameId → PageTable → PageTable
table_insert id f t = (id, f) ∷ remove id t

pub record PoolState : Type 0 where
  pub page_table : PageTable
  pub frame_pages : List (Option PageId)
  pub pin_counts : List ℕ
  pub ref_bits : List Bool
  pub clock_hand : FrameId
  pub free_frames : List FrameId

-- A shard beside the disk that all shards share.
pub record Shard : Type 0 where
  pub disk : DiskManager
  pub frames : List Frame
  pub state : PoolState

pub record PageHandle : Type 0 where
  pub frame_id : FrameId
  pub page_id : PageId

abbrev pub target_shard_frames : ℕ
target_shard_frames = 64

abbrev pub max_shards : ℕ
max_shards = 64

-- `n.clamp(lo, hi)`
unfoldable pub clamp : ℕ → ℕ → ℕ → ℕ
clamp n lo hi = if ltb n lo then lo else if ltb hi n then hi else n

-- `ilog2` on fuel; `n` halves, so `n` rounds are enough.
unfoldable pub ilog2_from : ℕ → ℕ → ℕ
ilog2_from zero n = 0
ilog2_from (suc fuel) n = elim (ltb 1 n) [ true ↦ suc (ilog2_from fuel (n / 2)) | false ↦ 0 ]

unfoldable pub ilog2 : ℕ → ℕ
ilog2 n = ilog2_from n n

-- `1 << wanted.ilog2()`
unfoldable pub shard_count_for : ℕ → ℕ
shard_count_for capacity =
    let wanted = clamp (capacity / target_shard_frames) 1 max_shards in 2 ^ ilog2 wanted

-- `n` frame ids, ascending. The source keeps them reversed in a vector and pops from its end; the
-- list is popped from its head.
unfoldable pub ascending : ℕ → ℕ → List FrameId
ascending from zero = []
ascending from (suc n) = from ∷ ascending (suc from) n

unfoldable pub new_state : ℕ → PoolState
new_state capacity = record {
  page_table = [];
  frame_pages = replicate capacity none;
  pin_counts = replicate capacity 0;
  ref_bits = replicate capacity false;
  clock_hand = 0;
  free_frames = ascending 0 capacity;
}

unfoldable pub new_shard : DiskManager → ℕ → Shard
new_shard disk capacity = record {
  disk = disk;
  frames = replicate capacity (record { page = zeroed; dirty = false });
  state = new_state capacity;
}

-- One round of the CLOCK sweep: the victim, if this frame is one, and the state after it.
unfoldable pub tick : PoolState → Option FrameId × PoolState
tick s =
    let frame_id = s.clock_hand in
    let s' : PoolState = record s { clock_hand = (s.clock_hand + 1) % length s.frame_pages } in
    if ltb 0 (get_or s.pin_counts frame_id 0)
    then (none, s')
    else if get_or s.ref_bits frame_id false
    then (none, record s' { ref_bits = set s.ref_bits frame_id false })
    else (some frame_id, s')

-- The loop of `find_victim`, over the rounds that are left.
unfoldable pub sweep : ℕ → PoolState → Option FrameId × PoolState
sweep zero s = (none, s)
sweep (suc rounds) s = elim (tick s).0 [
  | some frame_id ↦ (some frame_id, (tick s).1)
  | none ↦ sweep rounds (tick s).1
]

unfoldable pub find_victim : PoolState → Option FrameId × PoolState
find_victim s = sweep (2 * length s.frame_pages) s

-- `state.pin_counts[frame_id] += 1`, a u32 that wraps around in a release build, and the reference
-- bit
unfoldable pub pin : FrameId → PoolState → PoolState
pin f s = record s { pin_counts = set s.pin_counts f ((get_or s.pin_counts f 0 + 1) % 2 ^ 32) }

unfoldable pub touch : FrameId → PoolState → PoolState
touch f s = record s { ref_bits = set s.ref_bits f true }

-- The frame `f` holds page `id` from now on.
unfoldable pub map_page : PageId → FrameId → PoolState → PoolState
map_page id f s = record s {
  page_table = table_insert id f s.page_table;
  frame_pages = set s.frame_pages f (some id);
}

unfoldable pub unmap_page : PageId → FrameId → PoolState → PoolState
unmap_page id f s = record s {
  page_table = remove id s.page_table;
  frame_pages = set s.frame_pages f none;
}

unfoldable pub on_state : (PoolState → PoolState) → Shard → Shard
on_state g s = record s { state = g s.state }

unfoldable pub set_frame : FrameId → Frame → Shard → Shard
set_frame f frame s = record s { frames = set s.frames f frame }

-- Dropping a handle: `pin_counts[frame_id] -= 1`, in which 0 wraps around in a release build.
unfoldable pub unpin : FrameId → Op Shard (Unit {0})
unpin f = modify (
    on_state (λ s. record s {
      pin_counts = set s.pin_counts f ((get_or s.pin_counts f 0 + (2 ^ 32 - 1)) % 2 ^ 32);
    }))

module _ ⦃c : Checksum⦄ where
  unfoldable pub read_disk : PageId → Op Shard Page
  read_disk id s = let (r, d) = Disk.read_page id s.disk in (r, record s { disk = d })

  -- `self.disk.write_page(id, &mut frame.page)`, on the page in the frame
  unfoldable pub write_frame_page : FrameId → PageId → Op Shard (Unit {0})
  write_frame_page f id s =
      let frame = get_or s.frames f no_frame in
      let (r, t) = Disk.write_page id (s.disk, frame.page) in
      (r, record s { disk = t.0; frames = set s.frames f (record frame { page = t.1 }) })

  unfoldable pub mark_clean : FrameId → Shard → Shard
  mark_clean f s = set_frame f (record (get_or s.frames f no_frame) { dirty = false }) s

  unfoldable pub write_back : FrameId → PageId → Op Shard (Unit {0})
  unfolding write_frame_page mark_clean
  write_back f id s =
      if (get_or s.frames f no_frame).dirty
      then (write_frame_page f id >>= λ _. modify (mark_clean f)) s
      else (ok tt, s)

  -- `Self::find_victim(state)`, and the errors of what follows it. A victim has a page: the source
  -- panics if it has none.
  unfoldable pub victim_page : Option FrameId → List (Option PageId) → Result (FrameId × PageId)
  victim_page none pages = err resource_exhausted
  victim_page (some f) pages = elim (get_or pages f none) [
    | none ↦ err resource_exhausted
    | some id ↦ ok (f, id)
  ]

  unfoldable pub evict : Op Shard FrameId
  unfolding victim_page
  evict = do
    before ← get
    let (found, after) = find_victim before.state
    modify (on_state (λ _. after))
    victim ← lift (victim_page found after.frame_pages)
    write_back victim.0 victim.1
    modify (on_state (unmap_page victim.1 victim.0))
    pure victim.0

  unfoldable pub acquire_from : List FrameId → Op Shard FrameId
  acquire_from [] = evict
  acquire_from (f ∷ rest) = do modify (on_state (λ s. record s { free_frames = rest })); pure f

  unfoldable pub acquire_frame : Op Shard FrameId
  unfolding acquire_from evict
  acquire_frame s = acquire_from s.state.free_frames s

  -- On an error of the disk the frame goes back to the free list.
  unfoldable pub free_on_error : FrameId → Result Page × Shard → Result Page × Shard
  free_on_error f (ok page, s) = (ok page, s)
  free_on_error f (err e, s) =
      (err e, on_state (λ p. record p { free_frames = f ∷ p.free_frames }) s)

  unfoldable pub read_or_free : FrameId → PageId → Op Shard Page
  unfolding read_disk free_on_error
  read_or_free f id s = free_on_error f (read_disk id s)

  unfoldable pub fetch_cached : Option FrameId → PageId → Op Shard PageHandle
  unfolding acquire_frame read_or_free
  fetch_cached (some f) id = do
    modify (on_state (λ s. touch f (pin f s)))
    pure (record { frame_id = f; page_id = id })
  fetch_cached none id = do
    f ← acquire_frame
    page ← read_or_free f id
    modify (set_frame f (record { page = page; dirty = false }))
    modify
        (on_state (λ s. touch f (record (map_page id f s) { pin_counts = set s.pin_counts f 1 })))
    pure (record { frame_id = f; page_id = id })

  unfoldable pub fetch_page : PageId → Op Shard PageHandle
  unfolding fetch_cached
  fetch_page id s = fetch_cached (BTreeMap.get id s.state.page_table) id s

  unfoldable pub install_cached : Option FrameId → PageId → Page → Op Shard (Unit {0})
  unfolding acquire_frame
  install_cached (some f) id page = do
    modify (on_state (λ s. touch f (pin f s)))
    modify (set_frame f (record { page = page; dirty = true }))
    unpin f
  install_cached none id page = do
    f ← acquire_frame
    modify (set_frame f (record { page = page; dirty = true }))
    modify (on_state (λ s. touch f (map_page id f s)))

  unfoldable pub install_page : PageId → Page → Op Shard (Unit {0})
  unfolding install_cached
  install_page id page s = install_cached (BTreeMap.get id s.state.page_table) id page s

  -- The handle is dropped whether the write succeeds or not.
  unfoldable pub finally_unpin : FrameId → Result (Unit {0}) × Shard → Result (Unit {0}) × Shard
  finally_unpin f (r, s) = (r, (unpin f s).1)

  unfoldable pub flush_cached_page : Option FrameId → PageId → Op Shard (Unit {0})
  unfolding finally_unpin write_back
  flush_cached_page none id = pure tt
  flush_cached_page (some f) id = do
    modify (on_state (pin f))
    λ s. finally_unpin f (write_back f id s)

  unfoldable pub flush_page : PageId → Op Shard (Unit {0})
  unfolding flush_cached_page
  flush_page id s = flush_cached_page (BTreeMap.get id s.state.page_table) id s

  unfoldable pub flush_pages : List PageId → Op Shard (Unit {0})
  flush_pages [] = pure tt
  flush_pages (id ∷ ids) = do flush_page id; flush_pages ids

  -- Every dirty page of the shard, in the order in which the table is walked.
  unfoldable pub flush_cached : Op Shard (Unit {0})
  flush_cached s = flush_pages (map (λ e. e.0) s.state.page_table) s
