-- ===== src/Tests/Cache.antt =====
-- The theorems on the page cache at concrete inputs.
use oxen_db.Prelude.{
  true, ◌≢◌, ℕ, ◌<◌, ◌≡◌, ◌⊎◌, ◌*◌, ◌^◌, ◌≤◌, refl, none, some, Option, List, [], ◌∷◌, length, take,
  get_or, set, replicate, write_le, read_le, splice, overwrite, to_le_bytes, from_le_bytes, drop,
  ok, arith,
}
use oxen_db.Prelude.Op.{After}
use oxen_db.Checksum.Hw.Laws.{crc32c_checksum}
use mathlib.Core.Path.{subst}
use oxen_db.File.{done, fail, write_at}
use oxen_db.Page.{Page, PageId, IsPage, seal, new, set_lsn, heap, zeroed, page_id}
use oxen_db.Disk.{DiskManager, write_page}
use oxen_db.Disk.Stored.{Stored, Stored-write_at}
use oxen_db.Disk.Outcomes.{IsReady, IsReady-seal, Overwrites, write_page-Overwrites}
use oxen_db.BTreeMap.{get}
use oxen_db.BufferPool.{
  Shard, new_shard, new_state, ascending, on_state, set_frame, touch, pin, map_page, table_insert,
  remove, acquire_frame, acquire_from, install_cached, install_page, flush_cached, find_victim,
  sweep, tick, shard_count_for,
}
use oxen_db.BufferPool.Consistent.{FitsU32, nil-FitsU32, pins_on}
use oxen_db.BufferPool.Consistent.Operations.{IsSound}
use oxen_db.BufferPool.Consistent.Writes.{install_page-IsSound}
use oxen_db.BufferPool.Table.{occurrences}
use oxen_db.BufferPool.Coherent.{frame_at, IsCoherent, Keeps}
use oxen_db.BufferPool.Coherent.Replaced.{Replaces}
use oxen_db.BufferPool.Coherent.Install.{install_page-Replaces}
use oxen_db.BufferPool.Coherent.Flush.{flush_cached-Stored}
use oxen_db.BufferPool.Guards
use oxen_db.BufferPool.Guards.{write, assign, assign-write-Replaces}
use oxen_db.BufferPool.Coherent.Evict.{Keeps-on_state}
use oxen_db.BufferPool.Hasher.{finish, write_u64, finish-write_u64-distinct}
use oxen_db.BufferPool.Interleaving.{
  Reach-IsSound, IsBounded, World, Reach, initially, next, handle, install_uncached, install_pin,
  Reach-pinned, Reach-frames,
}
use oxen_db.BufferPool.Pool as Pool
use oxen_db.BufferPool.Pool.{BufferPool}
use oxen_db.BufferPool.Pool.Start.{new_shard-IsCoherent, new_shard-IsSound}
use oxen_db.BufferPool.Pool.ShardCount.{shard_count_for-largest}
use oxen_db.Db.Txn.Cache.{
  Call, do_read, do_install, do_flush_all, IsFaithful, expect, new-IsFaithful,
}

-- A disk of nine pages whose second call fails.
abbrev flaky_disk : DiskManager
flaky_disk = record {
  file = record { contents = []; synced = []; fates = fail 100 ∷ [] };
  page_count = 9;
}

abbrev pub first_page : Page
first_page = seal (new 1 heap)

new-IsPage_first : IsPage (new 1 heap)
unfolding new zeroed write_le splice overwrite to_le_bytes replicate take drop
new-IsPage_first = refl

first_page_id : page_id (new 1 heap) ≡ 1
unfolding page_id new zeroed write_le splice to_le_bytes replicate read_le from_le_bytes take drop
    overwrite
first_page_id = refl

first_page-IsReady : IsReady seal 9 1 first_page
first_page-IsReady =
    IsReady-seal 9 1 (new 1 heap) (omega arith) (omega arith) new-IsPage_first first_page_id

write_page-Overwrites_example :
    After
      (write_page 1 (flaky_disk, first_page))
      (λ _ t. (t.1 ≡ first_page) × Overwrites first_page 1 flaky_disk t.0)
      (λ t. (t.1 ≡ first_page) × ((n : ℕ) × Overwrites (take n first_page) 1 flaky_disk t.0))
write_page-Overwrites_example =
    write_page-Overwrites flaky_disk first_page 1 first_page-IsReady (omega arith)

shard_count_for-largest_example :
    (k : ℕ) × (shard_count_for 1000 ≡ 2 ^ k)
    × (shard_count_for 1000 ≤ 64)
    × ((shard_count_for 1000 ≡ 1) ⊎ (shard_count_for 1000 * 64 ≤ 1000))
    × ((shard_count_for 1000 ≡ 64) ⊎ (1000 < 2 * shard_count_for 1000 * 64))
shard_count_for-largest_example = shard_count_for-largest 1000

-- A shard of one frame, and after it cached a page.
abbrev empty_shard : Shard
empty_shard = new_shard flaky_disk 1

abbrev used_shard : Shard
used_shard = (install_page 1 first_page empty_shard).1

empty_shard_misses : get 1 empty_shard.state.page_table ≡ none
unfolding new_shard new_state get
empty_shard_misses = refl

used_shard_hits : get 1 used_shard.state.page_table ≡ some 0
unfolding new_shard new_state get install_page install_cached acquire_frame acquire_from on_state
    set_frame touch map_page table_insert remove ascending replicate
used_shard_hits = refl

abbrev used_world : World
used_world = record { shard = used_shard; held = [] }

abbrev used_world_reached : Reach flaky_disk 1 used_world
used_world_reached =
    next initially (install_uncached empty_shard [] 1 first_page empty_shard_misses)

-- Another thread installs the page again, and gave up the state lock.
abbrev busy_world : World
busy_world = record {
  shard = on_state (λ st. touch 0 (pin 0 st)) used_shard;
  held = handle 0 1 ∷ [];
}

abbrev busy_world_reached : Reach flaky_disk 1 busy_world
busy_world_reached = next used_world_reached (install_pin used_shard [] 1 0 used_shard_hits)

few_on_busy : FitsU32 busy_world.held
unfolding handle pins_on
few_on_busy f = ground arith

busy_world-IsBounded : IsBounded busy_world_reached
busy_world-IsBounded = ((tt, nil-FitsU32), few_on_busy)

Reach-pinned_example :
    (get 1 busy_world.shard.state.page_table ≡ some 0)
    × (get_or busy_world.shard.state.frame_pages 0 none ≡ some 1)
    × (get_or busy_world.shard.state.pin_counts 0 0 ≡ pins_on 0 busy_world.held)
    × (0 < get_or busy_world.shard.state.pin_counts 0 0)
unfolding handle
Reach-pinned_example =
    Reach-pinned (omega arith) busy_world_reached busy_world-IsBounded [] [] (handle 0 1) refl

one_frame : 0 < length busy_world.shard.state.frame_pages
unfolding new_shard new_state get install_page install_cached acquire_frame acquire_from on_state
    set_frame touch pin map_page table_insert remove ascending replicate set
one_frame = omega arith

Reach-frames_example :
    ((occurrences 0 busy_world.shard.state.free_frames ≡ 1)
      × (get_or busy_world.shard.state.frame_pages 0 none ≡ none)
      × (get_or busy_world.shard.state.pin_counts 0 0 ≡ 0))
    ⊎ ((id : PageId) × (get_or busy_world.shard.state.frame_pages 0 none ≡ some id)
        × (get id busy_world.shard.state.page_table ≡ some 0)
        × (occurrences 0 busy_world.shard.state.free_frames ≡ 0))
Reach-frames_example =
    Reach-frames (omega arith) busy_world_reached busy_world-IsBounded 0 one_frame

used_shard_full : used_shard.state.free_frames ≡ []
unfolding new_shard new_state get install_page install_cached acquire_frame acquire_from on_state
    set_frame touch map_page table_insert remove ascending replicate
used_shard_full = refl

used_shard_victim : (find_victim used_shard.state).0 ≡ some 0
unfolding new_shard new_state get install_page install_cached acquire_frame acquire_from on_state
    set_frame touch map_page table_insert remove ascending replicate set get_or find_victim sweep
    tick
used_shard_victim = refl

empty_shard-IsSound : IsSound [] empty_shard
empty_shard-IsSound = new_shard-IsSound flaky_disk 1 (omega arith)

empty_shard-IsCoherent : IsCoherent empty_shard
empty_shard-IsCoherent = new_shard-IsCoherent flaky_disk 1 (omega arith)

used_shard-IsSound : IsSound [] used_shard
unfolding new_shard new_state get install_page install_cached acquire_frame acquire_from ascending
used_shard-IsSound =
    install_page-IsSound [] empty_shard 1 first_page empty_shard-IsSound nil-FitsU32

used_shard-Replaces : Replaces 1 first_page empty_shard used_shard
unfolding new_shard new_state get install_page install_cached acquire_frame acquire_from ascending
used_shard-Replaces =
    install_page-Replaces [] nil-FitsU32 empty_shard 1 first_page empty_shard-IsSound
      empty_shard-IsCoherent first_page-IsReady

flush_cached-Stored_example :
    After
      (flush_cached used_shard)
      (λ _ t.
        Keeps used_shard t
        × ((id : PageId) (f : ℕ)
            → get id used_shard.state.page_table ≡ some f
            → Stored t.disk.file.contents id (frame_at used_shard f).page))
      (Keeps used_shard)
flush_cached-Stored_example =
    flush_cached-Stored [] used_shard used_shard-IsSound used_shard-Replaces.coherent

busy_world-IsCoherent : IsCoherent busy_world.shard
unfolding touch pin
busy_world-IsCoherent =
    (Keeps-on_state used_shard (λ st. touch 0 (pin 0 st)) used_shard-Replaces.coherent refl
      refl).coherent

used_shard_count : used_shard.disk.page_count ≡ 9
unfolding new_shard
used_shard_count = used_shard-Replaces.count

assign-write-Replaces_example :
    Replaces 1 first_page busy_world.shard
      (assign (handle 0 1) first_page (write (handle 0 1) busy_world.shard))
    × (Guards.read
          (handle 0 1)
          (assign (handle 0 1) first_page (write (handle 0 1) busy_world.shard))
        ≡ first_page)
    × ((frame_at (assign (handle 0 1) first_page (write (handle 0 1) busy_world.shard)) 0).dirty
        ≡ true)
unfolding handle on_state
assign-write-Replaces_example =
    assign-write-Replaces busy_world.held [] [] (handle 0 1) busy_world.shard first_page refl
      (Reach-IsSound (omega arith) busy_world_reached busy_world-IsBounded) busy_world-IsCoherent
      (rw used_shard_count first_page-IsReady)

three-ne-four : ◌≢◌ {A = ℕ} 3 4
three-ne-four same = absurd (omega (arith, same))

finish-write_u64-distinct_example : finish (write_u64 3) ≢ finish (write_u64 4)
finish-write_u64-distinct_example =
    finish-write_u64-distinct 3 4 (omega arith) (omega arith) three-ne-four

-- A disk that stores a page, whose third call fails.
abbrev pub stored_disk : DiskManager
stored_disk = record {
  file = record {
    contents = write_at (1 * 4096) first_page [];
    synced = [];
    fates = done ∷ done ∷ fail 100 ∷ [];
  };
  page_count = 9;
}

abbrev pub other_page : Page
other_page = seal (set_lsn 8 (new 1 heap))

pub set_lsn-new-IsPage : IsPage (set_lsn 8 (new 1 heap))
unfolding new zeroed set_lsn write_le splice overwrite to_le_bytes replicate take drop
set_lsn-new-IsPage = refl

pub other_page_id : page_id (set_lsn 8 (new 1 heap)) ≡ 1
unfolding page_id new zeroed set_lsn write_le splice to_le_bytes replicate read_le from_le_bytes
    take drop overwrite
other_page_id = refl

other_page-IsReady : IsReady seal 9 1 other_page
other_page-IsReady =
    IsReady-seal 9 1 (set_lsn 8 (new 1 heap)) (omega arith) (omega arith) set_lsn-new-IsPage
      other_page_id

abbrev pub stored_pages : PageId → Option Page
stored_pages = expect 1 first_page (λ _. none)

pub stored_pages_stored :
    (id : PageId) (page : Page)
    → stored_pages id ≡ some page
    → Stored stored_disk.file.contents id page
unfolding expect
stored_pages_stored id page e =
    let place : 1 ≡ id = ground (arith, e) in
    let same : first_page ≡ page = ground (arith, e) in
    subst (λ i. Stored stored_disk.file.contents i page) place
      (subst (Stored stored_disk.file.contents 1) same
        (Stored-write_at 1 first_page [] first_page-IsReady.shape))

-- The stored page is read, replaced, and read again around a checkpoint.
abbrev some_calls : List Call
some_calls = do_read 1 ∷ do_install 1 other_page ∷ do_read 1 ∷ do_flush_all ∷ do_read 1 ∷ []

abbrev pub two_frames : BufferPool
two_frames = record {
  disk = stored_disk;
  shards = Pool.new_shards stored_disk 2 (shard_count_for 2) 0 (shard_count_for 2);
}

two_frames_made : Pool.new stored_disk 2 ≡ ok two_frames
unfolding Pool.new
two_frames_made = refl

new-IsFaithful_example : IsFaithful some_calls two_frames stored_pages
new-IsFaithful_example =
    new-IsFaithful stored_disk 2 two_frames some_calls stored_pages (omega arith) (omega arith)
      two_frames_made (other_page-IsReady, tt) stored_pages_stored
