-- ===== src/BufferPool/Interleaving.antt =====
-- A shard that many threads use: one step for each critical section of its methods, in any order.
-- `install_page` and `flush_page` on a cached page pin it, give the state lock up, write under the
-- frame's lock, and drop their handle; other steps may come in between.
use oxen_db.Prelude.{
  ℕ, ◌<◌, ◌≡◌, refl, none, some, List, [], ◌∷◌, ◌++◌, length, ◌⊎◌, inl, inr, arith, get_or, Result,
  ok, err,
}
use oxen_db.Prelude.Op.{After}
use oxen_db.Checksum.{Checksum}
use oxen_db.Page.{Page, PageId}
use oxen_db.Disk.{DiskManager}
use oxen_db.BTreeMap.{get}
use oxen_db.BufferPool.{
  FrameId, Frame, PageHandle, Shard, new_shard, on_state, set_frame, touch, pin, unpin, write_back,
  fetch_page, install_page, find_victim,
}
use oxen_db.BufferPool.Consistent.{FitsU32, nil-FitsU32, pins_on, unpinned_of_vacant}
use oxen_db.BufferPool.Table.{occurrences, vacancy, vacancy-le-one, vacant, not_vacant}
use oxen_db.BufferPool.Consistent.Sweep.{victim-IsOccupied}
use native.Mathlib.Decide.{ℕ_discrete}
use oxen_db.BufferPool.Consistent.Pins.{
  touch-IsConsistent, pin_as-IsConsistent, new_state-IsConsistent, pinned_by_handle, All-middle,
}
use oxen_db.BufferPool.Consistent.Operations.{IsSound, fetch_page-IsSound, write_back-state}
use oxen_db.BufferPool.Consistent.Writes.{unpin-IsSound, install_page-IsSound}

-- The shard, and the handles that are out.
pub record World : Type 0 where
  pub shard : Shard
  pub held : List PageHandle

unfoldable pub with_handle : Result PageHandle → List PageHandle → List PageHandle
with_handle (ok h) held = h ∷ held
with_handle (err e) held = held

unfoldable pub handle : FrameId → PageId → PageHandle
handle f id = record { frame_id = f; page_id = id }

module _ ⦃c : Checksum⦄ where
  pub data Step : World → World → Type 0 where
    -- `fetch_page`, under the state lock
    fetch :
        (s : Shard) (held : List PageHandle) (id : PageId)
        → Step
            (record { shard = s; held = held })
            (record { shard = (fetch_page id s).1; held = with_handle (fetch_page id s).0 held })
    -- `install_page` of a page that is not cached, under the state lock
    install_uncached :
        (s : Shard) (held : List PageHandle) (id : PageId) (page : Page)
        → get id s.state.page_table ≡ none
        → Step
            (record { shard = s; held = held })
            (record { shard = (install_page id page s).1; held = held })
    -- `install_page` of a cached page, up to where it gives the state lock up
    install_pin :
        (s : Shard) (held : List PageHandle) (id : PageId) (f : FrameId)
        → get id s.state.page_table ≡ some f
        → Step
            (record { shard = s; held = held })
            (record { shard = on_state (λ st. touch f (pin f st)) s; held = handle f id ∷ held })
    -- `flush_page`, up to where it gives the state lock up
    flush_pin :
        (s : Shard) (held : List PageHandle) (id : PageId) (f : FrameId)
        → get id s.state.page_table ≡ some f
        → Step
            (record { shard = s; held = held })
            (record { shard = on_state (pin f) s; held = handle f id ∷ held })
    -- The holder of a handle writes its frame: `install_page`, or a client's write guard.
    write_frame :
        (s : Shard) (as' bs : List PageHandle) (h : PageHandle) (frame : Frame)
        → Step
            (record { shard = s; held = as' ++ (h ∷ bs) })
            (record { shard = set_frame h.frame_id frame s; held = as' ++ (h ∷ bs) })
    -- The holder of a handle writes its frame to disk.
    flush_write :
        (s : Shard) (as' bs : List PageHandle) (h : PageHandle)
        → Step
            (record { shard = s; held = as' ++ (h ∷ bs) })
            (record { shard = (write_back h.frame_id h.page_id s).1; held = as' ++ (h ∷ bs) })
    -- A handle is dropped.
    drop_handle :
        (s : Shard) (as' bs : List PageHandle) (h : PageHandle)
        → Step
            (record { shard = s; held = as' ++ (h ∷ bs) })
            (record { shard = (unpin h.frame_id s).1; held = as' ++ bs })
    -- Another shard uses the disk.
    disk_changes :
        (s : Shard) (held : List PageHandle) (d : DiskManager)
        → Step
            (record { shard = s; held = held })
            (record { shard = record s { disk = d }; held = held })

  -- The worlds that a new shard of `n` frames comes to.
  pub data Reach (disk : DiskManager) (n : ℕ) : World → Type 0 where
    initially : Reach disk n (record { shard = new_shard disk n; held = [] })
    next : {v w : World} → Reach disk n v → Step v w → Reach disk n w

  -- On the way to a world, no frame ever had 2^32 handles.
  abbrev pub IsBounded : {disk : DiskManager} {n : ℕ} {w : World} → Reach disk n w → Type 0
  IsBounded initially = Unit {0}
  IsBounded (next {w = w} r step) = IsBounded r × FitsU32 w.held

  IsBounded-FitsU32 :
      {disk : DiskManager} {n : ℕ} {w : World} (r : Reach disk n w) → IsBounded r → FitsU32 w.held
  IsBounded-FitsU32 initially b = nil-FitsU32
  IsBounded-FitsU32 (next r step) b = b.1

  after_fetch :
      (held : List PageHandle) (m : Result PageHandle × Shard)
      → After m (λ h. IsSound (h ∷ held)) (IsSound held)
      → IsSound (with_handle m.0 held) m.1
  unfolding with_handle
  after_fetch held (ok h, s) v = v
  after_fetch held (err e, s) v = v

  after_either :
      (held : List PageHandle) (m : Result (Unit {0}) × Shard)
      → After m (λ _. IsSound held) (IsSound held)
      → IsSound held m.1
  after_either held (ok u, s) v = v
  after_either held (err e, s) v = v

  -- Every step keeps the bookkeeping in order.
  Step-IsSound :
      {v w : World} → Step v w → FitsU32 v.held → IsSound v.held v.shard → IsSound w.held w.shard
  unfolding on_state set_frame pin handle
  Step-IsSound (fetch s held id) fits v = after_fetch held _ (fetch_page-IsSound held s id v fits)
  Step-IsSound (install_uncached s held id page e) fits v =
      after_either held _ (install_page-IsSound held s id page v fits)
  Step-IsSound (install_pin s held id f e) fits v =
      touch-IsConsistent _ [] _ f
        (pin_as-IsConsistent held [] s.state f id _ (v.mapped id f e) refl v)
  Step-IsSound (flush_pin s held id f e) fits v =
      pin_as-IsConsistent held [] s.state f id _ (v.mapped id f e) refl v
  Step-IsSound (write_frame s as' bs h frame) fits v = v
  Step-IsSound (flush_write s as' bs h) fits v = rw (write_back-state h.frame_id h.page_id s) v
  Step-IsSound (drop_handle s as' bs h) fits v = unpin-IsSound as' bs h s v
  Step-IsSound (disk_changes s held d) fits v = v

  pub Reach-IsSound :
      {disk : DiskManager} {n : ℕ} {w : World}
      → 0 < n
      → (r : Reach disk n w) → IsBounded r
      → IsSound w.held w.shard
  unfolding new_shard
  Reach-IsSound {n = n} positive initially b = new_state-IsConsistent n positive
  Reach-IsSound positive (next r step) b =
      Step-IsSound step (IsBounded-FitsU32 r b.0) (Reach-IsSound positive r b.0)

  module _ {disk : DiskManager} {n : ℕ} {w : World} (positive : 0 < n) (r : Reach disk n w)
      (bounded : IsBounded r) where
    -- However the threads are interleaved on a new shard of at least one frame, while no frame has
    -- 2^32 handles at once, the page of a handle that is out stays in the handle's frame, which the page table finds, and the frame's pins are as
    -- many as the handles on it, at least one.
    pub Reach-pinned :
        (as' bs : List PageHandle) (h : PageHandle)
        → w.held ≡ as' ++ (h ∷ bs)
        → (get h.page_id w.shard.state.page_table ≡ some h.frame_id)
          × (get_or w.shard.state.frame_pages h.frame_id none ≡ some h.page_id)
          × (get_or w.shard.state.pin_counts h.frame_id 0 ≡ pins_on h.frame_id w.held)
          × (0 < get_or w.shard.state.pin_counts h.frame_id 0)
    Reach-pinned as' bs h e =
        let v = Reach-IsSound positive r bounded in
        let fits : FitsU32 w.held = IsBounded-FitsU32 r bounded in
        let u : IsSound (as' ++ (h ∷ bs)) w.shard = rw e at v in
        let page = (All-middle _ as' bs h u.pages).0 in
        (
          v.indexed h.page_id h.frame_id page,
          page,
          omega (arith, v.pins h.frame_id, fits h.frame_id),
          pinned_by_handle as' bs h w.shard.state u (rw e at fits),
        )

    -- However the threads are interleaved on a new shard of at least one frame, while no frame has
    -- 2^32 handles at once, a frame of the shard
    -- either is free, once, and has no page and no pin, or has a page that the table maps to this
    -- frame, and is not free.
    pub Reach-frames :
        (f : FrameId)
        → f < length w.shard.state.frame_pages
        → ((occurrences f w.shard.state.free_frames ≡ 1)
            × (get_or w.shard.state.frame_pages f none ≡ none)
            × (get_or w.shard.state.pin_counts f 0 ≡ 0))
          ⊎ ((id : PageId) × (get_or w.shard.state.frame_pages f none ≡ some id)
              × (get id w.shard.state.page_table ≡ some f)
              × (occurrences f w.shard.state.free_frames ≡ 0))
    unfolding occurrences
    Reach-frames f inside =
        let v = Reach-IsSound positive r bounded in
        let pages = w.shard.state.frame_pages in
        elim (ℕ_discrete (vacancy pages f) 0) [
          | yes full ↦
              let holds = not_vacant pages f inside full in
              inr (holds.0, holds.1, v.indexed holds.0 f holds.1, omega (arith, v.free f))
          | no room ↦
              let one : vacancy pages f ≡ 1 = omega (arith, vacancy-le-one pages f) in
              let spot = vacant pages f one in
              inl (
                omega (arith, v.free f),
                spot.1,
                omega (arith, v.pins f, unpinned_of_vacant w.held pages f spot.1 v.pages),
              )
        ]

    -- However the threads are interleaved on a new shard of at least one frame, while no frame has
    -- 2^32 handles at once, when no frame is free
    -- and the sweep picks a victim, that frame holds a page and nobody pins it.
    pub Reach-victim :
        (f : FrameId)
        → w.shard.state.free_frames ≡ []
        → (find_victim w.shard.state).0 ≡ some f
        → (id : PageId) × (get_or (find_victim w.shard.state).1.frame_pages f none ≡ some id)
          × (get_or (find_victim w.shard.state).1.pin_counts f 0 ≡ 0)
    Reach-victim f full found =
        victim-IsOccupied w.held w.shard.state (Reach-IsSound positive r bounded) f full found
