-- ===== src/BufferPool/Consistent/Operations.antt =====
-- Every operation of a shard keeps its bookkeeping in order, whether it succeeds or fails.
use oxen_db.Prelude.{
  ◌≡◌, refl, ap, ◌∙◌, Bool, true, false, Option, Option-cases, none, some, List, [], ◌∷◌, get_or,
  set, if◌then◌else◌, arith, get_or-set_self, inl, inr, Result, ok, err,
}
use oxen_db.Prelude.Op.{and_then, After, After-and_then, modify}
use oxen_db.Checksum.{Checksum}
use oxen_db.Page.{Page, PageId}
use oxen_db.BTreeMap.{get}
use oxen_db.BufferPool.{
  FrameId, PoolState, PageHandle, Shard, find_victim, victim_page, on_state, set_frame, unmap_page,
  map_page, touch, pin, read_disk, write_frame_page, mark_clean, write_back, evict, acquire_from,
  acquire_frame, free_on_error, read_or_free, fetch_cached, fetch_page,
}
use oxen_db.BufferPool.Table.{get-remove}
use oxen_db.BufferPool.Consistent.{
  IsConsistent, FitsU32, taken_frame, map_page-IsConsistent, unmap_page-IsConsistent,
}
use oxen_db.BufferPool.Consistent.Pins.{
  touch-IsConsistent, pin_as-IsConsistent, take_free-IsConsistent, give_back-IsConsistent,
}
use oxen_db.BufferPool.Consistent.Sweep.{
  IsSwept-IsConsistent, find_victim-IsSwept, victim-IsOccupied,
}

-- A shard in good order, while the handles `held` are out.
abbrev pub IsSound : List PageHandle → Shard → Type 0
IsSound held s = IsConsistent held [] s.state

-- A shard that has given the frame `f` to an operation, for a page that was not cached before.
pub record HasTaken (held : List PageHandle) (before : Shard) (f : FrameId) (s : Shard)
    : Type 0 where
  pub state_taken : IsConsistent held (f ∷ []) s.state
  pub uncached :
      (id : PageId) → get id before.state.page_table ≡ none → get id s.state.page_table ≡ none

module _ ⦃c : Checksum⦄ where
  cleaned_state :
      (m : Result (Unit {0}) × Shard) (f : FrameId)
      → (and_then m (λ _. modify (mark_clean f))).1.state ≡ m.1.state
  unfolding mark_clean set_frame
  cleaned_state (ok u, s) f = refl
  cleaned_state (err e, s) f = refl

  written_state :
      (f : FrameId) (id : PageId) (s : Shard) → (write_frame_page f id s).1.state ≡ s.state
  unfolding write_frame_page
  written_state f id s = refl

  if_state :
      (b : Bool) (m : Result (Unit {0}) × Shard) (s : Shard)
      → m.1.state ≡ s.state
      → (if b then m else (ok tt, s)).1.state ≡ s.state
  if_state true m s e = e
  if_state false m s e = refl

  -- Writing a page back touches frames and the disk alone.
  pub write_back-state :
      (f : FrameId) (id : PageId) (s : Shard) → (write_back f id s).1.state ≡ s.state
  unfolding write_back
  write_back-state f id s =
      if_state _ (and_then (write_frame_page f id s) (λ _. modify (mark_clean f))) s
        (cleaned_state (write_frame_page f id s) f ∙ written_state f id s)

  module _ (held : List PageHandle) where
    -- A step that leaves the bookkeeping alone.
    same_state :
        {A : Type 0} (m : Result A × Shard) (st : PoolState)
        → m.1.state ≡ st
        → IsConsistent held [] st
        → After m (λ _ t. t.state ≡ st) (IsSound held)
    same_state (ok a, t) st e v = e
    same_state (err x, t) st e v = rw e v

    unmapped :
        (before s : Shard) (f : FrameId) (id : PageId) (after : PoolState)
        → s.state ≡ after
        → after.page_table ≡ before.state.page_table
        → IsConsistent held [] after
        → FitsU32 held
        → get_or after.frame_pages f none ≡ some id
        → get_or after.pin_counts f 0 ≡ 0
        → HasTaken held before f (on_state (unmap_page id f) s)
    unfolding on_state unmap_page
    unmapped before s f id after e table v fits holds unpinned = record {
      state_taken = rw e (unmap_page-IsConsistent held after f id v fits holds unpinned);
      uncached =
          λ j new. rw e (ground (arith, get-remove id j after.page_table, ap (get j) table, new));
    }

    evict-HasTaken :
        (s : Shard)
        → IsSound held s
        → FitsU32 held
        → s.state.free_frames ≡ []
        → After (evict s) (HasTaken held s) (IsSound held)
    unfolding evict on_state find_victim
    evict-HasTaken s v fits full =
        let w = find_victim-IsSwept held s.state v in
        let after : PoolState = (find_victim s.state).1 in
        let va = IsSwept-IsConsistent held w v in
        elim (Option-cases (find_victim s.state).0) [
          | inl nobody ↦ rw (nobody, victim_page) va
          | inr found ↦
              let o = victim-IsOccupied held s.state v found.0 full found.1 in
              rw (found.1, victim_page, o.1)
                (After-and_then (write_back found.0 o.0 (on_state (λ _. after) s)) _ _ _ _
                  (same_state _ after (write_back-state found.0 o.0 (on_state (λ _. after) s)) va)
                  (λ _ t e. unmapped s t found.0 o.0 after e w.kept_table va fits o.1 o.2))
        ]

    taken_free :
        (s : Shard) (f : FrameId) (rest : List FrameId)
        → IsSound held s
        → s.state.free_frames ≡ f ∷ rest
        → HasTaken held s f (on_state (λ st. record st { free_frames = rest }) s)
    unfolding on_state
    taken_free s f rest v e = record {
      state_taken = take_free-IsConsistent held s.state f rest e v;
      uncached = λ id new. new;
    }

    acquire_from-HasTaken :
        (free : List FrameId) (s : Shard)
        → IsSound held s
        → FitsU32 held
        → s.state.free_frames ≡ free
        → After (acquire_from free s) (HasTaken held s) (IsSound held)
    unfolding acquire_from
    acquire_from-HasTaken [] s v fits e = evict-HasTaken s v fits e
    acquire_from-HasTaken (f ∷ rest) s v fits e = taken_free s f rest v e

    pub acquire_frame-HasTaken :
        (s : Shard)
        → IsSound held s
        → FitsU32 held
        → After (acquire_frame s) (HasTaken held s) (IsSound held)
    unfolding acquire_frame
    acquire_frame-HasTaken s v fits = acquire_from-HasTaken s.state.free_frames s v fits refl

    free_on_error-HasTaken :
        (before : Shard) (f : FrameId) (m : Result Page × Shard)
        → HasTaken held before f m.1
        → After (free_on_error f m) (λ _. HasTaken held before f) (IsSound held)
    unfolding free_on_error on_state
    free_on_error-HasTaken before f (ok page, s) v = v
    free_on_error-HasTaken before f (err e, s) v =
        give_back-IsConsistent held s.state f v.state_taken

    pub read_or_free-HasTaken :
        (before s : Shard) (f : FrameId) (id : PageId)
        → HasTaken held before f s
        → After (read_or_free f id s) (λ _. HasTaken held before f) (IsSound held)
    unfolding read_or_free read_disk
    read_or_free-HasTaken before s f id v =
        free_on_error-HasTaken before f (read_disk id s)
          (record { state_taken = v.state_taken; uncached = v.uncached })

    new_handle :
        (before s : Shard) (f : FrameId) (id : PageId)
        → get id before.state.page_table ≡ none
        → HasTaken held before f s
        → IsConsistent
            (record { frame_id = f; page_id = id } ∷ held)
            []
            (touch f (record (map_page id f s.state) { pin_counts = set s.state.pin_counts f 1 }))
    unfolding map_page
    new_handle before s f id new v =
        let spot = taken_frame held s.state f v.state_taken in
        let mapped = map_page-IsConsistent held s.state f id v.state_taken (v.uncached id new) in
        touch-IsConsistent _ [] _ f (
          pin_as-IsConsistent held [] (map_page id f s.state) f id 1
            (get_or-set_self s.state.frame_pages f (some id) none spot.0)
            (omega (arith, v.state_taken.pins f, spot.2)) mapped)

    fetch_cached-IsSound :
        (cached : Option FrameId) (s : Shard) (id : PageId)
        → IsSound held s
        → FitsU32 held
        → get id s.state.page_table ≡ cached
        → After (fetch_cached cached id s) (λ h. IsSound (h ∷ held)) (IsSound held)
    unfolding fetch_cached on_state set_frame pin
    fetch_cached-IsSound (some f) s id v fits e =
        touch-IsConsistent _ [] _ f
          (pin_as-IsConsistent held [] s.state f id _ (v.mapped id f e) refl v)
    fetch_cached-IsSound none s id v fits e =
        After-and_then (acquire_frame s) _ _ _ _ (acquire_frame-HasTaken s v fits) (λ f t taken.
          After-and_then (read_or_free f id t) _ _ _ _ (read_or_free-HasTaken s t f id taken)
            (λ page u still. new_handle s u f id e still))

    -- `fetch_page` keeps the bookkeeping in order while the pin counts fit; when it succeeds, its handle is out.
    pub fetch_page-IsSound :
        (s : Shard) (id : PageId)
        → IsSound held s
        → FitsU32 held
        → After (fetch_page id s) (λ h. IsSound (h ∷ held)) (IsSound held)
    unfolding fetch_page
    fetch_page-IsSound s id v fits =
        fetch_cached-IsSound (get id s.state.page_table) s id v fits refl
