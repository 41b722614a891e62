-- ===== src/BufferPool/Coherent/Evict.antt =====
-- Taking a frame, by eviction where none is free, loses no page.
use oxen_db.Prelude.{
  ◌<◌, ◌≡◌, inl, inr, refl, ap, false, Option-cases, some, List, [], ◌∷◌, length, arith, Result, ok,
  err,
}
use oxen_db.Prelude.Op.{After, After-map, After-both, After-and_then}
use oxen_db.Checksum.{Checksum}
use oxen_db.Page.{PageId}
use oxen_db.Disk.Stored.{Stored}
use oxen_db.BTreeMap.{get}
use oxen_db.BufferPool.{
  FrameId, PoolState, PageHandle, Shard, find_victim, victim_page, on_state, write_back, evict,
  acquire_from, acquire_frame,
}
use oxen_db.BufferPool.Table.{occupied}
use oxen_db.BufferPool.Consistent.Sweep.{
  IsSwept-IsConsistent, find_victim-IsSwept, victim-IsOccupied,
}
use oxen_db.BufferPool.Consistent.Operations.{IsSound, write_back-state}
use oxen_db.BufferPool.Coherent.{
  frame_at, IsCoherent, Keeps, Keeps-same, Keeps-trans, Keeps-unmap_page,
}
use oxen_db.BufferPool.Coherent.WriteBack.{write_back-Keeps}

pub state_after :
    {A : Type 0} (m : Result A × Shard) (st : PoolState)
    → m.1.state ≡ st
    → After m (λ _ t. t.state ≡ st) (λ t. t.state ≡ st)
state_after (ok a, t) st e = e
state_after (err x, t) st e = e

module _ ⦃c : Checksum⦄ where
  -- What a clean frame has is on disk.
  pub stored_if_clean :
      (s : Shard) (id : PageId) (f : FrameId)
      → IsCoherent s
      → get id s.state.page_table ≡ some f
      → (frame_at s f).dirty ≡ false
      → Stored s.disk.file.contents id (frame_at s f).page
  stored_if_clean s id f v cached clean = elim (v.backed id f cached) [
    | inl w ↦ absurd (ground (arith, w.0, clean))
    | inr w ↦ w.2
  ]

  -- A change of the bookkeeping that leaves the table alone.
  pub Keeps-on_state :
      (s : Shard) (g : PoolState → PoolState)
      → IsCoherent s
      → (g s.state).page_table ≡ s.state.page_table
      → length (g s.state).frame_pages ≡ length s.state.frame_pages
      → Keeps s (on_state g s)
  unfolding on_state
  Keeps-on_state s g v table pages =
      Keeps-same s (on_state g s) v refl table pages
        (record { same_contents = refl; same_count = refl })

  module _ (held : List PageHandle) where
    evict-Keeps :
        (s : Shard)
        → IsSound held s
        → IsCoherent s
        → s.state.free_frames ≡ []
        → After (evict s) (λ _. Keeps s) (Keeps s)
    unfolding evict on_state find_victim
    evict-Keeps s sound v full =
        let w = find_victim-IsSwept held s.state sound in
        let after : PoolState = (find_victim s.state).1 in
        let swept : Shard = on_state (λ _. after) s in
        let there = IsSwept-IsConsistent held w sound in
        let first : Keeps s swept =
          Keeps-on_state s (λ _. after) v w.kept_table (ap length w.kept_pages) in
        elim (Option-cases (find_victim s.state).0) [
          | inl nobody ↦ rw (nobody, victim_page) first
          | inr found ↦
              let o = victim-IsOccupied held s.state sound found.0 full found.1 in
              let cached = there.indexed o.0 found.0 o.1 in
              let inside : found.0 < length swept.frames =
                omega
                  (arith, (occupied after.frame_pages found.0 o.1).1, first.coherent.same_frames) in
              rw (found.1, victim_page, o.1)
                (After-and_then (write_back found.0 o.0 swept) _ _ _ _
                  (After-map (write_back found.0 o.0 swept) _ _ _ _
                    (After-both (write_back found.0 o.0 swept) _ _ _ _
                      (write_back-Keeps swept o.0 found.0 first.coherent there.mapped cached inside)
                      (state_after (write_back found.0 o.0 swept) after
                        (write_back-state found.0 o.0 swept)))
                    (λ _ t h. h) (λ t h. Keeps-trans first h.0))
                  (λ _ t h.
                    let table : get o.0 t.state.page_table ≡ some found.0 = rw h.1 cached in
                    Keeps-trans first (
                      Keeps-trans h.0.0 (
                        Keeps-unmap_page t o.0 found.0 h.0.0.coherent table
                          (stored_if_clean t o.0 found.0 h.0.0.coherent table h.0.1.cleaned)))))
        ]

    acquire_from-Keeps :
        (free : List FrameId) (s : Shard)
        → IsSound held s
        → IsCoherent s
        → s.state.free_frames ≡ free
        → After (acquire_from free s) (λ _. Keeps s) (Keeps s)
    unfolding acquire_from
    acquire_from-Keeps [] s sound v e = evict-Keeps s sound v e
    acquire_from-Keeps (f ∷ rest) s sound v e = Keeps-on_state s _ v refl refl

    -- Whether a frame is found or not, every page of the shard is kept.
    pub acquire_frame-Keeps :
        (s : Shard)
        → IsSound held s
        → IsCoherent s
        → After (acquire_frame s) (λ _. Keeps s) (Keeps s)
    unfolding acquire_frame
    acquire_frame-Keeps s sound v = acquire_from-Keeps s.state.free_frames s sound v refl
