-- ===== src/BufferPool/Coherent/Install.antt =====
-- Installing a page replaces the page with its id, and no other.
use oxen_db.Prelude.{
  ◌≡◌, inl, refl, true, Option, none, some, List, arith, length-set, if◌then◌else◌, ◌==◌,
}
use native.Mathlib.Decide.{ℕ_discrete}
use oxen_db.Prelude.Op.{After, After-map, After-both, After-and_then}
use oxen_db.Checksum.{Checksum}
use oxen_db.Page.{Page, PageId, seal}
use oxen_db.Disk.Outcomes.{IsReady}
use oxen_db.BTreeMap.{get}
use oxen_db.BufferPool.{
  FrameId, PageHandle, Shard, on_state, set_frame, map_page, touch, pin, unpin, acquire_frame,
  install_cached, install_page,
}
use oxen_db.BufferPool.Table.{get-table_insert, occupied}
use oxen_db.BufferPool.Consistent.{taken_frame}
use oxen_db.BufferPool.Consistent.{FitsU32}
use oxen_db.BufferPool.Consistent.Operations.{IsSound, acquire_frame-HasTaken}
use oxen_db.BufferPool.Coherent.{one_page, IsCoherent, Keeps}
use oxen_db.BufferPool.Coherent.Replaced.{Replaces, Replaces-after, Replaces-filled}
use oxen_db.BufferPool.Coherent.Evict.{acquire_frame-Keeps}
use oxen_db.BufferPool.Coherent.Fetch.{taken_alone}

module _ ⦃c : Checksum⦄ where
  -- The table of a shard in which the page is cached already.
  pub cached_table :
      (s : Shard) (id : PageId) (f : FrameId)
      → get id s.state.page_table ≡ some f
      → (j : PageId)
      → get j s.state.page_table ≡ (if id == j then some f else get j s.state.page_table)
  cached_table s id f e j = elim (ℕ_discrete id j) [
    | yes same ↦ ground (arith, e, same)
    | no ne ↦ ground (arith, ne)
  ]

  module _ (held : List PageHandle) (fits : FitsU32 held) where
    install_cached-Replaces :
        (cached : Option FrameId) (s : Shard) (id : PageId) (page : Page)
        → IsSound held s
        → IsCoherent s
        → IsReady seal s.disk.page_count id page
        → get id s.state.page_table ≡ cached
        → After (install_cached cached id page s) (λ _. Replaces id page s) (Keeps s)
    unfolding install_cached on_state set_frame touch pin unpin map_page
    install_cached-Replaces (some f) s id page sound v ready e =
        Replaces-filled s _ id f (record { page = page; dirty = true }) v
          (omega (arith, (occupied s.state.frame_pages f (sound.mapped id f e)).1, v.same_frames))
          (λ j g ne there same. ne (one_page s id j f sound.mapped e (rw same there))) refl
          (cached_table s id f e) refl refl (inl (refl, ready))
    install_cached-Replaces none s id page sound v ready e =
        After-and_then (acquire_frame s) _ _ _ _
          (After-map (acquire_frame s) _ _ _ _
            (After-both (acquire_frame s) _ _ _ _ (acquire_frame-HasTaken held s sound fits)
              (acquire_frame-Keeps held s sound v))
            (λ f t h. h) (λ t h. h.1))
          (λ f t h. Replaces-after s t _ id page h.1 (
            Replaces-filled t _ id f (record { page = page; dirty = true }) h.1.coherent
              (omega
                (arith, (taken_frame held t.state f h.0.state_taken).0, h.1.coherent.same_frames))
              (taken_alone held t id f h.0.state_taken) refl
              (λ j. get-table_insert id j f t.state.page_table)
              (length-set t.state.frame_pages f (some id)) refl (inl (refl, rw h.1.count ready))))

    pub install_page-Replaces :
        (s : Shard) (id : PageId) (page : Page)
        → IsSound held s
        → IsCoherent s
        → IsReady seal s.disk.page_count id page
        → After (install_page id page s) (λ _. Replaces id page s) (Keeps s)
    unfolding install_page
    install_page-Replaces s id page sound v ready =
        install_cached-Replaces (get id s.state.page_table) s id page sound v ready refl
