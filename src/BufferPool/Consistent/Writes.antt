-- ===== src/BufferPool/Consistent/Writes.antt =====
-- Installing, flushing and dropping handles keep a shard's bookkeeping in order.
use oxen_db.Prelude.{◌≡◌, refl, Option, none, some, List, [], ◌∷◌, ◌++◌, Result, ok, err}
use oxen_db.Prelude.Op.{After, After-and_then}
use oxen_db.Checksum.{Checksum}
use oxen_db.Page.{Page, PageId}
use oxen_db.BTreeMap.{get}
use oxen_db.BufferPool.{
  FrameId, PageHandle, Shard, on_state, set_frame, pin, unpin, write_back, acquire_frame,
  install_cached, install_page, finally_unpin, flush_cached_page, flush_page, flush_pages,
  flush_cached,
}
use oxen_db.BufferPool.Consistent.{FitsU32, map_page-IsConsistent}
use oxen_db.BufferPool.Consistent.Pins.{touch-IsConsistent, pin_as-IsConsistent, unpin-IsConsistent}
use oxen_db.BufferPool.Consistent.Operations.{IsSound, acquire_frame-HasTaken, write_back-state}

-- Dropping a handle that is out.
pub unpin-IsSound :
    (as' bs : List PageHandle) (h : PageHandle) (s : Shard)
    → IsSound (as' ++ (h ∷ bs)) s
    → IsSound (as' ++ bs) (unpin h.frame_id s).1
unfolding unpin on_state
unpin-IsSound as' bs h s v = unpin-IsConsistent as' bs h s.state v

module _ ⦃c : Checksum⦄ (held : List PageHandle) where
  install_cached-IsSound :
      (cached : Option FrameId) (s : Shard) (id : PageId) (page : Page)
      → IsSound held s
      → FitsU32 held
      → get id s.state.page_table ≡ cached
      → After (install_cached cached id page s) (λ _. IsSound held) (IsSound held)
  unfolding install_cached on_state set_frame pin unpin
  install_cached-IsSound (some f) s id page v fits e =
      unpin-IsConsistent [] held (record { frame_id = f; page_id = id }) _
        (touch-IsConsistent _ [] _ f
          (pin_as-IsConsistent held [] s.state f id _ (v.mapped id f e) refl v))
  install_cached-IsSound none s id page v fits e =
      After-and_then (acquire_frame s) _ _ _ _ (acquire_frame-HasTaken held s v fits) (λ f t taken.
        touch-IsConsistent held [] _ f
          (map_page-IsConsistent held t.state f id taken.state_taken (taken.uncached id e)))

  pub install_page-IsSound :
      (s : Shard) (id : PageId) (page : Page)
      → IsSound held s
      → FitsU32 held
      → After (install_page id page s) (λ _. IsSound held) (IsSound held)
  unfolding install_page
  install_page-IsSound s id page v fits =
      install_cached-IsSound (get id s.state.page_table) s id page v fits refl

  finally_unpin-IsSound :
      (h : PageHandle) (m : Result (Unit {0}) × Shard)
      → IsSound (h ∷ held) m.1
      → After (finally_unpin h.frame_id m) (λ _. IsSound held) (IsSound held)
  unfolding finally_unpin
  finally_unpin-IsSound h (ok u, s) v = unpin-IsSound [] held h s v
  finally_unpin-IsSound h (err e, s) v = unpin-IsSound [] held h s v

  flush_cached_page-IsSound :
      (cached : Option FrameId) (s : Shard) (id : PageId)
      → IsSound held s
      → get id s.state.page_table ≡ cached
      → After (flush_cached_page cached id s) (λ _. IsSound held) (IsSound held)
  unfolding flush_cached_page on_state pin
  flush_cached_page-IsSound none s id v e = v
  flush_cached_page-IsSound (some f) s id v e =
      let h : PageHandle = record { frame_id = f; page_id = id } in
      let pinned : Shard = on_state (pin f) s in
      let out = pin_as-IsConsistent held [] s.state f id _ (v.mapped id f e) refl v in
      finally_unpin-IsSound h (write_back f id pinned) (rw (write_back-state f id pinned) out)

  pub flush_page-IsSound :
      (s : Shard) (id : PageId)
      → IsSound held s
      → After (flush_page id s) (λ _. IsSound held) (IsSound held)
  unfolding flush_page
  flush_page-IsSound s id v = flush_cached_page-IsSound (get id s.state.page_table) s id v refl

  flush_pages-IsSound :
      (ids : List PageId) (s : Shard)
      → IsSound held s
      → After (flush_pages ids s) (λ _. IsSound held) (IsSound held)
  unfolding flush_pages
  flush_pages-IsSound [] s v = v
  flush_pages-IsSound (id ∷ ids) s v =
      After-and_then (flush_page id s) _ _ _ _ (flush_page-IsSound s id v)
        (λ _ t w. flush_pages-IsSound ids t w)

  pub flush_cached-IsSound :
      (s : Shard) → IsSound held s → After (flush_cached s) (λ _. IsSound held) (IsSound held)
  unfolding flush_cached
  flush_cached-IsSound s v = flush_pages-IsSound _ s v
