-- ===== src/BufferPool/Guards.antt =====
-- The guards of a page handle: reading and writing the page in its frame.
use oxen_db.Prelude.{
  ◌<◌, ◌≡◌, refl, ap, ◌∙◌, inl, true, List, ◌∷◌, ◌++◌, length, set, set_again, get_or, arith,
  get_or-set_self,
}
use oxen_db.Checksum.{Checksum}
use oxen_db.Page.{Page, seal}
use oxen_db.Disk.Outcomes.{IsReady}
use oxen_db.BufferPool.{Frame, PageHandle, Shard, no_frame, set_frame}
use oxen_db.BufferPool.Table.{occupied}
use oxen_db.BufferPool.Consistent.Pins.{All-middle}
use oxen_db.BufferPool.Consistent.Operations.{IsSound}
use oxen_db.BufferPool.Coherent.{frame_at, one_page, IsCoherent}
use oxen_db.BufferPool.Coherent.Replaced.{Replaces, Replaces-filled}
use oxen_db.BufferPool.Coherent.Install.{cached_table}

-- `PageHandle::read`, and what its guard shows
unfoldable pub read : PageHandle → Shard → Page
read h s = (get_or s.frames h.frame_id no_frame).page

-- `PageHandle::write`: the frame is dirty from the moment the guard is taken.
unfoldable pub write : PageHandle → Shard → Shard
unfolding set_frame
write h s = set_frame h.frame_id (record (get_or s.frames h.frame_id no_frame) { dirty = true }) s

-- What the holder of the guard assigns through it
unfoldable pub assign : PageHandle → Page → Shard → Shard
unfolding set_frame
assign h page s =
    set_frame h.frame_id (record (get_or s.frames h.frame_id no_frame) { page = page }) s

module _ ⦃c : Checksum⦄ where
  -- A page that is assigned through the write guard of a handle that is out is the page that the
  -- shard holds from then on, the read guard shows it, the frame is dirty, and every other page is
  -- kept. The shard is in good order and coherent, and the page is sealed, has the handle's id and
  -- lies within the page count.
  pub assign-write-Replaces :
      (held as' bs : List PageHandle) (h : PageHandle) (s : Shard) (page : Page)
      → held ≡ as' ++ (h ∷ bs)
      → IsSound held s
      → IsCoherent s
      → IsReady seal s.disk.page_count h.page_id page
      → Replaces h.page_id page s (assign h page (write h s))
        × (read h (assign h page (write h s)) ≡ page)
        × ((frame_at (assign h page (write h s)) h.frame_id).dirty ≡ true)
  unfolding read write assign set_frame
  assign-write-Replaces held as' bs h s page e sound v ready =
      let f = h.frame_id in
      let sound' : IsSound (as' ++ (h ∷ bs)) s = rw e at sound in
      let here = (All-middle _ as' bs h sound'.pages).0 in
      let cached = sound.indexed h.page_id f here in
      let inside : f < length s.frames =
        omega (arith, (occupied s.state.frame_pages f here).1, v.same_frames) in
      let frame : Frame = record { page = page; dirty = true } in
      let once : get_or (write h s).frames f no_frame
          ≡ record (get_or s.frames f no_frame) { dirty = true } =
        get_or-set_self s.frames f _ no_frame inside in
      let frames : (assign h page (write h s)).frames ≡ set s.frames f frame =
        ap {A = Frame} {B = List Frame} (λ x. set (write h s).frames f (record x { page = page }))
          once
        ∙ set_again s.frames f _ frame in
      let now : frame_at (assign h page (write h s)) f ≡ frame =
        rw frames (get_or-set_self s.frames f frame no_frame inside) in
      (
        Replaces-filled s (assign h page (write h s)) h.page_id f frame v inside
            (λ j g ne there same. ne (one_page s h.page_id j f sound.mapped cached (rw same there)))
            frames (cached_table s h.page_id f cached) refl refl (inl (refl, ready)),
        ap (λ x. x.page) now,
        ap (λ x. x.dirty) now,
      )
