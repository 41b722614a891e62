-- ===== src/BufferPool/Coherent/Fetch.antt =====
-- Fetching a page loses no page, and the frame of the handle has the page.
use oxen_db.Prelude.{
  ◌<◌, ◌≡◌, ◌≢◌, inl, inr, refl, sym, ap, ◌∙◌, false, Option, none, some, List, [], ◌∷◌, length,
  get_or, set, arith, Result, ok, err, length-set, get_or-set_self,
}
use oxen_db.Prelude.Op.{After, After-map, After-both, After-and_then}
use oxen_db.Checksum.{Checksum}
use oxen_db.Page.{Page, PageId}
use oxen_db.Disk
use oxen_db.Disk.{DiskManager}
use oxen_db.Disk.Stored.{Stored}
use oxen_db.Disk.Outcomes.{SameDisk, read_page-Stored}
use oxen_db.BTreeMap.{get}
use oxen_db.BufferPool.{
  FrameId, Frame, PageHandle, Shard, no_frame, on_state, set_frame, map_page, touch, pin, read_disk,
  acquire_frame, free_on_error, read_or_free, fetch_cached, fetch_page,
}
use oxen_db.BufferPool.Table.{get-table_insert}
use oxen_db.BufferPool.Consistent.{IsConsistent, FitsU32, taken_frame}
use oxen_db.BufferPool.Consistent.Operations.{
  IsSound, HasTaken, acquire_frame-HasTaken, read_or_free-HasTaken,
}
use oxen_db.BufferPool.Coherent.{frame_at, Holds, IsCoherent, Keeps, Keeps-same, Keeps-trans}
use oxen_db.BufferPool.Coherent.Replaced.{Replaces, Replaces-after, Replaces-filled}
use oxen_db.BufferPool.Coherent.Evict.{Keeps-on_state, acquire_frame-Keeps}

module _ ⦃c : Checksum⦄ where
  -- `read_disk`, with what happens to the frame on an error.
  read_or_free-Keeps :
      (s : Shard) (f : FrameId) (id : PageId)
      → IsCoherent s
      → After
          (read_or_free f id s)
          (λ page t. Keeps s t × Stored t.disk.file.contents id page × (0 < id))
          (Keeps s)
  unfolding read_or_free read_disk free_on_error on_state
  read_or_free-Keeps s f id v = go (Disk.read_page id s.disk) (read_page-Stored s.disk id v.room)
    where
      go :
          (m : Result Page × DiskManager)
          → After m
              (λ page e.
                SameDisk s.disk e
                × Stored s.disk.file.contents id page
                × (0 < id)
                × (id < s.disk.page_count))
              (SameDisk s.disk)
          → After
              (free_on_error f (m.0, record s { disk = m.1 }))
              (λ page t. Keeps s t × Stored t.disk.file.contents id page × (0 < id))
              (Keeps s)
      go (ok page, d) h =
          (Keeps-same s (record s { disk = d }) v refl refl refl h.0, rw h.0.same_contents h.1, h.2)
      go (err e, d) h = Keeps-same s _ v refl refl refl h

  -- A page that is stored is one page.
  pub held_page :
      (s : Shard) (id : PageId) (f : FrameId) (page : Page)
      → get id s.state.page_table ≡ some f
      → Holds s id page
      → (frame_at s f).page ≡ page
  held_page s id f page e (inl (g, there, p)) =
      let same : g ≡ f = ground (arith, e, there) in ap (λ k. (frame_at s k).page) (sym same) ∙ p
  held_page s id f page e (inr (none', stored)) = absurd (ground (arith, e, none'))

  stored_page :
      (s : Shard) (id : PageId) (page old : Page)
      → get id s.state.page_table ≡ none
      → Stored s.disk.file.contents id page
      → Holds s id old
      → old ≡ page
  stored_page s id page old e stored (inl (g, there, p)) = absurd (ground (arith, e, there))
  stored_page s id page old e stored (inr (none', stored')) = sym stored'.bytes ∙ stored.bytes

  -- A frame that was taken has no page.
  pub taken_alone :
      (held : List PageHandle) (u : Shard) (id : PageId) (f : FrameId)
      → IsConsistent held (f ∷ []) u.state
      → (j : PageId) (g : FrameId) → id ≢ j
      → get j u.state.page_table ≡ some g
      → f ≢ g
  taken_alone held u id f w j g ne e same =
      absurd (ground (arith, w.mapped j g e, (taken_frame held u.state f w).1, same))

  -- What a fetch leaves: the page in the frame of the handle, which is the page that the shard held
  -- before, and every other page as it was.
  pub record Fetched (id : PageId) (s : Shard) (h : PageHandle) (t : Shard) : Type 0 where
    pub same_id : h.page_id ≡ id
    pub in_frame : get id t.state.page_table ≡ some h.frame_id
    pub replaces : Replaces id (frame_at t h.frame_id).page s t
    pub agrees : (old : Page) → Holds s id old → old ≡ (frame_at t h.frame_id).page

  Fetched-fill :
      (held : List PageHandle) (s u : Shard) (id : PageId) (f : FrameId) (page : Page)
      → get id s.state.page_table ≡ none
      → HasTaken held s f u
      → Keeps s u
      → Stored u.disk.file.contents id page
      → 0 < id
      → Fetched id s
          (record { frame_id = f; page_id = id })
          (on_state
            (λ st. touch f (record (map_page id f st) { pin_counts = set st.pin_counts f 1 }))
            (set_frame f (record { page = page; dirty = false }) u))
  unfolding on_state set_frame map_page touch
  Fetched-fill held s u id f page new taken k stored positive =
      let spot = taken_frame held u.state f taken.state_taken in
      let inside : f < length u.frames = omega (arith, spot.0, k.coherent.same_frames) in
      let frame : Frame = record { page = page; dirty = false } in
      let here : (get_or (set u.frames f frame) f no_frame).page ≡ page =
        ap (λ x. x.page) (get_or-set_self u.frames f frame no_frame inside) in
      record {
        same_id = refl;
        in_frame = ground (arith, get-table_insert id id f u.state.page_table);
        replaces = rw here (
            Replaces-after s u _ id page k (
              Replaces-filled u _ id f frame k.coherent inside
                (taken_alone held u id f taken.state_taken) refl
                (λ j. get-table_insert id j f u.state.page_table)
                (length-set u.state.frame_pages f (some id)) refl (inr (refl, positive, stored))));
        agrees = λ old h.
            stored_page u id page old (taken.uncached id new) stored (k.holds id old h) ∙ sym here;
      }

  module _ (held : List PageHandle) (fits : FitsU32 held) where
    fetch_cached-Fetched :
        (cached : Option FrameId) (s : Shard) (id : PageId)
        → IsSound held s
        → IsCoherent s
        → get id s.state.page_table ≡ cached
        → After (fetch_cached cached id s) (Fetched id s) (Keeps s)
    unfolding fetch_cached touch pin on_state
    fetch_cached-Fetched (some f) s id sound v e =
        let k : Keeps s (on_state (λ st. touch f (pin f st)) s) =
          Keeps-on_state s (λ st. touch f (pin f st)) v refl refl in
        record {
          same_id = refl;
          in_frame = e;
          replaces = record {
            coherent = k.coherent;
            count = refl;
            current = inl (f, e, refl);
            others_fresh = λ j ne there. there;
            others = λ j old ne h. k.holds j old h;
          };
          agrees = λ old h. sym (held_page s id f old e h);
        }
    fetch_cached-Fetched none s id sound v e =
        After-and_then (acquire_frame s) _ _ _ _
          (After-map (acquire_frame s) _ _ _ _
            (After-both (acquire_frame s) _ _ _ _ (acquire_frame-HasTaken held s sound fits)
              (acquire_frame-Keeps held s sound v))
            (λ f t h. h) (λ t h. h.1))
          (λ f t h.
            After-and_then (read_or_free f id t) _ _ _ _
              (After-map (read_or_free f id t) _ _ _ _
                (After-both (read_or_free f id t) _ _ _ _ (read_or_free-HasTaken held s t f id h.0)
                  (read_or_free-Keeps t f id h.1.coherent))
                (λ page u k. k) (λ u k. Keeps-trans h.1 k.1))
              (λ page u k.
                Fetched-fill held s u id f page e k.0 (Keeps-trans h.1 k.1.0) k.1.1 k.1.2))

    pub fetch_page-Fetched :
        (s : Shard) (id : PageId)
        → IsSound held s
        → IsCoherent s
        → After (fetch_page id s) (Fetched id s) (Keeps s)
    unfolding fetch_page
    fetch_page-Fetched s id sound v =
        fetch_cached-Fetched (get id s.state.page_table) s id sound v refl
