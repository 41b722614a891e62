-- ===== src/BufferPool/Coherent/Replaced.antt =====
-- Steps that replace the page of one id, and keep every other.
use oxen_db.Prelude.{
  ◌<◌, ◌≡◌, ◌≢◌, inl, inr, ap, ◌∙◌, none, some, length, set, arith, if◌then◌else◌, ◌==◌, length-set,
  get_or-set_self, get_or-set_ne,
}
use native.Mathlib.Decide.{ℕ_discrete}
use oxen_db.Checksum.{Checksum}
use oxen_db.Page.{Page, PageId}
use oxen_db.BTreeMap.{get}
use oxen_db.BufferPool.{FrameId, Frame, Shard, no_frame}
use oxen_db.BufferPool.Coherent.{frame_at, Holds, IsBacked, IsCoherent, Keeps}

module _ ⦃c : Checksum⦄ where
  -- `t` holds `page` for `id`, and what `s` holds for every other id.
  pub record Replaces (id : PageId) (page : Page) (s t : Shard) : Type 0 where
    pub coherent : IsCoherent t
    pub count : t.disk.page_count ≡ s.disk.page_count
    pub current : Holds t id page
    pub others_fresh :
        (j : PageId) → id ≢ j → get j s.state.page_table ≡ none → get j t.state.page_table ≡ none
    pub others : (j : PageId) (old : Page) → id ≢ j → Holds s j old → Holds t j old

  -- A frame that has no page, or the page `id`, is filled with a page for `id`.
  pub Replaces-filled :
      (s t : Shard) (id : PageId) (f : FrameId) (frame : Frame)
      → IsCoherent s
      → f < length s.frames
      → ((j : PageId) (g : FrameId) → id ≢ j → get j s.state.page_table ≡ some g → f ≢ g)
      → t.frames ≡ set s.frames f frame
      → ((j : PageId)
          → get j t.state.page_table ≡ (if id == j then some f else get j s.state.page_table))
      → length t.state.frame_pages ≡ length s.state.frame_pages
      → t.disk ≡ s.disk
      → IsBacked s.disk id frame
      → Replaces id frame.page s t
  Replaces-filled s t id f frame v inside alone frames table pages disk backs = record {
    coherent = record {
      same_frames = rw (frames, pages, length-set s.frames f frame) v.same_frames;
      room = rw disk v.room;
      backed = λ j g e. backed j g e (ℕ_discrete id j);
    };
    count = ap (λ d. d.page_count) disk;
    current = inl (f, ground (arith, table id), ap (λ x. x.page) now);
    others_fresh = λ j ne e. ground (arith, table j, ne, e);
    others = λ j old ne h. other j old ne h;
  }
    where
      now : frame_at t f ≡ frame
      now = rw frames (get_or-set_self s.frames f frame no_frame inside)

      kept :
          (j : PageId) (g : FrameId)
          → id ≢ j
          → get j s.state.page_table ≡ some g
          → frame_at t g ≡ frame_at s g
      kept j g ne e = rw frames (get_or-set_ne s.frames f g frame no_frame (alone j g ne e))

      backed :
          (j : PageId) (g : FrameId)
          → get j t.state.page_table ≡ some g
          → Dec (id ≡ j)
          → IsBacked t.disk j (frame_at t g)
      backed j g e (yes same) =
          let here : f ≡ g = ground (arith, table j, same, e) in
          rw (← here, ← same, now, disk) backs
      backed j g e (no ne) =
          let old : get j s.state.page_table ≡ some g = ground (arith, table j, ne, e) in
          rw (kept j g ne old, disk) (v.backed j g old)

      other : (j : PageId) (old : Page) → id ≢ j → Holds s j old → Holds t j old
      other j old ne (inl (g, e, p)) =
          inl (g, ground (arith, table j, ne, e), ap (λ x. x.page) (kept j g ne e) ∙ p)
      other j old ne (inr (e, there)) = inr (ground (arith, table j, ne, e), rw disk there)

  pub Replaces-after :
      (s t u : Shard) (id : PageId) (page : Page)
      → Keeps s t
      → Replaces id page t u
      → Replaces id page s u
  Replaces-after s t u id page k r = record {
    coherent = r.coherent;
    count = r.count ∙ k.count;
    current = r.current;
    others_fresh = λ j ne e. r.others_fresh j ne (k.fresh j e);
    others = λ j old ne h. r.others j old ne (k.holds j old h);
  }
