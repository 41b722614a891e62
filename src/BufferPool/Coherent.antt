-- ===== src/BufferPool/Coherent.antt =====
-- The page that a shard and the disk hold for an id, and steps that keep every one of them.
pub mod Replaced
pub mod WriteBack
pub mod Evict
pub mod Fetch
pub mod Install
pub mod Flush
use oxen_db.Prelude.{
  ℕ, ◌*◌, ◌^◌, ◌<◌, ◌≡◌, ◌≢◌, ◌⊎◌, inl, inr, refl, sym, ap, ◌∙◌, Bool, true, false, Option, none,
  some, List, [], ◌∷◌, length, get_or, set, arith, if◌then◌else◌, ◌==◌, length-set, get_or-set_self,
  get_or-set_ne,
}
use mathlib.Core.Path.{subst}
use native.Mathlib.Decide.{ℕ_discrete}
use oxen_db.Checksum.{Checksum}
use oxen_db.Page.{Page, PageId, page_size, seal}
use oxen_db.Disk.{DiskManager}
use oxen_db.Disk.Stored.{Stored}
use oxen_db.Disk.Outcomes.{IsReady, Spares, SameDisk, SameDisk-Spares}
use oxen_db.BTreeMap.{get}
use oxen_db.BufferPool.{
  FrameId, Frame, Shard, no_frame, PoolState, on_state, unmap_page, map_page, set_frame,
}
use oxen_db.BufferPool.Table.{get-remove, get-table_insert, occupied}

abbrev pub frame_at : Shard → FrameId → Frame
frame_at s f = get_or s.frames f no_frame

-- The cached page, or the page on disk when none is cached.
abbrev pub Holds : Shard → PageId → Page → Type 0
Holds s id page =
    ((f : FrameId) × (get id s.state.page_table ≡ some f) × ((frame_at s f).page ≡ page))
    ⊎ ((get id s.state.page_table ≡ none) × Stored s.disk.file.contents id page)

-- Frames hold the pages that the table maps to them.
abbrev pub IsMapped : Shard → Type 0
IsMapped s =
    (id : PageId) (f : FrameId)
    → get id s.state.page_table ≡ some f
    → get_or s.state.frame_pages f none ≡ some id

pub one_page :
    (s : Shard) (i j : PageId) (f : FrameId)
    → IsMapped s
    → get i s.state.page_table ≡ some f
    → get j s.state.page_table ≡ some f
    → i ≡ j
one_page s i j f m a b = ground (arith, m i f a, m j f b)

module _ ⦃c : Checksum⦄ where
  -- A dirty frame can be written, the disk stores what a clean one has, and neither has the header page.
  abbrev pub IsBacked : DiskManager → PageId → Frame → Type 0
  IsBacked d id frame =
      ((frame.dirty ≡ true) × IsReady seal d.page_count id frame.page)
      ⊎ ((frame.dirty ≡ false) × (0 < id) × Stored d.file.contents id frame.page)

  pub record IsCoherent (s : Shard) : Type 0 where
    pub same_frames : length s.frames ≡ length s.state.frame_pages
    pub room : s.disk.page_count * page_size < 2 ^ 64
    pub backed :
        (id : PageId) (f : FrameId)
        → get id s.state.page_table ≡ some f
        → IsBacked s.disk id (frame_at s f)

  -- Every page that `s` holds, `t` holds.
  pub record Keeps (s t : Shard) : Type 0 where
    pub coherent : IsCoherent t
    pub count : t.disk.page_count ≡ s.disk.page_count
    pub holds : (id : PageId) (page : Page) → Holds s id page → Holds t id page
    pub fresh : (id : PageId) → get id s.state.page_table ≡ none → get id t.state.page_table ≡ none

  pub Keeps-refl : {s : Shard} → IsCoherent s → Keeps s s
  Keeps-refl v = record { coherent = v; count = refl; holds = λ id page h. h; fresh = λ id e. e }

  pub Keeps-trans : {s t u : Shard} → Keeps s t → Keeps t u → Keeps s u
  Keeps-trans a b = record {
    coherent = b.coherent;
    count = b.count ∙ a.count;
    holds = λ id page h. b.holds id page (a.holds id page h);
    fresh = λ id e. b.fresh id (a.fresh id e);
  }

  pub IsBacked-Spares :
      {d e : DiskManager} (id : PageId) (frame : Frame)
      → Spares id d e
      → IsBacked d id frame
      → IsBacked e id frame
  IsBacked-Spares id frame w (inl (dirty, ready)) = inl (dirty, rw w.kept_count ready)
  IsBacked-Spares id frame w (inr (clean, positive, there)) =
      inr (clean, positive, w.kept frame.page there)

  -- A step that changes neither the table nor the frames, nor what the disk stores.
  pub Keeps-same :
      (s t : Shard)
      → IsCoherent s
      → t.frames ≡ s.frames
      → t.state.page_table ≡ s.state.page_table
      → length t.state.frame_pages ≡ length s.state.frame_pages
      → SameDisk s.disk t.disk
      → Keeps s t
  Keeps-same s t v frames table pages disk = record {
    coherent = record {
      same_frames = rw (frames, pages) v.same_frames;
      room = rw disk.same_count v.room;
      backed = λ id f e. rw frames (
          IsBacked-Spares id (frame_at s f) (SameDisk-Spares id disk)
            (v.backed id f (sym (ap (get id) table) ∙ e)));
    };
    count = disk.same_count;
    holds = λ id page h. rw (frames, table, disk.same_contents) h;
    fresh = λ id e. rw table e;
  }

  -- A step that writes the frame of a cached page, or its place on disk.
  pub Keeps-cached :
      (s t : Shard) (id : PageId) (f : FrameId)
      → IsCoherent s
      → IsMapped s
      → get id s.state.page_table ≡ some f
      → t.state ≡ s.state
      → length t.frames ≡ length s.frames
      → ((g : FrameId) → f ≢ g → frame_at t g ≡ frame_at s g)
      → (frame_at t f).page ≡ (frame_at s f).page
      → IsBacked t.disk id (frame_at t f)
      → t.disk.page_count ≡ s.disk.page_count
      → ((j : PageId) → id ≢ j → Spares j s.disk t.disk)
      → Keeps s t
  Keeps-cached s t id f v m cached state len others page backs count spares = record {
    coherent = record {
      same_frames = rw (state, len) v.same_frames;
      room = rw count v.room;
      backed = λ j g e. elim (ℕ_discrete id j) [
        | yes same ↦
            let here : f ≡ g = ground (arith, cached, same, rw state at e) in
            subst (λ k. IsBacked t.disk j (frame_at t k)) here
              (subst (λ k. IsBacked t.disk k (frame_at t f)) same backs)
        | no ne ↦
            rw (others g (apart j g ne (rw state at e)))
              (IsBacked-Spares j (frame_at s g) (spares j ne) (v.backed j g (rw state at e)))
      ];
    };
    count = count;
    holds = λ j old h. kept j old h (ℕ_discrete id j);
    fresh = λ j e. rw state e;
  }
    where
      apart : (j : PageId) (g : FrameId) → id ≢ j → get j s.state.page_table ≡ some g → f ≢ g
      apart j g ne e same = ne (one_page s id j f m cached (rw same e))

      kept : (j : PageId) (old : Page) → Holds s j old → Dec (id ≡ j) → Holds t j old
      kept j old (inl (g, e, p)) (yes same) =
          let here : f ≡ g = ground (arith, cached, same, e) in
          inl (
            g,
            rw state e,
            ap (λ k. (frame_at t k).page) (sym here)
                ∙ page
                ∙ ap (λ k. (frame_at s k).page) here
                ∙ p,
          )
      kept j old (inl (g, e, p)) (no ne) =
          inl (g, rw state e, ap (λ x. x.page) (others g (apart j g ne e)) ∙ p)
      kept j old (inr (e, there)) (yes same) = absurd (ground (arith, cached, same, e))
      kept j old (inr (e, there)) (no ne) = inr (rw state e, (spares j ne).kept old there)

  -- A clean page leaves the cache.
  pub Keeps-unmap_page :
      (s : Shard) (id : PageId) (f : FrameId)
      → IsCoherent s
      → get id s.state.page_table ≡ some f
      → Stored s.disk.file.contents id (frame_at s f).page
      → Keeps s (on_state (unmap_page id f) s)
  unfolding on_state unmap_page
  Keeps-unmap_page s id f v cached there = record {
    coherent = record {
      same_frames = v.same_frames ∙ sym (length-set s.state.frame_pages f none);
      room = v.room;
      backed = λ j g e. v.backed j g (ground (arith, e, get-remove id j s.state.page_table));
    };
    count = refl;
    holds = λ j old h. kept j old h (ℕ_discrete id j);
    fresh = λ j e. ground (arith, e, get-remove id j s.state.page_table);
  }
    where
      kept :
          (j : PageId) (old : Page)
          → Holds s j old
          → Dec (id ≡ j)
          → Holds (on_state (unmap_page id f) s) j old
      kept j old (inl (g, e, p)) (yes same) =
          let here : f ≡ g = ground (arith, cached, same, e) in
          inr (
            ground (arith, same, get-remove id j s.state.page_table),
            rw (← same, ← p, ← here) there,
          )
      kept j old (inl (g, e, p)) (no ne) =
          inl (g, ground (arith, e, ne, get-remove id j s.state.page_table), p)
      kept j old (inr (e, there')) same =
          inr (ground (arith, e, get-remove id j s.state.page_table), there')
