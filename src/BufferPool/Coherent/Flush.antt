-- ===== src/BufferPool/Coherent/Flush.antt =====
-- Flushing a shard: no page is lost, and when it succeeds every cached page is on disk.
use oxen_db.Prelude.{
  ◌<◌, ◌≡◌, inl, refl, sym, ap, ◌∙◌, false, Option, none, some, List, [], ◌∷◌, All, map, length,
  arith, Result, ok, err,
}
use native.Mathlib.Decide.{ℕ_discrete}
use oxen_db.Prelude.Op.{After, After-map, After-both, After-and_then}
use oxen_db.Checksum.{Checksum}
use oxen_db.Page.{PageId}
use oxen_db.Disk.Stored.{Stored}
use oxen_db.BTreeMap.{get}
use oxen_db.BufferPool.{
  FrameId, PageTable, PoolState, PageHandle, Shard, on_state, pin, unpin, write_back, finally_unpin,
  flush_cached_page, flush_page, flush_pages, flush_cached,
}
use oxen_db.BufferPool.Table.{occupied}
use oxen_db.BufferPool.Consistent.Operations.{IsSound, write_back-state}
use oxen_db.BufferPool.Consistent.Writes.{flush_page-IsSound}
use oxen_db.BufferPool.Coherent.{frame_at, IsCoherent, Keeps, Keeps-same, Keeps-refl, Keeps-trans}
use oxen_db.BufferPool.Coherent.WriteBack.{Cleans, write_back-Keeps}
use oxen_db.BufferPool.Coherent.Fetch.{held_page}
use oxen_db.BufferPool.Coherent.Evict.{Keeps-on_state, state_after, stored_if_clean}

module _ ⦃c : Checksum⦄ where
  -- The pages `ids` of a table have clean frames.
  abbrev AreClean : PageTable → Shard → List PageId → Type 0
  AreClean table t ids =
      All (λ id. (f : FrameId) → get id table ≡ some f → (frame_at t f).dirty ≡ false) ids

  -- What flushing the pages `ids` leaves: every page and the table as they were, the frames of those
  -- pages clean, and no frame newly dirty.
  record Flushed (table : PageTable) (ids : List PageId) (s t : Shard) : Type 0 where
    keeps : Keeps s t
    same_table : t.state.page_table ≡ table
    clean : AreClean table t ids
    still : (g : FrameId) → (frame_at s g).dirty ≡ false → (frame_at t g).dirty ≡ false

  pub Keeps-unpin : (s : Shard) (f : FrameId) → IsCoherent s → Keeps s (unpin f s).1
  unfolding unpin on_state
  Keeps-unpin s f v =
      Keeps-same s (unpin f s).1 v refl refl refl
        (record { same_contents = refl; same_count = refl })

  unpinned :
      (s : Shard) (f : FrameId) (st : PoolState) (m : Result (Unit {0}) × Shard)
      → After m (λ _ t. Keeps s t × Cleans f s t) (Keeps s)
      → After m (λ _ t. t.state ≡ st) (λ t. t.state ≡ st)
      → After
          (finally_unpin f m)
          (λ _ t. Keeps s t × Cleans f s t × (t.state.page_table ≡ st.page_table))
          (λ t. Keeps s t)
  unfolding finally_unpin unpin on_state
  unpinned s f st (ok u, t) h e = (
    Keeps-trans h.0 (Keeps-unpin t f h.0.coherent),
    record { cleaned = h.1.cleaned; still_clean = h.1.still_clean },
    ap (λ x. x.page_table) e,
  )
  unpinned s f st (err x, t) h e = Keeps-trans h (Keeps-unpin t f h.coherent)

  module _ (held : List PageHandle) (table : PageTable) where
    flush_cached_page-Flushed :
        (cached : Option FrameId) (s : Shard) (id : PageId)
        → IsSound held s
        → IsCoherent s
        → s.state.page_table ≡ table
        → get id table ≡ cached
        → After (flush_cached_page cached id s) (λ _. Flushed table (id ∷ []) s) (Keeps s)
    unfolding flush_cached_page on_state pin
    flush_cached_page-Flushed none s id sound v same e = record {
      keeps = Keeps-refl v;
      same_table = same;
      clean = ((λ f there. absurd (ground (arith, e, there))), tt);
      still = λ g clean. clean;
    }
    flush_cached_page-Flushed (some f) s id sound v same e =
        let pinned : Shard = on_state (pin f) s in
        let first : Keeps s pinned = Keeps-on_state s (pin f) v refl refl in
        let cached : get id s.state.page_table ≡ some f = rw same e in
        let inside : f < length s.frames =
          omega
            (arith, (occupied s.state.frame_pages f (sound.mapped id f cached)).1, v.same_frames) in
        let m = write_back f id pinned in
        After-map (finally_unpin f m) _ _ _ _
          (unpinned pinned f pinned.state m
            (write_back-Keeps pinned id f first.coherent sound.mapped cached inside)
            (state_after m pinned.state (write_back-state f id pinned)))
          (λ _ t h. record {
            keeps = Keeps-trans first h.0;
            same_table = h.2 ∙ same;
            clean = (
              (λ g there. let here : f ≡ g = ground (arith, e, there) in rw (← here) h.1.cleaned),
              tt,
            );
            still = λ g clean. h.1.still_clean g clean;
          })
          (λ t h. Keeps-trans first h)

    flush_page-Flushed :
        (s : Shard) (id : PageId)
        → IsSound held s
        → IsCoherent s
        → s.state.page_table ≡ table
        → After (flush_page id s) (λ _. Flushed table (id ∷ []) s) (Keeps s)
    unfolding flush_page
    flush_page-Flushed s id sound v same =
        flush_cached_page-Flushed (get id s.state.page_table) s id sound v same
          (ap (get id) (sym same))

    pub flush_page-Keeps :
        (s : Shard) (id : PageId)
        → IsSound held s
        → IsCoherent s
        → s.state.page_table ≡ table
        → After (flush_page id s) (λ _. Keeps s) (Keeps s)
    flush_page-Keeps s id sound v same =
        After-map (flush_page id s) _ _ _ _ (flush_page-Flushed s id sound v same)
          (λ _ t h. h.keeps) (λ t h. h)

    flush_pages-Flushed :
        (ids : List PageId) (s : Shard)
        → IsSound held s
        → IsCoherent s
        → s.state.page_table ≡ table
        → After (flush_pages ids s) (λ _. Flushed table ids s) (Keeps s)
    unfolding flush_pages
    flush_pages-Flushed [] s sound v same = record {
      keeps = Keeps-refl v;
      same_table = same;
      clean = tt;
      still = λ g clean. clean;
    }
    flush_pages-Flushed (id ∷ ids) s sound v same =
        After-and_then (flush_page id s) _ _ _ _
          (After-map (flush_page id s) _ _ _ _
            (After-both (flush_page id s) _ _ _ _ (flush_page-IsSound held s id sound)
              (flush_page-Flushed s id sound v same))
            (λ _ t h. h) (λ t h. h.1))
          (λ _ t h.
            After-map (flush_pages ids t) _ _ _ _
              (flush_pages-Flushed ids t h.0 h.1.keeps.coherent h.1.same_table)
              (λ _ u k. record {
                keeps = Keeps-trans h.1.keeps k.keeps;
                same_table = k.same_table;
                clean = ((λ f there. k.still f (h.1.clean.0 f there)), k.clean);
                still = λ g clean. k.still g (h.1.still g clean);
              })
              (λ u k. Keeps-trans h.1.keeps k))

  all_cached :
      (table : PageTable) (P : PageId → Type 0) (id : PageId) (f : FrameId)
      → All P (map (λ e. e.0) table)
      → get id table ≡ some f
      → P id
  unfolding get
  all_cached [] P id f all there = absurd (ground (arith, there))
  all_cached ((k, g) ∷ table) P id f all there = elim (ℕ_discrete k id) [
    | yes same ↦ rw (← same) all.0
    | no ne ↦ all_cached table P id f all.1 (ground (arith, ne, there))
  ]

  -- No cached page of the shard is dirty.
  abbrev pub IsClean : Shard → Type 0
  IsClean s =
      (id : PageId) (f : FrameId)
      → get id s.state.page_table ≡ some f
      → (frame_at s f).dirty ≡ false

  pub flush_cached-IsClean :
      (held : List PageHandle) (s : Shard)
      → IsSound held s
      → IsCoherent s
      → After (flush_cached s) (λ _ t. IsClean t) (λ _. Unit {0})
  unfolding flush_cached
  flush_cached-IsClean held s sound v =
      After-map (flush_cached s) _ _ _ _
        (flush_pages-Flushed held s.state.page_table (map (λ e. e.0) s.state.page_table) s sound v
          refl)
        (λ _ t h id f there.
          let before : get id s.state.page_table ≡ some f = rw h.same_table at there in
          all_cached s.state.page_table _ id f h.clean before f before)
        (λ t h. tt)

  pub flush_cached-Keeps :
      (held : List PageHandle) (s : Shard)
      → IsSound held s
      → IsCoherent s
      → After (flush_cached s) (λ _. Keeps s) (Keeps s)
  unfolding flush_cached
  flush_cached-Keeps held s sound v =
      After-map (flush_cached s) _ _ _ _
        (flush_pages-Flushed held s.state.page_table (map (λ e. e.0) s.state.page_table) s sound v
          refl)
        (λ _ t h. h.keeps) (λ t h. h)

  -- Flushing a shard in good order and coherent keeps every page that the shard holds, whichever
  -- calls of the disk fail; when it succeeds, the disk stores every page that was cached.
  pub flush_cached-Stored :
      (held : List PageHandle) (s : Shard)
      → IsSound held s
      → IsCoherent s
      → After
          (flush_cached s)
          (λ _ t.
            Keeps s t
            × ((id : PageId) (f : FrameId)
                → get id s.state.page_table ≡ some f
                → Stored t.disk.file.contents id (frame_at s f).page))
          (Keeps s)
  unfolding flush_cached
  flush_cached-Stored held s sound v =
      After-map (flush_cached s) _ _ _ _
        (flush_pages-Flushed held s.state.page_table (map (λ e. e.0) s.state.page_table) s sound v
          refl)
        (λ _ t h. (
          h.keeps,
          λ id f there.
              let cached : get id t.state.page_table ≡ some f = rw h.same_table there in
              rw
                (← held_page t id f (frame_at s f).page cached
                  (h.keeps.holds id (frame_at s f).page (inl (f, there, refl))))
                (stored_if_clean t id f h.keeps.coherent cached
                  (all_cached s.state.page_table _ id f h.clean there f there)),
        ))
        (λ t h. h)
