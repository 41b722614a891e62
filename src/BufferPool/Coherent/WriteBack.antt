-- ===== src/BufferPool/Coherent/WriteBack.antt =====
-- Writing a cached page back: nothing that the shard holds is lost, and the frame is clean when the
-- write succeeds.
use oxen_db.Prelude.{
  ℕ, ◌<◌, ◌≡◌, ◌≢◌, inl, inr, refl, ap, ◌∙◌, true, false, some, length, take, length-take, set,
  arith, length-set, get_or-set_self, get_or-set_ne, Result, ok, err,
}
use oxen_db.Prelude.Op.{and_then, After, After-if, modify}
use native.Mathlib.Decide.{ℕ_discrete}
use oxen_db.Checksum.{Checksum}
use oxen_db.Page.{Page, PageId, seal}
use oxen_db.Disk
use oxen_db.Disk.{DiskManager}
use oxen_db.Disk.Stored.{Stored-write_at}
use oxen_db.Disk.Outcomes.{IsReady, Overwrites, Overwrites-Spares, write_page-Overwrites}
use oxen_db.BTreeMap.{get}
use oxen_db.BufferPool.{
  FrameId, Frame, Shard, no_frame, set_frame, mark_clean, write_frame_page, write_back,
}
use oxen_db.BufferPool.Coherent.{frame_at, IsMapped, IsCoherent, Keeps, Keeps-refl, Keeps-cached}

-- The frame `f` is clean in `t`, and clean frames of `s` are clean in `t`.
pub record Cleans (f : FrameId) (s t : Shard) : Type 0 where
  pub cleaned : (frame_at t f).dirty ≡ false
  pub still_clean : (g : FrameId) → (frame_at s g).dirty ≡ false → (frame_at t g).dirty ≡ false

-- What `write_frame_page` leaves, when the disk's method left `d` and `page`.
abbrev rewritten : FrameId → Shard → DiskManager → Page → Shard
rewritten f s d page = record s {
  disk = d;
  frames = set s.frames f (record (frame_at s f) { page = page });
}

module _ ⦃c : Checksum⦄ where
  module _ (s : Shard) (id : PageId) (f : FrameId) (v : IsCoherent s) (m : IsMapped s)
      (cached : get id s.state.page_table ≡ some f) (inside : f < length s.frames) where
    frame-IsReady :
        (frame_at s f).dirty ≡ true → IsReady seal s.disk.page_count id (frame_at s f).page
    frame-IsReady dirty = elim (v.backed id f cached) [
      | inl w ↦ w.1
      | inr w ↦ absurd (ground (arith, w.0, dirty))
    ]

    failed_write :
        (d : DiskManager) (page : Page) (n : ℕ)
        → (frame_at s f).dirty ≡ true
        → page ≡ (frame_at s f).page
        → Overwrites (take n (frame_at s f).page) id s.disk d
        → Keeps s (rewritten f s d page)
    failed_write d page n dirty same w =
        let ready = frame-IsReady dirty in
        let now : frame_at (rewritten f s d page) f ≡ frame_at s f =
          get_or-set_self s.frames f _ no_frame inside
          ∙ ap (λ p. record (frame_at s f) { page = p }) same in
        Keeps-cached s (rewritten f s d page) id f v m cached refl (length-set s.frames f _)
          (λ g ne. get_or-set_ne s.frames f g _ no_frame ne) (ap (λ x. x.page) now)
          (inl (ap (λ x. x.dirty) now ∙ dirty, rw (now, w.same_count) ready)) w.same_count
          (λ j ne.
            Overwrites-Spares (take n (frame_at s f).page) id j ne
              (omega (arith, length-take n (frame_at s f).page, ready.shape)) w)

    good_write :
        (d : DiskManager) (page : Page)
        → (frame_at s f).dirty ≡ true
        → page ≡ (frame_at s f).page
        → Overwrites (frame_at s f).page id s.disk d
        → Keeps s (mark_clean f (rewritten f s d page))
          × Cleans f s (mark_clean f (rewritten f s d page))
    unfolding mark_clean set_frame
    good_write d page dirty same w =
        let ready = frame-IsReady dirty in
        let t : Shard = mark_clean f (rewritten f s d page) in
        let long : f < length (rewritten f s d page).frames =
          rw (length-set s.frames f (record (frame_at s f) { page = page })) inside in
        let now : frame_at t f ≡ record (frame_at s f) { dirty = false } =
          get_or-set_self (rewritten f s d page).frames f _ no_frame long
          ∙ ap {A = Frame} {B = Frame} (λ x. record x { dirty = false })
              (get_or-set_self s.frames f (record (frame_at s f) { page = page }) no_frame inside)
          ∙ ap {A = Page} {B = Frame} (λ p. record { page = p; dirty = false }) same in
        let others : (g : FrameId) → f ≢ g → frame_at t g ≡ frame_at s g = λ g ne.
          get_or-set_ne (rewritten f s d page).frames f g _ no_frame ne
          ∙ get_or-set_ne s.frames f g _ no_frame ne in
        (
          Keeps-cached s t id f v m cached refl
              (length-set (rewritten f s d page).frames f _ ∙ length-set s.frames f _) others
              (ap (λ x. x.page) now)
              (inr (
                ap (λ x. x.dirty) now,
                ready.positive,
                rw (now, w.contents)
                    (Stored-write_at id (frame_at s f).page s.disk.file.contents ready.shape),
              ))
              w.same_count
              (λ j ne.
                Overwrites-Spares (frame_at s f).page id j ne (omega (arith, ready.shape)) w),
          record {
            cleaned = ap (λ x. x.dirty) now;
            still_clean = λ g clean. elim (ℕ_discrete f g) [
              | yes here ↦ rw (← here) (ap (λ x. x.dirty) now)
              | no ne ↦ ap (λ x. x.dirty) (others g ne) ∙ clean
            ];
          },
        )

    after_write :
        (w : Result (Unit {0}) × (DiskManager × Page))
        → (frame_at s f).dirty ≡ true
        → After w
            (λ _ x. (x.1 ≡ (frame_at s f).page) × Overwrites (frame_at s f).page id s.disk x.0)
            (λ x.
              (x.1 ≡ (frame_at s f).page)
              × ((n : ℕ) × Overwrites (take n (frame_at s f).page) id s.disk x.0))
        → After
            (and_then (w.0, rewritten f s w.1.0 w.1.1) (λ _. modify (mark_clean f)))
            (λ _ t. Keeps s t × Cleans f s t)
            (Keeps s)
    after_write (ok u, (d, page)) dirty h = good_write d page dirty h.0 h.1
    after_write (err e, (d, page)) dirty h = failed_write d page h.1.0 dirty h.0 h.1.1

    -- Whether the disk's calls succeed or fail, writing a frame back loses no page.
    pub write_back-Keeps : After (write_back f id s) (λ _ t. Keeps s t × Cleans f s t) (Keeps s)
    unfolding write_back write_frame_page
    write_back-Keeps =
        After-if (frame_at s f).dirty _ (ok tt, s) _ _
          (λ dirty.
            after_write (Disk.write_page id (s.disk, (frame_at s f).page)) dirty
              (write_page-Overwrites s.disk (frame_at s f).page id (frame-IsReady dirty) v.room))
          (λ clean. (Keeps-refl v, record { cleaned = clean; still_clean = λ g still. still }))
