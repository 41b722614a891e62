-- ===== src/BufferPool/Consistent.antt =====
-- The invariant of a shard's bookkeeping, beside the handles that are out.
pub mod Pins
pub mod Sweep
pub mod Operations
pub mod Writes
use oxen_db.Prelude.{
  ℕ, zero, suc, ◌+◌, ◌-◌, ◌≤◌, ◌<◌, ◌%◌, ◌^◌, ◌≡◌, ◌≢◌, refl, sym, ap, ◌∙◌, Bool, true, false,
  Option, none, some, List, [], ◌∷◌, ◌++◌, length, get_or, set, ◌==◌, if◌then◌else◌, arith, All,
  length-set, get_or-set_self, get_or-set, get_or-set_ne, replicate, length-replicate,
}
use native.Mathlib.Decide.{ℕ_discrete}
use oxen_db.Page.{PageId}
use oxen_db.BTreeMap.{get}
use oxen_db.BufferPool.{
  FrameId, PageTable, PoolState, PageHandle, pin, touch, map_page, unmap_page, remove, ascending,
  new_state,
}
use oxen_db.BufferPool.Table.{
  get-table_insert, get-remove, occurrences, vacancy, vacancy-le-one, vacant, occupied,
  vacancy-set-some, vacancy-set-none,
}

-- How many of the handles pin a frame.
unfoldable pub pins_on : FrameId → List PageHandle → ℕ
pins_on f [] = 0
pins_on f (h ∷ hs) = (if h.frame_id == f then 1 else 0) + pins_on f hs

-- No frame has so many handles that their number wraps around in 32 bits.
abbrev pub FitsU32 : List PageHandle → Type 0
FitsU32 held = (f : FrameId) → pins_on f held < 2 ^ 32

pub nil-FitsU32 : FitsU32 []
unfolding pins_on
nil-FitsU32 f = omega arith

-- `held` are the handles that are out, `taken` the frames that an operation has acquired and not
-- yet filled.
pub record IsConsistent (held : List PageHandle) (taken : List FrameId) (s : PoolState)
    : Type 0 where
  pub same_pins : length s.pin_counts ≡ length s.frame_pages
  pub same_bits : length s.ref_bits ≡ length s.frame_pages
  pub hand : s.clock_hand < length s.frame_pages
  pub mapped :
      (id : PageId) (f : FrameId)
      → get id s.page_table ≡ some f
      → get_or s.frame_pages f none ≡ some id
  pub indexed :
      (id : PageId) (f : FrameId)
      → get_or s.frame_pages f none ≡ some id
      → get id s.page_table ≡ some f
  pub free :
      (f : FrameId) → occurrences f taken + occurrences f s.free_frames ≡ vacancy s.frame_pages f
  pub pins : (f : FrameId) → get_or s.pin_counts f 0 ≡ pins_on f held % 2 ^ 32
  pub pages : All (λ h. get_or s.frame_pages h.frame_id none ≡ some h.page_id) held

-- Handles stand on frames that hold their pages, so none stands on a vacant frame.
pub unpinned_of_vacant :
    (held : List PageHandle) (ps : List (Option PageId)) (f : FrameId)
    → get_or ps f none ≡ none
    → All (λ h. get_or ps h.frame_id none ≡ some h.page_id) held
    → pins_on f held ≡ 0
unfolding pins_on
unpinned_of_vacant [] ps f v pages = refl
unpinned_of_vacant (h ∷ hs) ps f v pages =
    ground (arith, pages.0, unpinned_of_vacant hs ps f v pages.1)

-- A change of the frame `f`, on which no handle stands, keeps the handles' pages.
pages-set :
    (held : List PageHandle) (ps : List (Option PageId)) (f : FrameId) (p : Option PageId)
    → pins_on f held ≡ 0
    → All (λ h. get_or ps h.frame_id none ≡ some h.page_id) held
    → All (λ h. get_or (set ps f p) h.frame_id none ≡ some h.page_id) held
unfolding pins_on
pages-set [] ps f p v pages = tt
pages-set (h ∷ hs) ps f p v pages =
    let apart : f ≢ h.frame_id = λ e. absurd (ground (arith, v, e)) in
    let rest : pins_on f hs ≡ 0 = ground (arith, v) in
    (get_or-set_ne ps f h.frame_id p none apart ∙ pages.0, pages-set hs ps f p rest pages.1)

-- A frame that an operation took exists, holds no page, and nobody pins it.
pub taken_frame :
    (held : List PageHandle) (s : PoolState) (f : FrameId)
    → IsConsistent held (f ∷ []) s
    → (f < length s.frame_pages)
      × (get_or s.frame_pages f none ≡ none)
      × (pins_on f held ≡ 0)
      × (vacancy s.frame_pages f ≡ 1)
unfolding occurrences
taken_frame held s f v =
    let one : vacancy s.frame_pages f ≡ 1 =
      ground (arith, v.free f, vacancy-le-one s.frame_pages f) in
    let spot = vacant s.frame_pages f one in
    (spot.0, spot.1, unpinned_of_vacant held s.frame_pages f spot.1 v.pages, one)

module _ (held : List PageHandle) (s : PoolState) (f : FrameId) (id : PageId) where
  -- The frame that an operation took holds the page from now on.
  pub map_page-IsConsistent :
      IsConsistent held (f ∷ []) s
      → get id s.page_table ≡ none
      → IsConsistent held [] (map_page id f s)
  unfolding map_page occurrences
  map_page-IsConsistent v new =
      let spot = taken_frame held s f v in
      record {
        same_pins = v.same_pins ∙ sym (length-set s.frame_pages f (some id));
        same_bits = v.same_bits ∙ sym (length-set s.frame_pages f (some id));
        hand = rw (length-set s.frame_pages f (some id)) v.hand;
        mapped = λ j g h. ground (
          arith,
          h,
          new,
          get-table_insert id j f s.page_table,
          v.mapped j g,
          get_or-set s.frame_pages f g (some id) none spot.0,
          spot.1,
        );
        indexed = λ j g h. ground (
          arith,
          h,
          new,
          get-table_insert id j f s.page_table,
          v.indexed j g,
          get_or-set s.frame_pages f g (some id) none spot.0,
        );
        free = λ g. ground (arith, v.free g, spot.3, vacancy-set-some s.frame_pages f g id);
        pins = v.pins;
        pages = pages-set held s.frame_pages f (some id) spot.2 v.pages;
      }

  -- Evicting the page of a frame that nobody pins takes the frame.
  pub unmap_page-IsConsistent :
      IsConsistent held [] s
      → FitsU32 held
      → get_or s.frame_pages f none ≡ some id
      → get_or s.pin_counts f 0 ≡ 0
      → IsConsistent held (f ∷ []) (unmap_page id f s)
  unfolding unmap_page occurrences
  unmap_page-IsConsistent v fits holds unpinned =
      let spot = occupied s.frame_pages f holds in
      record {
        same_pins = v.same_pins ∙ sym (length-set s.frame_pages f none);
        same_bits = v.same_bits ∙ sym (length-set s.frame_pages f none);
        hand = rw (length-set s.frame_pages f none) v.hand;
        mapped = λ j g h. ground (
          arith,
          h,
          get-remove id j s.page_table,
          v.mapped j g,
          holds,
          get_or-set s.frame_pages f g none none spot.1,
        );
        indexed = λ j g h. ground (
          arith,
          h,
          get-remove id j s.page_table,
          v.indexed j g,
          v.indexed id f holds,
          get_or-set s.frame_pages f g none none spot.1,
        );
        free = λ g.
            ground (arith, v.free g, v.free f, spot.0, vacancy-set-none s.frame_pages f g spot.1);
        pins = v.pins;
        pages =
            pages-set held s.frame_pages f none (omega (arith, v.pins f, unpinned, fits f)) v.pages;
      }
