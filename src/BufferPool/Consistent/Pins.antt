-- ===== src/BufferPool/Consistent/Pins.antt =====
-- Pinning, unpinning, and frames that come from the free list or go back to it.
use oxen_db.Prelude.{
  ℕ, zero, suc, ◌+◌, ◌-◌, ◌%◌, ◌^◌, ◌<◌, ◌≡◌, sym, ap, ◌∙◌, true, false, Option, none, some, List,
  [], ◌∷◌, ◌++◌, length, get_or, set, ltb, leb, ◌&&◌, if◌then◌else◌, arith, All, length-set,
  get_or-set, replicate, length-replicate, get_or-replicate,
}
use oxen_db.Page.{PageId}
use oxen_db.BTreeMap.{get}
use oxen_db.BufferPool.{FrameId, PoolState, PageHandle, touch, ascending, new_state}
use oxen_db.BufferPool.Table.{occurrences, vacancy, occupied}
use oxen_db.BufferPool.Consistent.{IsConsistent, FitsU32, pins_on}

module _ (held : List PageHandle) (taken : List FrameId) (s : PoolState) (f : FrameId) where
  pub touch-IsConsistent : IsConsistent held taken s → IsConsistent held taken (touch f s)
  unfolding touch
  touch-IsConsistent v = record {
    same_pins = v.same_pins;
    same_bits = length-set s.ref_bits f true ∙ v.same_bits;
    hand = v.hand;
    mapped = v.mapped;
    indexed = v.indexed;
    free = v.free;
    pins = v.pins;
    pages = v.pages;
  }

  -- A new handle on a frame that holds its page.
  pub pin_as-IsConsistent :
      (id : PageId) (n : ℕ)
      → get_or s.frame_pages f none ≡ some id
      → n ≡ (get_or s.pin_counts f 0 + 1) % 2 ^ 32
      → IsConsistent held taken s
      → IsConsistent
          (record { frame_id = f; page_id = id } ∷ held)
          taken
          (record s { pin_counts = set s.pin_counts f n })
  unfolding pins_on
  pin_as-IsConsistent id n holds one_more v = record {
    same_pins = length-set s.pin_counts f n ∙ v.same_pins;
    same_bits = v.same_bits;
    hand = v.hand;
    mapped = v.mapped;
    indexed = v.indexed;
    free = v.free;
    pins = λ g. ground (
      arith,
      v.pins g,
      v.pins f,
      v.same_pins,
      (occupied s.frame_pages f holds).1,
      get_or-set s.pin_counts f g n 0,
    );
    pages = (holds, v.pages);
  }

pins_on-append :
    (f : FrameId) (as' bs : List PageHandle) → pins_on f (as' ++ bs) ≡ pins_on f as' + pins_on f bs
unfolding pins_on
pins_on-append f [] bs = omega arith
pins_on-append f (h ∷ hs) bs = omega (arith, pins_on-append f hs bs)

pub All-middle {ℓ κ} :
    {A : Type ℓ} (P : A → Type κ) (as' bs : List A) (x : A)
    → All P (as' ++ (x ∷ bs))
    → P x × All P (as' ++ bs)
All-middle P [] bs x h = h
All-middle P (a ∷ as') bs x h = let r = All-middle P as' bs x h.1 in (r.0, (h.0, r.1))

module _ (as' bs : List PageHandle) (h : PageHandle) (s : PoolState) where
  -- A handle that is dropped had a pin to give back.
  pub pinned_by_handle :
      {taken : List FrameId}
      → IsConsistent (as' ++ (h ∷ bs)) taken s
      → FitsU32 (as' ++ (h ∷ bs))
      → 0 < get_or s.pin_counts h.frame_id 0
  unfolding pins_on
  pinned_by_handle v fits =
      ground (arith, fits h.frame_id, v.pins h.frame_id, pins_on-append h.frame_id as' (h ∷ bs))

  pub unpin-IsConsistent :
      {taken : List FrameId}
      → IsConsistent (as' ++ (h ∷ bs)) taken s
      → IsConsistent (as' ++ bs) taken (record s {
        pin_counts =
            set s.pin_counts h.frame_id
              ((get_or s.pin_counts h.frame_id 0 + (2 ^ 32 - 1)) % 2 ^ 32);
      })
  unfolding pins_on
  unpin-IsConsistent v =
      let others = All-middle _ as' bs h v.pages in
      record {
        same_pins = length-set s.pin_counts h.frame_id _ ∙ v.same_pins;
        same_bits = v.same_bits;
        hand = v.hand;
        mapped = v.mapped;
        indexed = v.indexed;
        free = v.free;
        pins = λ g. ground (
          arith,
          v.pins g,
          v.pins h.frame_id,
          v.same_pins,
          (occupied s.frame_pages h.frame_id others.0).1,
          pins_on-append g as' (h ∷ bs),
          pins_on-append g as' bs,
          pins_on-append h.frame_id as' (h ∷ bs),
          get_or-set s.pin_counts h.frame_id g
              ((get_or s.pin_counts h.frame_id 0 + (2 ^ 32 - 1)) % 2 ^ 32) 0,
        );
        pages = others.1;
      }

module _ (held : List PageHandle) (s : PoolState) (f : FrameId) where
  pub take_free-IsConsistent :
      (rest : List FrameId)
      → s.free_frames ≡ f ∷ rest
      → IsConsistent held [] s
      → IsConsistent held (f ∷ []) (record s { free_frames = rest })
  unfolding occurrences
  take_free-IsConsistent rest e v = record {
    same_pins = v.same_pins;
    same_bits = v.same_bits;
    hand = v.hand;
    mapped = v.mapped;
    indexed = v.indexed;
    free = λ g. omega (arith, v.free g, ap (occurrences g) e);
    pins = v.pins;
    pages = v.pages;
  }

  pub give_back-IsConsistent :
      IsConsistent held (f ∷ []) s
      → IsConsistent held [] (record s { free_frames = f ∷ s.free_frames })
  unfolding occurrences
  give_back-IsConsistent v = record {
    same_pins = v.same_pins;
    same_bits = v.same_bits;
    hand = v.hand;
    mapped = v.mapped;
    indexed = v.indexed;
    free = λ g. omega (arith, v.free g);
    pins = v.pins;
    pages = v.pages;
  }

no_pages : ℕ → List (Option PageId)
no_pages n = replicate n none

occurrences-ascending :
    (f from n : ℕ)
    → occurrences f (ascending from n) ≡ (if leb from f && ltb f (from + n) then 1 else 0)
unfolding occurrences ascending
occurrences-ascending f from zero = ground arith
occurrences-ascending f from (suc n) = ground (arith, occurrences-ascending f (suc from) n)

vacancy-no_pages : (n f : ℕ) → vacancy (no_pages n) f ≡ (if ltb f n then 1 else 0)
unfolding vacancy no_pages replicate
vacancy-no_pages zero f = ground arith
vacancy-no_pages (suc n) zero = ground arith
vacancy-no_pages (suc n) (suc f) = ground (arith, vacancy-no_pages n f)

-- A new shard is in good order, with no handle out.
pub new_state-IsConsistent : (n : ℕ) → 0 < n → IsConsistent [] [] (new_state n)
unfolding new_state occurrences pins_on get no_pages
new_state-IsConsistent n h =
    let size : length (no_pages n) ≡ n = length-replicate n none in
    record {
      same_pins = length-replicate n 0 ∙ sym size;
      same_bits = length-replicate n false ∙ sym size;
      hand = omega (arith, size);
      mapped = λ id f e. absurd (ground (arith, e));
      indexed = λ id f e. absurd (ground (arith, e, get_or-replicate {A = Option PageId} n f none));
      free = λ f. ground (arith, occurrences-ascending f 0 n, vacancy-no_pages n f);
      pins = λ f. get_or-replicate n f 0;
      pages = tt;
    }
