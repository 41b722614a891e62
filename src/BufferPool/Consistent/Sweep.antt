-- ===== src/BufferPool/Consistent/Sweep.antt =====
-- The CLOCK sweep keeps the bookkeeping in order, and what it picks holds a page.
use oxen_db.Prelude.{
  ℕ, zero, suc, ◌+◌, ◌<◌, ◌≡◌, refl, sym, ap, ◌∙◌, false, Option-cases, none, some, List, [],
  length, get_or, arith, length-set, inl, inr,
}
use native.Mathlib.Nat.{mod-lt}
use oxen_db.Page.{PageId}
use oxen_db.BufferPool.{FrameId, PoolState, PageHandle, tick, sweep, find_victim}
use oxen_db.BufferPool.Clock.{tick_keeps, tick_hand, sweep_past, find_victim-unpinned}
use oxen_db.BufferPool.Table.{occurrences, vacancy, not_vacant}
use oxen_db.BufferPool.Consistent.{IsConsistent}

-- The parts of the state that a sweep leaves as they are.
pub record IsSwept (s t : PoolState) : Type 0 where
  pub kept_table : t.page_table ≡ s.page_table
  pub kept_pages : t.frame_pages ≡ s.frame_pages
  pub kept_pins : t.pin_counts ≡ s.pin_counts
  pub kept_free : t.free_frames ≡ s.free_frames
  pub bits : length t.ref_bits ≡ length s.ref_bits
  pub hand_inside : t.clock_hand < length t.frame_pages

tick_bits : (s : PoolState) → length (tick s).1.ref_bits ≡ length s.ref_bits
unfolding tick
tick_bits s = ground (arith, length-set s.ref_bits s.clock_hand false)

tick-inside : (s : PoolState) (f : FrameId) → (tick s).0 ≡ some f → f ≡ s.clock_hand
unfolding tick
tick-inside s f h = ground arith

tick-IsSwept : (s : PoolState) → s.clock_hand < length s.frame_pages → IsSwept s (tick s).1
tick-IsSwept s h = record {
  kept_table = (tick_keeps s).2;
  kept_pages = (tick_keeps s).1;
  kept_pins = (tick_keeps s).0;
  kept_free = (tick_keeps s).3;
  bits = tick_bits s;
  hand_inside = rw (tick_hand s, (tick_keeps s).1) (mod-lt (s.clock_hand + 1) (omega arith));
}

IsSwept-trans : {s t u : PoolState} → IsSwept s t → IsSwept t u → IsSwept s u
IsSwept-trans a b = record {
  kept_table = b.kept_table ∙ a.kept_table;
  kept_pages = b.kept_pages ∙ a.kept_pages;
  kept_pins = b.kept_pins ∙ a.kept_pins;
  kept_free = b.kept_free ∙ a.kept_free;
  bits = b.bits ∙ a.bits;
  hand_inside = b.hand_inside;
}

sweep_ends :
    (rounds : ℕ) (s : PoolState) (f : FrameId)
    → (tick s).0 ≡ some f
    → sweep (suc rounds) s ≡ (some f, (tick s).1)
unfolding sweep
sweep_ends rounds s f found = rw (sweep, found) refl

sweep-IsSwept :
    (rounds : ℕ) (s : PoolState)
    → s.clock_hand < length s.frame_pages
    → IsSwept s (sweep rounds s).1
unfolding sweep
sweep-IsSwept zero s h = record {
  kept_table = refl;
  kept_pages = refl;
  kept_pins = refl;
  kept_free = refl;
  bits = refl;
  hand_inside = h;
}
sweep-IsSwept (suc rounds) s h =
    let one = tick-IsSwept s h in
    elim (Option-cases (tick s).0) [
      | inl passes ↦
          rw (sweep_past rounds s passes)
            (IsSwept-trans one (sweep-IsSwept rounds (tick s).1 one.hand_inside))
      | inr found ↦ rw (sweep_ends rounds s found.0 found.1) one
    ]

pub IsSwept-IsConsistent :
    (held : List PageHandle) {taken : List FrameId} {s t : PoolState}
    → IsSwept s t
    → IsConsistent held taken s
    → IsConsistent held taken t
IsSwept-IsConsistent held {taken} {s} {t} w v = record {
  same_pins = ground (arith, w.kept_pins, w.kept_pages, v.same_pins);
  same_bits = ground (arith, w.bits, w.kept_pages, v.same_bits);
  hand = w.hand_inside;
  mapped = λ id f. rw (w.kept_table, w.kept_pages) (v.mapped id f);
  indexed = λ id f. rw (w.kept_table, w.kept_pages) (v.indexed id f);
  free = λ f. rw (w.kept_free, w.kept_pages) (v.free f);
  pins = λ f. rw w.kept_pins (v.pins f);
  pages = rw w.kept_pages v.pages;
}

sweep-inside :
    (rounds : ℕ) (s : PoolState) (f : FrameId)
    → s.clock_hand < length s.frame_pages
    → (sweep rounds s).0 ≡ some f
    → f < length s.frame_pages
unfolding sweep
sweep-inside zero s f h found = absurd (ground (arith, found))
sweep-inside (suc rounds) s f h found =
    let one = tick-IsSwept s h in
    elim (Option-cases (tick s).0) [
      | inl passes ↦ rw one.kept_pages at (
          sweep-inside rounds (tick s).1 f one.hand_inside
            (ap (λ x. x.0) (sym (sweep_past rounds s passes)) ∙ found))
      | inr picked ↦
          let same : some picked.0 ≡ some f =
            ap (λ x. x.0) (sym (sweep_ends rounds s picked.0 picked.1)) ∙ found in
          ground (arith, tick-inside s picked.0 picked.1, same)
    ]

module _ (held : List PageHandle) (s : PoolState) (v : IsConsistent held [] s) where
  pub find_victim-IsSwept : IsSwept s (find_victim s).1
  unfolding find_victim
  find_victim-IsSwept = sweep-IsSwept _ s v.hand

  -- With no frame free, the frame that the sweep picks holds a page that the table maps to it, and
  -- nobody pins it: evicting never meets a frame without a page.
  pub victim-IsOccupied :
      (f : FrameId)
      → s.free_frames ≡ []
      → (find_victim s).0 ≡ some f
      → (id : PageId) × (get_or (find_victim s).1.frame_pages f none ≡ some id)
        × (get_or (find_victim s).1.pin_counts f 0 ≡ 0)
  unfolding find_victim occurrences
  victim-IsOccupied f full found =
      let w = find_victim-IsSwept in
      let none_vacant : vacancy s.frame_pages f ≡ 0 = sym (v.free f) ∙ (rw full refl) in
      let holds = not_vacant s.frame_pages f (sweep-inside _ s f v.hand found) none_vacant in
      (holds.0, rw w.kept_pages holds.1, rw w.kept_pins (find_victim-unpinned s f found))
