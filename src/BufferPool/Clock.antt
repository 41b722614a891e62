-- ===== src/BufferPool/Clock.antt =====
-- The CLOCK sweep of `find_victim`: what it may evict, and that it gives up only with cause.
use oxen_db.Prelude.{
  ℕ, zero, suc, ◌+◌, ◌*◌, ◌<◌, ◌≡◌, refl, Bool, true, false, none, some, List, [], ◌∷◌, length,
  get_or, ltb, arith, set, ◌%◌, ◌-◌, ap, ◌∙◌, Bool-cases, sym, ◌⊎◌, inl, inr, ◌≢◌, get_or-set_ne,
  Option-cases,
}
use native.Mathlib.Decide.{ℕ_discrete}
use native.Mathlib.Nat.{mod-eq_of_lt, mod_self}
use oxen_db.BufferPool.{FrameId, PoolState, tick, sweep, find_victim}

tick-unpinned :
    (s : PoolState) (f : FrameId)
    → (tick s).0 ≡ some f
    → (get_or s.pin_counts f 0 ≡ 0)
      × (get_or s.ref_bits f false ≡ false)
      × ((tick s).1.frame_pages ≡ s.frame_pages)
unfolding tick
tick-unpinned s f h = ground arith

-- A round moves the hand and the reference bits alone.
pub tick_keeps :
    (s : PoolState)
    → ((tick s).1.pin_counts ≡ s.pin_counts)
      × ((tick s).1.frame_pages ≡ s.frame_pages)
      × ((tick s).1.page_table ≡ s.page_table)
      × ((tick s).1.free_frames ≡ s.free_frames)
unfolding tick
tick_keeps s = ground arith

-- The hand goes round.
hand_step :
    (hand n : ℕ)
    → hand < n
    → (((hand + 1) % n ≡ hand + 1) × (hand + 1 < n)) ⊎ (((hand + 1) % n ≡ 0) × (hand + 1 ≡ n))
hand_step hand n h = elim (ℕ_discrete (hand + 1) n) [
  | yes wraps ↦ inr (rw (wraps, mod_self n) refl, wraps)
  | no inside ↦ let small : hand + 1 < n = omega arith in inl (mod-eq_of_lt small, small)
]

cleared : (i : ℕ) (bits : List Bool) → get_or (set bits i false) i false ≡ false
unfolding set get_or
cleared i [] = refl
cleared zero (b ∷ bits) = refl
cleared (suc i) (b ∷ bits) = cleared i bits

-- A round that finds no victim under the hand, and what it does to the bit of the frame.
tick_at :
    (s : PoolState)
    → (tick s).0 ≡ none
    → get_or s.pin_counts s.clock_hand 0 ≡ 0
    → (get_or s.ref_bits s.clock_hand false ≡ true)
      × (get_or (tick s).1.ref_bits s.clock_hand false ≡ false)
unfolding tick
tick_at s h unpinned = ground (arith, cleared s.clock_hand s.ref_bits)

tick_elsewhere :
    (s : PoolState) (f : FrameId)
    → (s.clock_hand ≢ f)
    → get_or (tick s).1.ref_bits f false ≡ get_or s.ref_bits f false
unfolding tick
tick_elsewhere s f ne = ground (arith, get_or-set_ne s.ref_bits s.clock_hand f false false ne)

pub tick_hand : (s : PoolState) → (tick s).1.clock_hand ≡ (s.clock_hand + 1) % length s.frame_pages
unfolding tick
tick_hand s = ground arith

-- The rounds until the hand stands at the frame with its bit clear, the hand being `d` before it.
rounds_to : ℕ → ℕ → Bool → ℕ
rounds_to n d true = d + n
rounds_to n d false = d

reach_around :
    (hand n : ℕ)
    → hand < n
    → (((hand + 1) % n + (n - 1) ≡ hand) ⊎ ((hand + 1) % n + (n - 1) ≡ hand + n))
      × ((hand + 1) % n < n)
reach_around hand n h = ground (arith, hand_step hand n h)

reach_next :
    (hand n f d : ℕ)
    → hand < n
    → f < n
    → d < n
    → hand ≢ f
    → ((hand + d ≡ f) ⊎ (hand + d ≡ f + n))
    → (0 < d) × (((hand + 1) % n + (d - 1) ≡ f) ⊎ ((hand + 1) % n + (d - 1) ≡ f + n))
reach_next hand n f d h inside near ne reach = ground (arith, hand_step hand n h)

fewer :
    (n d : ℕ) (bit : Bool) {rounds : ℕ}
    → 0 < d
    → rounds_to n d bit < suc rounds
    → rounds_to n (d - 1) bit < rounds
unfolding rounds_to
fewer n d true h enough = omega arith
fewer n d false h enough = omega arith

pub sweep_stops :
    (rounds : ℕ) (s : PoolState) (f : FrameId)
    → (tick s).0 ≡ some f
    → (sweep (suc rounds) s).0 ≡ some f
unfolding sweep
sweep_stops rounds s f found = rw (sweep, found) refl

pub sweep_past :
    (rounds : ℕ) (s : PoolState)
    → (tick s).0 ≡ none
    → sweep (suc rounds) s ≡ sweep rounds (tick s).1
unfolding sweep
sweep_past rounds s passes = rw (sweep, passes) refl

sweep_finds :
    (rounds d : ℕ) (s : PoolState) (f : FrameId)
    → get_or s.pin_counts f 0 ≡ 0
    → s.clock_hand < length s.frame_pages
    → f < length s.frame_pages
    → d < length s.frame_pages
    → ((s.clock_hand + d ≡ f) ⊎ (s.clock_hand + d ≡ f + length s.frame_pages))
    → rounds_to (length s.frame_pages) d (get_or s.ref_bits f false) < rounds
    → (g : FrameId) × ((sweep rounds s).0 ≡ some g)
unfolding rounds_to
sweep_finds zero d s f unpinned hand inside near reach enough = absurd (omega arith)
sweep_finds (suc rounds) d s f unpinned hand inside near reach enough =
    elim (Option-cases (tick s).0) [
      | inr found ↦ (found.0, sweep_stops rounds s found.0 found.1)
      | inl passes ↦ elim (ℕ_discrete s.clock_hand f) [
        | yes here ↦
            let bit = tick_at s passes (rw (← here) at unpinned) in
            let full = rw (← here, bit.0) at enough in
            let later =
              (sweep_finds rounds (length s.frame_pages - 1) (tick s).1 f
                (rw (tick_keeps s).0 unpinned)
                (rw (tick_hand s, (tick_keeps s).1) (reach_around _ _ hand).1)
                (rw (tick_keeps s).1 inside) (rw (tick_keeps s).1 (omega arith))
                (rw (tick_hand s, (tick_keeps s).1, ← here) (reach_around _ _ hand).0)
                (rw ((tick_keeps s).1, ← here, bit.1) (omega (arith, full)))) in
            (later.0, ap (λ x. x.0) (sweep_past rounds s passes) ∙ later.1)
        | no before ↦
            let next = reach_next _ _ f d hand inside near before reach in
            let later =
              (sweep_finds rounds (d - 1) (tick s).1 f (rw (tick_keeps s).0 unpinned)
                (rw (tick_hand s, (tick_keeps s).1) (reach_around _ _ hand).1)
                (rw (tick_keeps s).1 inside) (rw (tick_keeps s).1 (omega arith))
                (rw (tick_hand s, (tick_keeps s).1) next.1)
                (rw ((tick_keeps s).1, tick_elsewhere s f before) (fewer _ d _ next.0 enough))) in
            (later.0, ap (λ x. x.0) (sweep_past rounds s passes) ∙ later.1)
      ]
    ]

sweep-unpinned :
    (rounds : ℕ) (s : PoolState) (f : FrameId)
    → (sweep rounds s).0 ≡ some f
    → get_or s.pin_counts f 0 ≡ 0
unfolding sweep
sweep-unpinned zero s f h = ground arith
sweep-unpinned (suc rounds) s f h = elim (Option-cases (tick s).0) [
  | inl passes ↦
      rw (tick_keeps s).0 at
        (sweep-unpinned rounds (tick s).1 f (ap (λ x. x.0) (sym (sweep_past rounds s passes)) ∙ h))
  | inr found ↦
      let same : some found.0 ≡ some f = sym (sweep_stops rounds s found.0 found.1) ∙ h in
      (tick-unpinned s f (found.1 ∙ same)).0
]

-- The frame that the sweep picks is not pinned.
pub find_victim-unpinned :
    (s : PoolState) (f : FrameId) → (find_victim s).0 ≡ some f → get_or s.pin_counts f 0 ≡ 0
unfolding find_victim
find_victim-unpinned s f h = sweep-unpinned (2 * length s.frame_pages) s f h

distance :
    (hand f n : ℕ) → hand < n → f < n → (d : ℕ) × (d < n) × ((hand + d ≡ f) ⊎ (hand + d ≡ f + n))
distance hand f n h inside = elim (Bool-cases (ltb f hand)) [
  | inl behind ↦ (f + n - hand, ground (arith, behind), inr (ground (arith, behind)))
  | inr ahead ↦ (f - hand, ground (arith, ahead), inl (ground (arith, ahead)))
]

two_sweeps : (n d : ℕ) (bit : Bool) → d < n → rounds_to n d bit < 2 * n
unfolding rounds_to
two_sweeps n d true h = omega arith
two_sweeps n d false h = omega arith

-- Two sweeps are enough: while the hand is inside the shard and some frame is not pinned, a
-- victim is found, and it is not pinned.
pub find_victim_finds :
    (s : PoolState) (f : FrameId)
    → s.clock_hand < length s.frame_pages
    → f < length s.frame_pages
    → get_or s.pin_counts f 0 ≡ 0
    → (g : FrameId) × ((find_victim s).0 ≡ some g) × (get_or s.pin_counts g 0 ≡ 0)
unfolding find_victim
find_victim_finds s f hand inside unpinned =
    let to = distance s.clock_hand f (length s.frame_pages) hand inside in
    let enough = two_sweeps (length s.frame_pages) to.0 (get_or s.ref_bits f false) to.1 in
    let found = sweep_finds _ to.0 s f unpinned hand inside to.1 to.2 enough in
    (found.0, found.1, find_victim-unpinned s found.0 found.1)
