-- ===== src/BufferPool/Table.antt =====
-- Lookups in the page table after its entries change, and the frames that hold no page.
use oxen_db.Prelude.{
  ℕ, zero, suc, ◌+◌, ◌≤◌, ◌<◌, ◌≡◌, ◌≢◌, refl, ap, Option, none, some, List, [], ◌∷◌, length,
  get_or, set, ◌==◌, if◌then◌else◌, arith, ==_refl,
}
use native.Mathlib.Decide.{ℕ_discrete}
use oxen_db.Page.{PageId}
use oxen_db.BTreeMap.{get}
use oxen_db.BufferPool.{FrameId, PageTable, remove, table_insert}

pub get-remove :
    (id j : PageId) (t : PageTable) → get j (remove id t) ≡ (if id == j then none else get j t)
unfolding get remove
get-remove id j [] = ground arith
get-remove id j ((k, f) ∷ t) = ground (arith, get-remove id j t)

pub get-table_insert :
    (id j : PageId) (f : FrameId) (t : PageTable)
    → get j (table_insert id f t) ≡ (if id == j then some f else get j t)
unfolding get table_insert
get-table_insert id j f t = ground (arith, get-remove id j t)

-- How often a frame is in a list of frames.
unfoldable pub occurrences : FrameId → List FrameId → ℕ
occurrences f [] = 0
occurrences f (g ∷ gs) = (if g == f then 1 else 0) + occurrences f gs

-- One for a frame that exists and holds no page.
unfoldable pub vacancy : List (Option PageId) → FrameId → ℕ
vacancy [] f = 0
vacancy (none ∷ ps) zero = 1
vacancy (some id ∷ ps) zero = 0
vacancy (p ∷ ps) (suc f) = vacancy ps f

pub vacancy-le-one : (ps : List (Option PageId)) (f : FrameId) → vacancy ps f ≤ 1
unfolding vacancy
vacancy-le-one [] f = omega arith
vacancy-le-one (none ∷ ps) zero = omega arith
vacancy-le-one (some id ∷ ps) zero = omega arith
vacancy-le-one (none ∷ ps) (suc f) = vacancy-le-one ps f
vacancy-le-one (some id ∷ ps) (suc f) = vacancy-le-one ps f

pub vacant :
    (ps : List (Option PageId)) (f : FrameId)
    → vacancy ps f ≡ 1
    → (f < length ps) × (get_or ps f none ≡ none)
unfolding vacancy get_or
vacant [] f h = absurd (omega arith)
vacant (none ∷ ps) zero h = (omega arith, refl)
vacant (some id ∷ ps) zero h = absurd (omega arith)
vacant (none ∷ ps) (suc f) h = let r = vacant ps f h in (omega arith, r.1)
vacant (some id ∷ ps) (suc f) h = let r = vacant ps f h in (omega arith, r.1)

pub occupied :
    (ps : List (Option PageId)) (f : FrameId) {id : PageId}
    → get_or ps f none ≡ some id
    → (vacancy ps f ≡ 0) × (f < length ps)
unfolding vacancy get_or
occupied [] f h = absurd (ground (arith, h))
occupied (none ∷ ps) zero h = absurd (ground (arith, h))
occupied (some id ∷ ps) zero h = (refl, omega arith)
occupied (none ∷ ps) (suc f) h = let r = occupied ps f h in (r.0, omega arith)
occupied (some id ∷ ps) (suc f) h = let r = occupied ps f h in (r.0, omega arith)

-- A frame that is not vacant holds a page.
pub not_vacant :
    (ps : List (Option PageId)) (f : FrameId)
    → f < length ps
    → vacancy ps f ≡ 0
    → (id : PageId) × (get_or ps f none ≡ some id)
unfolding vacancy get_or
not_vacant [] f h v = absurd (omega arith)
not_vacant (none ∷ ps) zero h v = absurd (omega arith)
not_vacant (some id ∷ ps) zero h v = (id, refl)
not_vacant (none ∷ ps) (suc f) h v = not_vacant ps f (omega arith) v
not_vacant (some id ∷ ps) (suc f) h v = not_vacant ps f (omega arith) v

vacancy-set-some_self :
    (ps : List (Option PageId)) (f : FrameId) (id : PageId) → vacancy (set ps f (some id)) f ≡ 0
unfolding vacancy set
vacancy-set-some_self [] f id = refl
vacancy-set-some_self (p ∷ ps) zero id = refl
vacancy-set-some_self (none ∷ ps) (suc f) id = vacancy-set-some_self ps f id
vacancy-set-some_self (some j ∷ ps) (suc f) id = vacancy-set-some_self ps f id

vacancy-set-none_self :
    (ps : List (Option PageId)) (f : FrameId) → f < length ps → vacancy (set ps f none) f ≡ 1
unfolding vacancy set
vacancy-set-none_self [] f h = absurd (omega arith)
vacancy-set-none_self (p ∷ ps) zero h = refl
vacancy-set-none_self (none ∷ ps) (suc f) h = vacancy-set-none_self ps f (omega arith)
vacancy-set-none_self (some j ∷ ps) (suc f) h = vacancy-set-none_self ps f (omega arith)

vacancy-set_ne :
    (ps : List (Option PageId)) (f g : FrameId) (p : Option PageId)
    → f ≢ g
    → vacancy (set ps f p) g ≡ vacancy ps g
unfolding vacancy set
vacancy-set_ne [] f g p h = refl
vacancy-set_ne (q ∷ ps) zero zero p h = absurd (h refl)
vacancy-set_ne (none ∷ ps) zero (suc g) none h = refl
vacancy-set_ne (none ∷ ps) zero (suc g) (some i) h = refl
vacancy-set_ne (some j ∷ ps) zero (suc g) none h = refl
vacancy-set_ne (some j ∷ ps) zero (suc g) (some i) h = refl
vacancy-set_ne (none ∷ ps) (suc f) zero p h = refl
vacancy-set_ne (some j ∷ ps) (suc f) zero p h = refl
vacancy-set_ne (none ∷ ps) (suc f) (suc g) p h = vacancy-set_ne ps f g p (λ e. h (ap suc e))
vacancy-set_ne (some j ∷ ps) (suc f) (suc g) p h = vacancy-set_ne ps f g p (λ e. h (ap suc e))

pub vacancy-set-some :
    (ps : List (Option PageId)) (f g : FrameId) (id : PageId)
    → vacancy (set ps f (some id)) g ≡ (if f == g then 0 else vacancy ps g)
vacancy-set-some ps f g id = elim (ℕ_discrete f g) [
  | yes e ↦ rw (← e, ==_refl) (vacancy-set-some_self ps f id)
  | no ne ↦ ground (arith, vacancy-set_ne ps f g (some id) ne)
]

pub vacancy-set-none :
    (ps : List (Option PageId)) (f g : FrameId)
    → f < length ps
    → vacancy (set ps f none) g ≡ (if f == g then 1 else vacancy ps g)
vacancy-set-none ps f g h = elim (ℕ_discrete f g) [
  | yes e ↦ rw (← e, ==_refl) (vacancy-set-none_self ps f h)
  | no ne ↦ ground (arith, vacancy-set_ne ps f g none ne)
]
