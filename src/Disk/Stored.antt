-- ===== src/Disk/Stored.antt =====
-- Which page the data file stores at a place, and what writes do to the pages at other places.
use oxen_db.Prelude.{
  ℕ, zero, suc, ◌+◌, ◌*◌, ◌≤◌, ◌≡◌, ◌≢◌, refl, sym, ap, ◌∙◌, List, [], ◌∷◌, ◌++◌, length, take,
  drop, take-append, drop-nil, length-append, length-drop, arith,
}
use native.Mathlib.Decide.{dec_lt}
use oxen_db.File.{write_at}
use oxen_db.Page.{Page, PageId, page_size}
use oxen_db.Disk.Laws.{drop-write_at, length-write_at}

-- The file has the bytes of the page at the page's place.
pub record Stored (bs : List ℕ) (id : PageId) (page : Page) : Type 0 where
  pub covers : id * page_size + page_size ≤ length bs
  pub bytes : take page_size (drop (id * page_size) bs) ≡ page

pub length-le-write_at : (at : ℕ) (src bs : List ℕ) → length bs ≤ length (write_at at src bs)
unfolding write_at
length-le-write_at zero src bs =
    omega (arith, length-append src (drop (length src) bs), length-drop (length src) bs)
length-le-write_at (suc at) src [] = omega arith
length-le-write_at (suc at) src (b ∷ bs) = omega (arith, length-le-write_at at src bs)

take-write_at_before :
    (n at : ℕ) (src bs : List ℕ) → n ≤ at → n ≤ length bs → take n (write_at at src bs) ≡ take n bs
unfolding take write_at
take-write_at_before zero at src bs h k = refl
take-write_at_before (suc n) zero src bs h k = absurd (omega arith)
take-write_at_before (suc n) (suc at) src [] h k = absurd (omega arith)
take-write_at_before (suc n) (suc at) src (b ∷ bs) h k =
    ap (◌∷◌ b) (take-write_at_before n at src bs (omega arith) (omega arith))

-- A range that ends before the write.
range_before :
    (k n at : ℕ) (src bs : List ℕ)
    → k + n ≤ at
    → k + n ≤ length bs
    → take n (drop k (write_at at src bs)) ≡ take n (drop k bs)
unfolding drop write_at
range_before zero n at src bs h l = take-write_at_before n at src bs (omega arith) (omega arith)
range_before (suc k) n zero src bs h l = absurd (omega arith)
range_before (suc k) n (suc at) src [] h l = absurd (omega arith)
range_before (suc k) n (suc at) src (b ∷ bs) h l =
    range_before k n at src bs (omega arith) (omega arith)

drop_past :
    (k : ℕ) (src bs : List ℕ) → length src ≤ k → drop k (src ++ drop (length src) bs) ≡ drop k bs
unfolding drop
drop_past k [] bs h = refl
drop_past zero (x ∷ src) bs h = absurd (omega arith)
drop_past (suc k) (x ∷ src) [] h =
    ap (λ t. drop k (src ++ t)) (sym (drop-nil (length src)))
    ∙ drop_past k src [] (omega arith)
    ∙ drop-nil k
drop_past (suc k) (x ∷ src) (b ∷ bs) h = drop_past k src bs (omega arith)

-- A range that starts behind the write.
pub range_after :
    (k at : ℕ) (src bs : List ℕ) → at + length src ≤ k → drop k (write_at at src bs) ≡ drop k bs
unfolding drop write_at
range_after k zero src bs h = drop_past k src bs (omega arith)
range_after zero (suc at) src bs h = absurd (omega arith)
range_after (suc k) (suc at) src [] h = range_after k at src [] (omega arith) ∙ drop-nil k
range_after (suc k) (suc at) src (b ∷ bs) h = range_after k at src bs (omega arith)

module _ (id : PageId) (src bs : List ℕ) where
  -- What is written at a page's place is stored there.
  pub Stored-write_at : length src ≡ page_size → Stored (write_at (id * page_size) src bs) id src
  Stored-write_at h = record {
    covers = omega (arith, length-write_at (id * page_size) src bs);
    bytes = rw (drop-write_at (id * page_size) src bs, ← h) (take-append src _);
  }

  -- A write of at most a page at a page's place keeps every other page.
  pub Stored-write_at_other :
      (j : PageId) (page : Page)
      → id ≢ j
      → length src ≤ page_size
      → Stored bs j page
      → Stored (write_at (id * page_size) src bs) j page
  Stored-write_at_other j page ne short s = record {
    covers = omega (arith, s.covers, length-le-write_at (id * page_size) src bs);
    bytes = elim (dec_lt id j) [
      | yes below ↦
          ap (take page_size) (range_after (j * page_size) (id * page_size) src bs (omega arith))
          ∙ s.bytes
      | no above ↦
          range_before (j * page_size) page_size (id * page_size) src bs (omega arith) s.covers
          ∙ s.bytes
    ];
  }
