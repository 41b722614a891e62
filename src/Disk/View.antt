-- ===== src/Disk/View.antt =====
-- The data file as a map from page ids to pages. Bytes behind the end of the file read as zeros,
-- the way a write behind the end fills the gap.
use oxen_db.Prelude.{
  ℕ, zero, suc, ◌+◌, ◌*◌, ◌≤◌, ◌≡◌, ◌≢◌, refl, sym, ap, ◌∙◌, List, [], ◌∷◌, ◌++◌, length, take,
  drop, drop-nil, length-drop, arith,
}
use native.Mathlib.Decide.{dec_lt}
use oxen_db.File.{write_at}
use oxen_db.Page.{Page, PageId, page_size}
use oxen_db.Disk.Laws.{drop-write_at}
use oxen_db.Disk.Stored.{Stored, range_after}

-- The first `n` bytes, with zeros where there are fewer.
unfoldable pub padded : ℕ → List ℕ → List ℕ
padded zero bs = []
padded (suc n) [] = 0 ∷ padded n []
padded (suc n) (b ∷ bs) = b ∷ padded n bs

-- What the file holds at a page's place.
unfoldable pub page_at : PageId → List ℕ → Page
page_at id bs = padded page_size (drop (id * page_size) bs)

pub padded-append : (src rest : List ℕ) → padded (length src) (src ++ rest) ≡ src
unfolding padded
padded-append [] rest = refl
padded-append (b ∷ src) rest = ap (◌∷◌ b) (padded-append src rest)

pub padded-take : (n : ℕ) (bs : List ℕ) → n ≤ length bs → padded n bs ≡ take n bs
unfolding padded take
padded-take zero bs h = refl
padded-take (suc n) [] h = absurd (omega arith)
padded-take (suc n) (b ∷ bs) h = ap (◌∷◌ b) (padded-take n bs (omega arith))

padded-write_at :
    (n at : ℕ) (src bs : List ℕ) → n ≤ at → padded n (write_at at src bs) ≡ padded n bs
unfolding padded write_at
padded-write_at zero at src bs h = refl
padded-write_at (suc n) zero src bs h = absurd (omega arith)
padded-write_at (suc n) (suc at) src [] h = ap (◌∷◌ 0) (padded-write_at n at src [] (omega arith))
padded-write_at (suc n) (suc at) src (b ∷ bs) h =
    ap (◌∷◌ b) (padded-write_at n at src bs (omega arith))

padded_before :
    (k n at : ℕ) (src bs : List ℕ)
    → k + n ≤ at
    → padded n (drop k (write_at at src bs)) ≡ padded n (drop k bs)
unfolding drop write_at
padded_before zero n at src bs h = padded-write_at n at src bs (omega arith)
padded_before (suc k) n zero src bs h = absurd (omega arith)
padded_before (suc k) n (suc at) src [] h =
    padded_before k n at src [] (omega arith) ∙ ap (padded n) (drop-nil k)
padded_before (suc k) n (suc at) src (b ∷ bs) h = padded_before k n at src bs (omega arith)

module _ (id : PageId) (src bs : List ℕ) where
  -- A page that is written to its place is found there.
  pub page_at-write_at :
      length src ≡ page_size → page_at id (write_at (id * page_size) src bs) ≡ src
  unfolding page_at
  page_at-write_at h = rw (drop-write_at (id * page_size) src bs, ← h) (padded-append src _)

  -- A write of at most a page changes no other page.
  pub page_at-write_at_other :
      (j : PageId)
      → id ≢ j
      → length src ≤ page_size
      → page_at j (write_at (id * page_size) src bs) ≡ page_at j bs
  unfolding page_at
  page_at-write_at_other j ne short = elim (dec_lt id j) [
    | yes below ↦
        ap (padded page_size) (range_after (j * page_size) (id * page_size) src bs (omega arith))
    | no above ↦ padded_before (j * page_size) page_size (id * page_size) src bs (omega arith)
  ]

-- What is stored is what the view shows.
pub page_at-Stored :
    (bs : List ℕ) (id : PageId) (page : Page) → Stored bs id page → page_at id bs ≡ page
unfolding page_at
page_at-Stored bs id page s =
    padded-take page_size _ (omega (arith, s.covers, length-drop (id * page_size) bs)) ∙ s.bytes

pub Stored-page_at :
    (bs : List ℕ) (id : PageId)
    → id * page_size + page_size ≤ length bs
    → Stored bs id (page_at id bs)
unfolding page_at
Stored-page_at bs id covers = record {
  covers = covers;
  bytes = sym (padded-take page_size _ (omega (arith, covers, length-drop (id * page_size) bs)));
}

pub page_at_first : (bs : List ℕ) → page_size ≤ length bs → page_at 0 bs ≡ take page_size bs
unfolding page_at drop
page_at_first bs h = padded-take page_size bs h
