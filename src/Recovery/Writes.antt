-- ===== src/Recovery/Writes.antt =====
-- The pages that replay writes to the data file, and those that it leaves alone.
use oxen_db.Prelude.{
  ℕ, ◌+◌, length, ◌*◌, ◌^◌, ◌<◌, ◌≤◌, ◌≡◌, ◌≢◌, refl, ◌∙◌, ap, Option, none, some, false, Result,
  take, length-take, List, [], ◌∷◌, All, ok, arith, ◌==◌, ==_refl,
}
use native.Mathlib.Nat.{mod-eq_of_lt}
use native.Mathlib.Decide.{ℕ_discrete}
use oxen_db.Prelude.Op.{After, After-and_then, After-map}
use oxen_db.Checksum.{Checksum}
use oxen_db.File.{
  File, write_at, write_all_at, written, attempt, next_fate, sync, sync_with, reopen, read_with,
}
use oxen_db.Page.{Page, PageId, IsPage, page_size, file_offset}
use oxen_db.Disk.Laws.{length-write_at}
use oxen_db.Disk.Stored.{length-le-write_at}
use oxen_db.Disk.Outcomes.{attempt-After, sync-After, reopen-After}
use oxen_db.Disk.View.{page_at, page_at-write_at, page_at-write_at_other}
use oxen_db.BTreeMap
use oxen_db.BTreeMap.Laws.{IsSorted, get-Above}
use oxen_db.Recovery.{write_pages, write_latest}

-- The image of a page, or what was there.
unfoldable pub image_or : Option Page → Page → Page
image_or (some page) old = page
image_or none old = old

-- A page with its id: its place is within the 64 bits of an offset.
abbrev pub IsEntry : PageId × Page → Type 0
IsEntry (id, page) = IsPage page × (id * page_size < 2 ^ 64)

-- The contents when every write succeeds.
unfoldable pub store : List (PageId × Page) → List ℕ → List ℕ
store [] bs = bs
store ((id, page) ∷ rest) bs = store rest (write_at (id * page_size) page bs)

abbrev pub clean : List ℕ → List ℕ → File
clean contents synced = record { contents = contents; synced = synced; fates = [] }

-- Replay syncs the file when it has written a page.
unfoldable pub synced_after : List (PageId × Page) → List ℕ → List ℕ → List ℕ
unfolding store
synced_after [] contents synced = synced
synced_after (e ∷ m) contents synced = store (e ∷ m) contents

-- Stored pages replace the old ones, and every other page stays.
pub page_at-store :
    (k : PageId) (m : List (PageId × Page)) (bs : List ℕ)
    → IsSorted m
    → All IsEntry m
    → page_at k (store m bs) ≡ image_or (BTreeMap.get k m) (page_at k bs)
unfolding store image_or BTreeMap.get
page_at-store k [] bs sorted fits = refl
page_at-store k ((id, page) ∷ rest) bs sorted fits =
    let more = page_at-store k rest (write_at (id * page_size) page bs) sorted.1 fits.1 in
    elim (ℕ_discrete id k) [
      | yes e ↦
          let gone : BTreeMap.get k rest ≡ none = get-Above k id rest (omega arith) sorted.0 in
          rw (e, ==_refl) (rw (gone, e) at more ∙ page_at-write_at k page bs fits.0.0)
      | no ne ↦
          let other : (id == k) ≡ false = ground arith in
          rw (other) (
            more
            ∙ ap (image_or (BTreeMap.get k rest))
                (page_at-write_at_other id page bs k ne (omega (arith, fits.0.0))))
    ]

pub length-le-store : (m : List (PageId × Page)) (bs : List ℕ) → length bs ≤ length (store m bs)
unfolding store
length-le-store [] bs = omega arith
length-le-store ((id, page) ∷ rest) bs =
    let bs' = write_at (id * page_size) page bs in
    omega (arith, length-le-store rest bs', length-le-write_at (id * page_size) page bs)

-- The file reaches to the end of every page that is stored.
pub store-covers :
    (k : PageId) (m : List (PageId × Page)) (bs : List ℕ) {page : Page}
    → All IsEntry m
    → BTreeMap.get k m ≡ some page
    → k * page_size + page_size ≤ length (store m bs)
unfolding store BTreeMap.get
store-covers k [] bs {page = last} fits h = absurd (ground arith)
store-covers k ((id, page) ∷ rest) bs {page = last} fits h =
    let bs' = write_at (id * page_size) page bs in
    elim (ℕ_discrete id k) [
      | yes e ↦
          omega
            (arith, e, fits.0.0, length-write_at (id * page_size) page bs, length-le-store rest bs')
      | no ne ↦ store-covers k rest bs' {page = last} fits.1 (ground (arith, h))
    ]

-- One page that is written, whether the write succeeds or fails.
write_page-After :
    (k id : PageId) (page : Page) (f : File)
    → IsEntry (id, page)
    → id ≢ k
    → After
        (write_all_at page (file_offset id) f)
        (λ _ g. page_at k g.contents ≡ page_at k f.contents)
        (λ g. page_at k g.contents ≡ page_at k f.contents)
unfolding write_all_at written file_offset
write_page-After k id page f fits ne = rw (mod-eq_of_lt fits.1) (
    After-map (write_all_at page (id * page_size) f) _ _ _ _
      (attempt-After (written page (id * page_size)) (next_fate f.fates) f)
      (λ _ g e.
        ap (page_at k) e ∙ page_at-write_at_other id page f.contents k ne (omega (arith, fits.0)))
      (λ g e.
        ap (page_at k) e.1
        ∙ page_at-write_at_other id (take e.0 page) f.contents k ne
            (omega (arith, fits.0, length-take e.0 page))))

module _ ⦃c : Checksum⦄ where
  pub write_pages-store :
      (m : List (PageId × Page)) (contents synced : List ℕ)
      → All IsEntry m
      → write_pages m (clean contents synced) ≡ (ok tt, clean (store m contents) synced)
  unfolding write_pages store write_all_at attempt written next_fate file_offset
  write_pages-store [] contents synced fits = refl
  write_pages-store ((id, page) ∷ rest) contents synced fits =
      rw (mod-eq_of_lt fits.0.1)
        (write_pages-store rest (write_at (id * page_size) page contents) synced fits.1)

  -- Whatever writes fail, a page that is not among those written stays.
  pub write_pages-After :
      (k : PageId) (m : List (PageId × Page)) (f : File)
      → All IsEntry m
      → BTreeMap.get k m ≡ none
      → After
          (write_pages m f)
          (λ _ g. page_at k g.contents ≡ page_at k f.contents)
          (λ g. page_at k g.contents ≡ page_at k f.contents)
  unfolding write_pages BTreeMap.get
  write_pages-After k [] f fits h = refl
  write_pages-After k ((id, page) ∷ rest) f fits h = elim (ℕ_discrete id k) [
    | yes e ↦ absurd (ground (arith, e, h))
    | no ne ↦
        After-and_then (write_all_at page (file_offset id) f) _ _ _ _
          (write_page-After k id page f fits.0 ne)
          (λ _ g same.
            After-map (write_pages rest g) _ _ _ _
              (write_pages-After k rest g fits.1 (ground (arith, h))) (λ _ x e. e ∙ same)
              (λ x e. e ∙ same))
  ]

  pub write_latest-store :
      (m : List (PageId × Page)) (contents synced : List ℕ)
      → All IsEntry m
      → write_latest m (clean contents synced)
        ≡ (ok tt, clean (store m contents) (synced_after m contents synced))
  unfolding write_latest reopen read_with next_fate sync sync_with store synced_after
  write_latest-store [] contents synced fits = refl
  write_latest-store (e ∷ m) contents synced fits =
      rw (write_pages-store (e ∷ m) contents synced fits) refl

  unchanged :
      {A : Type 0} (k : PageId) (f : File) (m : Result A × File)
      → After m (λ _ g. g.contents ≡ f.contents) (λ g. g.contents ≡ f.contents)
      → After m
          (λ _ g. page_at k g.contents ≡ page_at k f.contents)
          (λ g. page_at k g.contents ≡ page_at k f.contents)
  unchanged k f m h = After-map m _ _ _ _ h (λ _ g e. ap (page_at k) e) (λ g e. ap (page_at k) e)

  pub write_latest-After :
      (k : PageId) (m : List (PageId × Page)) (f : File)
      → All IsEntry m
      → BTreeMap.get k m ≡ none
      → After
          (write_latest m f)
          (λ _ g. page_at k g.contents ≡ page_at k f.contents)
          (λ g. page_at k g.contents ≡ page_at k f.contents)
  unfolding write_latest
  write_latest-After k [] f fits h = refl
  write_latest-After k (e ∷ m) f fits h =
      After-and_then (reopen f) _ _ _ _ (unchanged k f (reopen f) (reopen-After f)) (λ _ g same.
        After-and_then (write_pages (e ∷ m) g) _ _ _ _
          (After-map (write_pages (e ∷ m) g) _ _ _ _ (write_pages-After k (e ∷ m) g fits h)
            (λ _ x w. w ∙ same) (λ x w. w ∙ same))
          (λ _ x same'.
            After-map (sync x) _ _ _ _ (unchanged k x (sync x) (sync-After x)) (λ _ y w. w ∙ same')
              (λ y w. w ∙ same')))
