-- ===== src/Recovery/Atomic.antt =====
-- All or nothing: what the records of one transaction, all or the first few of them, add to what
-- replay restores.
use oxen_db.Prelude.{
  ℕ, suc, ◌+◌, ◌≡◌, ◌≢◌, refl, sym, ◌∙◌, ap, Bool, true, false, ◌||◌, Option, none, some, List, [],
  ◌∷◌, ◌++◌, All, length, ◌==◌, ==_refl, if◌then◌else◌, arith,
}
use native.Mathlib.Nat.{add-zero}
use oxen_db.Page.{Page, PageId}
use oxen_db.Wal.Record.{WalRecord, DecodedRecord, TxnId, page_image, commit, txn_of, len_of}
use oxen_db.Wal.Log.Scan.{decoded}
use oxen_db.Recovery.Laws.{
  commits, has_commit, image_in, or_else, or_else_assoc, or_else-none, last_image,
}

-- A page image that the transaction logged.
abbrev pub IsImageOf : TxnId → WalRecord → Type 0
IsImageOf txn (page_image t page_id page) = t ≡ txn
IsImageOf txn (commit t) = ⊥

abbrev pub IsOfOther : TxnId → WalRecord → Type 0
IsOfOther txn r = txn_of r ≢ txn

unfoldable pub image_for : PageId → WalRecord → Option Page
image_for k (commit txn) = none
image_for k (page_image txn page_id page) = if page_id == k then some page else none

-- The last image of a page among records, committed or not.
unfoldable pub newest : PageId → List WalRecord → Option Page
newest k [] = none
newest k (r ∷ rs) = or_else (newest k rs) (image_for k r)

-- What replay restores of a page from a log with these records.
unfoldable pub restored : ℕ → List WalRecord → PageId → Option Page
restored first rs k = last_image (decoded first rs) k (decoded first rs)

decoded-append :
    (n : ℕ) (as' bs : List WalRecord)
    → decoded n (as' ++ bs) ≡ decoded n as' ++ decoded (n + length as') bs
unfolding decoded
decoded-append n [] bs = rw add-zero refl
decoded-append n (a ∷ as') bs =
    let m : n + 1 + length as' ≡ n + suc (length as') = omega arith in
    ap (◌∷◌ (record { seq = n; wal_record = a; len = len_of a }))
      (decoded-append (n + 1) as' bs ∙ ap (λ i. decoded (n + 1) as' ++ decoded i bs) m)

has_commit-append :
    (txn : TxnId) (as' bs : List DecodedRecord)
    → has_commit txn (as' ++ bs) ≡ (has_commit txn as' || has_commit txn bs)
unfolding has_commit
has_commit-append txn [] bs = refl
has_commit-append txn (a ∷ as') bs = ground (arith, has_commit-append txn as' bs)

last_image-append :
    (log : List DecodedRecord) (k : PageId) (as' bs : List DecodedRecord)
    → last_image log k (as' ++ bs) ≡ or_else (last_image log k bs) (last_image log k as')
unfolding last_image
last_image-append log k [] bs = sym (or_else-none (last_image log k bs))
last_image-append log k (a ∷ as') bs =
    ap (λ o. or_else o (image_in log k a.wal_record)) (last_image-append log k as' bs)
    ∙ or_else_assoc (last_image log k bs) (last_image log k as') (image_in log k a.wal_record)

commits_other : (txn : TxnId) (r : WalRecord) → IsOfOther txn r → commits txn r ≡ false
unfolding commits txn_of
commits_other txn (page_image t page_id page) h = refl
commits_other txn (commit t) h = ground arith

has_commit_other :
    (txn : TxnId) (n : ℕ) (rs : List WalRecord)
    → All (IsOfOther txn) rs
    → has_commit txn (decoded n rs) ≡ false
unfolding has_commit decoded
has_commit_other txn n [] h = refl
has_commit_other txn n (r ∷ rs) h =
    rw (commits_other txn r h.0) (has_commit_other txn (n + 1) rs h.1)

has_commit-images :
    (txn t : TxnId) (n : ℕ) (qs : List WalRecord)
    → All (IsImageOf txn) qs
    → has_commit t (decoded n qs) ≡ false
unfolding has_commit decoded commits
has_commit-images txn t n [] h = refl
has_commit-images txn t n (page_image u page_id page ∷ qs) h =
    has_commit-images txn t (n + 1) qs h.1
has_commit-images txn t n (commit u ∷ qs) h = absurd h.0

-- Old records count as before when the log gains records that commit no other transaction.
module _ (txn : TxnId) (log log' : List DecodedRecord) (k : PageId)
    (same : (t : TxnId) → t ≢ txn → has_commit t log ≡ has_commit t log') where
  image_in_other : (r : WalRecord) → IsOfOther txn r → image_in log k r ≡ image_in log' k r
  unfolding image_in txn_of
  image_in_other (commit t) h = refl
  image_in_other (page_image t page_id page) h = rw (same t h) refl

  last_image_other :
      (n : ℕ) (rs : List WalRecord)
      → All (IsOfOther txn) rs
      → last_image log k (decoded n rs) ≡ last_image log' k (decoded n rs)
  unfolding last_image decoded
  last_image_other n [] h = refl
  last_image_other n (r ∷ rs) h = rw (last_image_other (n + 1) rs h.1, image_in_other r h.0) refl

module _ (txn : TxnId) (log : List DecodedRecord) (k : PageId) where
  last_image_pending :
      (n : ℕ) (qs : List WalRecord)
      → has_commit txn log ≡ false
      → All (IsImageOf txn) qs
      → last_image log k (decoded n qs) ≡ none
  unfolding last_image decoded image_in or_else
  last_image_pending n [] pending h = refl
  last_image_pending n (page_image t page_id page ∷ qs) pending h =
      rw (h.0, pending, last_image_pending (n + 1) qs pending h.1) refl
  last_image_pending n (commit t ∷ qs) pending h = absurd h.0

  last_image-newest :
      (n : ℕ) (qs : List WalRecord)
      → has_commit txn log ≡ true
      → All (IsImageOf txn) qs
      → last_image log k (decoded n qs) ≡ newest k qs
  unfolding last_image decoded image_in image_for newest
  last_image-newest n [] done h = refl
  last_image-newest n (page_image t page_id page ∷ qs) done h =
      rw (h.0, done, last_image-newest (n + 1) qs done h.1) refl
  last_image-newest n (commit t ∷ qs) done h = absurd h.0

or_false : (b : Bool) → (b || false) ≡ b
or_false true = refl
or_false false = refl

-- A commit record itself has no image.
last_image-commit :
    (txn : TxnId) (log : List DecodedRecord) (k : PageId) (n : ℕ) (qs : List WalRecord)
    → last_image log k (decoded n (qs ++ (commit txn ∷ []))) ≡ last_image log k (decoded n qs)
unfolding last_image decoded image_in or_else
last_image-commit txn log k n [] = refl
last_image-commit txn log k n (q ∷ qs) =
    ap (λ o. or_else o (image_in log k q)) (last_image-commit txn log k (n + 1) qs)

module _ (txn : TxnId) (first : ℕ) (rs : List WalRecord) (fresh : All (IsOfOther txn) rs) where
  abbrev grown : List WalRecord → List DecodedRecord
  grown ps = decoded first (rs ++ ps)

  abbrev behind : List WalRecord → List DecodedRecord
  behind ps = decoded (first + length rs) ps

  has_commit-grown :
      (t : TxnId) (ps : List WalRecord)
      → has_commit t (grown ps) ≡ (has_commit t (decoded first rs) || has_commit t (behind ps))
  has_commit-grown t ps =
      ap (has_commit t) (decoded-append first rs ps)
      ∙ has_commit-append t (decoded first rs) (behind ps)

  -- New records that commit no other transaction leave the part of the old ones as it was.
  restored-append :
      (ps : List WalRecord) (k : PageId)
      → ((t : TxnId) → t ≢ txn → has_commit t (behind ps) ≡ false)
      → restored first (rs ++ ps) k
        ≡ or_else (last_image (grown ps) k (behind ps)) (restored first rs k)
  unfolding restored
  restored-append ps k none_other =
      ap (last_image (grown ps) k) (decoded-append first rs ps)
      ∙ last_image-append (grown ps) k (decoded first rs) (behind ps)
      ∙ ap (or_else (last_image (grown ps) k (behind ps))) (
          last_image_other txn (grown ps) (decoded first rs) k
            (λ t ne. has_commit-grown t ps ∙ rw (none_other t ne) (or_false _)) first rs fresh)

  -- Images of a new transaction whose commit record is not in the log restore nothing.
  pub restored_uncommitted :
      (ps : List WalRecord) (k : PageId)
      → All (IsImageOf txn) ps
      → restored first (rs ++ ps) k ≡ restored first rs k
  unfolding or_else
  restored_uncommitted ps k h =
      let m = first + length rs in
      let pending : has_commit txn (grown ps) ≡ false =
        has_commit-grown txn ps
        ∙ rw (has_commit_other txn first rs fresh, has_commit-images txn txn m ps h) refl in
      restored-append ps k (λ t ne. has_commit-images txn t m ps h)
      ∙ rw (last_image_pending txn (grown ps) k m ps pending h) refl

  has_commit-committed :
      (t : TxnId) (n : ℕ) (qs : List WalRecord)
      → All (IsImageOf txn) qs
      → has_commit t (decoded n (qs ++ (commit txn ∷ []))) ≡ (txn == t)
  unfolding has_commit decoded commits
  has_commit-committed t n [] h = or_false (txn == t)
  has_commit-committed t n (page_image u page_id page ∷ qs) h =
      has_commit-committed t (n + 1) qs h.1
  has_commit-committed t n (commit u ∷ qs) h = absurd h.0

  -- With the commit record, the images of a new transaction supersede those of the records before.
  pub restored_committed :
      (qs : List WalRecord) (k : PageId)
      → All (IsImageOf txn) qs
      → restored first (rs ++ (qs ++ (commit txn ∷ []))) k
        ≡ or_else (newest k qs) (restored first rs k)
  restored_committed qs k h =
      let ps = qs ++ (commit txn ∷ []) in
      let m = first + length rs in
      let done : has_commit txn (grown ps) ≡ true =
        has_commit-grown txn ps
        ∙ rw (has_commit_other txn first rs fresh, has_commit-committed txn m qs h) (==_refl txn) in
      restored-append ps k (λ t ne. has_commit-committed t m qs h ∙ ground arith)
      ∙ ap (λ o. or_else o (restored first rs k))
          (last_image-commit txn (grown ps) k m qs ∙ last_image-newest txn (grown ps) k m qs done h)
