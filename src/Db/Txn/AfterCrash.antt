-- ===== src/Db/Txn/AfterCrash.antt =====
-- What the log and the data file stand for after a crash while a commit logs its pages.
pub mod Survives
use oxen_db.Prelude.{
  ℕ, ◌+◌, ◌*◌, ◌^◌, ◌≤◌, ◌<◌, ◌≡◌, ◌≢◌, ◌⊎◌, inl, inr, refl, sym, ◌∙◌, ap, Bool-cases, true, false,
  Option, none, some, List, [], ◌∷◌, ◌++◌, length, length-append, length-take, take, take_all,
  take-append_le, All, All-append, All-take, Result, ok, err, ltb, ◌==◌, IsU64, if◌then◌else◌,
  arith,
}
use native.Mathlib.Decide.{dec_lt}
use oxen_db.Checksum.{Checksum}
use oxen_db.File.{File, Fate}
use oxen_db.Page.{Page, PageId, page_size, seal}
use oxen_db.FileHeader
use oxen_db.FileHeader.Laws.{decode-encode}
use oxen_db.BTreeMap
use oxen_db.BTreeMap.Laws.{IsSorted}
use oxen_db.Wal.Record.{WalRecord, DecodedRecord, TxnId, IsRecord, commit}
use oxen_db.Wal.Log.{Wal}
use oxen_db.Wal.Log.Scan.{decoded}
use oxen_db.Wal.Log.Reopen.{log_bytes}
use oxen_db.Wal.Log.Append.{log_state}
use oxen_db.Recovery.Laws.{last_image, or_else}
use oxen_db.Recovery.Writes.{clean, image_or}
use oxen_db.Recovery.Atomic.{
  IsImageOf, IsOfOther, newest, restored, restored_uncommitted, restored_committed,
}
use oxen_db.Recovery.Restored.{IsRestorable, AllRestorable, page_after}
use oxen_db.Db.{Database, Directory, Options, open_with_wal}
use oxen_db.Db.Reopened.{
  IsReached, IsDatabase, IsReopened, IsReopened-congr, open_with_wal-IsReopened,
}
use oxen_db.Db.Txn.{log, images, seal_all}
use oxen_db.Db.Txn.Visible.{AreDataPages, sealed_pages}
use oxen_db.Db.Txn.Images.{
  AllLoggable, seal_all-AllLoggable, sealed_pages-IsSorted, get-sealed_pages, newest-images,
  newest-images_header, get-positive, images-IsImageOf, images-IsRestorable, images-IsRecord,
}
use oxen_db.Db.Txn.Crash.{left_behind, IsRecovered, open_file-log}
use oxen_db.Db.Txn.Recovered.{All-decoded, pages_cut, pages_whole, found-AllRestorable}

or_else-some :
    (a b : Option Page) (page : Page) → b ≡ some page → (new : Page) × (or_else a b ≡ some new)
unfolding or_else
or_else-some (some new) b page h = (new, refl)
or_else-some none b page h = (page, h)

-- More images reach at least as far.
IsReached-more :
    (records records' : List DecodedRecord) (bs : List ℕ) (count : ℕ)
    → ((k : PageId) (page : Page)
        → last_image records k records ≡ some page
        → (new : Page) × (last_image records' k records' ≡ some new))
    → IsReached records bs count
    → IsReached records' bs count
IsReached-more records records' bs count more (inl all) = inl all
IsReached-more records records' bs count more (inr (k, page, image, most)) =
    let (new, there) = more k page image in inr (k, new, there, most)

module _ ⦃c : Checksum⦄ where
  -- What a transaction holds when it commits: data pages below its page count, in order; and when the
  -- database grew, the last page is among them.
  pub record IsTransaction (old count : ℕ) (dirty : List (PageId × Page)) : Type 0 where
    pub data_pages : AreDataPages count dirty
    pub sorted : IsSorted dirty
    pub grown : old ≤ count
    pub last :
        (old ≡ count)
        ⊎ ((k : PageId) × (page : Page) × (BTreeMap.get k dirty ≡ some page) × (count ≤ k + 1))
    pub room : count * page_size < 2 ^ 64

  module _ (first : ℕ) (rs : List WalRecord) (txn : TxnId) (old count : ℕ) (bs synced : List ℕ)
      (fresh : All (IsOfOther txn) rs) (before : IsDatabase (decoded first rs) bs old) where
    pub old_good : All IsRestorable rs
    old_good = All-decoded first rs before.good

    module _ (m : List (PageId × Page)) (loggable : AllLoggable count m) (sorted : IsSorted m)
        (more : old ≤ count) (room : count * page_size < 2 ^ 64)
        (last : (old ≡ count)
          ⊎ ((k : PageId) × (page : Page) × (BTreeMap.get k m ≡ some page) × (count ≤ k + 1))) where
      abbrev pub qs : List WalRecord
      qs = images txn count old m

      pub own : All (IsImageOf txn) qs
      own = images-IsImageOf txn count old m

      pub new_good : All IsRestorable qs
      new_good =
          images-IsRestorable txn count old m (omega (arith, before.positive, more)) room loggable

      cut_image :
          (kept : ℕ) (k : PageId) → restored first (rs ++ take kept qs) k ≡ restored first rs k
      cut_image kept k =
          restored_uncommitted txn first rs fresh (take kept qs) k
            (All-take (IsImageOf txn) kept qs own)

      -- The transaction is cut off: the database is the old one.
      pub cut-IsDatabase :
          (kept : ℕ)
          → kept ≤ length qs
          → IsDatabase (decoded first (rs ++ take kept (qs ++ (commit txn ∷ [])))) bs old
      unfolding restored
      cut-IsDatabase kept short = record {
        good =
            found-AllRestorable first rs qs txn (clean bs synced) fresh own old_good new_good kept;
        header =
            ap FileHeader.decode
              (pages_cut first rs qs txn (clean bs synced) fresh own old_good new_good kept 0 short)
            ∙ before.header;
        reached =
            IsReached-more (decoded first rs) _ bs old
              (λ k page h.
                (page, rw (take-append_le kept qs (commit txn ∷ []) short) (cut_image kept k) ∙ h))
              before.reached;
        positive = before.positive;
        room = before.room;
      }

      whole_image :
          (k : PageId)
          → restored first (rs ++ (qs ++ (commit txn ∷ []))) k
            ≡ or_else (newest k qs) (restored first rs k)
      whole_image k = restored_committed txn first rs fresh qs k own

      whole_header :
          FileHeader.decode (image_or (newest 0 qs) (page_after (decoded first rs) bs 0))
          ≡ ok (record { page_count = count })
      unfolding image_or
      whole_header = elim (Bool-cases (ltb old count)) [
        | inl grown ↦
            let nonzero : (count == 0) ≡ false = ground (arith, before.positive, more) in
            rw (newest-images_header txn count old m sorted loggable, grown)
              (decode-encode (record { page_count = count }) (omega arith) ∙ rw nonzero refl)
        | inr same ↦
            let unchanged : old ≡ count = ground (arith, same) in
            rw (newest-images_header txn count old m sorted loggable, same, ← unchanged)
              before.header
      ]

      whole-IsReached : IsReached (decoded first (rs ++ (qs ++ (commit txn ∷ [])))) bs count
      unfolding restored or_else
      whole-IsReached = elim last [
        | inl same ↦
            IsReached-more (decoded first rs) _ bs count
              (λ k page h.
                let new = or_else-some (newest k qs) (restored first rs k) page h in
                (new.0, whole_image k ∙ new.1))
              (rw (← same) before.reached)
        | inr (k, page, there, most) ↦
            let found : newest k qs ≡ some page =
              newest-images txn count old m k (get-positive count k m page loggable there) sorted
              ∙ there in
            inr (k, page, whole_image k ∙ ap (λ o. or_else o (restored first rs k)) found, most)
      ]

      -- The transaction is whole: the database has its pages.
      pub whole-IsDatabase : IsDatabase (decoded first (rs ++ (qs ++ (commit txn ∷ [])))) bs count
      whole-IsDatabase = record {
        good =
            rw (take_all (length (qs ++ (commit txn ∷ []))) (qs ++ (commit txn ∷ [])) (omega arith))
              at
              (found-AllRestorable first rs qs txn (clean bs synced) fresh own old_good new_good
                (length (qs ++ (commit txn ∷ []))));
        header =
            ap FileHeader.decode
              (pages_whole first rs qs txn (clean bs synced) fresh own old_good new_good 0)
            ∙ whole_header;
        reached = whole-IsReached;
        positive = omega (arith, before.positive, more);
        room = room;
      }

      pub cut_page :
          (kept : ℕ) (k : PageId)
          → kept ≤ length qs
          → page_after (decoded first (rs ++ take kept (qs ++ (commit txn ∷ [])))) bs k
            ≡ page_after (decoded first rs) bs k
      cut_page = pages_cut first rs qs txn (clean bs synced) fresh own old_good new_good

      pub whole_page :
          (k : PageId)
          → 0 < k
          → page_after (decoded first (rs ++ (qs ++ (commit txn ∷ [])))) bs k
            ≡ image_or (BTreeMap.get k m) (page_after (decoded first rs) bs k)
      whole_page k positive =
          pages_whole first rs qs txn (clean bs synced) fresh own old_good new_good k
          ∙ ap (λ o. image_or o (page_after (decoded first rs) bs k))
              (newest-images txn count old m k positive sorted)
