-- ===== src/Db/Txn/Recovered.antt =====
-- A crash while a transaction is logged, the open of the log after it, and the replay: all of the
-- transaction's pages, or none.
use oxen_db.Prelude.{
  ℕ, ◌+◌, ◌^◌, ◌≤◌, ◌<◌, ◌≡◌, ◌≢◌, ◌⊎◌, inl, inr, refl, ◌∙◌, ap, Option, none, some, List, [], ◌∷◌,
  ◌++◌, length, length-append, take, take_all, take-append_le, All, All-append, All-take, Result,
  ok, arith,
}
use native.Mathlib.Decide.{dec_lt}
use oxen_db.Checksum.{Checksum}
use oxen_db.File.{File, Fate}
use oxen_db.Page.{Page, PageId}
use oxen_db.Disk.View.{page_at}
use oxen_db.Wal.Record.{WalRecord, TxnId, IsRecord, commit}
use oxen_db.Wal.Log.{Wal, OpenedWal, open_file}
use oxen_db.Wal.Log.Scan.{decoded}
use oxen_db.Wal.Log.Reopen.{log_bytes}
use oxen_db.Wal.Log.Append.{log_state}
use oxen_db.Recovery.{replay}
use oxen_db.Recovery.Laws.{or_else}
use oxen_db.Recovery.Writes.{clean, image_or}
use oxen_db.Recovery.Atomic.{
  IsImageOf, IsOfOther, newest, restored, restored_uncommitted, restored_committed,
}
use oxen_db.Recovery.Restored.{
  IsRestorable, AllRestorable, IsReplayed, replay_each, page_after, replay-replay_each,
}
use oxen_db.Db.Txn.{log}
use oxen_db.Db.Txn.Crash.{left_behind, IsRecovered, open_file-log}

module _ ⦃c : Checksum⦄ where
  -- After the crash, the log opens; the replay of its records, however often it was interrupted before,
  -- gives the data file these pages: the old ones, if logging failed, or the new ones.
  pub record IsAtomic (old new : PageId → Page) (data_file : File) (after : Result (Unit {0}) × Wal)
      : Type 0 where
    pub found : OpenedWal
    pub file : File
    pub opens : open_file (left_behind after.1) ≡ (ok found, file)
    pub pages : PageId → Page
    pub all_or_nothing :
        ((after.0 ≢ ok tt) × ((k : PageId) → pages k ≡ old k)) ⊎ ((k : PageId) → pages k ≡ new k)
    pub restores :
        (attempts : List (List Fate))
        → (let g = replay_each attempts found.records data_file in
            (r : IsReplayed found.records g.contents
              (replay found.records (clean g.contents g.synced)))
            × ((k : PageId) → page_at k r.contents ≡ pages k))

  AllRestorable-decoded :
      (n : ℕ) (rs : List WalRecord) → All IsRestorable rs → AllRestorable (decoded n rs)
  unfolding decoded
  AllRestorable-decoded n [] h = tt
  AllRestorable-decoded n (r ∷ rs) h = (h.0, AllRestorable-decoded (n + 1) rs h.1)

  pub All-decoded :
      (n : ℕ) (rs : List WalRecord) → AllRestorable (decoded n rs) → All IsRestorable rs
  unfolding decoded
  All-decoded n [] h = tt
  All-decoded n (r ∷ rs) h = (h.0, All-decoded (n + 1) rs h.1)

  abbrev pub old_page : ℕ → List WalRecord → File → PageId → Page
  old_page first rs f = page_after (decoded first rs) f.contents

  abbrev pub new_page : ℕ → List WalRecord → List WalRecord → File → PageId → Page
  new_page first rs qs f k = image_or (newest k qs) (old_page first rs f k)

  image_or_else :
      (a b : Option Page) (p : Page) → image_or (or_else a b) p ≡ image_or a (image_or b p)
  unfolding image_or or_else
  image_or_else (some a) b p = refl
  image_or_else none b p = refl

  module _ (first : ℕ) (rs qs : List WalRecord) (txn : TxnId) (f : File)
      (fresh : All (IsOfOther txn) rs) (own : All (IsImageOf txn) qs)
      (old_good : All IsRestorable rs) (new_good : All IsRestorable qs) where
    abbrev pub logged : List WalRecord
    logged = qs ++ (commit txn ∷ [])

    pub pages_cut :
        (kept : ℕ) (k : PageId)
        → kept ≤ length qs
        → page_after (decoded first (rs ++ take kept logged)) f.contents k ≡ old_page first rs f k
    unfolding restored
    pages_cut kept k cut =
        ap (λ o. image_or o (page_at k f.contents))
          (rw (take-append_le kept qs (commit txn ∷ []) cut) (
            restored_uncommitted txn first rs fresh (take kept qs) k
              (All-take (IsImageOf txn) kept qs own)))

    pub pages_whole :
        (k : PageId)
        → page_after (decoded first (rs ++ logged)) f.contents k ≡ new_page first rs qs f k
    unfolding restored
    pages_whole k =
        ap (λ o. image_or o (page_at k f.contents)) (restored_committed txn first rs fresh qs k own)
        ∙ image_or_else (newest k qs) (restored first rs k) (page_at k f.contents)

    pub found-AllRestorable : (kept : ℕ) → AllRestorable (decoded first (rs ++ take kept logged))
    found-AllRestorable kept = AllRestorable-decoded first (rs ++ take kept logged) (
        All-append IsRestorable rs (take kept logged) old_good (
          All-take IsRestorable kept logged
            (All-append IsRestorable qs (commit txn ∷ []) new_good (tt, tt))))

    recovered-IsAtomic :
        (after : Result (Unit {0}) × Wal)
        → IsRecovered first rs logged after
        → IsAtomic (old_page first rs f) (new_page first rs qs f) f after
    recovered-IsAtomic after o = record {
      found = o.found;
      file = o.file;
      opens = o.opens;
      pages = page_after o.found.records f.contents;
      all_or_nothing = elim (dec_lt (length qs) o.kept) [
        | yes whole ↦ inr (λ k.
            rw (o.finds, take_all o.kept logged (omega (arith, length-append qs (commit txn ∷ []))))
              (pages_whole k))
        | no cut ↦ elim o.all_kept [
          | inl failed ↦ inl (failed, λ k. rw o.finds (pages_cut o.kept k (omega arith)))
          | inr e ↦ absurd (omega (arith, length-append qs (commit txn ∷ [])))
        ]
      ];
      restores = λ attempts.
          replay-replay_each attempts o.found.records f (rw o.finds (found-AllRestorable o.kept));
    }

    -- Whatever calls of the log's file fail while a transaction is logged behind the records `rs`, and
    -- however often a replay fails after the crash: the log opens, and a replay whose calls succeed
    -- gives the data file either the pages that the old records give it, or those with all
    -- images of the transaction; the latter whenever logging succeeded. No old record is of the
    -- transaction, all images are valid pages, and all fields, numbers, places and the log's
    -- size fit their integers.
    pub log-IsAtomic :
        (fates : List Fate)
        → All IsRecord rs
        → All IsRecord logged
        → first + length rs + length logged < 2 ^ 64
        → length (log_bytes first (rs ++ logged)) < 2 ^ 64
        → IsAtomic
            (old_page first rs f)
            (new_page first rs qs f)
            f
            (log txn qs (log_state first rs [] fates))
    log-IsAtomic fates old new small room =
        recovered-IsAtomic (log txn qs (log_state first rs [] fates))
          (open_file-log first rs qs txn fates old new small room)
