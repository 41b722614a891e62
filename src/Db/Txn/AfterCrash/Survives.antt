-- ===== src/Db/Txn/AfterCrash/Survives.antt =====
-- A crash while a commit logs its pages, and the open of the database after it.
use oxen_db.Prelude.{
  ℕ, ◌+◌, ◌*◌, ◌^◌, ◌≤◌, ◌<◌, ◌≡◌, ◌≢◌, ◌⊎◌, inl, inr, some, List, [], ◌∷◌, ◌++◌, length,
  length-append, length-take, take, take_all, All, All-append, Result, ok, IsU64, arith,
}
use native.Mathlib.Decide.{dec_lt}
use oxen_db.Checksum.{Checksum}
use oxen_db.File.{Fate}
use oxen_db.Page.{Page, PageId, page_size, seal}
use oxen_db.BTreeMap
use oxen_db.BTreeMap.Laws.{IsSorted}
use oxen_db.Wal.Record.{WalRecord, TxnId, IsRecord, commit}
use oxen_db.Wal.Log.{Wal}
use oxen_db.Wal.Log.Scan.{decoded}
use oxen_db.Wal.Log.Reopen.{log_bytes}
use oxen_db.Wal.Log.Append.{log_state}
use oxen_db.Recovery.Writes.{clean, image_or}
use oxen_db.Recovery.Atomic.{IsOfOther}
use oxen_db.Recovery.Restored.{page_after}
use oxen_db.Db.{Database, Directory, Options, open_with_wal}
use oxen_db.Db.Reopened.{IsDatabase, IsReopened, IsReopened-congr, open_with_wal-IsReopened}
use oxen_db.Db.Txn.{log, images, seal_all}
use oxen_db.Db.Txn.Visible.{sealed_pages}
use oxen_db.Db.Txn.Cache.{Call, AreReady, AreReady-le}
use oxen_db.Db.Txn.Images.{
  AllLoggable, seal_all-AllLoggable, sealed_pages-IsSorted, get-sealed_pages, images-IsRecord,
}
use oxen_db.Db.Txn.Crash.{left_behind, IsRecovered, open_file-log}
use oxen_db.Db.Txn.AfterCrash.{
  IsTransaction, cut-IsDatabase, cut_page, whole-IsDatabase, whole_page,
}

module _ ⦃c : Checksum⦄ where
  -- The database that a new process opens: the old one, unless logging succeeded, or the one with
  -- the pages `m`.
  abbrev pub SurvivesCrash :
      (first : ℕ) (rs : List WalRecord) (bs : List ℕ) (old count : ℕ) (m : List (PageId × Page))
      → List Call
      → Result (Unit {0})
      → Result Database × Directory
      → Type 0
  SurvivesCrash first rs bs old count m cs logged reopened =
      let before = page_after (decoded first rs) bs in
      ((logged ≢ ok tt) × (next : ℕ) × IsReopened cs old before next reopened)
      ⊎ ((next : ℕ) × IsReopened cs count (λ k. image_or (BTreeMap.get k m) (before k)) next
            reopened)

  module _ (first : ℕ) (rs : List WalRecord) (txn : TxnId) (old count : ℕ) (bs synced : List ℕ)
      (fresh : All (IsOfOther txn) rs) (before : IsDatabase (decoded first rs) bs old) where
    module _ (m : List (PageId × Page)) (loggable : AllLoggable count m) (sorted : IsSorted m)
        (more : old ≤ count) (room : count * page_size < 2 ^ 64)
        (last : (old ≡ count)
          ⊎ ((k : PageId) × (page : Page) × (BTreeMap.get k m ≡ some page) × (count ≤ k + 1))) where
      abbrev qs : List WalRecord
      qs = images txn count old m

      reopened :
          (options : Options) (dir : Directory) (cs : List Call) (after : Result (Unit {0}) × Wal)
          → 0 < options.buffer_pool_pages
          → AreReady old cs
          → first + length rs + length (qs ++ (commit txn ∷ [])) < 2 ^ 64
          → IsRecovered first rs (qs ++ (commit txn ∷ [])) after
          → SurvivesCrash first rs bs old count m cs after.0
              (open_with_wal (clean bs synced) (left_behind after.1) options dir)
      reopened options dir cs after frames ready small o =
          let logged = qs ++ (commit txn ∷ []) in
          let found = rs ++ take o.kept logged in
          let fits : first + length found < 2 ^ 64 =
            omega (arith, length-append rs (take o.kept logged), length-take o.kept logged) in
          let opens = rw o.file_is at o.opens in
          elim (dec_lt (length qs) o.kept) [
            | yes whole ↦
                let all : take o.kept logged ≡ logged =
                  take_all o.kept logged (omega (arith, length-append qs (commit txn ∷ []))) in
                inr (
                  first + length found,
                  IsReopened-congr cs count (page_after o.found.records bs) _ (first + length found)
                      _
                      (λ k positive _.
                        rw (o.finds, all)
                          (whole_page first rs txn old count bs synced fresh before m loggable
                            sorted more room last k positive))
                      (open_with_wal-IsReopened first found bs synced o.synced count
                        (left_behind after.1) o.found options dir cs opens o.log_is fits
                        (rw (o.finds, all)
                          (whole-IsDatabase first rs txn old count bs synced fresh before m loggable
                            sorted more room last))
                        frames (AreReady-le old count cs more ready)),
                )
            | no cut ↦ elim o.all_kept [
              | inr e ↦ absurd (omega (arith, length-append qs (commit txn ∷ [])))
              | inl failed ↦ inl (
                failed,
                first + length found,
                IsReopened-congr cs old (page_after o.found.records bs) _ (first + length found) _
                    (λ k _ _. rw o.finds (
                      cut_page first rs txn old count bs synced fresh before m loggable sorted more
                        room last o.kept k (omega arith)))
                    (open_with_wal-IsReopened first found bs synced o.synced old
                      (left_behind after.1) o.found options dir cs opens o.log_is fits
                      (rw o.finds (
                        cut-IsDatabase first rs txn old count bs synced fresh before m loggable
                          sorted more room last o.kept (omega arith)))
                      frames ready),
              )
            ]
          ]

  sealed_last :
      (old count : ℕ) (dirty : List (PageId × Page))
      → IsTransaction old count dirty
      → (old ≡ count)
        ⊎ ((k : PageId) × (page : Page) × (BTreeMap.get k (sealed_pages dirty) ≡ some page)
            × (count ≤ k + 1))
  sealed_last old count dirty t = elim t.last [
    | inl same ↦ inl same
    | inr (k, page, there, most) ↦ inr (k, seal page, get-sealed_pages k dirty page there, most)
  ]

  -- Whatever calls of the log's file fail while a commit logs its sealed pages, a new process opens the
  -- database: with its old page count and pages, which is possible only when logging failed, or with
  -- the new count and the transaction's pages in the place of the old ones; its cache answers
  -- the calls `cs` by them. The old records and the data file stand for a database, no old record is
  -- of this transaction, the transaction's pages are data pages below its page count, in order, and the
  -- last page is among them when the database grew, their bytes fit 64 bits, the file calls of the
  -- opening succeed, the pool has a frame, the pages that `cs` install are sealed, have their own id
  -- and lie within the old page count, and all fields, numbers and the log's size fit their integers.
  pub log-SurvivesCrash :
      (first : ℕ) (rs : List WalRecord) (txn : TxnId) (old count : ℕ) (bs synced : List ℕ)
      (dirty sealed : List (PageId × Page)) (fates : List Fate) (options : Options)
      (dir : Directory) (cs : List Call)
      → All IsRecord rs
      → All (IsOfOther txn) rs
      → IsDatabase (decoded first rs) bs old
      → IsTransaction old count dirty
      → seal_all dirty ≡ ok sealed
      → IsU64 txn
      → first + length rs + length (images txn count old sealed ++ (commit txn ∷ [])) < 2 ^ 64
      → length (log_bytes first (rs ++ (images txn count old sealed ++ (commit txn ∷ [])))) < 2 ^ 64
      → 0 < options.buffer_pool_pages
      → AreReady old cs
      → (let after = log txn (images txn count old sealed) (log_state first rs [] fates) in
          SurvivesCrash first rs bs old count sealed cs after.0
            (open_with_wal (clean bs synced) (left_behind after.1) options dir))
  log-SurvivesCrash first rs txn old count bs synced dirty sealed fates options dir cs fits fresh
        before t e small_txn small room frames ready =
      let (same, loggable) = seal_all-AllLoggable count dirty sealed t.data_pages e in
      let qs = images txn count old sealed in
      let good : AllLoggable count sealed = rw same loggable in
      reopened first rs txn old count bs synced fresh before sealed good
        (rw same (sealed_pages-IsSorted dirty t.sorted)) t.grown t.room
        (rw same (sealed_last old count dirty t)) options dir cs
        (log txn qs (log_state first rs [] fates)) frames ready small
        (open_file-log first rs qs txn fates fits
          (All-append IsRecord qs (commit txn ∷ [])
            (images-IsRecord txn count old sealed (omega (arith, before.positive, t.grown)) t.room
              small_txn good)
            (small_txn, tt))
          small room)
