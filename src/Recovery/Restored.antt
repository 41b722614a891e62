-- ===== src/Recovery/Restored.antt =====
-- The data file after a replay, and after replays that were interrupted.
use oxen_db.Prelude.{
  ℕ, ◌+◌, ◌*◌, ◌≤◌, ◌⊎◌, ◌≡◌, refl, ◌∙◌, ap, Option, none, some, List, [], ◌∷◌, All, length, ◌-◌,
  ok, Result, inl, inr, Bool-cases,
}
use oxen_db.Prelude.Op.{After, After-and_then, After-state}
use oxen_db.Checksum.{Checksum}
use oxen_db.File.{File, Fate}
use oxen_db.Page.{Page, PageId, page_size}
use oxen_db.Disk.View.{page_at}
use oxen_db.BTreeMap
use oxen_db.BTreeMap.{contains}
use oxen_db.BTreeMap.Laws.{IsSorted, insert-IsSorted, All-insert}
use oxen_db.Wal.Record.{WalRecord, DecodedRecord, TxnId, page_image, commit}
use oxen_db.Recovery.{
  RecoveryStats, committed, all_txns, validate_image, take_image, collect, replay,
}
use oxen_db.Recovery.Laws.{last_image, collect-committed}
use oxen_db.Recovery.Writes.{
  IsEntry, clean, store, synced_after, image_or, page_at-store, length-le-store, store-covers,
  write_latest-store, write_latest-After,
}
use oxen_db.Recovery.{write_latest}

image_or_congr : (o : Option Page) (a b : Page) → (o ≡ none → a ≡ b) → image_or o a ≡ image_or o b
unfolding image_or
image_or_congr (some page) a b h = refl
image_or_congr none a b h = h refl

-- The newest committed image of a page, or what the file has.
abbrev pub page_after : List DecodedRecord → List ℕ → PageId → Page
page_after records before k = image_or (last_image records k records) (page_at k before)

module _ ⦃c : Checksum⦄ where
  -- A record that replay can restore: the image is a valid page for its place.
  abbrev pub IsRestorable : WalRecord → Type 0
  IsRestorable (page_image txn page_id page) =
      IsEntry (page_id, page) × (validate_image page_id page ≡ ok tt)
  IsRestorable (commit txn) = Unit {0}

  abbrev pub AllRestorable : List DecodedRecord → Type 0
  AllRestorable ds = All (λ d. IsRestorable d.wal_record) ds

  abbrev IsLatest : List (PageId × Page) → Type 0
  IsLatest m = IsSorted m × All IsEntry m

  take_image-IsLatest :
      (done : List TxnId) (r : WalRecord) (latest : List (PageId × Page))
      → IsRestorable r
      → IsLatest latest
      → (m : List (PageId × Page)) × (take_image done r latest ≡ ok m) × IsLatest m
  unfolding take_image
  take_image-IsLatest done (commit txn) latest good l = (latest, refl, l)
  take_image-IsLatest done (page_image txn page_id page) latest good l =
      elim (Bool-cases (contains txn done)) [
        | inl present ↦
            rw (present, good.1)
              (
                BTreeMap.insert page_id page latest,
                refl,
                (
                  insert-IsSorted page_id page latest l.0,
                  All-insert IsEntry page_id page latest good.0 l.1,
                ),
              )
        | inr pending ↦ rw pending (latest, refl, l)
      ]

  collect-IsLatest :
      (done : List TxnId) (ds : List DecodedRecord) (latest : List (PageId × Page))
      → AllRestorable ds
      → IsLatest latest
      → (m : List (PageId × Page)) × (collect done ds latest ≡ ok m) × IsLatest m
  unfolding collect
  collect-IsLatest done [] latest good l = (latest, refl, l)
  collect-IsLatest done (d ∷ ds) latest good l =
      let (m, taken, l') = take_image-IsLatest done d.wal_record latest good.0 l in
      rw taken (collect-IsLatest done ds m good.1 l')

  -- What replay collects.
  record Collected (records : List DecodedRecord) : Type 0 where
    latest : List (PageId × Page)
    collects : collect (committed records) records [] ≡ ok latest
    sorted : IsSorted latest
    entries : All IsEntry latest
    newest : (k : PageId) → BTreeMap.get k latest ≡ last_image records k records

  collected : (records : List DecodedRecord) → AllRestorable records → Collected records
  collected records good =
      let (m, e, l) = collect-IsLatest (committed records) records [] good (tt, tt) in
      record {
        latest = m;
        collects = e;
        sorted = l.0;
        entries = l.1;
        newest = λ k. collect-committed records m k e;
      }

  -- A replay that went through, with no failure ahead: of every page the file has the newest
  -- committed image, or what was there; it reaches to the end of every page with an image; and either
  -- all of it is synced, or nothing was written.
  pub record IsReplayed (records : List DecodedRecord) (before : List ℕ)
      (after : Result RecoveryStats × File) : Type 0 where
    pub stats : RecoveryStats
    pub contents : List ℕ
    pub synced : List ℕ
    pub result : after ≡ (ok stats, clean contents synced)
    pub pages : (k : PageId) → page_at k contents ≡ page_after records before k
    pub longer : length before ≤ length contents
    pub covered :
        (k : PageId) (page : Page)
        → last_image records k records ≡ some page
        → k * page_size + page_size ≤ length contents
    pub durable : (synced ≡ contents) ⊎ (contents ≡ before)

  synced_or_same :
      (m : List (PageId × Page)) (contents synced : List ℕ)
      → (synced_after m contents synced ≡ store m contents) ⊎ (store m contents ≡ contents)
  unfolding synced_after store
  synced_or_same [] contents synced = inr refl
  synced_or_same (e ∷ m) contents synced = inl refl

  -- While the calls of the file succeed and every image of the records is a valid page for a place
  -- within 64 bits, replay succeeds. Of every page the data file then has the newest image that a
  -- committed transaction logged, or else what it had, and what was written is synced.
  pub replay-clean :
      (records : List DecodedRecord) (contents synced : List ℕ)
      → AllRestorable records
      → IsReplayed records contents (replay records (clean contents synced))
  unfolding replay
  replay-clean records contents synced good =
      let got = collected records good in
      record {
        stats = record {
          committed_txns = length (committed records);
          incomplete_txns = length (all_txns records) - length (committed records);
          pages_restored = length got.latest;
        };
        contents = store got.latest contents;
        synced = synced_after got.latest contents synced;
        result = rw (got.collects, write_latest-store got.latest contents synced got.entries) refl;
        pages = λ k.
            page_at-store k got.latest contents got.sorted got.entries
            ∙ ap (λ o. image_or o (page_at k contents)) (got.newest k);
        longer = length-le-store got.latest contents;
        covered = λ k page e. store-covers k got.latest contents got.entries (got.newest k ∙ e);
        durable = synced_or_same got.latest contents synced;
      }

  -- Whatever calls of the file fail, replay changes no page that has no committed image, when every
  -- image of the records is a valid page for a place within 64 bits.
  pub replay-untouched :
      (records : List DecodedRecord) (f : File) (k : PageId)
      → AllRestorable records
      → last_image records k records ≡ none
      → After
          (replay records f)
          (λ _ g. page_at k g.contents ≡ page_at k f.contents)
          (λ g. page_at k g.contents ≡ page_at k f.contents)
  unfolding replay
  replay-untouched records f k good h =
      let got = collected records good in
      rw got.collects (
        After-and_then (write_latest got.latest f) _ _ _ _
          (write_latest-After k got.latest f got.entries (got.newest k ∙ h)) (λ _ g same. same))

  -- The data file after replays with these outcomes of their calls, one after the other.
  unfoldable pub replay_each : List (List Fate) → List DecodedRecord → File → File
  replay_each [] records f = f
  replay_each (fates ∷ more) records f =
      replay_each more records (replay records (record f { fates = fates })).1

  replay_each-untouched :
      (attempts : List (List Fate)) (records : List DecodedRecord) (f : File) (k : PageId)
      → AllRestorable records
      → last_image records k records ≡ none
      → page_at k (replay_each attempts records f).contents ≡ page_at k f.contents
  unfolding replay_each
  replay_each-untouched [] records f k good h = refl
  replay_each-untouched (fates ∷ more) records f k good h =
      let g = record f { fates = fates } in
      replay_each-untouched more records (replay records g).1 k good h
      ∙ After-state (replay records g) _ (replay-untouched records g k good h)

  -- Recovery may be repeated: after any replays of the records, each of which may have failed at any
  -- call, one whose calls succeed leaves the data file with the pages that it would have
  -- had without them, when every image is a valid page for a place within 64 bits.
  pub replay-replay_each :
      (attempts : List (List Fate)) (records : List DecodedRecord) (f : File)
      → AllRestorable records
      → (let g = replay_each attempts records f in
          (r : IsReplayed records g.contents (replay records (clean g.contents g.synced)))
          × ((k : PageId) → page_at k r.contents ≡ page_after records f.contents k))
  replay-replay_each attempts records f good =
      let g = replay_each attempts records f in
      let r = replay-clean records g.contents g.synced good in
      (r, λ k. r.pages k ∙ image_or_congr _ _ _ (replay_each-untouched attempts records f k good))
