-- ===== src/Recovery/Refused.antt =====
-- What stops a replay: a committed image that fails its check.
use oxen_db.Prelude.{
  ◌≡◌, ◌≢◌, refl, ◌∙◌, ◌⊎◌, inl, inr, Bool-cases, true, false, List, [], ◌∷◌, ◌++◌, ◌==◌, Result,
  ok, err, Error, corruption, map_err, arith,
}
use oxen_db.Checksum.{Checksum}
use oxen_db.File.{File}
use oxen_db.Page.{Page, PageId, header_id, verify}
use oxen_db.FileHeader
use oxen_db.BTreeMap
use oxen_db.BTreeMap.{contains}
use oxen_db.Wal.Record.{WalRecord, DecodedRecord, TxnId, page_image, commit}
use oxen_db.Recovery.{committed, validate_image, take_image, collect, replay}
use oxen_db.Recovery.Laws.{has_commit, committed-has_commit}

module _ ⦃c : Checksum⦄ where
  -- The file header does not decode, or a page under its id does not verify.
  abbrev pub IsRefused : PageId → Page → Error → Type 0
  IsRefused page_id page e =
      ((page_id ≡ header_id) × (FileHeader.decode page ≡ err e))
      ⊎ ((page_id ≢ header_id) × (verify page page_id ≡ err e))

  validate_image-IsRefused :
      (page_id : PageId) (page : Page) (e : Error)
      → IsRefused page_id page e
      → validate_image page_id page ≡ err corruption
  unfolding validate_image
  validate_image-IsRefused page_id page e (inl bad) =
      let header : (page_id == header_id) ≡ true = ground (arith, bad.0) in
      rw (header, bad.1, map_err) refl
  validate_image-IsRefused page_id page e (inr bad) =
      let data_page : (page_id == header_id) ≡ false = ground (arith, bad.0) in
      rw (data_page, bad.1, map_err) refl

  map_err_outcomes :
      (m : Result (Unit {0}))
      → (map_err corruption m ≡ ok tt) ⊎ (map_err corruption m ≡ err corruption)
  map_err_outcomes (ok u) = inl refl
  map_err_outcomes (err e) = inr refl

  validate_image-outcomes :
      (page_id : PageId) (page : Page)
      → (validate_image page_id page ≡ ok tt) ⊎ (validate_image page_id page ≡ err corruption)
  unfolding validate_image
  validate_image-outcomes page_id page = elim (Bool-cases (page_id == header_id)) [
    | inl header ↦ rw header (map_err_outcomes _)
    | inr data_page ↦ rw data_page (map_err_outcomes _)
  ]

  take_image-outcomes :
      (done : List TxnId) (r : WalRecord) (latest : List (PageId × Page))
      → ((m : List (PageId × Page)) × (take_image done r latest ≡ ok m))
        ⊎ (take_image done r latest ≡ err corruption)
  unfolding take_image
  take_image-outcomes done (commit txn) latest = inl (latest, refl)
  take_image-outcomes done (page_image txn page_id page) latest =
      elim (Bool-cases (contains txn done)) [
        | inr pending ↦ inl (latest, rw pending refl)
        | inl known ↦ elim (validate_image-outcomes page_id page) [
          | inl good ↦ inl (BTreeMap.insert page_id page latest, rw (known, good) refl)
          | inr bad ↦ inr (rw (known, bad) refl)
        ]
      ]

  refused_stops :
      (done : List TxnId) (r : WalRecord) (txn : TxnId) (page_id : PageId) (page : Page) (e : Error)
      (latest : List (PageId × Page))
      → r ≡ page_image txn page_id page
      → contains txn done ≡ true
      → IsRefused page_id page e
      → take_image done r latest ≡ err corruption
  unfolding take_image
  refused_stops done r txn page_id page e latest is_image known bad =
      rw (is_image, known, validate_image-IsRefused page_id page e bad) refl

  module _ (done : List TxnId) (d : DecodedRecord) (after : List DecodedRecord)
      (stops : (latest : List (PageId × Page))
        → take_image done d.wal_record latest ≡ err corruption) where
    collect_refuses :
        (before : List DecodedRecord) (latest : List (PageId × Page))
        → collect done (before ++ (d ∷ after)) latest ≡ err corruption
    unfolding collect
    collect_refuses [] latest = rw (stops latest) refl
    collect_refuses (b ∷ bs) latest = elim (take_image-outcomes done b.wal_record latest) [
      | inl good ↦ rw good.1 (collect_refuses bs good.0)
      | inr bad ↦ rw bad refl
    ]

  -- When the log has the image of a page that its check refuses, and a commit record of the image's
  -- transaction, replay fails with `corruption` and leaves the data file as it was.
  pub replay_refuses :
      (before after : List DecodedRecord) (d : DecodedRecord) (txn : TxnId) (page_id : PageId)
      (page : Page) (e : Error) (f : File)
      → d.wal_record ≡ page_image txn page_id page
      → has_commit txn (before ++ (d ∷ after)) ≡ true
      → IsRefused page_id page e
      → replay (before ++ (d ∷ after)) f ≡ (err corruption, f)
  unfolding replay
  replay_refuses before after d txn page_id page e f is_image has bad =
      let log = before ++ (d ∷ after) in
      let known : contains txn (committed log) ≡ true = committed-has_commit txn log ∙ has in
      rw
        (collect_refuses (committed log) d after
          (λ latest.
            refused_stops (committed log) d.wal_record txn page_id page e latest is_image known bad)
          before [])
        refl
