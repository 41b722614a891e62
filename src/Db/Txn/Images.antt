-- ===== src/Db/Txn/Images.antt =====
-- The records of a commit: which pages they restore, and that they can be logged and restored.
use oxen_db.Prelude.{
  ℕ, ◌*◌, ◌^◌, ◌<◌, ◌≡◌, inl, inr, refl, ◌∙◌, Bool-cases, false, none, some, List, [], ◌∷◌, All,
  Result-cases, ok, ltb, ◌==◌, map_err, IsU64, if◌then◌else◌, arith,
}
use oxen_db.Checksum.{Checksum}
use oxen_db.Page.{Page, PageId, PageHeader, IsPage, page_size, seal, verify, header_id}
use oxen_db.Page.Laws.{seal-IsPage}
use oxen_db.FileHeader
use oxen_db.FileHeader.Laws.{decode-encode, encode-IsPage}
use oxen_db.BTreeMap
use oxen_db.BTreeMap.Laws.{IsSorted, Above, get-Above}
use oxen_db.Wal.Record.{TxnId, IsRecord}
use oxen_db.Recovery.{validate_image}
use oxen_db.Recovery.Laws.{or_else, or_else-none}
use oxen_db.Recovery.Atomic.{IsImageOf, image_for, newest}
use oxen_db.Recovery.Restored.{IsRestorable}
use oxen_db.Db.Txn.{images_of, images, seal_all}
use oxen_db.Db.Txn.Visible.{AreDataPages, sealed_pages, seal_all-AreSealed}

newest-images_of :
    (txn : TxnId) (k : PageId) (m : List (PageId × Page))
    → IsSorted m
    → newest k (images_of txn m) ≡ BTreeMap.get k m
unfolding newest images_of image_for BTreeMap.get or_else
newest-images_of txn k [] s = refl
newest-images_of txn k ((id, page) ∷ rest) s =
    ground (arith, newest-images_of txn k rest s.1, get-Above k id rest)

IsImageOf-images_of :
    (txn : TxnId) (m : List (PageId × Page)) → All (IsImageOf txn) (images_of txn m)
unfolding images_of
IsImageOf-images_of txn [] = tt
IsImageOf-images_of txn ((id, page) ∷ rest) = (refl, IsImageOf-images_of txn rest)

module _ ⦃c : Checksum⦄ where
  -- An entry whose image can be logged and restored.
  pub record IsLoggable (count : ℕ) (id : PageId) (page : Page) : Type 0 where
    positive : 0 < id
    inside : id < count
    shape : IsPage page
    valid : validate_image id page ≡ ok tt

  abbrev pub AllLoggable : ℕ → List (PageId × Page) → Type 0
  AllLoggable count m = All (λ e. IsLoggable count e.0 e.1) m

  abbrev IsVerified : PageId × Page → Type 0
  IsVerified (id, page) = (header : PageHeader) × (verify (seal page) id ≡ ok header)

  seal_all-IsVerified :
      (dirty sealed : List (PageId × Page)) → seal_all dirty ≡ ok sealed → All IsVerified dirty
  unfolding seal_all
  seal_all-IsVerified [] sealed e = tt
  seal_all-IsVerified ((id, page) ∷ rest) sealed e = elim (Result-cases (verify (seal page) id)) [
    | inr bad ↦ absurd (ground (arith, rw (bad.1, map_err) at e))
    | inl good ↦ elim (Result-cases (seal_all rest)) [
      | inr bad ↦ absurd (ground (arith, rw (good.1, map_err, bad.1) at e))
      | inl more ↦ (good, seal_all-IsVerified rest more.0 more.1)
    ]
  ]

  sealed_pages-AllLoggable :
      (count : ℕ) (dirty : List (PageId × Page))
      → AreDataPages count dirty
      → All IsVerified dirty
      → AllLoggable count (sealed_pages dirty)
  unfolding validate_image
  sealed_pages-AllLoggable count [] w v = tt
  sealed_pages-AllLoggable count ((id, page) ∷ rest) w v =
      let data_page : (id == 0) ≡ false = ground (arith, w.0.0) in
      (
        record {
          positive = w.0.0;
          inside = w.0.1;
          shape = seal-IsPage page w.0.2;
          valid = rw (data_page, v.0.1, map_err) refl;
        },
        sealed_pages-AllLoggable count rest w.1 v.1,
      )

  -- Sealing that succeeds gives pages that can be logged and restored.
  pub seal_all-AllLoggable :
      (count : ℕ) (dirty sealed : List (PageId × Page))
      → AreDataPages count dirty
      → seal_all dirty ≡ ok sealed
      → (sealed ≡ sealed_pages dirty) × AllLoggable count (sealed_pages dirty)
  seal_all-AllLoggable count dirty sealed w e = (
    (seal_all-AreSealed count dirty sealed w e).0,
    sealed_pages-AllLoggable count dirty w (seal_all-IsVerified dirty sealed e),
  )

  sealed_pages-Above :
      (k : PageId) (dirty : List (PageId × Page)) → Above k dirty → Above k (sealed_pages dirty)
  sealed_pages-Above k [] h = tt
  sealed_pages-Above k ((id, page) ∷ rest) h = (h.0, sealed_pages-Above k rest h.1)

  pub sealed_pages-IsSorted :
      (dirty : List (PageId × Page)) → IsSorted dirty → IsSorted (sealed_pages dirty)
  sealed_pages-IsSorted [] s = tt
  sealed_pages-IsSorted ((id, page) ∷ rest) s =
      (sealed_pages-Above id rest s.0, sealed_pages-IsSorted rest s.1)

  pub get-sealed_pages :
      (k : PageId) (dirty : List (PageId × Page)) (page : Page)
      → BTreeMap.get k dirty ≡ some page
      → BTreeMap.get k (sealed_pages dirty) ≡ some (seal page)
  unfolding BTreeMap.get
  get-sealed_pages k [] page h = absurd (ground arith)
  get-sealed_pages k ((id, q) ∷ rest) page h = ground (arith, h, get-sealed_pages k rest page)

  pub no_header :
      (count : ℕ) (m : List (PageId × Page)) → AllLoggable count m → BTreeMap.get 0 m ≡ none
  unfolding BTreeMap.get
  no_header count [] h = refl
  no_header count ((id, page) ∷ rest) h =
      let data_page : (id == 0) ≡ false = ground (arith, h.0.positive) in
      rw data_page (no_header count rest h.1)

  pub get-positive :
      (count k : ℕ) (m : List (PageId × Page)) (page : Page)
      → AllLoggable count m
      → BTreeMap.get k m ≡ some page
      → 0 < k
  unfolding BTreeMap.get
  get-positive count k [] page w h = absurd (ground arith)
  get-positive count k ((id, q) ∷ rest) page w h =
      ground (arith, w.0.positive, h, get-positive count k rest page w.1)

  module _ (txn : TxnId) (count old : ℕ) (m : List (PageId × Page)) where
    -- The images of a commit restore its pages.
    pub newest-images :
        (k : PageId) → 0 < k → IsSorted m → newest k (images txn count old m) ≡ BTreeMap.get k m
    unfolding images newest image_for or_else
    newest-images k positive s =
        let data_page : (0 == k) ≡ false = ground (arith, positive) in
        elim (Bool-cases (ltb old count)) [
          | inl grown ↦ rw (grown, data_page) (or_else-none _ ∙ newest-images_of txn k m s)
          | inr same ↦ rw same (newest-images_of txn k m s)
        ]

    -- They have a header exactly when the database grew.
    pub newest-images_header :
        IsSorted m
        → AllLoggable count m
        → newest 0 (images txn count old m) ≡ (
            if ltb old count
            then some (FileHeader.encode (record { page_count = count }))
            else none)
    unfolding images newest image_for or_else
    newest-images_header s w =
        let none_logged : newest 0 (images_of txn m) ≡ none =
          newest-images_of txn 0 m s ∙ no_header count m w in
        elim (Bool-cases (ltb old count)) [
          | inl grown ↦ rw (grown, none_logged) refl
          | inr same ↦ rw same none_logged
        ]

    pub images-IsImageOf : All (IsImageOf txn) (images txn count old m)
    unfolding images
    images-IsImageOf = elim (Bool-cases (ltb old count)) [
      | inl grown ↦ rw grown (refl, IsImageOf-images_of txn m)
      | inr same ↦ rw same (IsImageOf-images_of txn m)
    ]

    module _ (positive : 0 < count) (room : count * page_size < 2 ^ 64) where
      images_of-IsRestorable :
          (ps : List (PageId × Page)) → AllLoggable count ps → All IsRestorable (images_of txn ps)
      unfolding images_of
      images_of-IsRestorable [] w = tt
      images_of-IsRestorable ((id, page) ∷ rest) w =
          (((w.0.shape, omega (arith, w.0.inside)), w.0.valid), images_of-IsRestorable rest w.1)

      header_valid :
          validate_image header_id (FileHeader.encode (record { page_count = count })) ≡ ok tt
      unfolding validate_image
      header_valid =
          let nonzero : (count == 0) ≡ false = ground (arith, positive) in
          rw (decode-encode (record { page_count = count }) (omega arith), nonzero) refl

      pub images-IsRestorable : AllLoggable count m → All IsRestorable (images txn count old m)
      unfolding images
      images-IsRestorable w = elim (Bool-cases (ltb old count)) [
        | inl grown ↦ rw grown (
          (
            (encode-IsPage (record { page_count = count }) (omega arith), omega arith),
            header_valid,
          ),
          images_of-IsRestorable m w,
        )
        | inr same ↦ rw same (images_of-IsRestorable m w)
      ]

      images_of-IsRecord :
          (ps : List (PageId × Page))
          → IsU64 txn
          → AllLoggable count ps
          → All IsRecord (images_of txn ps)
      unfolding images_of
      images_of-IsRecord [] t w = tt
      images_of-IsRecord ((id, page) ∷ rest) t w =
          ((t, omega (arith, w.0.inside), w.0.shape), images_of-IsRecord rest t w.1)

      pub images-IsRecord : IsU64 txn → AllLoggable count m → All IsRecord (images txn count old m)
      unfolding images
      images-IsRecord t w = elim (Bool-cases (ltb old count)) [
        | inl grown ↦ rw grown (
          (t, omega arith, encode-IsPage (record { page_count = count }) (omega arith)),
          images_of-IsRecord m t w,
        )
        | inr same ↦ rw same (images_of-IsRecord m t w)
      ]
