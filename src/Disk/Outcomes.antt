-- ===== src/Disk/Outcomes.antt =====
-- What reading and writing a page does to the data file, whether the calls succeed or fail.
use oxen_db.Prelude.{
  ℕ, ◌+◌, ◌*◌, ◌^◌, ◌≤◌, ◌<◌, ◌≡◌, ◌≢◌, inl, inr, refl, ap, ◌∙◌, false, List, length, take, drop,
  ok, err, arith, ltb, leb, Bool-cases, Option, none, some, ◌==◌, ==_refl, Result, Result-cases,
}
use native.Mathlib.Nat.{mod-eq_of_lt}
use oxen_db.Prelude.Op.{After, After-and_then, After-map, and_then, lift, pure}
use oxen_db.Checksum.{Checksum}
use oxen_db.File.{
  File, Fate, done, fail, write_at, exactly, read_with, attempt, written, next_fate, write_all_at,
  read_exact_at, sync, sync_with, reopen,
}
use oxen_db.Page.{Page, PageId, PageHeader, IsPage, page_id, page_size, seal, verify, file_offset}
use oxen_db.Page.Laws.{seal-IsPage, page_id-seal, seal_again}
use oxen_db.Disk.{DiskManager, on_file, on_disk, check_data_page, read_page, write_page, sync_disk}
use oxen_db.Disk.Stored.{Stored, Stored-write_at_other}

-- A page that may be written to its place: it is sealed, says where it belongs, and belongs to the
-- `count` pages of the database.
pub record IsReady (seal_of : Page → Page) (count : ℕ) (id : PageId) (page : Page) : Type 0 where
  pub positive : 0 < id
  pub inside : id < count
  pub shape : IsPage page
  pub own : page_id page ≡ id
  pub sealed : seal_of page ≡ page

pub IsReady-seal :
    ⦃c : Checksum⦄ (count : ℕ) (id : PageId) (page : Page)
    → 0 < id
    → id < count
    → IsPage page
    → page_id page ≡ id
    → IsReady seal count id (seal page)
IsReady-seal count id page positive inside shape own = record {
  positive = positive;
  inside = inside;
  shape = seal-IsPage page shape;
  own = page_id-seal page ∙ own;
  sealed = seal_again page;
}

-- The file of `e` is that of `d` with `src` written at the page's place.
pub record Overwrites (src : List ℕ) (id : PageId) (d e : DiskManager) : Type 0 where
  pub contents : e.file.contents ≡ write_at (id * page_size) src d.file.contents
  pub same_count : e.page_count ≡ d.page_count

-- Nothing but the outcomes of the calls ahead, or the synced contents, may differ.
pub record SameDisk (d e : DiskManager) : Type 0 where
  pub same_contents : e.file.contents ≡ d.file.contents
  pub same_count : e.page_count ≡ d.page_count

module _ (count : ℕ) (id : PageId) (inside : id < count) (room : count * page_size < 2 ^ 64) where
  offset_in_range : file_offset id ≡ id * page_size
  unfolding file_offset
  offset_in_range = mod-eq_of_lt (omega arith)

pub attempt-After :
    (change : Option ℕ → List ℕ → List ℕ) (w : Fate × List Fate) (f : File)
    → After
        (attempt change w f)
        (λ _ g. g.contents ≡ change none f.contents)
        (λ g. (n : ℕ) × (g.contents ≡ change (some n) f.contents))
unfolding attempt
attempt-After change (done, rest) f = refl
attempt-After change (fail n, rest) f = (n, refl)

read_with-After :
    {A : Type 0} (read : List ℕ → Result A) (w : Fate × List Fate) (f : File)
    → After
        (read_with read w f)
        (λ a g. (g.contents ≡ f.contents) × (read f.contents ≡ ok a))
        (λ g. g.contents ≡ f.contents)
unfolding read_with
read_with-After read (done, rest) f = elim (Result-cases (read f.contents)) [
  | inl good ↦ rw good.1 (refl, refl)
  | inr bad ↦ rw bad.1 refl
]
read_with-After read (fail n, rest) f = refl

pub on_file-After :
    {A : Type 0} (m : Result A × File) (d : DiskManager) (P : A → File → Type 0) (Q : File → Type 0)
    → After m P Q
    → After
        (m.0, record d { file = m.1 })
        (λ a e. P a e.file × (e.page_count ≡ d.page_count))
        (λ e. Q e.file × (e.page_count ≡ d.page_count))
on_file-After (ok a, f) d P Q h = (h, refl)
on_file-After (err e, f) d P Q h = (h, refl)

on_disk-After :
    {A : Type 0} (m : Result A × DiskManager) (page : Page) (P : A → DiskManager → Type 0)
    (Q : DiskManager → Type 0)
    → After m P Q
    → After {S = DiskManager × Page}
        (m.0, (m.1, page))
        (λ a t. (t.1 ≡ page) × P a t.0)
        (λ t. (t.1 ≡ page) × Q t.0)
on_disk-After (ok a, d) page P Q h = (refl, h)
on_disk-After (err e, d) page P Q h = (refl, h)

sync_with-After :
    (w : Fate × List Fate) (f : File)
    → After (sync_with w f) (λ _ g. g.contents ≡ f.contents) (λ g. g.contents ≡ f.contents)
unfolding sync_with
sync_with-After (done, rest) f = refl
sync_with-After (fail n, rest) f = refl

pub sync-After :
    (f : File) → After (sync f) (λ _ g. g.contents ≡ f.contents) (λ g. g.contents ≡ f.contents)
unfolding sync
sync-After f = sync_with-After (next_fate f.fates) f

pub reopen-After :
    (f : File) → After (reopen f) (λ _ g. g.contents ≡ f.contents) (λ g. g.contents ≡ f.contents)
unfolding reopen
reopen-After f =
    After-map (reopen f) _ _ _ _ (read_with-After (λ _. ok tt) (next_fate f.fates) f) (λ _ g e. e.0)
      (λ g e. e)

pub sync_disk-SameDisk : (d : DiskManager) → After (sync_disk d) (λ _. SameDisk d) (SameDisk d)
unfolding sync_disk on_file
sync_disk-SameDisk d =
    let m = on_file sync d in
    After-map m _ _ _ _ (on_file-After (sync d.file) d _ _ (sync-After d.file))
      (λ _ e w. record { same_contents = w.0; same_count = w.1 })
      (λ e w. record { same_contents = w.0; same_count = w.1 })

module _ ⦃c : Checksum⦄ where
  write_page-eq :
      (d : DiskManager) (page : Page) (id : PageId)
      → IsReady seal d.page_count id page
      → d.page_count * page_size < 2 ^ 64
      → write_page id (d, page) ≡ on_disk (on_file (write_all_at page (id * page_size))) (d, page)
  unfolding write_page check_data_page
  write_page-eq d page id ready room =
      let no_header : (id == 0) ≡ false = ground (arith, ready.positive) in
      let below : leb d.page_count id ≡ false = ground (arith, ready.inside) in
      rw
        (
          no_header,
          below,
          ready.own,
          ==_refl,
          ready.sealed,
          offset_in_range d.page_count id ready.inside room,
        )
        refl

  -- Writing a sealed page of the database, which has its own id and whose place lies within 64 bits,
  -- either succeeds and puts the page at its place, or fails and may have put a first part of it
  -- there; the page and the page count stay, and so does the rest of the file.
  pub write_page-Overwrites :
      (d : DiskManager) (page : Page) (id : PageId)
      → IsReady seal d.page_count id page
      → d.page_count * page_size < 2 ^ 64
      → After
          (write_page id (d, page))
          (λ _ t. (t.1 ≡ page) × Overwrites page id d t.0)
          (λ t. (t.1 ≡ page) × ((n : ℕ) × Overwrites (take n page) id d t.0))
  unfolding on_file on_disk write_all_at written
  write_page-Overwrites d page id ready room =
      let m = on_file (write_all_at page (id * page_size)) d in
      rw (write_page-eq d page id ready room) (
        on_disk-After m page _ _ (
          After-map m _ _ _ _
            (on_file-After (write_all_at page (id * page_size) d.file) d _ _
              (attempt-After (written page (id * page_size)) (next_fate d.file.fates) d.file))
            (λ _ e w. record { contents = w.0; same_count = w.1 })
            (λ e w. (w.0.0, record { contents = w.0.1; same_count = w.1 }))))

  exactly-ok :
      (n at : ℕ) (bs page : List ℕ)
      → exactly n at bs ≡ ok page
      → (at + n ≤ length bs) × (take n (drop at bs) ≡ page)
  unfolding exactly
  exactly-ok n at bs page e = elim (Bool-cases (ltb (length bs) (at + n))) [
    | inl short ↦ absurd (ground (arith, short, e))
    | inr long ↦
        let same : ok (take n (drop at bs)) ≡ ok page = rw long at e in
        (ground (arith, long), ground (arith, same))
  ]

  check_data_page-After :
      (d : DiskManager) (id : PageId)
      → After (check_data_page id d) (λ _ e. (e ≡ d) × (0 < id) × (id < d.page_count)) (λ e. e ≡ d)
  unfolding check_data_page
  check_data_page-After d id = elim (Bool-cases (id == 0)) [
    | inl header ↦ rw header refl
    | inr data_page ↦ elim (Bool-cases (leb d.page_count id)) [
      | inl past ↦ rw (data_page, past) refl
      | inr inside ↦
          let positive : 0 < id = ground (arith, data_page) in
          let below : id < d.page_count = ground (arith, inside) in
          rw (data_page, inside) (refl, positive, below)
    ]
  ]

  verified :
      (r : Result PageHeader) (page : Page) (e : DiskManager) (P : Page → DiskManager → Type 0)
      (Q : DiskManager → Type 0)
      → P page e
      → Q e
      → After (and_then (lift r e) (λ _. pure page)) P Q
  verified (ok h) page e P Q p q = p
  verified (err x) page e P Q p q = q

  read_at-After :
      (d : DiskManager) (id : PageId)
      → 0 < id
      → id < d.page_count
      → d.page_count * page_size < 2 ^ 64
      → After
          (on_file (read_exact_at page_size (file_offset id)) d)
          (λ page e. SameDisk d e × Stored d.file.contents id page)
          (SameDisk d)
  unfolding on_file read_exact_at
  read_at-After d id positive inside room =
      let m = on_file (read_exact_at page_size (file_offset id)) d in
      After-map m _ _ _ _
        (on_file-After (read_exact_at page_size (file_offset id) d.file) d _ _
          (read_with-After (exactly page_size (file_offset id)) (next_fate d.file.fates) d.file))
        (λ page e w.
          let there = exactly-ok page_size (file_offset id) d.file.contents page w.0.1 in
          let place = offset_in_range d.page_count id inside room in
          (
            record { same_contents = w.0.0; same_count = w.1 },
            record { covers = rw place at there.0; bytes = rw place at there.1 },
          ))
        (λ e w. record { same_contents = w.0; same_count = w.1 })

  -- Reading a page changes nothing, and gives the page that the file stores at its place.
  pub read_page-Stored :
      (d : DiskManager) (id : PageId)
      → d.page_count * page_size < 2 ^ 64
      → After
          (read_page id d)
          (λ page e. SameDisk d e × Stored d.file.contents id page × (0 < id) × (id < d.page_count))
          (SameDisk d)
  unfolding read_page
  read_page-Stored d id room =
      After-and_then (check_data_page id d) _ _ _ _
        (After-map (check_data_page id d) _ _ _ _ (check_data_page-After d id) (λ _ e h. h)
          (λ e h. record {
            same_contents = ap (λ x. x.file.contents) h;
            same_count = ap (λ x. x.page_count) h;
          }))
        (λ _ e h. rw h.0 (
          After-and_then (on_file (read_exact_at page_size (file_offset id)) d) _ _ _ _
            (read_at-After d id h.1 h.2 room)
            (λ page x w. verified (verify page id) page x _ _ (w.0, w.1, h.1, h.2) w.0)))

-- What a call does to the file spares the page: what is stored for it stays stored.
pub record Spares (id : PageId) (d e : DiskManager) : Type 0 where
  pub kept_count : e.page_count ≡ d.page_count
  pub kept : (page : Page) → Stored d.file.contents id page → Stored e.file.contents id page

pub SameDisk-Spares : {d e : DiskManager} (id : PageId) → SameDisk d e → Spares id d e
SameDisk-Spares id w = record { kept_count = w.same_count; kept = λ page s. rw w.same_contents s }

pub Overwrites-Spares :
    {d e : DiskManager} (src : List ℕ) (id j : PageId)
    → id ≢ j
    → length src ≤ page_size
    → Overwrites src id d e
    → Spares j d e
Overwrites-Spares {d = d} src id j ne short w = record {
  kept_count = w.same_count;
  kept = λ page s. rw w.contents (Stored-write_at_other id src d.file.contents j page ne short s);
}
