-- ===== src/BufferPool/Pool/DiskSteps.antt =====
-- Steps of the shared disk keep the pages that a pool holds, the header page apart.
use oxen_db.Prelude.{
  ℕ, ◌*◌, ◌^◌, ◌≤◌, ◌<◌, ◌≡◌, inl, inr, refl, sym, ap, none, List, length, take, length-take, arith,
  Result, ok, err,
}
use mathlib.Core.Path.{subst}
use oxen_db.Prelude.Op.{Op, After, After-map}
use oxen_db.Checksum.{Checksum}
use oxen_db.Page.{Page, PageId, page_size, file_offset}
use oxen_db.FileHeader
use oxen_db.FileHeader.{FileHeader}
use oxen_db.FileHeader.Laws.{encode-IsPage}
use oxen_db.Disk
use oxen_db.Disk.{DiskManager}
use oxen_db.Disk.Stored.{Stored}
use oxen_db.Disk.Outcomes.{
  Overwrites, Overwrites-Spares, SameDisk, sync_disk-SameDisk, attempt-After, on_file-After,
}
use oxen_db.File.{write_all_at, written, next_fate}
use oxen_db.BTreeMap.{get}
use oxen_db.BufferPool.{Frame, PageHandle, Shard}
use oxen_db.BufferPool.Consistent.Operations.{IsSound}
use oxen_db.BufferPool.Coherent.{frame_at, Holds, IsBacked, IsCoherent}
use oxen_db.BufferPool.Pool.{BufferPool, shard_index, no_shard, on_disk}
use oxen_db.BufferPool.Pool.Coherent.{shard_at, PoolHolds, IsPoolCoherent, get_or_default}

module _ ⦃c : Checksum⦄ where
  -- The disk `e` has room for the pages of `d`, and stores what `d` stores, the header page apart.
  pub record Extends (d e : DiskManager) : Type 0 where
    pub room : e.page_count * page_size < 2 ^ 64
    pub grown : d.page_count ≤ e.page_count
    pub kept :
        (id : PageId) (page : Page)
        → 0 < id
        → Stored d.file.contents id page
        → Stored e.file.contents id page

  IsBacked-Extends :
      (d e : DiskManager) (id : PageId) (frame : Frame)
      → Extends d e
      → IsBacked d id frame
      → IsBacked e id frame
  IsBacked-Extends d e id frame w (inl (dirty, ready)) = inl (
    dirty,
    record {
      positive = ready.positive;
      inside = omega (arith, ready.inside, w.grown);
      shape = ready.shape;
      own = ready.own;
      sealed = ready.sealed;
    },
  )
  IsBacked-Extends d e id frame w (inr (clean, positive, there)) =
      inr (clean, positive, w.kept id frame.page positive there)

  -- What follows a step of the disk: the pool is in order, and holds every page but the header's.
  pub record Follows (held : ℕ → List PageHandle) (n : ℕ) (p q : BufferPool) : Type 0 where
    pub coherent : IsPoolCoherent held n q
    pub holds : (id : PageId) (page : Page) → 0 < id → PoolHolds n p id page → PoolHolds n q id page

  pub Follows-trans :
      {held : ℕ → List PageHandle} {n : ℕ} {p q r : BufferPool}
      → Follows held n p q
      → Follows held n q r
      → Follows held n p r
  Follows-trans a b = record {
    coherent = b.coherent;
    holds = λ id page positive h. b.holds id page positive (a.holds id page positive h);
  }

  module _ (held : ℕ → List PageHandle) (n : ℕ) (index : (id : PageId) → shard_index id n < n)
      (p : BufferPool) (e : DiskManager) (v : IsPoolCoherent held n p) (w : Extends p.disk e) where
    spot : (j : ℕ) → j < n → shard_at (record p { disk = e }) j ≡ record (shard_at p j) { disk = e }
    spot j small =
        ap {A = Shard} {B = Shard} (λ s. record s { disk = e })
          (get_or_default p.shards j (no_shard e) (no_shard p.disk) (rw v.size small))

    shard-IsCoherent : (j : ℕ) → j < n → IsCoherent (record (shard_at p j) { disk = e })
    shard-IsCoherent j small =
        let u = v.coherent j small in
        record {
          same_frames = u.same_frames;
          room = w.room;
          backed = λ id f there.
              IsBacked-Extends p.disk e id (frame_at (shard_at p j) f) w (u.backed id f there);
        }

    still_held :
        (s : Shard) (id : PageId) (page : Page)
        → s.disk ≡ p.disk
        → 0 < id
        → Holds s id page
        → Holds (record s { disk = e }) id page
    still_held s id page same positive (inl h) = inl h
    still_held s id page same positive (inr (new, there)) =
        inr (new, w.kept id page positive (rw same at there))

    pub Extends-Follows : Follows held n p (record p { disk = e })
    Extends-Follows = record {
      coherent = record {
        size = v.size;
        sound = λ j small. subst (IsSound (held j)) (sym (spot j small)) (v.sound j small);
        coherent = λ j small. subst IsCoherent (sym (spot j small)) (shard-IsCoherent j small);
        own = λ j id small away.
            subst (λ s. get id s.state.page_table ≡ none) (sym (spot j small))
              (v.own j id small away);
      };
      holds = λ id page positive h.
          subst (λ s. Holds s id page) (sym (spot (shard_index id n) (index id)))
            (still_held (shard_at p (shard_index id n)) id page refl positive h);
    }

  -- Writing the header page, wholly or in part, leaves the others.
  pub Overwrites-Extends :
      (d e : DiskManager) (src : List ℕ)
      → d.page_count * page_size < 2 ^ 64
      → length src ≤ page_size
      → Overwrites src 0 d e
      → Extends d e
  Overwrites-Extends d e src room short w = record {
    room = rw w.same_count room;
    grown = omega (arith, w.same_count);
    kept = λ id page positive there.
        (Overwrites-Spares src 0 id (λ zero'. absurd (omega (arith, zero', positive))) short w).kept
          page there;
  }

  pub SameDisk-Extends :
      (d e : DiskManager) → d.page_count * page_size < 2 ^ 64 → SameDisk d e → Extends d e
  SameDisk-Extends d e room w = record {
    room = rw w.same_count room;
    grown = omega (arith, w.same_count);
    kept = λ id page _ there. rw w.same_contents there;
  }

  pub write_file_header-Extends :
      (d : DiskManager)
      → d.page_count * page_size < 2 ^ 64
      → After (Disk.write_file_header d) (λ _. Extends d) (Extends d)
  unfolding Disk.write_file_header Disk.on_file write_all_at written file_offset
  write_file_header-Extends d room =
      let header = FileHeader.encode (record { page_count = d.page_count }) in
      let whole : length header ≡ page_size =
        encode-IsPage (record { page_count = d.page_count }) (omega arith) in
      let m = Disk.on_file (write_all_at header 0) d in
      After-map m _ _ _ _
        (on_file-After (write_all_at header 0 d.file) d _ _
          (attempt-After (written header 0) (next_fate d.file.fates) d.file))
        (λ _ e w.
          Overwrites-Extends d e header room (omega (arith, whole))
            (record { contents = w.0; same_count = w.1 }))
        (λ e w.
          Overwrites-Extends d e (take w.0.0 header) room
            (omega (arith, whole, length-take w.0.0 header))
            (record { contents = w.0.1; same_count = w.1 }))

  -- A method of the disk, on the disk of the pool.
  pub on_disk-Follows :
      (held : ℕ → List PageHandle) (n : ℕ)
      → ((id : PageId) → shard_index id n < n)
      → (p : BufferPool) (m : Op DiskManager (Unit {0})) → IsPoolCoherent held n p
      → After (m p.disk) (λ _. Extends p.disk) (Extends p.disk)
      → After (on_disk m p) (λ _. Follows held n p) (Follows held n p)
  unfolding on_disk
  on_disk-Follows held n index p m v h = go (m p.disk) h
    where
      go :
          (w : Result (Unit {0}) × DiskManager)
          → After w (λ _. Extends p.disk) (Extends p.disk)
          → After (w.0, record p { disk = w.1 }) (λ _. Follows held n p) (Follows held n p)
      go (ok u, e) x = Extends-Follows held n index p e v x
      go (err y, e) x = Extends-Follows held n index p e v x

  pub sync-Extends :
      (d : DiskManager)
      → d.page_count * page_size < 2 ^ 64
      → After (Disk.sync_disk d) (λ _. Extends d) (Extends d)
  sync-Extends d room =
      After-map (Disk.sync_disk d) _ _ _ _ (sync_disk-SameDisk d)
        (λ _ e w. SameDisk-Extends d e room w) (λ e w. SameDisk-Extends d e room w)
