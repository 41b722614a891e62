-- ===== src/BufferPool/Pool/Calls.antt =====
-- The methods of the pool keep every page but the one that they install.
use oxen_db.Prelude.{
  ℕ, ◌<◌, ◌≡◌, refl, sym, ap, ◌∙◌, List, ◌∷◌, set, arith, Result, ok, err, ◌==◌, if◌then◌else◌,
  ==_refl,
}
use mathlib.Core.Path.{subst}
use oxen_db.Prelude.Op.{Op, After, After-both}
use oxen_db.Checksum.{Checksum}
use oxen_db.Page.{Page, PageId, seal}
use oxen_db.Disk.Outcomes.{IsReady}
use oxen_db.BufferPool as ShardOps
use oxen_db.BufferPool.{FrameId, PageHandle, Shard}
use oxen_db.BufferPool.Consistent.{FitsU32}
use oxen_db.BufferPool.Consistent.Operations.{IsSound, fetch_page-IsSound}
use oxen_db.BufferPool.Consistent.Writes.{install_page-IsSound, flush_page-IsSound}
use oxen_db.BufferPool.Coherent.{frame_at, Holds, Keeps}
use oxen_db.BufferPool.Coherent.Replaced.{Replaces}
use oxen_db.BufferPool.Coherent.Fetch.{Fetched, fetch_page-Fetched}
use oxen_db.BufferPool.Coherent.Install.{install_page-Replaces}
use oxen_db.BufferPool.Coherent.Flush.{flush_page-Keeps}
use oxen_db.BufferPool.Pool.{
  BufferPool, shard_index, on_shard, on_page, fetch_page, install_page, flush_page,
}
use oxen_db.BufferPool.Pool.Coherent.{
  shard_at, PoolHolds, IsPoolCoherent, KeepsBut, PoolKeepsBut, changed-PoolKeepsBut, shard_at-set,
}

-- No page is changed.
abbrev pub Nothing : PageId → Type 0
Nothing id = ⊥

module _ ⦃c : Checksum⦄ where
  pub KeepsBut-Keeps :
      (held : List PageHandle) (s t : Shard)
      → IsSound held t
      → Keeps s t
      → KeepsBut held Nothing s t
  KeepsBut-Keeps held s t sound k = record {
    sound = sound;
    coherent = k.coherent;
    count = k.count;
    fresh = λ id _ e. k.fresh id e;
    holds = λ id page _ h. k.holds id page h;
  }

  KeepsBut-Replaces :
      (held : List PageHandle) (s t : Shard) (id : PageId) (page : Page)
      → IsSound held t
      → Replaces id page s t
      → KeepsBut held (◌≡◌ id) s t
  KeepsBut-Replaces held s t id page sound r = record {
    sound = sound;
    coherent = r.coherent;
    count = r.count;
    fresh = λ j ne e. r.others_fresh j ne e;
    holds = λ j old ne h. r.others j old ne h;
  }

  -- The outcome of a method of the shard `i`, seen from the pool.
  pub lifted :
      {A : Type 0} (p : BufferPool) (i : ℕ) (w : Result A × Shard) (P : A → Shard → Type 0)
      (Q : Shard → Type 0) (R : A → BufferPool → Type 0) (U : BufferPool → Type 0)
      → After w P Q
      → ((a : A) (t : Shard) → P a t → R a (record { disk = t.disk; shards = set p.shards i t }))
      → ((t : Shard) → Q t → U (record { disk = t.disk; shards = set p.shards i t }))
      → After (w.0, record p { disk = w.1.disk; shards = set p.shards i w.1 }) R U
  lifted p i (ok a, t) P Q R U h f g = f a t h
  lifted p i (err e, t) P Q R U h f g = g t h

  module _ (n : ℕ) (index : (id : PageId) → shard_index id n < n) (held : ℕ → List PageHandle) where
    -- A step of one shard that keeps every page.
    whole :
        (p : BufferPool) (i : ℕ) (t : Shard)
        → IsPoolCoherent held n p
        → i < n
        → IsSound (held i) t
        → Keeps (shard_at p i) t
        → PoolKeepsBut held Nothing n p (record { disk = t.disk; shards = set p.shards i t })
    whole p i t v inside sound k =
        changed-PoolKeepsBut n p i Nothing t held held v (λ _ _. refl) inside (λ id x. absurd x)
          (KeepsBut-Keeps (held i) (shard_at p i) t sound k) index

    pub whole_shard :
        (p : BufferPool) (i : ℕ) (m : Op Shard (Unit {0}))
        → IsPoolCoherent held n p
        → i < n
        → After (m (shard_at p i)) (λ _. IsSound (held i)) (IsSound (held i))
        → After (m (shard_at p i)) (λ _. Keeps (shard_at p i)) (Keeps (shard_at p i))
        → After
            (on_shard i m p)
            (λ _. PoolKeepsBut held Nothing n p)
            (PoolKeepsBut held Nothing n p)
    unfolding on_shard
    whole_shard p i m v inside sound keeps =
        lifted p i (m (shard_at p i)) _ _ _ _ (After-both (m (shard_at p i)) _ _ _ _ sound keeps)
          (λ _ t h. whole p i t v inside h.0 h.1) (λ t h. whole p i t v inside h.0 h.1)

    pub flush_page-PoolKeepsBut :
        (p : BufferPool) (id : PageId)
        → IsPoolCoherent held n p
        → After
            (flush_page id p)
            (λ _. PoolKeepsBut held Nothing n p)
            (PoolKeepsBut held Nothing n p)
    unfolding flush_page on_page
    flush_page-PoolKeepsBut p id v =
        let i = shard_index id n in
        let sound = v.sound i (index id) in
        rw v.size (
          whole_shard p i (ShardOps.flush_page id) v (index id)
            (flush_page-IsSound (held i) (shard_at p i) id sound)
            (flush_page-Keeps (held i) (shard_at p i).state.page_table (shard_at p i) id sound
              (v.coherent i (index id)) refl))

    installed :
        (p : BufferPool) (i : ℕ) (id : PageId) (page : Page) (t : Shard)
        → IsPoolCoherent held n p
        → shard_index id n ≡ i
        → IsSound (held i) t
        → Replaces id page (shard_at p i) t
        → PoolKeepsBut held (◌≡◌ id) n p (record { disk = t.disk; shards = set p.shards i t })
          × PoolHolds n (record { disk = t.disk; shards = set p.shards i t }) id page
    installed p i id page t v e sound r =
        let k = KeepsBut-Replaces (held i) (shard_at p i) t id page sound r in
        let inside : i < n = rw (← e) (index id) in
        (
          changed-PoolKeepsBut n p i (◌≡◌ id) t held held v (λ _ _. refl) inside
              (λ j same. ap (λ x. shard_index x n) (sym same) ∙ e) k index,
          subst
              (λ j.
                Holds (shard_at (record { disk = t.disk; shards = set p.shards i t }) j) id page)
              (sym e)
              (subst (λ s. Holds s id page) (sym (shard_at-set p i t (rw v.size inside)))
                r.current),
        )

    pub install_page-PoolKeepsBut :
        (p : BufferPool) (id : PageId) (page : Page)
        → ((i : ℕ) → FitsU32 (held i))
        → IsPoolCoherent held n p
        → IsReady seal p.disk.page_count id page
        → After
            (install_page id page p)
            (λ _ q. PoolKeepsBut held (◌≡◌ id) n p q × PoolHolds n q id page)
            (PoolKeepsBut held Nothing n p)
    unfolding install_page on_page on_shard
    install_page-PoolKeepsBut p id page fits v ready =
        let i = shard_index id n in
        let sound = v.sound i (index id) in
        let m = ShardOps.install_page id page (shard_at p i) in
        rw (v.size, ready.own, ==_refl)
          (lifted p i m _ _ _ _
            (After-both m _ _ _ _
              (install_page-IsSound (held i) (shard_at p i) id page sound (fits i))
              (install_page-Replaces (held i) (fits i) (shard_at p i) id page sound
                (v.coherent i (index id)) ready))
            (λ _ t h. installed p i id page t v refl h.0 h.1)
            (λ t h. whole p i t v (index id) h.0 h.1))

    -- The handles that are out, and one more on a page of the shard `i`.
    abbrev pub and_out : ℕ → PageHandle → ℕ → List PageHandle
    and_out i h j = if i == j then h ∷ held j else held j

    -- What a fetch leaves: the page that the pool held, in the frame of the handle.
    pub record PoolFetched (p : BufferPool) (id : PageId) (h : PageHandle) (q : BufferPool)
        : Type 0 where
      pub same_id : h.page_id ≡ id
      pub keeps : PoolKeepsBut (and_out (shard_index id n) h) (◌≡◌ id) n p q
      pub current : PoolHolds n q id (frame_at (shard_at q (shard_index id n)) h.frame_id).page
      pub agrees :
          (old : Page)
          → PoolHolds n p id old
          → old ≡ (frame_at (shard_at q (shard_index id n)) h.frame_id).page

    fetched :
        (p : BufferPool) (i : ℕ) (id : PageId) (h : PageHandle) (t : Shard)
        → IsPoolCoherent held n p
        → shard_index id n ≡ i
        → IsSound (h ∷ held i) t
        → Fetched id (shard_at p i) h t
        → PoolFetched p id h (record { disk = t.disk; shards = set p.shards i t })
    fetched p i id h t v e sound f =
        let page = (frame_at t h.frame_id).page in
        let q : BufferPool = record { disk = t.disk; shards = set p.shards i t } in
        let inside : i < n = rw (← e) (index id) in
        let there : shard_at q (shard_index id n) ≡ t =
          ap (shard_at q) e ∙ shard_at-set p i t (rw v.size inside) in
        let out : IsSound (and_out (shard_index id n) h i) t = rw (e, ==_refl) sound in
        record {
          same_id = f.same_id;
          keeps =
              changed-PoolKeepsBut n p i (◌≡◌ id) t (and_out (shard_index id n) h) held v
                (λ j ne. ground (arith, e, ne)) inside
                (λ j same. ap (λ x. shard_index x n) (sym same) ∙ e)
                (KeepsBut-Replaces (and_out (shard_index id n) h i) (shard_at p i) t id page out
                  f.replaces)
                index;
          current =
              subst (λ s. Holds s id (frame_at s h.frame_id).page) (sym there) f.replaces.current;
          agrees = λ old was.
              f.agrees old (subst (λ j. Holds (shard_at p j) id old) e was)
              ∙ ap (λ s. (frame_at s h.frame_id).page) (sym there);
        }

    pub fetch_page-PoolFetched :
        (p : BufferPool) (id : PageId)
        → ((i : ℕ) → FitsU32 (held i))
        → IsPoolCoherent held n p
        → After (fetch_page id p) (PoolFetched p id) (PoolKeepsBut held Nothing n p)
    unfolding fetch_page on_page on_shard
    fetch_page-PoolFetched p id fits v =
        let i = shard_index id n in
        let sound = v.sound i (index id) in
        let m = ShardOps.fetch_page id (shard_at p i) in
        rw v.size (
          lifted p i m _ _ _ _
            (After-both m _ _ _ _ (fetch_page-IsSound (held i) (shard_at p i) id sound (fits i)) (
              fetch_page-Fetched (held i) (fits i) (shard_at p i) id sound
                (v.coherent i (index id))))
            (λ h t w. fetched p i id h t v refl w.0 w.1) (λ t w. whole p i t v (index id) w.0 w.1))
