-- ===== src/BufferPool/Pool/Coherent.antt =====
-- The shards of a pool share one disk: a method of one shard keeps the pages of the others.
use oxen_db.Prelude.{
  ℕ, ◌<◌, ◌≡◌, ◌≢◌, inl, inr, refl, sym, ap, ◌∙◌, none, List, [], ◌∷◌, length, zero, suc, get_or,
  set, arith, length-set, get_or-set_self, get_or-set_ne,
}
use mathlib.Core.Path.{subst}
use native.Mathlib.Decide.{ℕ_discrete}
use oxen_db.Checksum.{Checksum}
use oxen_db.Page.{Page, PageId}
use oxen_db.Disk.Outcomes.{Spares}
use oxen_db.BTreeMap.{get}
use oxen_db.BufferPool.{PageHandle, Shard}
use oxen_db.BufferPool.Consistent.Operations.{IsSound}
use oxen_db.BufferPool.Coherent.{frame_at, Holds, IsCoherent, IsBacked-Spares}
use oxen_db.BufferPool.Pool.{BufferPool, shard_index, no_shard}

-- The shard `i`, with the disk as it is now.
abbrev pub shard_at : BufferPool → ℕ → Shard
shard_at p i = record (get_or p.shards i (no_shard p.disk)) { disk = p.disk }

-- The page that a pool of `n` shards and the disk hold for an id.
abbrev pub PoolHolds : ℕ → BufferPool → PageId → Page → Type 0
PoolHolds n p id page = Holds (shard_at p (shard_index id n)) id page

pub get_or_default {ℓ} :
    {A : Type ℓ} (xs : List A) (i : ℕ) (d e : A) → i < length xs → get_or xs i d ≡ get_or xs i e
unfolding get_or
get_or_default [] i d e h = elim h [ ]
get_or_default (x ∷ xs) zero d e h = refl
get_or_default (x ∷ xs) (suc i) d e h = get_or_default xs i d e (omega arith)

pub shard_at-set :
    (p : BufferPool) (i : ℕ) (t : Shard)
    → i < length p.shards
    → shard_at (record { disk = t.disk; shards = set p.shards i t }) i ≡ t
shard_at-set p i t inside =
    ap {A = Shard} {B = Shard} (λ s. record s { disk = t.disk })
      (get_or-set_self p.shards i t (no_shard t.disk) inside)

module _ ⦃c : Checksum⦄ where
  -- Beside the handles that are out, shard by shard, every shard is in good order and coherent, and caches its own pages only.
  pub record IsPoolCoherent (held : ℕ → List PageHandle) (n : ℕ) (p : BufferPool) : Type 0 where
    pub size : length p.shards ≡ n
    pub sound : (i : ℕ) → i < n → IsSound (held i) (shard_at p i)
    pub coherent : (i : ℕ) → i < n → IsCoherent (shard_at p i)
    pub own :
        (i : ℕ) (id : PageId)
        → i < n
        → shard_index id n ≢ i
        → get id (shard_at p i).state.page_table ≡ none

  -- `t` is in order, and holds what `s` holds for every id that `Changed` leaves out.
  pub record KeepsBut (out : List PageHandle) (Changed : PageId → Type 0) (s t : Shard)
      : Type 0 where
    pub sound : IsSound out t
    pub coherent : IsCoherent t
    pub count : t.disk.page_count ≡ s.disk.page_count
    pub fresh :
        (id : PageId)
        → ¬ Changed id
        → get id s.state.page_table ≡ none
        → get id t.state.page_table ≡ none
    pub holds : (id : PageId) (page : Page) → ¬ Changed id → Holds s id page → Holds t id page

  pub record PoolKeepsBut (held : ℕ → List PageHandle) (Changed : PageId → Type 0) (n : ℕ)
      (p q : BufferPool) : Type 0 where
    pub coherent : IsPoolCoherent held n q
    pub count : q.disk.page_count ≡ p.disk.page_count
    pub holds :
        (id : PageId) (page : Page) → ¬ Changed id → PoolHolds n p id page → PoolHolds n q id page

  module _ (n : ℕ) (p : BufferPool) (i : ℕ) (Changed : PageId → Type 0) (t : Shard)
      (held before : ℕ → List PageHandle) (v : IsPoolCoherent before n p)
      (same_held : (j : ℕ) → i ≢ j → held j ≡ before j) (inside : i < n)
      (own_changes : (id : PageId) → Changed id → shard_index id n ≡ i)
      (k : KeepsBut (held i) Changed (shard_at p i) t) where
    abbrev changed : BufferPool
    changed = record { disk = t.disk; shards = set p.shards i t }

    here : shard_at changed i ≡ t
    here = shard_at-set p i t (rw v.size inside)

    other : (j : ℕ) → j < n → i ≢ j → shard_at changed j ≡ record (shard_at p j) { disk = t.disk }
    other j small ne =
        ap {A = Shard} {B = Shard} (λ s. record s { disk = t.disk })
          (get_or-set_ne p.shards i j t (no_shard t.disk) ne
            ∙ get_or_default p.shards j (no_shard t.disk) (no_shard p.disk) (rw v.size small))

    at_here : (P : Shard → Type 0) (j : ℕ) → i ≡ j → P t → P (shard_at changed j)
    at_here P j same h = subst (λ m. P (shard_at changed m)) same (subst P (sym here) h)

    at_other :
        (P : Shard → Type 0) (j : ℕ)
        → j < n
        → i ≢ j
        → P (record (shard_at p j) { disk = t.disk })
        → P (shard_at changed j)
    at_other P j small ne h = subst P (sym (other j small ne)) h

    -- What the shard `i` does to the disk spares the pages of the other shards.
    spared : (id : PageId) → shard_index id n ≢ i → Spares id p.disk t.disk
    spared id ne =
        let kept : ¬ Changed id = λ x. ne (own_changes id x) in
        let new = v.own i id inside ne in
        record {
          kept_count = k.count;
          kept = λ page stored. elim (k.holds id page kept (inr (new, stored))) [
            | inl w ↦ absurd (ground (arith, k.fresh id kept new, w.1))
            | inr w ↦ w.1
          ];
        }

    -- A shard that had no part in the step.
    bystander-IsCoherent :
        (j : ℕ) → j < n → i ≢ j → IsCoherent (record (shard_at p j) { disk = t.disk })
    bystander-IsCoherent j small ne =
        let w = v.coherent j small in
        record {
          same_frames = w.same_frames;
          room = rw k.count w.room;
          backed = λ id f e.
              let away : shard_index id n ≢ i = λ same.
                absurd (ground (arith, v.own j id small (λ other. ne (sym same ∙ other)), e)) in
              IsBacked-Spares id (frame_at (shard_at p j) f) (spared id away) (w.backed id f e);
        }

    kept_page :
        (id : PageId) (page : Page)
        → ¬ Changed id
        → PoolHolds n p id page
        → shard_index id n < n
        → PoolHolds n changed id page
    kept_page id page out h small = elim (ℕ_discrete i (shard_index id n)) [
      | yes same ↦
          let h' : Holds (shard_at p i) id page =
            subst (λ j. Holds (shard_at p j) id page) (sym same) h in
          at_here (λ s. Holds s id page) (shard_index id n) same (k.holds id page out h')
      | no ne ↦
          at_other (λ s. Holds s id page) (shard_index id n) small ne
            (elim h [
              | inl w ↦ inl w
              | inr w ↦ inr (w.0, (spared id (λ e. ne (sym e))).kept page w.1)
            ])
    ]

    -- A step of one shard, seen from the pool.
    pub changed-PoolKeepsBut :
        ((id : PageId) → shard_index id n < n) → PoolKeepsBut held Changed n p changed
    changed-PoolKeepsBut index = record {
      coherent = record {
        size = length-set p.shards i t ∙ v.size;
        sound = λ j small. elim (ℕ_discrete i j) [
          | yes same ↦
              subst (λ m. IsSound (held m) (shard_at changed m)) same
                (subst (IsSound (held i)) (sym here) k.sound)
          | no ne ↦ at_other (IsSound (held j)) j small ne (rw (same_held j ne) (v.sound j small))
        ];
        coherent = λ j small. elim (ℕ_discrete i j) [
          | yes same ↦ at_here IsCoherent j same k.coherent
          | no ne ↦ at_other IsCoherent j small ne (bystander-IsCoherent j small ne)
        ];
        own = λ j id small away. elim (ℕ_discrete i j) [
          | yes same ↦
              let far : shard_index id n ≢ i = λ e. away (e ∙ same) in
              at_here (λ s. get id s.state.page_table ≡ none) j same
                (k.fresh id (λ x. far (own_changes id x)) (v.own i id inside far))
          | no ne ↦
              at_other (λ s. get id s.state.page_table ≡ none) j small ne (v.own j id small away)
        ];
      };
      count = k.count;
      holds = λ id page out h. kept_page id page out h (index id);
    }
