-- ===== src/BufferPool/Pool/ShardCount.antt =====
-- The number of shards of a pool.
use oxen_db.Prelude.{ℕ, zero, suc, ◌+◌, ◌*◌, ◌/◌, ◌^◌, ◌≤◌, ◌<◌, ◌≡◌, ◌⊎◌, inl, inr, refl, arith}
use native.Mathlib.Decide.{dec_lt}
use native.Mathlib.Nat.{one-le-pow}
use oxen_db.BufferPool.{shard_count_for, ilog2, clamp, target_shard_frames, max_shards}
use oxen_db.BufferPool.Pool.Start.{ilog2_lem}

-- A power of two above 32 and at most 64.
pow_sixty_four : (k : ℕ) → 32 < 2 ^ k → 2 ^ k ≤ 64 → 2 ^ k ≡ 64
pow_sixty_four zero h l = absurd (omega arith)
pow_sixty_four (suc zero) h l = absurd (omega arith)
pow_sixty_four (suc (suc zero)) h l = absurd (omega arith)
pow_sixty_four (suc (suc (suc zero))) h l = absurd (omega arith)
pow_sixty_four (suc (suc (suc (suc zero)))) h l = absurd (omega arith)
pow_sixty_four (suc (suc (suc (suc (suc zero))))) h l = absurd (omega arith)
pow_sixty_four (suc (suc (suc (suc (suc (suc zero)))))) h l = refl
pow_sixty_four (suc (suc (suc (suc (suc (suc (suc k))))))) h l =
    absurd (omega (arith, one-le-pow k 2 (omega arith)))

abbrev wanted : ℕ → ℕ
wanted capacity = clamp (capacity / target_shard_frames) 1 max_shards

wanted_bounds : (capacity : ℕ) → (0 < wanted capacity) × (wanted capacity ≤ 64)
unfolding clamp
wanted_bounds capacity = (ground arith, ground arith)

wanted_small : (capacity : ℕ) → (wanted capacity ≡ 1) ⊎ (wanted capacity * 64 ≤ capacity)
unfolding clamp
wanted_small capacity = elim (dec_lt capacity 64) [
  | yes few ↦ inl (ground (arith, few))
  | no many ↦ inr (ground (arith, many))
]

wanted_large : (capacity : ℕ) → (wanted capacity ≡ 64) ⊎ (capacity < (wanted capacity + 1) * 64)
unfolding clamp
wanted_large capacity = elim (dec_lt capacity (64 * 64)) [
  | yes few ↦ inr (ground (arith, few))
  | no many ↦ inl (ground (arith, many))
]

-- The number of shards is a power of two and at most 64. It is 1, or small enough that a shard has
-- 64 frames of the capacity; it is 64, or twice as many shards would have fewer than 64 frames each.
pub shard_count_for-largest :
    (capacity : ℕ)
    → (k : ℕ) × (shard_count_for capacity ≡ 2 ^ k)
      × (shard_count_for capacity ≤ 64)
      × ((shard_count_for capacity ≡ 1) ⊎ (shard_count_for capacity * 64 ≤ capacity))
      × ((shard_count_for capacity ≡ 64) ⊎ (capacity < 2 * shard_count_for capacity * 64))
unfolding shard_count_for
shard_count_for-largest capacity =
    let k = ilog2 (wanted capacity) in
    let bounds = wanted_bounds capacity in
    let log = ilog2_lem (wanted capacity) bounds.0 in
    let positive = one-le-pow k 2 (omega arith) in
    (
      k,
      refl,
      omega (arith, log.0, bounds.1),
      elim (wanted_small capacity) [
        | inl one ↦ inl (omega (arith, one, log.0, positive))
        | inr fits ↦ inr (omega (arith, fits, log.0))
      ],
      elim (wanted_large capacity) [
        | inl most ↦
            inl (pow_sixty_four k (omega (arith, most, log.1)) (omega (arith, log.0, bounds.1)))
        | inr less ↦ inr (omega (arith, less, log.1))
      ],
    )
