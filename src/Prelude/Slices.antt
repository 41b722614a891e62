-- ===== src/Prelude/Slices.antt =====
-- Byte ranges: reading one, and overwriting one in place.
use Prim.Native.Nat.{ℕ, zero, suc, ◌+◌, ◌≤◌}
use mathlib.Core.Path.{◌≡◌, refl, ap}
use mathlib.Core.List.{List, [], ◌∷◌}
use native.Mathlib.Omega.{arith}
use oxen_db.Prelude.Lists.{length, take, drop}

module _ {ℓ} {A : Type ℓ} where
  -- `&bs[at..at + n]`
  abbrev pub slice : ℕ → ℕ → List A → List A
  slice at n bs = take n (drop at bs)

  unfoldable pub overwrite : List A → List A → List A
  overwrite [] bs = bs
  overwrite (s ∷ src) [] = []
  overwrite (s ∷ src) (b ∷ bs) = s ∷ overwrite src bs

  -- `bs[at..at + src.len()].copy_from_slice(src)`. The source panics if the range leaves `bs`.
  unfoldable pub splice : ℕ → List A → List A → List A
  splice zero src bs = overwrite src bs
  splice (suc at) src [] = []
  splice (suc at) src (b ∷ bs) = b ∷ splice at src bs

module _ {ℓ} {A : Type ℓ} where
  length-overwrite : (src bs : List A) → length (overwrite src bs) ≡ length bs
  unfolding overwrite
  length-overwrite [] bs = refl
  length-overwrite (s ∷ src) [] = refl
  length-overwrite (s ∷ src) (b ∷ bs) = ap suc (length-overwrite src bs)

  pub length-splice : (at : ℕ) (src bs : List A) → length (splice at src bs) ≡ length bs
  unfolding splice
  length-splice zero src bs = length-overwrite src bs
  length-splice (suc at) src [] = refl
  length-splice (suc at) src (b ∷ bs) = ap suc (length-splice at src bs)

  take-overwrite :
      (src bs : List A) → length src ≤ length bs → take (length src) (overwrite src bs) ≡ src
  unfolding overwrite take
  take-overwrite [] bs h = refl
  take-overwrite (s ∷ src) [] h = absurd (omega arith)
  take-overwrite (s ∷ src) (b ∷ bs) h = ap (◌∷◌ s) (take-overwrite src bs (omega arith))

  drop-overwrite :
      (k : ℕ) (src bs : List A) → length src ≤ k → drop k (overwrite src bs) ≡ drop k bs
  unfolding overwrite drop
  drop-overwrite k [] bs h = refl
  drop-overwrite zero (s ∷ src) bs h = absurd (omega arith)
  drop-overwrite (suc k) (s ∷ src) [] h = refl
  drop-overwrite (suc k) (s ∷ src) (b ∷ bs) h = drop-overwrite k src bs (omega arith)

  overwrite_again : (src bs : List A) → overwrite src (overwrite src bs) ≡ overwrite src bs
  unfolding overwrite
  overwrite_again [] bs = refl
  overwrite_again (s ∷ src) [] = refl
  overwrite_again (s ∷ src) (b ∷ bs) = ap (◌∷◌ s) (overwrite_again src bs)

  pub splice_again :
      (at : ℕ) (src bs : List A) → splice at src (splice at src bs) ≡ splice at src bs
  unfolding splice
  splice_again zero src bs = overwrite_again src bs
  splice_again (suc at) src [] = refl
  splice_again (suc at) src (b ∷ bs) = ap (◌∷◌ b) (splice_again at src bs)

  -- The bytes behind the range stay.
  pub drop-splice :
      (k at : ℕ) (src bs : List A) → at + length src ≤ k → drop k (splice at src bs) ≡ drop k bs
  unfolding splice drop
  drop-splice k zero src bs h = drop-overwrite k src bs (omega arith)
  drop-splice zero (suc at) src bs h = absurd (omega arith)
  drop-splice (suc k) (suc at) src [] h = refl
  drop-splice (suc k) (suc at) src (b ∷ bs) h = drop-splice k at src bs (omega arith)

  -- The range itself holds what was written.
  pub slice-splice_self :
      (at : ℕ) (src bs : List A)
      → at + length src ≤ length bs
      → slice at (length src) (splice at src bs) ≡ src
  unfolding splice drop
  slice-splice_self zero src bs h = take-overwrite src bs (omega arith)
  slice-splice_self (suc at) src [] h = absurd (omega arith)
  slice-splice_self (suc at) src (b ∷ bs) h = slice-splice_self at src bs (omega arith)

  take-splice : (n at : ℕ) (src bs : List A) → n ≤ at → take n (splice at src bs) ≡ take n bs
  unfolding splice take
  take-splice zero at src bs h = refl
  take-splice (suc n) zero src bs h = absurd (omega arith)
  take-splice (suc n) (suc at) src [] h = refl
  take-splice (suc n) (suc at) src (b ∷ bs) h = ap (◌∷◌ b) (take-splice n at src bs (omega arith))

  -- The bytes before the range stay.
  pub slice-splice_before :
      (k n at : ℕ) (src bs : List A) → k + n ≤ at → slice k n (splice at src bs) ≡ slice k n bs
  unfolding splice drop
  slice-splice_before zero n at src bs h = take-splice n at src bs (omega arith)
  slice-splice_before (suc k) n zero src bs h = absurd (omega arith)
  slice-splice_before (suc k) n (suc at) src [] h = refl
  slice-splice_before (suc k) n (suc at) src (b ∷ bs) h =
      slice-splice_before k n at src bs (omega arith)
