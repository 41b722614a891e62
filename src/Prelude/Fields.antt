-- ===== src/Prelude/Fields.antt =====
-- Integer fields at fixed offsets of a byte buffer.
use Prim.Native.Nat.{ℕ, zero, suc, ◌+◌, ◌^◌, ◌≤◌, ◌<◌}
use mathlib.Core.Path.{◌≡◌, refl, ap, sym}
use mathlib.Core.List.{List, [], ◌∷◌, ◌++◌}
use native.Mathlib.Omega.{arith}
use oxen_db.Prelude.Lists.{
  length, take, drop, get_or, take-append, drop-append, drop-drop, take-append_le, take-take,
}
use oxen_db.Prelude.Slices.{
  slice, overwrite, splice, length-splice, drop-splice, slice-splice_self, slice-splice_before,
}
use oxen_db.Prelude.Little.{
  to_le_bytes, from_le_bytes, length-to_le_bytes, from_le_bytes-to_le_bytes,
}

-- The `w`-byte integer at offset `at`.
unfoldable pub read_le : ℕ → ℕ → List ℕ → ℕ
read_le w at bs = from_le_bytes (slice at w bs)

unfoldable pub write_le : ℕ → ℕ → ℕ → List ℕ → List ℕ
write_le w at v bs = splice at (to_le_bytes w v) bs

pub length-write_le : (w at v : ℕ) (bs : List ℕ) → length (write_le w at v bs) ≡ length bs
unfolding write_le
length-write_le w at v bs = length-splice at (to_le_bytes w v) bs

pub read_le-write_le_self :
    (w at v : ℕ) (bs : List ℕ)
    → v < 256 ^ w
    → at + w ≤ length bs
    → read_le w at (write_le w at v bs) ≡ v
unfolding read_le write_le
read_le-write_le_self w at v bs h fits =
    rw
      (subst_width
        (slice-splice_self at (to_le_bytes w v) bs (omega (arith, length-to_le_bytes w v))))
      (from_le_bytes-to_le_bytes w v h)
  where
    subst_width :
        slice at (length (to_le_bytes w v)) (splice at (to_le_bytes w v) bs) ≡ to_le_bytes w v
        → slice at w (splice at (to_le_bytes w v) bs) ≡ to_le_bytes w v
    subst_width e = rw (length-to_le_bytes w v) at e

pub drop-write_le :
    (k w at v : ℕ) (bs : List ℕ) → at + w ≤ k → drop k (write_le w at v bs) ≡ drop k bs
unfolding write_le
drop-write_le k w at v bs h = drop-splice k at _ bs (omega (arith, length-to_le_bytes w v))

pub slice-write_le_before :
    (k n w at v : ℕ) (bs : List ℕ) → k + n ≤ at → slice k n (write_le w at v bs) ≡ slice k n bs
unfolding write_le
slice-write_le_before k n w at v bs h = slice-splice_before k n at (to_le_bytes w v) bs h

get_or-drop : (i : ℕ) (bs : List ℕ) (d : ℕ) → get_or (drop i bs) 0 d ≡ get_or bs i d
unfolding get_or drop
get_or-drop zero bs d = refl
get_or-drop (suc i) [] d = refl
get_or-drop (suc i) (b ∷ bs) d = get_or-drop i bs d

pub get_or-splice_after :
    (i at : ℕ) (src bs : List ℕ) (d : ℕ)
    → at + length src ≤ i
    → get_or (splice at src bs) i d ≡ get_or bs i d
get_or-splice_after i at src bs d h =
    rw (← get_or-drop i (splice at src bs) d, drop-splice i at src bs h) (get_or-drop i bs d)

pub get_or-splice_before :
    (i at : ℕ) (src bs : List ℕ) (d : ℕ) → i < at → get_or (splice at src bs) i d ≡ get_or bs i d
unfolding get_or splice
get_or-splice_before i zero src bs d h = absurd (omega arith)
get_or-splice_before i (suc at) src [] d h = refl
get_or-splice_before zero (suc at) src (b ∷ bs) d h = refl
get_or-splice_before (suc i) (suc at) src (b ∷ bs) d h =
    get_or-splice_before i at src bs d (omega arith)

-- Writing one byte.
pub get_or-splice_self :
    (at v : ℕ) (bs : List ℕ) (d : ℕ) → at < length bs → get_or (splice at (v ∷ []) bs) at d ≡ v
unfolding get_or splice overwrite
get_or-splice_self zero v [] d h = absurd (omega arith)
get_or-splice_self zero v (b ∷ bs) d h = refl
get_or-splice_self (suc at) v [] d h = absurd (omega arith)
get_or-splice_self (suc at) v (b ∷ bs) d h = get_or-splice_self at v bs d (omega arith)

pub get_or-drop_congr :
    (i : ℕ) (a b : List ℕ) (d : ℕ) → drop i a ≡ drop i b → get_or a i d ≡ get_or b i d
get_or-drop_congr i a b d e = rw (← get_or-drop i a d, ← get_or-drop i b d, e)

pub read_le-drop_congr :
    (w at : ℕ) (a b : List ℕ) → drop at a ≡ drop at b → read_le w at a ≡ read_le w at b
unfolding read_le
read_le-drop_congr w at a b e = ap (λ (t : List ℕ). from_le_bytes (take w t)) e

pub read_le-slice_congr :
    (w at : ℕ) (a b : List ℕ) → slice at w a ≡ slice at w b → read_le w at a ≡ read_le w at b
unfolding read_le
read_le-slice_congr w at a b e = ap from_le_bytes e

-- A byte outside the range of a field.
pub get_or-write_le_before :
    (i w at v : ℕ) (bs : List ℕ) (d : ℕ) → i < at → get_or (write_le w at v bs) i d ≡ get_or bs i d
unfolding write_le
get_or-write_le_before i w at v bs d h = get_or-splice_before i at _ bs d h

-- A field read before or behind another one that was written.
pub read_le-write_le_before :
    (n k w at v : ℕ) (bs : List ℕ) → k + n ≤ at → read_le n k (write_le w at v bs) ≡ read_le n k bs
read_le-write_le_before n k w at v bs h =
    read_le-slice_congr n k _ bs (slice-write_le_before k n w at v bs h)

pub read_le-write_le_after :
    (n k w at v : ℕ) (bs : List ℕ) → at + w ≤ k → read_le n k (write_le w at v bs) ≡ read_le n k bs
read_le-write_le_after n k w at v bs h = read_le-drop_congr n k _ bs (drop-write_le k w at v bs h)

-- Reading across an append.
pub drop-append_add : (k : ℕ) (xs ys : List ℕ) → drop (length xs + k) (xs ++ ys) ≡ drop k ys
unfolding drop
drop-append_add k [] ys = let e : 0 + k ≡ k = omega arith in rw e refl
drop-append_add k (x ∷ xs) ys =
    let e : suc (length xs) + k ≡ suc (length xs + k) = omega arith in
    rw e (drop-append_add k xs ys)

pub read_le-append :
    (w k at : ℕ) (xs ys : List ℕ) → length xs ≡ k → read_le w (k + at) (xs ++ ys) ≡ read_le w at ys
unfolding read_le
read_le-append w k at xs ys e =
    rw (← e) (ap (λ (t : List ℕ). from_le_bytes (take w t)) (drop-append_add at xs ys))

pub get_or-append :
    (k at d : ℕ) (xs ys : List ℕ) → length xs ≡ k → get_or (xs ++ ys) (k + at) d ≡ get_or ys at d
get_or-append k at d xs ys e =
    rw (← e, ← get_or-drop (length xs + at) (xs ++ ys) d, drop-append_add at xs ys)
      (get_or-drop at ys d)

pub take_of-append : (n : ℕ) (xs ys : List ℕ) → length xs ≡ n → take n (xs ++ ys) ≡ xs
take_of-append n xs ys e = rw (← e) (take-append xs ys)

pub read_le-to_le_bytes :
    (w v : ℕ) (ys : List ℕ) → v < 256 ^ w → read_le w 0 (to_le_bytes w v ++ ys) ≡ v
unfolding read_le drop
read_le-to_le_bytes w v ys h =
    rw (take_of-append w (to_le_bytes w v) ys (length-to_le_bytes w v))
      (from_le_bytes-to_le_bytes w v h)

-- Overwriting a field inside an append.
overwrite-append :
    (src old ys : List ℕ) → length src ≡ length old → overwrite src (old ++ ys) ≡ src ++ ys
unfolding overwrite
overwrite-append [] [] ys h = refl
overwrite-append [] (o ∷ old) ys h = absurd (omega arith)
overwrite-append (s ∷ src) [] ys h = absurd (omega arith)
overwrite-append (s ∷ src) (o ∷ old) ys h = ap (◌∷◌ s) (overwrite-append src old ys (omega arith))

splice-append :
    (k : ℕ) (xs src old ys : List ℕ)
    → length xs ≡ k
    → length src ≡ length old
    → splice k src (xs ++ (old ++ ys)) ≡ xs ++ (src ++ ys)
unfolding splice
splice-append zero [] src old ys h e = overwrite-append src old ys e
splice-append zero (x ∷ xs) src old ys h e = absurd (omega arith)
splice-append (suc k) [] src old ys h e = absurd (omega arith)
splice-append (suc k) (x ∷ xs) src old ys h e =
    ap (◌∷◌ x) (splice-append k xs src old ys (omega arith) e)

pub write_le-append :
    (w k v : ℕ) (xs old ys : List ℕ)
    → length xs ≡ k
    → length old ≡ w
    → write_le w k v (xs ++ (old ++ ys)) ≡ xs ++ (to_le_bytes w v ++ ys)
unfolding write_le
write_le-append w k v xs old ys h e =
    splice-append k xs (to_le_bytes w v) old ys h (omega (arith, length-to_le_bytes w v))

pub drop_of-append : (k : ℕ) (xs ys : List ℕ) → length xs ≡ k → drop k (xs ++ ys) ≡ ys
drop_of-append k xs ys e = rw (← e) (drop-append xs ys)

pub read_le-drop : (w k at : ℕ) (bs : List ℕ) → read_le w (k + at) bs ≡ read_le w at (drop k bs)
unfolding read_le
read_le-drop w k at bs = ap (λ (t : List ℕ). from_le_bytes (take w t)) (sym (drop-drop at k bs))

pub read_le-take : (w n : ℕ) (bs : List ℕ) → w ≤ n → read_le w 0 (take n bs) ≡ read_le w 0 bs
unfolding read_le drop
read_le-take w n bs h = ap from_le_bytes (take-take w n bs h)

pub read_le-append_le :
    (w : ℕ) (bs more : List ℕ) → w ≤ length bs → read_le w 0 (bs ++ more) ≡ read_le w 0 bs
unfolding read_le drop
read_le-append_le w bs more h = ap from_le_bytes (take-append_le w bs more h)
