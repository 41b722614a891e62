-- ===== src/File/Laws.antt =====
-- What a successful write leaves in the file.
use oxen_db.Prelude.{
  ℕ, zero, suc, ◌-◌, ◌≡◌, refl, ap, List, [], ◌∷◌, ◌++◌, length, take, drop, take-append,
  length-append, drop-nil, drop_all, arith, replicate,
}
use mathlib.Core.List.{append-nil}
use oxen_db.File.{write_at, resize}

-- A write at or before the end keeps what stands before it.
pub write_at-append :
    (k : ℕ) (front old src : List ℕ)
    → length front ≡ k
    → write_at k src (front ++ old) ≡ front ++ (src ++ drop (length src) old)
unfolding write_at
write_at-append zero [] old src h = refl
write_at-append zero (b ∷ front) old src h = absurd (omega arith)
write_at-append (suc k) [] old src h = absurd (omega arith)
write_at-append (suc k) (b ∷ front) old src h =
    ap (◌∷◌ b) (write_at-append k front old src (omega arith))

take_of-append_any : (n : ℕ) (xs ys : List ℕ) → length xs ≡ n → take n (xs ++ ys) ≡ xs
take_of-append_any n xs ys e = rw (← e) (take-append xs ys)

pub resize-append :
    (n : ℕ) (front tail : List ℕ) → length front ≡ n → resize n (front ++ tail) ≡ front
unfolding resize replicate
resize-append n front tail h =
    let fits : n - length (front ++ tail) ≡ 0 = omega (arith, length-append front tail) in
    rw (fits, append-nil) (take_of-append_any n front tail h)

-- A write at the end appends.
pub write_at_end : (bs src : List ℕ) → write_at (length bs) src bs ≡ bs ++ src
write_at_end bs src =
    rw (append-nil, drop-nil, append-nil) at (write_at-append (length bs) bs [] src refl)

-- A write from the start that covers the file replaces it.
pub write_at_whole : (bs src : List ℕ) → length bs ≡ length src → write_at 0 src bs ≡ src
unfolding write_at
write_at_whole bs src h = rw (drop_all (length src) bs (omega arith)) (append-nil src)
