-- ===== src/Prelude/Bits.antt =====
-- `^` on numbers of any width, from the digits that it stands for.
use Prim.Native.Nat.{
  ℕ, zero, suc, ◌+◌, ◌-◌, ◌*◌, ◌/◌, ◌%◌, ◌^◌, ◌≤◌, ◌<◌, bit_xor, bit_and, digits, differ,
  bit_xor-bitwise, bit_and-bitwise, min,
}
use mathlib.Core.Path.{◌≡◌, refl, sym, ◌∙◌, ap}
use native.Mathlib.Nat.{pow-suc, one-le-pow, div-add-mod}
use native.Mathlib.Omega.{arith}

-- Any fuel from the left operand on gives the same digits.
module _ (low : ℕ → ℕ) (bit : ℕ → ℕ → ℕ) where
  enough : (x s t y : ℕ) → x ≤ s → x ≤ t → digits low bit s x y ≡ digits low bit t x y
  enough zero zero zero y hs ht = refl
  enough zero zero (suc t) y hs ht = refl
  enough zero (suc s) zero y hs ht = refl
  enough zero (suc s) (suc t) y hs ht = refl
  enough (suc x) zero t y hs ht = absurd (omega arith)
  enough (suc x) (suc s) zero y hs ht = absurd (omega arith)
  enough (suc x) (suc s) (suc t) y hs ht =
      ap (λ (rest : ℕ). rest * 2 + bit (suc x % 2) (y % 2))
        (enough (suc x / 2) s t (y / 2) (omega arith) (omega arith))

differ_bits : (p q : ℕ) → p < 2 → q < 2 → differ p q ≡ (p + q) % 2
differ_bits zero zero hp hq = refl
differ_bits zero (suc zero) hp hq = refl
differ_bits (suc zero) zero hp hq = refl
differ_bits (suc zero) (suc zero) hp hq = refl
differ_bits p q hp hq = absurd (omega arith)

xor-suc :
    (a b : ℕ) → bit_xor (suc a) b ≡ bit_xor (suc a / 2) (b / 2) * 2 + differ (suc a % 2) (b % 2)
xor-suc a b = omega (
  arith,
  bit_xor-bitwise (suc a) b,
  bit_xor-bitwise (suc a / 2) (b / 2),
  enough (λ d. d) differ (suc a / 2) a (suc a / 2) (b / 2) (omega arith) (omega arith),
)

pub zero-xor : (b : ℕ) → bit_xor 0 b ≡ b
zero-xor b = bit_xor-bitwise 0 b

-- The lowest digit of a sum without carries, and the rest.
pub xor_step : (a b : ℕ) → bit_xor a b ≡ bit_xor (a / 2) (b / 2) * 2 + (a % 2 + b % 2) % 2
xor_step zero b = omega (arith, zero-xor b, zero-xor (b / 2))
xor_step (suc a) b =
    omega (arith, xor-suc a b, differ_bits (suc a % 2) (b % 2) (omega arith) (omega arith))

xor_comm_fuel : (n a b : ℕ) → a + b ≤ n → bit_xor a b ≡ bit_xor b a
xor_comm_fuel zero zero zero h = refl
xor_comm_fuel zero (suc a) b h = absurd (omega arith)
xor_comm_fuel zero zero (suc b) h = absurd (omega arith)
xor_comm_fuel (suc n) a b h =
    omega (arith, xor_step a b, xor_step b a, xor_comm_fuel n (a / 2) (b / 2) (omega arith))

pub xor_comm : (a b : ℕ) → bit_xor a b ≡ bit_xor b a
xor_comm a b = xor_comm_fuel (a + b) a b (omega arith)

pub xor-zero : (a : ℕ) → bit_xor a 0 ≡ a
xor-zero a = xor_comm a 0 ∙ zero-xor a

pub xor-half : (a b : ℕ) → bit_xor a b / 2 ≡ bit_xor (a / 2) (b / 2)
xor-half a b = omega (arith, xor_step a b)

pub xor-parity : (a b : ℕ) → bit_xor a b % 2 ≡ (a % 2 + b % 2) % 2
xor-parity a b = omega (arith, xor_step a b)

xor_assoc_fuel : (n a b c : ℕ) → a + b + c ≤ n → bit_xor (bit_xor a b) c ≡ bit_xor a (bit_xor b c)
xor_assoc_fuel zero zero zero zero h = refl
xor_assoc_fuel zero zero zero (suc c) h = absurd (omega arith)
xor_assoc_fuel zero zero (suc b) c h = absurd (omega arith)
xor_assoc_fuel zero (suc a) b c h = absurd (omega arith)
xor_assoc_fuel (suc n) a b c h =
    let left : bit_xor (bit_xor a b) c
        ≡ bit_xor (bit_xor (a / 2) (b / 2)) (c / 2) * 2 + (bit_xor a b % 2 + c % 2) % 2 =
      rw (← xor-half a b) (xor_step (bit_xor a b) c) in
    let right : bit_xor a (bit_xor b c)
        ≡ bit_xor (a / 2) (bit_xor (b / 2) (c / 2)) * 2 + (a % 2 + bit_xor b c % 2) % 2 =
      rw (← xor-half b c) (xor_step a (bit_xor b c)) in
    omega (
      arith,
      left,
      right,
      xor-parity a b,
      xor-parity b c,
      xor_assoc_fuel n (a / 2) (b / 2) (c / 2) (omega arith),
    )

pub xor_assoc : (a b c : ℕ) → bit_xor (bit_xor a b) c ≡ bit_xor a (bit_xor b c)
xor_assoc a b c = xor_assoc_fuel (a + b + c) a b c (omega arith)

xor_self_fuel : (n a : ℕ) → a ≤ n → bit_xor a a ≡ 0
xor_self_fuel n zero h = refl
xor_self_fuel zero (suc a) h = absurd (omega arith)
xor_self_fuel (suc n) (suc a) h =
    omega (arith, xor_step (suc a) (suc a), xor_self_fuel n (suc a / 2) (omega arith))

pub xor_self : (a : ℕ) → bit_xor a a ≡ 0
xor_self a = xor_self_fuel a a (omega arith)

-- Two terms that share `p`.
pub xor_cancel : (x y p : ℕ) → bit_xor (bit_xor x p) (bit_xor y p) ≡ bit_xor x y
xor_cancel x y p =
    rw (xor_comm y p, ← xor_assoc (bit_xor x p) p y, xor_assoc x p p, xor_self p, xor-zero x) refl

pub xor_swap : (x y z : ℕ) → bit_xor (bit_xor x y) z ≡ bit_xor (bit_xor x z) y
xor_swap x y z = rw (xor_assoc x y z, xor_comm y z) (sym (xor_assoc x z y))

pub xor-lt : (k a b : ℕ) → a < 2 ^ k → b < 2 ^ k → bit_xor a b < 2 ^ k
xor-lt zero zero zero ha hb = omega arith
xor-lt zero (suc a) b ha hb = absurd (omega arith)
xor-lt zero zero (suc b) ha hb = absurd (omega arith)
xor-lt (suc k) a b ha hb = omega (
  arith,
  pow-suc 2 k,
  xor_step a b,
  xor-lt k (a / 2) (b / 2) (omega (arith, pow-suc 2 k)) (omega (arith, pow-suc 2 k)),
)

-- Disjoint fields add up.
pub xor_fields : (k q r : ℕ) → r < 2 ^ k → bit_xor (q * 2 ^ k) r ≡ q * 2 ^ k + r
xor_fields zero q zero h = xor-zero (q * 1) ∙ omega arith
xor_fields zero q (suc r) h = absurd (omega arith)
xor_fields (suc k) q r h =
    let double : q * 2 ^ suc k ≡ 2 * (q * 2 ^ k) =
      omega (arith, ap (λ (t : ℕ). q * t) (pow-suc 2 k)) in
    let half : q * 2 ^ suc k / 2 ≡ q * 2 ^ k = omega (arith, double) in
    let even : q * 2 ^ suc k % 2 ≡ 0 = omega (arith, double) in
    let step : bit_xor (q * 2 ^ suc k) r ≡ bit_xor (q * 2 ^ k) (r / 2) * 2 + (0 + r % 2) % 2 =
      rw (← half, ← even) (xor_step (q * 2 ^ suc k) r) in
    omega (arith, step, double, xor_fields k q (r / 2) (omega (arith, pow-suc 2 k)))

zero-and : (b : ℕ) → bit_and 0 b ≡ 0
zero-and b = bit_and-bitwise 0 b

and_step : (a b : ℕ) → bit_and a b ≡ bit_and (a / 2) (b / 2) * 2 + min (a % 2) (b % 2)
and_step zero b = omega (arith, zero-and b, zero-and (b / 2))
and_step (suc a) b = omega (
  arith,
  bit_and-bitwise (suc a) b,
  bit_and-bitwise (suc a / 2) (b / 2),
  enough (λ d. zero) min (suc a / 2) a (suc a / 2) (b / 2) (omega arith) (omega arith),
)

and-zero_fuel : (n a : ℕ) → a ≤ n → bit_and a 0 ≡ 0
and-zero_fuel n zero h = refl
and-zero_fuel zero (suc a) h = absurd (omega arith)
and-zero_fuel (suc n) (suc a) h =
    omega (arith, and_step (suc a) 0, and-zero_fuel n (suc a / 2) (omega arith))

and_fields : (k q r : ℕ) → r < 2 ^ k → bit_and (q * 2 ^ k + r) (2 ^ k - 1) ≡ r
and_fields zero q r h =
    let none : r ≡ 0 = omega arith in rw none (and-zero_fuel (q * 1 + 0) (q * 1 + 0) (omega arith))
and_fields (suc k) q r h =
    let x = q * 2 ^ suc k + r in
    let m = 2 ^ suc k - 1 in
    let double : q * 2 ^ suc k ≡ 2 * (q * 2 ^ k) =
      omega (arith, ap (λ (t : ℕ). q * t) (pow-suc 2 k)) in
    let half_x : x / 2 ≡ q * 2 ^ k + r / 2 = omega (arith, double) in
    let half_m : m / 2 ≡ 2 ^ k - 1 = omega (arith, pow-suc 2 k) in
    let odd_m : m % 2 ≡ 1 = omega (arith, pow-suc 2 k, one-le-pow k 2 (omega arith)) in
    let bit_x : x % 2 ≡ r % 2 = omega (arith, double) in
    let step : bit_and x m ≡ bit_and (q * 2 ^ k + r / 2) (2 ^ k - 1) * 2 + min (r % 2) 1 =
      rw (half_x, half_m, bit_x, odd_m) at (and_step x m) in
    omega (arith, step, and_fields k q (r / 2) (omega (arith, pow-suc 2 k)))

-- A mask of `k` ones keeps the low `k` bits.
pub and_mask : (k a : ℕ) → bit_and a (2 ^ k - 1) ≡ a % 2 ^ k
and_mask k a =
    let some_bit = one-le-pow k 2 (omega arith) in
    let whole : a / 2 ^ k * 2 ^ k + a % 2 ^ k ≡ a = omega (arith, div-add-mod a (2 ^ k)) in
    rw whole at (and_fields k (a / 2 ^ k) (a % 2 ^ k) (omega (arith, some_bit)))
