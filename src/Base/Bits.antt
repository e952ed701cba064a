-- ===== src/Base/Bits.antt =====
-- `&`, `|` and `^` at variables: one equation for the lowest digit of each, and what the program's
-- masks and shifts amount to.
use Prim.Native.Nat.{min, max, digits, bitwise}
use Prim.Native.Nat.{bit_and-bitwise, bit_or-bitwise, bit_xor-bitwise}
pub use Prim.Native.Nat.{bit_and, bit_or, bit_xor}
use Prim.Native.Nat.{differ, ℕ, zero, suc, ◌+◌, ◌-◌, ◌*◌, ◌/◌, ◌%◌, ◌^◌, ◌≤◌, ◌<◌}
use mathlib.Core.Path.{◌≡◌, refl, ap}
use native.Mathlib.Nat.{pow-suc, one-le-pow}
use native.Mathlib.Omega.{arith}

-- The fuel of the recursion on digits does not matter once it covers the first number.
module _ (rest : ℕ → ℕ) (f : ℕ → ℕ → ℕ) where
  digits_enough : (n m a b : ℕ) → a ≤ n → a ≤ m → digits rest f n a b ≡ digits rest f m a b
  digits_enough zero zero a b p q = refl
  digits_enough zero (suc m) zero b p q = refl
  digits_enough zero (suc m) (suc a) b p q = absurd (omega arith)
  digits_enough (suc n) zero zero b p q = refl
  digits_enough (suc n) zero (suc a) b p q = absurd (omega arith)
  digits_enough (suc n) (suc m) zero b p q = refl
  digits_enough (suc n) (suc m) (suc a) b p q =
      omega (arith, digits_enough n m (suc a / 2) (b / 2) (omega arith) (omega arith))

  bitwise_digit :
      (a b : ℕ)
      → bitwise rest f (suc a) b ≡ bitwise rest f (suc a / 2) (b / 2) * 2 + f (suc a % 2) (b % 2)
  bitwise_digit a b =
      omega (arith, digits_enough a (suc a / 2) (suc a / 2) (b / 2) (omega arith) (omega arith))

pub or_digit : (x y : ℕ) → bit_or x y ≡ max (x % 2) (y % 2) + 2 * bit_or (x / 2) (y / 2)
or_digit zero b = simp bit_or-bitwise (omega arith)
or_digit (suc a) b = simp bit_or-bitwise (omega (arith, bitwise_digit (λ d. d) max a b))

pub and_digit : (x y : ℕ) → bit_and x y ≡ min (x % 2) (y % 2) + 2 * bit_and (x / 2) (y / 2)
and_digit zero b = simp bit_and-bitwise (omega arith)
and_digit (suc a) b = simp bit_and-bitwise (omega (arith, bitwise_digit (λ d. 0) min a b))

pub xor_digit : (x y : ℕ) → bit_xor x y ≡ differ (x % 2) (y % 2) + 2 * bit_xor (x / 2) (y / 2)
xor_digit zero b = simp bit_xor-bitwise (ground arith)
xor_digit (suc a) b = simp bit_xor-bitwise (omega (arith, bitwise_digit (λ d. d) differ a b))

differ_eq : (x y : ℕ) → x < 2 → y < 2 → differ x y ≡ 0 → x ≡ y
differ_eq zero y hx hy e = omega arith
differ_eq (suc x) zero hx hy e = absurd (omega arith)
differ_eq (suc zero) (suc zero) hx hy e = refl
differ_eq (suc zero) (suc (suc y)) hx hy e = absurd (omega arith)
differ_eq (suc (suc x)) (suc y) hx hy e = absurd (omega arith)

differ_self : (x : ℕ) → differ x x ≡ 0
differ_self zero = refl
differ_self (suc x) = differ_self x

-- A disjunction is zero only if both sides are.
pub or_eq_zero : (n a b : ℕ) → a ≤ n → b ≤ n → bit_or a b ≡ 0 → (a ≡ 0) × (b ≡ 0)
or_eq_zero zero a b p q e = omega arith
or_eq_zero (suc n) zero b p q e = omega (arith, bit_or-bitwise 0 b)
or_eq_zero (suc n) (suc a) b p q e = omega (
  arith,
  or_digit (suc a) b,
  or_eq_zero n (suc a / 2) (b / 2) (omega arith) (omega arith) (omega (arith, or_digit (suc a) b)),
)

-- Two numbers whose exclusive or is zero are equal.
pub eq_of_xor : (n a b : ℕ) → a ≤ n → b ≤ n → bit_xor a b ≡ 0 → a ≡ b
eq_of_xor zero a b p q e = omega arith
eq_of_xor (suc n) a b p q e = omega (
  arith,
  xor_digit a b,
  eq_of_xor n (a / 2) (b / 2) (omega arith) (omega arith) (omega (arith, xor_digit a b)),
  differ_eq (a % 2) (b % 2) (omega arith) (omega arith) (omega (arith, xor_digit a b)),
)

xor_self_upto : (n a : ℕ) → a ≤ n → bit_xor a a ≡ 0
xor_self_upto zero a p = rw (let e : a ≡ 0 = omega arith in e)
xor_self_upto (suc n) a p =
    omega (arith, xor_digit a a, differ_self (a % 2), xor_self_upto n (a / 2) (omega arith))

pub xor_self : (a : ℕ) → bit_xor a a ≡ 0
xor_self a = xor_self_upto a a (omega arith)

or_zero_upto : (n a : ℕ) → a ≤ n → bit_or a 0 ≡ a
or_zero_upto zero a p = rw (let e : a ≡ 0 = omega arith in e)
or_zero_upto (suc n) a p = omega (arith, or_digit a 0, or_zero_upto n (a / 2) (omega arith))

and_zero_upto : (n a : ℕ) → a ≤ n → bit_and a 0 ≡ 0
and_zero_upto zero a p = rw (let e : a ≡ 0 = omega arith in e)
and_zero_upto (suc n) a p = omega (arith, and_digit a 0, and_zero_upto n (a / 2) (omega arith))

double-pow : (q k : ℕ) → q * 2 ^ suc k ≡ 2 * (q * 2 ^ k)
double-pow q k = omega (arith, ap (λ (t : ℕ). q * t) (pow-suc 2 k))

-- `(q << k) | r` is a sum when `r` fits in `k` bits.
pub or_shifted : (k q r : ℕ) → r < 2 ^ k → bit_or (q * 2 ^ k) r ≡ q * 2 ^ k + r
or_shifted zero q r h = ground (arith, or_zero_upto q q (omega arith))
or_shifted (suc k) q r h = ground (
  arith,
  or_digit (q * 2 ^ suc k) r,
  double-pow q k,
  pow-suc 2 k,
  or_shifted k q (r / 2) (omega (arith, pow-suc 2 k)),
)

-- The low four bits.
pub and_fifteen : (x : ℕ) → bit_and x 15 ≡ x % 16
and_fifteen x = omega (
  arith,
  and_digit x 15,
  and_digit (x / 2) 7,
  and_digit (x / 2 / 2) 3,
  and_digit (x / 2 / 2 / 2) 1,
  and_zero_upto (x / 2 / 2 / 2 / 2) (x / 2 / 2 / 2 / 2) (omega arith),
)

-- A mask of ones keeps what fits.
pub and_ones : (j q : ℕ) → q < 2 ^ j → bit_and q (2 ^ j - 1) ≡ q
and_ones zero q h = omega (arith, and_zero_upto q q (omega arith))
and_ones (suc j) q h =
    ground (arith, and_digit q (2 ^ suc j - 1), pow-suc 2 j, and_ones j (q / 2), one-le-pow j 2)

-- A mask whose low `k` bits are zero clears them.
pub and_high : (k m q r : ℕ) → r < 2 ^ k → bit_and (q * 2 ^ k + r) (m * 2 ^ k) ≡ bit_and q m * 2 ^ k
and_high zero m q r h =
    let e : r ≡ 0 = omega arith in
    rw e (
      rw (let d : q * 2 ^ 0 + 0 ≡ q = omega arith in d)
        (rw (let d : m * 2 ^ 0 ≡ m = omega arith in d) (omega arith)))
and_high (suc k) m q r h = ground (
  arith,
  and_digit (q * 2 ^ suc k + r) (m * 2 ^ suc k),
  double-pow q k,
  double-pow m k,
  double-pow (bit_and q m) k,
  pow-suc 2 k,
  and_high k m q (r / 2) (omega (arith, pow-suc 2 k)),
)

-- The lowest bit.
pub and_one : (x : ℕ) → bit_and x 1 ≡ x % 2
and_one x = omega (arith, and_digit x 1, and_zero_upto (x / 2) (x / 2) (omega arith))
