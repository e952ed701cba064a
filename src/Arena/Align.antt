-- ===== src/Arena/Align.antt =====
-- `align_up` is rounding up to a multiple, and `alloc` in plain arithmetic.
use tiniclaw.Base.{
  ℕ, zero, suc, ◌+◌, ◌-◌, ◌*◌, ◌/◌, ◌%◌, ◌^◌, ◌≤◌, ◌<◌, ◌≡◌, ◌∙◌, sym, ap, none, some, arith, leb,
  if◌then◌else◌,
}
use native.Mathlib.Nat.{pow-suc, one-le-pow}
use tiniclaw.Base.Bits.{bit_and, and_high, and_ones}
use tiniclaw.Arena.{Arena, IsValid, align_up, alloc}

-- The least multiple of `2 ^ k` that is not below `x`.
abbrev pub round_up : ℕ → ℕ → ℕ
round_up k x = (x + 2 ^ k - 1) / 2 ^ k * 2 ^ k

two_pow_split : (k j : ℕ) → 2 ^ (k + j) ≡ 2 ^ j * 2 ^ k
two_pow_split zero j = rw (let e : zero + j ≡ j = omega arith in e) (omega arith)
two_pow_split (suc k) j = rw (let e : suc k + j ≡ suc (k + j) = omega arith in e) (
    ground (
      arith,
      pow-suc 2 (k + j),
      pow-suc 2 k,
      two_pow_split k j,
      ap (λ (t : ℕ). 2 ^ j * t) (pow-suc 2 k),
    ))

-- The mask of the source keeps the quotient and clears the remainder.
clear_low : (k j y : ℕ) → y < 2 ^ (k + j) → bit_and y ((2 ^ j - 1) * 2 ^ k) ≡ y / 2 ^ k * 2 ^ k
clear_low k j y h =
    let q = y / 2 ^ k in
    let r = y % 2 ^ k in
    let one = one-le-pow k 2 (omega arith) in
    let split : y ≡ q * 2 ^ k + r = grind arith in
    let small : r < 2 ^ k = grind arith in
    let fits : q < 2 ^ j = grind (arith, two_pow_split k j) in
    ap (λ (t : ℕ). bit_and t ((2 ^ j - 1) * 2 ^ k)) split
    ∙ (and_high k (2 ^ j - 1) q r small ∙ ap (λ (t : ℕ). t * 2 ^ k) (and_ones j q fits))

pred_mul : (a b : ℕ) → 1 ≤ a → (a - 1) * b + b ≡ a * b
pred_mul zero b h = absurd (omega arith)
pred_mul (suc a) b h = grind arith

-- Where nothing wraps, `align_up` rounds up.
pub align_up_lem : (k x : ℕ) → k ≤ 64 → x + 2 ^ k ≤ 2 ^ 64 → align_up x (2 ^ k) ≡ round_up k x
unfolding align_up
align_up_lem k x hk h =
    let j : ℕ = 64 - k in
    let e : k + j ≡ 64 = omega arith in
    let pos = one-le-pow k 2 (omega arith) in
    let total : 2 ^ 64 ≡ 2 ^ j * 2 ^ k = ap (λ (t : ℕ). 2 ^ t) (sym e) ∙ two_pow_split k j in
    let sum : (x + 2 ^ k + 2 ^ 64 - 1) % 2 ^ 64 ≡ x + 2 ^ k - 1 = omega arith in
    let mask : 2 ^ 64 - 1 - (2 ^ k + 2 ^ 64 - 1) % 2 ^ 64 ≡ (2 ^ j - 1) * 2 ^ k =
      omega (arith, pred_mul (2 ^ j) (2 ^ k) (one-le-pow j 2 (omega arith)), total, pos) in
    let small : x + 2 ^ k - 1 < 2 ^ (k + j) = rw e (omega arith) in
    rw (sum, mask) (clear_low k j (x + 2 ^ k - 1) small)

-- The least multiple: what `round_up` promises.
pub round_up_bounds :
    (k x : ℕ) → (round_up k x % 2 ^ k ≡ 0) × (x ≤ round_up k x) × (round_up k x < x + 2 ^ k)
round_up_bounds k x =
    let pos = one-le-pow k 2 (omega arith) in (grind arith, grind arith, grind arith)

-- `alloc` without the wrap-around of `size_t`.
pub alloc_exact :
    (a : Arena) (size k : ℕ)
    → IsValid a
    → k ≤ 64
    → a.cap + 2 ^ k + size ≤ 2 ^ 64
    → alloc a size (2 ^ k) ≡ (
        if leb (round_up k a.pos + size) a.cap
        then (some (round_up k a.pos), record a { pos = round_up k a.pos + size })
        else (none, a))
unfolding alloc
alloc_exact a size k v hk fits =
    rw (align_up_lem k a.pos hk (omega arith)) (ground (arith, round_up_bounds k a.pos))
