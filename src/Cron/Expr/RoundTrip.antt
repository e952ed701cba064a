-- ===== src/Cron/Expr/RoundTrip.antt =====
-- The expression that is rebuilt from an interval gives the interval back, in whole seconds.
use tiniclaw.Base.{
  ℕ, zero, suc, ◌+◌, ◌*◌, ◌/◌, ◌%◌, ◌^◌, ◌≤◌, ◌<◌, ◌≡◌, ◌∙◌, refl, ap, Bool, true, false, ◌&&◌,
  Option, none, some, [], ◌∷◌, ◌++◌, append_assoc, Bytes, get_or, starts_with, ltb, leb, ◌==◌,
  if◌then◌else◌, arith, Bool-cases, inl, inr,
}
use native.Mathlib.Nat.{pow-suc}
use tiniclaw.Base.Int.{ℤ, pos, to_i64, leb_ℤ}
use tiniclaw.Util.Strings.{skip_spaces, isspace}
use tiniclaw.Base.Print.{print_digits, print_u64}
use tiniclaw.Cron.Expr.{
  Calendar, is_digit, read_digits, clamp_long, read_number, read_signed, strtol, add_i64, word,
  unit_seconds, every_after, cron_next_run, every_expr,
}

-- One digit in front of the rest.
read_digit :
    (acc d k : ℕ) (rest : Bytes)
    → d < 10
    → acc * 10 + d ≡ k
    → read_digits acc ((b'0' + d) ∷ rest) ≡ read_digits k rest
unfolding read_digits is_digit
read_digit acc d k rest h e =
    let digit : (leb b'0' (b'0' + d) && leb (b'0' + d) b'9') ≡ true = ground arith in
    rw digit (ap (λ (n : ℕ). read_digits n rest) (omega arith))

read_digits-print_digits :
    (fuel n : ℕ) (rest : Bytes)
    → n < 10 ^ suc fuel
    → read_digits 0 (print_digits fuel n ++ rest) ≡ read_digits n rest
unfolding print_digits
read_digits-print_digits zero n rest h = read_digit 0 (n % 10) n rest (omega arith) (omega arith)
read_digits-print_digits (suc fuel) n rest h = elim (Bool-cases (ltb n 10)) [
  | inl e ↦ rw e (read_digit 0 n n rest (ground arith) (omega arith))
  | inr e ↦
      let pow = pow-suc 10 (suc fuel) in
      let shorter : n / 10 < 10 ^ suc fuel = omega (arith, pow) in
      rw e (
        ap (read_digits 0) (append_assoc (print_digits fuel (n / 10)) _ rest)
        ∙ read_digits-print_digits fuel (n / 10) _ shorter
        ∙ read_digit (n / 10) (n % 10) n rest (omega arith) (omega arith))
]

-- A printed number starts with a digit.
print_digits-is_digit :
    (fuel n : ℕ) (rest : Bytes) → is_digit (get_or (print_digits fuel n ++ rest) 0 0) ≡ true
unfolding print_digits is_digit
print_digits-is_digit zero n rest = ground arith
print_digits-is_digit (suc fuel) n rest = elim (Bool-cases (ltb n 10)) [
  | inl e ↦ rw e (ground arith)
  | inr e ↦ rw e (
      ap (λ (s : Bytes). is_digit (get_or s 0 0)) (append_assoc (print_digits fuel (n / 10)) _ rest)
      ∙ print_digits-is_digit fuel (n / 10) _)
]

-- A text that starts with a digit has no white space or sign to skip.
strtol_digit : (s : Bytes) → is_digit (get_or s 0 0) ≡ true → strtol s ≡ read_number false s s
unfolding strtol is_digit skip_spaces read_signed isspace
strtol_digit [] h = absurd (ground arith)
strtol_digit (c ∷ s) h = ground arith

stop_at : (n u : ℕ) (rest : Bytes) → is_digit u ≡ false → read_digits n (u ∷ rest) ≡ (n, u ∷ rest)
unfolding read_digits
stop_at n u rest h = rw h refl

strtol-print_u64 :
    (n u : ℕ) (rest : Bytes)
    → n < 2 ^ 63
    → is_digit u ≡ false
    → strtol (print_u64 n ++ u ∷ rest) ≡ (pos n, u ∷ rest)
unfolding print_u64 read_number clamp_long
strtol-print_u64 n u rest h hu =
    let s : Bytes = print_digits 19 n ++ u ∷ rest in
    let front : is_digit (get_or s 0 0) ≡ true = print_digits-is_digit 19 n (u ∷ rest) in
    let number : read_digits 0 s ≡ (n, u ∷ rest) =
      read_digits-print_digits 19 n (u ∷ rest) (omega arith) ∙ stop_at n u rest hu in
    strtol_digit s front
    ∙ ap {B = ℤ × Bytes}
        (λ (b : Bool).
          if b then (let (m, r) = read_digits 0 s in (clamp_long false m, r)) else (pos 0, s))
        front
    ∙ ap {B = ℤ × Bytes} (λ (r : ℕ × Bytes). (clamp_long false r.0, r.1)) number
    ∙ ap {B = ℤ × Bytes} (λ (m : ℕ). (pos m, u ∷ rest)) (omega arith)

to_i64_small : (m : ℕ) → m < 2 ^ 63 → to_i64 (m % 2 ^ 64) ≡ pos m
to_i64_small m h = ground arith

product_small :
    (n k : ℕ) → n < 2 ^ 63 → n * k < 2 ^ 63 → to_i64 (word (pos n) * k % 2 ^ 64) ≡ pos (n * k)
product_small n k h total =
    ap (λ (m : ℕ). to_i64 (m * k % 2 ^ 64)) (let e : n % 2 ^ 64 ≡ n = omega arith in e)
    ∙ to_i64_small (n * k) total

pub add_i64_small : (x y : ℕ) → x + y < 2 ^ 63 → add_i64 (pos x) (pos y) ≡ pos (x + y)
add_i64_small x y h =
    ap (λ (m : ℕ). to_i64 (m % 2 ^ 64)) (let e : x % 2 ^ 64 + y % 2 ^ 64 ≡ x + y = omega arith in e)
    ∙ to_i64_small (x + y) h

-- The seconds that an `every:` text stands for are added to the clock.
every_after-print_u64 :
    (n u k x : ℕ)
    → is_digit u ≡ false
    → unit_seconds (u ∷ []) ≡ k
    → 0 < n
    → x < 2 ^ 62
    → n * k < 2 ^ 62
    → n < 2 ^ 62
    → every_after (pos x) (strtol (print_u64 n ++ u ∷ [])) ≡ some (pos (x + n * k))
unfolding every_after
every_after-print_u64 n u k x hu unit pos_n small total below =
    let some_add : ℤ → Option ℤ = λ z. some (add_i64 (pos x) z) in
    let positive : leb_ℤ (pos n) (pos 0) ≡ false = ground arith in
    ap (every_after (pos x)) (strtol-print_u64 n u [] (omega arith) hu)
    ∙ rw positive (
        ap (λ (m : ℕ). some_add (to_i64 (word (pos n) * m % 2 ^ 64))) unit
        ∙ ap some_add (product_small n k (omega arith) (omega arith))
        ∙ ap {B = Option ℤ} (λ (z : ℤ). some z) (add_i64_small x (n * k) (omega arith)))

-- An interval of at least a second: the next run comes that many whole seconds after the clock.
pub next_run-every_expr :
    (calendar : Calendar) (ms x : ℕ)
    → 1000 ≤ ms
    → ms < 2 ^ 62
    → x < 2 ^ 62
    → cron_next_run calendar (every_expr ms) (pos x) ≡ some (pos (x + ms / 1000))
unfolding cron_next_run every_expr unit_seconds is_digit starts_with
next_run-every_expr calendar ms x long top small = elim (Bool-cases (ms % 3600000 == 0)) [
  | inl hours ↦ rw hours (
      every_after-print_u64 (ms / 3600000) b'h' 3600 x refl refl (ground arith) small (omega arith)
        (omega arith)
      ∙ ap {B = Option ℤ} (λ (z : ℕ). some (pos z)) (ground arith))
  | inr part ↦ elim (Bool-cases (ms % 60000 == 0)) [
    | inl minutes ↦
        rw (part, minutes)
          (every_after-print_u64 (ms / 60000) b'm' 60 x refl refl (ground arith) small (omega arith)
              (omega arith)
            ∙ ap {B = Option ℤ} (λ (z : ℕ). some (pos z)) (ground arith))
    | inr seconds ↦
        rw (part, seconds)
          (every_after-print_u64 (ms / 1000) b's' 1 x refl refl (omega arith) small (omega arith)
              (omega arith)
            ∙ ap {B = Option ℤ} (λ (z : ℕ). some (pos z)) (omega arith))
  ]
]

every_zero :
    (n u : ℕ) (after : ℤ)
    → is_digit u ≡ false
    → n ≡ 0
    → every_after after (strtol (print_u64 n ++ u ∷ [])) ≡ none
unfolding every_after
every_zero n u after hu e =
    let refused : leb_ℤ (pos n) (pos 0) ≡ true = ground arith in
    ap (every_after after) (strtol-print_u64 n u [] (omega arith) hu) ∙ rw refused refl

-- An interval below a second is printed as 0, which is refused.
pub next_run_too_short :
    (calendar : Calendar) (ms : ℕ) (after : ℤ)
    → ms < 1000
    → cron_next_run calendar (every_expr ms) after ≡ none
unfolding cron_next_run every_expr is_digit starts_with
next_run_too_short calendar ms after short = elim (Bool-cases (ms == 0)) [
  | inl zero_ms ↦
      let hours : (ms % 3600000 == 0) ≡ true = ground arith in
      rw hours (every_zero (ms / 3600000) b'h' after refl (ground arith))
  | inr some_ms ↦
      let part : (ms % 3600000 == 0) ≡ false = ground arith in
      let seconds : (ms % 60000 == 0) ≡ false = ground arith in
      rw (part, seconds) (every_zero (ms / 1000) b's' after refl (omega arith))
]
