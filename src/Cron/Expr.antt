-- ===== src/Cron/Expr.antt =====
-- Schedule expressions: `nc_cron_next_run` and `sched_expr` of src/cron.c. The time zone is ignored,
-- as the source does. A sum that passes 64 bits wraps.
pub mod RoundTrip
use tiniclaw.Base.{
  ℕ, zero, suc, ◌+◌, ◌-◌, ◌*◌, ◌/◌, ◌%◌, ◌^◌, Bool, true, false, ◌&&◌, Option, none, some, [], ◌∷◌,
  ◌++◌, Bytes, codes, drop, min, get_or, starts_with, ltb, leb, ◌==◌, if◌then◌else◌,
}
use tiniclaw.Base.Print.{print_u64}
use tiniclaw.Base.Int.{ℤ, pos, negsuc, sub_ℕ, ◌+ℤ◌, ltb_ℤ, leb_ℤ, to_i64}
use tiniclaw.Util.Strings.{skip_spaces}
use tiniclaw.Cron.{CronJob, ScheduleKind, sched_cron, sched_at, sched_every, sched_other}

pub is_digit : ℕ → Bool
is_digit c = leb b'0' c && leb c b'9'

-- The digits at the front of a text, read behind the number `acc`; and the rest.
pub read_digits : ℕ → Bytes → ℕ × Bytes
read_digits acc [] = (acc, [])
read_digits acc (c ∷ s) =
    let more = read_digits (acc * 10 + (c - b'0')) s in if is_digit c then more else (acc, c ∷ s)

-- A value that `long` does not hold becomes its largest or smallest one.
pub clamp_long : Bool → ℕ → ℤ
clamp_long false n = pos (min n (2 ^ 63 - 1))
clamp_long true n = sub_ℕ 0 (min n (2 ^ 63))

-- The number behind the sign; a text without a digit gives 0 and stays whole.
pub read_number : Bool → Bytes → Bytes → ℤ × Bytes
read_number negative whole s =
    if is_digit (get_or s 0 0)
    then (let (n, rest) = read_digits 0 s in (clamp_long negative n, rest))
    else (pos 0, whole)

pub read_signed : Bytes → Bytes → ℤ × Bytes
read_signed whole [] = (pos 0, whole)
read_signed whole (c ∷ s) =
    if c == b'-'
    then read_number true whole s
    else if c == b'+'
    then read_number false whole s
    else read_number false whole (c ∷ s)

-- `strtol(s, &end, 10)`: the value, and the text at `end`.
pub strtol : Bytes → ℤ × Bytes
strtol s = read_signed s (skip_spaces s)

-- A sum and a product of `int64_t`, on the two's complement words.
abbrev pub word : ℤ → ℕ
word (pos n) = n % 2 ^ 64
word (negsuc n) = 2 ^ 64 - 1 - n % 2 ^ 64

abbrev pub add_i64 : ℤ → ℤ → ℤ
add_i64 a b = to_i64 ((word a + word b) % 2 ^ 64)

-- `strptime` of "%Y-%m-%dT%H:%M:%S" and `mktime` in the machine's time zone; `none` when the text
-- does not have that form.
abbrev pub Calendar : Type 0
Calendar = Bytes → Option ℤ

pub unit_seconds : Bytes → ℕ
unit_seconds rest =
    if get_or rest 0 0 == b'm' then 60 else if get_or rest 0 0 == b'h' then 3600 else 1

pub every_after : ℤ → ℤ × Bytes → Option ℤ
every_after after (v, rest) =
    if leb_ℤ v (pos 0)
    then none
    else some (add_i64 after (to_i64 (word v * unit_seconds rest % 2 ^ 64)))

pub at_time : Option ℤ → Option ℤ
at_time none = none
at_time (some ts) = if ltb_ℤ (pos 0) ts then some ts else none

-- `none` is the answer false.
unfoldable pub cron_next_run : Calendar → Bytes → ℤ → Option ℤ
cron_next_run calendar expr after =
    if starts_with (codes "every:") expr
    then every_after after (strtol (drop 6 expr))
    else if starts_with (codes "at:") expr
    then at_time (calendar (drop 3 expr))
    else some (add_i64 after (pos 60))

-- The expression of an interval; it is shorter than the 32 bytes of the source's buffer.
unfoldable pub every_expr : ℕ → Bytes
every_expr ms =
    codes "every:"
    ++ (if ms % 3600000 == 0
        then print_u64 (ms / 3600000) ++ codes "h"
        else if ms % 60000 == 0
        then print_u64 (ms / 60000) ++ codes "m"
        else print_u64 (ms / 1000) ++ codes "s")

unfoldable pub expr_of : ScheduleKind → CronJob → Option Bytes
expr_of sched_cron j = some j.cron_expr
expr_of sched_at j = none
expr_of sched_every j = some (every_expr j.every_ms)
expr_of (sched_other n) j = some j.cron_expr

unfoldable pub sched_expr : CronJob → Option Bytes
sched_expr j = expr_of j.schedule_kind j
