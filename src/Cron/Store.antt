-- ===== src/Cron/Store.antt =====
-- The scheduler's state, and the JSON text that it is saved as: `cron_save` of src/cron.c. cJSON is
-- outside the repository: the file holds the tree that `cJSON_Print` is given.
use tiniclaw.Base.{
  ℕ, zero, suc, ◌+◌, ◌*◌, ◌/◌, ◌%◌, ◌^◌, Bool, ◌&&◌, ◌||◌, Option, some, List, [], ◌∷◌, map, Bytes,
  codes, ltb, ◌==◌, if◌then◌else◌,
}
use tiniclaw.Base.Int.{ℤ, pos, negsuc, sub_ℕ}
use tiniclaw.Cron.{
  JobType, job_shell, job_agent, job_other, ScheduleKind, sched_cron, sched_at, sched_every,
  sched_other, DeliveryMode, delivery_none, delivery_always, delivery_on_error, delivery_on_success,
  delivery_other, CronJob,
}

-- What an object of the file holds under a name.
pub data Json : Type 0 where
  number : ℤ → Json
  text : Bytes → Json
  boolean : Bool → Json

abbrev pub Object : Type 0
Object = List (Bytes × Json)

-- `(double)n` rounds to 53 bits, to the even neighbour in the middle.
unfoldable pub excess : ℕ → ℕ → ℕ → ℕ
excess zero k n = k
excess (suc fuel) k n =
    let more = excess fuel (suc k) n in if ltb (n / 2 ^ k) (2 ^ 53) then k else more

unfoldable pub round_bits : ℕ → ℕ → ℕ
round_bits zero n = n
round_bits (suc k) n =
    let q = n / 2 ^ suc k in
    let r = n % 2 ^ suc k in
    if ltb (2 ^ k) r || (r == 2 ^ k && q % 2 == 1) then (q + 1) * 2 ^ suc k else q * 2 ^ suc k

-- A 64-bit number has at most 11 bits too many.
unfoldable pub double : ℕ → ℕ
unfolding excess round_bits
double n = round_bits (excess 11 0 n) n

unfoldable pub double_ℤ : ℤ → ℤ
unfolding double
double_ℤ (pos n) = pos (double n)
double_ℤ (negsuc n) = sub_ℕ 0 (double (suc n))

abbrev pub type_code : JobType → ℕ
type_code job_shell = 0
type_code job_agent = 1
type_code (job_other n) = n

abbrev pub kind_code : ScheduleKind → ℕ
kind_code sched_cron = 0
kind_code sched_at = 1
kind_code sched_every = 2
kind_code (sched_other n) = n

abbrev pub mode_code : DeliveryMode → ℕ
mode_code delivery_none = 0
mode_code delivery_always = 1
mode_code delivery_on_error = 2
mode_code delivery_on_success = 3
mode_code (delivery_other n) = n

unfoldable pub job_object : CronJob → Object
unfolding double double_ℤ
job_object j =
    (codes "id", number (pos (double j.id)))
    ∷ (codes "name", text j.name)
    ∷ (codes "type", number (pos (type_code j.job_type)))
    ∷ (codes "command", text j.command)
    ∷ (codes "schedule_kind", number (pos (kind_code j.schedule_kind)))
    ∷ (codes "cron_expr", text j.cron_expr)
    ∷ (codes "at_timestamp", number (double_ℤ j.at_timestamp))
    ∷ (codes "every_ms", number (pos (double j.every_ms)))
    ∷ (codes "timezone", text j.timezone)
    ∷ (codes "enabled", boolean j.enabled)
    ∷ (codes "delivery_mode", number (pos (mode_code j.delivery_mode)))
    ∷ (codes "delivery_channel", text j.delivery_channel)
    ∷ (codes "delivery_to", text j.delivery_to)
    ∷ (codes "last_run", number (double_ℤ j.last_run))
    ∷ (codes "next_run", number (double_ℤ j.next_run))
    ∷ []

-- `has_agent` is whether the agent's pointer is set; `cap` is how many jobs the array has room for;
-- `file` is the tree in the jobs file, `none` when it was never written.
pub record CronScheduler : Type 0 where
  pub jobs : List CronJob
  pub cap : ℕ
  pub jobs_path : Bytes
  pub has_agent : Bool
  pub running : Bool
  pub file : Option (List Object)

unfoldable pub save_at : Bytes → CronScheduler → CronScheduler
save_at [] s = s
save_at (c ∷ path) s = record s { file = some (map job_object s.jobs) }

-- The file is written when the scheduler has a path; that it can be opened is assumed.
unfoldable pub cron_save : CronScheduler → CronScheduler
cron_save s = save_at s.jobs_path s
