-- ===== src/Cron/Load.antt =====
-- Reading the jobs file: `cron_load` and `nc_cron_init` of src/cron.c. The parser of JSON and the
-- casts of a double, given as its 64 bits, are parameters.
pub mod Reload
use tiniclaw.Base.{
  ℕ, zero, suc, Bool, false, Option, none, some, List, [], ◌∷◌, Bytes, codes, clip, c_string,
  if◌then◌else◌,
}
use tiniclaw.Base.Int.{ℤ, pos}
use tiniclaw.Json.{Tree, get_item, as_text, as_number, as_boolean, as_items, or_else}
use tiniclaw.Cron.{
  JobType, job_shell, job_agent, job_other, ScheduleKind, sched_cron, sched_at, sched_every,
  sched_other, DeliveryMode, delivery_none, delivery_always, delivery_on_error, delivery_on_success,
  delivery_other, CronJob,
}
use tiniclaw.Cron.Expr.{Calendar}
use tiniclaw.Cron.Store.{CronScheduler}
use tiniclaw.Cron.Jobs.{cron_add}

-- `(uint64_t)`, `(int64_t)` and the cast to an enum, of a double.
pub record Casts : Type 0 where
  pub to_u64 : ℕ → ℕ
  pub to_s64 : ℕ → ℤ
  pub to_enum : ℕ → ℕ

abbrev pub type_named : ℕ → JobType
type_named zero = job_shell
type_named (suc zero) = job_agent
type_named (suc (suc n)) = job_other (suc (suc n))

abbrev pub kind_named : ℕ → ScheduleKind
kind_named zero = sched_cron
kind_named (suc zero) = sched_at
kind_named (suc (suc zero)) = sched_every
kind_named (suc (suc (suc n))) = sched_other (suc (suc (suc n)))

abbrev pub mode_named : ℕ → DeliveryMode
mode_named zero = delivery_none
mode_named (suc zero) = delivery_always
mode_named (suc (suc zero)) = delivery_on_error
mode_named (suc (suc (suc zero))) = delivery_on_success
mode_named (suc (suc (suc (suc n)))) = delivery_other (suc (suc (suc (suc n))))

-- GET_STR and GET_NUM, into a field of zeros.
unfoldable pub clip_found : ℕ → Option Bytes → Bytes
clip_found size none = []
clip_found size (some s) = clip size s

unfoldable pub text_at : ℕ → Tree → Bytes → Bytes
unfolding clip_found get_item as_text
text_at size o key = clip_found size (as_text (get_item o key))

unfoldable pub cast_found {ℓ} : {A : Type ℓ} → (ℕ → A) → A → Option (ℕ × ℤ) → A
cast_found cast old none = old
cast_found cast old (some (w, n)) = cast w

unfoldable pub number_at {ℓ} : {A : Type ℓ} → (ℕ → A) → A → Tree → Bytes → A
unfolding cast_found get_item as_number
number_at cast old o key = cast_found cast old (as_number (get_item o key))

-- `if (v) job.enabled = cJSON_IsTrue(v)`
unfoldable pub true_at : Tree → Bytes → Bool
unfolding or_else get_item as_boolean
true_at o key = or_else false (as_boolean (get_item o key))

-- `none` is a file that is not there, or a buffer that `malloc` refuses; an empty file is not
-- parsed.
unfoldable pub parse_jobs : (Bytes → Option Tree) → Option Bytes → Option Tree
unfolding c_string
parse_jobs parse none = none
parse_jobs parse (some []) = none
parse_jobs parse (some (c ∷ buf)) = parse (c_string (c ∷ buf))

unfoldable pub with_path : Option Bytes → Bytes
with_path none = []
with_path (some path) = clip 4096 path

module _ (casts : Casts) where
  unfoldable pub read_job : Tree → CronJob
  unfolding text_at number_at true_at
  read_job o = record {
    id = number_at casts.to_u64 0 o (codes "id");
    name = text_at 128 o (codes "name");
    job_type = type_named (number_at casts.to_enum 0 o (codes "type"));
    command = text_at 1024 o (codes "command");
    schedule_kind = kind_named (number_at casts.to_enum 0 o (codes "schedule_kind"));
    cron_expr = text_at 64 o (codes "cron_expr");
    at_timestamp = number_at casts.to_s64 (pos 0) o (codes "at_timestamp");
    every_ms = number_at casts.to_u64 0 o (codes "every_ms");
    timezone = text_at 64 o (codes "timezone");
    enabled = true_at o (codes "enabled");
    delivery_mode = mode_named (number_at casts.to_enum 0 o (codes "delivery_mode"));
    delivery_channel = text_at 64 o (codes "delivery_channel");
    delivery_to = text_at 128 o (codes "delivery_to");
    last_run = number_at casts.to_s64 (pos 0) o (codes "last_run");
    next_run = number_at casts.to_s64 (pos 0) o (codes "next_run");
  }

  -- The loop over the array, from number `i` on: `granted i` is whether `realloc` returns memory for
  -- that job, and `clock i` the time at which it is added.
  unfoldable pub load_jobs :
      Calendar → (ℕ → Bool) → (ℕ → ℤ) → ℕ → List Tree → CronScheduler → CronScheduler
  unfolding read_job cron_add
  load_jobs calendar granted clock i [] s = s
  load_jobs calendar granted clock i (o ∷ os) s =
      load_jobs calendar granted clock (suc i) os
        (cron_add calendar (granted i) (clock i) s (some (read_job o))).1

  unfoldable pub load_from :
      (Bytes → Option Tree)
      → (Bytes → Option Bytes)
      → Calendar
      → (ℕ → Bool)
      → (ℕ → ℤ)
      → Bytes
      → CronScheduler
      → CronScheduler
  unfolding load_jobs parse_jobs as_items or_else
  load_from parse read_file calendar granted clock [] s = s
  load_from parse read_file calendar granted clock (c ∷ path) s =
      load_jobs calendar granted clock 0
        (or_else [] (as_items (parse_jobs parse (read_file (c ∷ path))))) s

  unfoldable pub cron_load :
      (Bytes → Option Tree)
      → (Bytes → Option Bytes)
      → Calendar
      → (ℕ → Bool)
      → (ℕ → ℤ)
      → CronScheduler
      → CronScheduler
  unfolding load_from
  cron_load parse read_file calendar granted clock s =
      load_from parse read_file calendar granted clock s.jobs_path s

  -- `jobs_path` is `none` for a NULL configuration; the result is `none` when `calloc` fails. The test
  -- of the path before the call of `cron_load` is the first test of `cron_load` once more.
  unfoldable pub cron_init :
      (Bytes → Option Tree)
      → (Bytes → Option Bytes)
      → Calendar
      → (ℕ → Bool)
      → (ℕ → ℤ)
      → Bool
      → Option Bytes
      → Bool
      → Option CronScheduler
  unfolding cron_load with_path
  cron_init parse read_file calendar granted clock allocated jobs_path has_agent =
      if allocated
      then some (
          cron_load parse read_file calendar granted clock (record {
            jobs = [];
            cap = 16;
            jobs_path = with_path jobs_path;
            has_agent = has_agent;
            running = false;
            file = none;
          }))
      else none
