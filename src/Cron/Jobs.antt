-- ===== src/Cron/Jobs.antt =====
-- The operations on the list of jobs: `nc_cron_add`, `nc_cron_remove`, `nc_cron_update`,
-- `nc_cron_list`, and starting and stopping, of src/cron.c.
pub mod Lookup
use tiniclaw.Base.{
  ℕ, zero, suc, ◌+◌, ◌*◌, ◌^◌, Bool, true, false, not, Option, none, some, List, [], ◌∷◌, ◌++◌,
  Bytes, clip, length, leb, ◌==◌, if◌then◌else◌,
}
use tiniclaw.Base.Int.{ℤ, pos, is_zero}
use tiniclaw.Cron.{CronJob, ScheduleKind, sched_cron, sched_at, sched_every, sched_other}
use tiniclaw.Cron.Expr.{Calendar, add_i64, cron_next_run, sched_expr}
use tiniclaw.Cron.Store.{CronScheduler, cron_save}

-- `next_run` of a job that has none, by its schedule; `now + 60` when that leaves it 0.
pub after_expr : Calendar → ℤ → Option Bytes → ℤ
after_expr calendar now none = pos 0
after_expr calendar now (some expr) = elim (cron_next_run calendar expr now) [
  | none ↦ pos 0
  | some t ↦ t
]

pub initial_run : Calendar → ℤ → CronJob → ScheduleKind → ℤ
initial_run calendar now j sched_at = j.at_timestamp
initial_run calendar now j sched_cron =
    let t = after_expr calendar now (sched_expr j) in if is_zero t then add_i64 now (pos 60) else t
initial_run calendar now j sched_every =
    let t = after_expr calendar now (sched_expr j) in if is_zero t then add_i64 now (pos 60) else t
initial_run calendar now j (sched_other n) =
    let t = after_expr calendar now (sched_expr j) in if is_zero t then add_i64 now (pos 60) else t

unfoldable pub with_run : Calendar → ℤ → CronJob → CronJob
with_run calendar now j =
    if is_zero j.next_run
    then (if j.enabled
        then record j { next_run = initial_run calendar now j j.schedule_kind }
        else j)
    else j

-- The id of a job that has none is the number of jobs, itself included.
unfoldable pub with_id : ℕ → CronJob → CronJob
with_id count j = if j.id == 0 then record j { id = count } else j

unfoldable pub stored : Calendar → ℤ → ℕ → CronJob → CronJob
stored calendar now count j = with_run calendar now (with_id count j)

unfoldable pub push_job : Calendar → ℤ → CronScheduler → CronJob → CronScheduler
push_job calendar now s j =
    cron_save (record s { jobs = s.jobs ++ stored calendar now (suc (length s.jobs)) j ∷ [] })

-- The answer is true for 0 and false for -1; the second argument is whether `realloc` returns
-- memory, `none` is a NULL job, and `now` is what `time` returns.
unfoldable pub cron_add :
    Calendar → Bool → ℤ → CronScheduler → Option CronJob → Bool × CronScheduler
cron_add calendar granted now s none = (false, s)
cron_add calendar granted now s (some j) =
    if leb s.cap (length s.jobs)
    then (if granted
        then (
          true,
          push_job calendar now (record s { cap = if s.cap == 0 then 16 else s.cap * 2 }) j,
        )
        else (false, s))
    else (true, push_job calendar now s j)

pub kept : CronJob → Option (List CronJob) → Option (List CronJob)
kept j none = none
kept j (some js) = some (j ∷ js)

-- The jobs without the first one that has the id; `none` when there is none.
pub without : ℕ → List CronJob → Option (List CronJob)
without job_id [] = none
without job_id (j ∷ js) =
    let rest = without job_id js in if j.id == job_id then some js else kept j rest

-- The jobs with the first one that has the id replaced, keeping the id.
pub replaced : ℕ → CronJob → List CronJob → Option (List CronJob)
replaced job_id updated [] = none
replaced job_id updated (j ∷ js) =
    let rest = replaced job_id updated js in
    if j.id == job_id then some (record updated { id = job_id } ∷ js) else kept j rest

-- The loop's end: the new jobs are saved, or -1.
pub settle : CronScheduler → Option (List CronJob) → Bool × CronScheduler
settle s none = (false, s)
settle s (some js) = (true, cron_save (record s { jobs = js }))

unfoldable pub cron_remove : CronScheduler → ℕ → Bool × CronScheduler
cron_remove s job_id = settle s (without job_id s.jobs)

unfoldable pub cron_update : CronScheduler → ℕ → Option CronJob → Bool × CronScheduler
cron_update s job_id none = (false, s)
cron_update s job_id (some updated) = settle s (replaced job_id updated s.jobs)

-- The array and its count.
unfoldable pub cron_list : CronScheduler → ℕ × List CronJob
cron_list s = (length s.jobs, s.jobs)

-- The argument is whether `pthread_create` starts the thread.
unfoldable pub cron_start : Bool → CronScheduler → Bool × CronScheduler
cron_start created s = (created, record s { running = created })

unfoldable pub cron_stop : CronScheduler → CronScheduler
cron_stop s = record s { running = false }

unfoldable pub cron_deinit : CronScheduler → CronScheduler
cron_deinit s = record {
  jobs = [];
  cap = 0;
  jobs_path = [];
  has_agent = false;
  running = false;
  file = s.file;
}
