-- ===== src/Cron/Tick.antt =====
-- Running jobs: `run_job` and `scheduler_thread` of src/cron.c. The shell is a parameter, and a round
-- of the thread is a function of what `time` returns at its start and after each job.
pub mod Due
use tiniclaw.Base.{
  ℕ, suc, Bool, true, false, not, ◌&&◌, Option, none, some, List, [], ◌∷◌, ◌++◌, Bytes, codes, take,
  clip, c_string, get_or, ◌==◌, if◌then◌else◌,
}
use tiniclaw.Base.Int.{ℤ, pos, ltb_ℤ, leb_ℤ}
use tiniclaw.Cron.{
  CronJob, JobType, job_shell, job_agent, job_other, ScheduleKind, sched_cron, sched_at,
  sched_every, sched_other,
}
use tiniclaw.Cron.Expr.{Calendar, add_i64, cron_next_run, sched_expr}
use tiniclaw.Cron.Store.{CronScheduler, cron_save}

-- `popen` of a command line and what the pipe gives; `none` when it does not start. And the calendar
-- of the machine.
pub record Machine : Type 0 where
  pub shell : Bytes → Option Bytes
  pub calendar : Calendar

pub piped : Option Bytes → Bytes
piped none = []
piped (some out) = c_string (take 8191 out)

pub output_of : Machine → Bool → Bytes → JobType → Bytes
output_of m has_agent [] kind = []
output_of m has_agent (c ∷ cs) job_shell = piped (m.shell (clip 2048 ((c ∷ cs) ++ codes " 2>&1")))
output_of m true (c ∷ cs) job_agent = clip 8192 (codes "(agent job: " ++ (c ∷ cs) ++ codes ")")
output_of m false (c ∷ cs) job_agent = []
output_of m has_agent (c ∷ cs) (job_other n) = []

-- The line that goes to stderr, if any.
pub log_line : Bytes → Bytes → List Bytes
log_line name [] = []
log_line name (c ∷ out) =
    (codes "[cron/"
      ++ (if get_or name 0 0 == 0 then codes "?" else name)
      ++ codes "] "
      ++ (c ∷ out)
      ++ codes "\n")
    ∷ []

pub next_or_minute : ℤ → Option ℤ → ℤ
next_or_minute now none = add_i64 now (pos 60)
next_or_minute now (some t) = t

pub rescheduled : Calendar → ℤ → Option Bytes → ℤ
rescheduled calendar now none = add_i64 now (pos 60)
rescheduled calendar now (some expr) = next_or_minute now (cron_next_run calendar expr now)

pub after_run : Calendar → ℤ → CronJob → ScheduleKind → CronJob
after_run calendar now j sched_at = record j { last_run = now; next_run = pos 0; enabled = false }
after_run calendar now j sched_cron = record j {
  last_run = now;
  next_run = rescheduled calendar now (sched_expr j);
}
after_run calendar now j sched_every = record j {
  last_run = now;
  next_run = rescheduled calendar now (sched_expr j);
}
after_run calendar now j (sched_other n) = record j {
  last_run = now;
  next_run = rescheduled calendar now (sched_expr j);
}

unfoldable pub run_job : Machine → Bool → ℤ → CronJob → List Bytes × CronJob
run_job m has_agent now j = if not j.enabled then ([], j) else (
  log_line j.name (output_of m has_agent j.command j.job_type),
  after_run m.calendar now j j.schedule_kind,
)

pub is_due : ℤ → CronJob → Bool
is_due now j = j.enabled && (ltb_ℤ (pos 0) j.next_run && leb_ℤ j.next_run now)

-- The loop over the jobs, from number `i` on; `later i` is the time after job `i` ran. The result is
-- `dirty`, the lines, and the jobs.
pub tick_jobs : Machine → Bool → ℤ → (ℕ → ℤ) → ℕ → List CronJob → Bool × List Bytes × List CronJob
tick_jobs m has_agent now later i [] = (false, [], [])
tick_jobs m has_agent now later i (j ∷ js) =
    let (dirty, lines, rest) = tick_jobs m has_agent now later (suc i) js in
    let (line, ran) = run_job m has_agent (later i) j in
    if is_due now j then (true, line ++ lines, ran ∷ rest) else (dirty, lines, j ∷ rest)

-- A round of the thread behind its sleep.
unfoldable pub scheduler_round : Machine → ℤ → (ℕ → ℤ) → CronScheduler → List Bytes × CronScheduler
scheduler_round m now later s =
    if not s.running
    then ([], s)
    else (let (dirty, lines, js) = tick_jobs m s.has_agent now later 0 s.jobs in
        let s' = record s { jobs = js } in (lines, if dirty then cron_save s' else s'))
