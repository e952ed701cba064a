-- ===== src/Cron/Tick/Due.antt =====
-- What a round of the scheduler does to each job.
use tiniclaw.Base.{
  ℕ, suc, ◌+◌, ◌/◌, ◌^◌, ◌<◌, ◌≡◌, ◌∙◌, refl, sym, ap, Bool, true, false, not, ◌&&◌, some, List, [],
  ◌∷◌, Bytes, arith, ltb, if◌then◌else◌, Bool-cases, inl, inr,
}
use mathlib.Core.Path.{subst}
use tiniclaw.Base.Int.{ℤ, pos, ltb_ℤ, leb_ℤ}
use tiniclaw.Cron.{CronJob, ScheduleKind, sched_cron, sched_at, sched_every, sched_other}
use tiniclaw.Cron.Expr.{Calendar, every_expr, expr_of, sched_expr}
use tiniclaw.Cron.Expr.RoundTrip.{add_i64_small, next_run-every_expr, next_run_too_short}
use tiniclaw.Cron.Tick.{
  Machine, log_line, output_of, is_due, next_or_minute, rescheduled, after_run, run_job, tick_jobs,
}

-- A job after it ran at time `x`. A one-shot is switched off, and is due at no later time; an
-- interval job is due again after its interval, or after a minute if that is below a second.
abbrev pub Ran : ScheduleKind → ℕ → CronJob → CronJob → Type 0
Ran sched_at x j k = (k.next_run ≡ pos 0) × (k.enabled ≡ false) × ((now : ℤ) → is_due now k ≡ false)
Ran sched_every x j k =
    (k.next_run ≡ pos (x + (if ltb j.every_ms 1000 then 60 else j.every_ms / 1000)))
    × (k.enabled ≡ true)
Ran sched_cron x j k = (k.cron_expr ≡ j.cron_expr) × (k.enabled ≡ true)
Ran (sched_other n) x j k = (k.cron_expr ≡ j.cron_expr) × (k.enabled ≡ true)

-- Job by job: one that is not due stays as it is, and one that is due ran.
abbrev pub Ticked : ℤ → (ℕ → ℕ) → ℕ → List CronJob → List CronJob → Type 0
Ticked now later i [] [] = Unit
Ticked now later i [] (k ∷ ks) = ⊥
Ticked now later i (j ∷ js) [] = ⊥
Ticked now later i (j ∷ js) (k ∷ ks) =
    (is_due now j ≡ false → k ≡ j)
    × (is_due now j ≡ true
        → (k.id ≡ j.id) × (k.last_run ≡ pos (later i)) × Ran j.schedule_kind (later i) j k)
    × Ticked now later (suc i) js ks

-- The interval and the clock of every job fit 62 bits.
abbrev pub InRange : (ℕ → ℕ) → ℕ → List CronJob → Type 0
InRange later i [] = Unit
InRange later i (j ∷ js) = (later i < 2 ^ 62) × (j.every_ms < 2 ^ 62) × InRange later (suc i) js

every_again :
    (calendar : Calendar) (x ms : ℕ)
    → x < 2 ^ 62
    → ms < 2 ^ 62
    → rescheduled calendar (pos x) (some (every_expr ms))
      ≡ pos (x + (if ltb ms 1000 then 60 else ms / 1000))
unfolding rescheduled next_or_minute
every_again calendar x ms hx hm = elim (Bool-cases (ltb ms 1000)) [
  | inl short ↦
      ap (next_or_minute (pos x)) (next_run_too_short calendar ms (pos x) (ground arith))
      ∙ add_i64_small x 60 (omega arith)
      ∙ rw short refl
  | inr long ↦
      ap (next_or_minute (pos x)) (next_run-every_expr calendar ms x (ground arith) hm hx)
      ∙ rw long refl
]

never_due : (k : CronJob) → k.enabled ≡ false → (now : ℤ) → is_due now k ≡ false
unfolding is_due
never_due k h now = ap (λ (b : Bool). b && (ltb_ℤ (pos 0) k.next_run && leb_ℤ k.next_run now)) h

after_run-Ran :
    (calendar : Calendar) (x : ℕ) (j : CronJob) (kind : ScheduleKind)
    → x < 2 ^ 62
    → j.every_ms < 2 ^ 62
    → j.enabled ≡ true
    → j.schedule_kind ≡ kind
    → let k = after_run calendar (pos x) j kind in
      (k.id ≡ j.id) × (k.last_run ≡ pos x) × Ran kind x j k
unfolding after_run sched_expr expr_of
after_run-Ran calendar x j sched_at hx hm on e =
    let k : CronJob = record j { last_run = pos x; next_run = pos 0; enabled = false } in
    (refl, refl, (refl, refl, never_due k refl))
after_run-Ran calendar x j sched_every hx hm on e = (
  refl,
  refl,
  (
    ap (λ (kind : ScheduleKind). rescheduled calendar (pos x) (expr_of kind j)) e
        ∙ every_again calendar x j.every_ms hx hm,
    on,
  ),
)
after_run-Ran calendar x j sched_cron hx hm on e = (refl, refl, (refl, on))
after_run-Ran calendar x j (sched_other n) hx hm on e = (refl, refl, (refl, on))

enabled_of : (now : ℤ) (j : CronJob) → is_due now j ≡ true → j.enabled ≡ true
unfolding is_due
enabled_of now j h = go j.enabled h
  where
    go : (b : Bool) → (b && (ltb_ℤ (pos 0) j.next_run && leb_ℤ j.next_run now)) ≡ true → b ≡ true
    go true e = refl
    go false e = e

run_job-Ran :
    (m : Machine) (has_agent : Bool) (x : ℕ) (j : CronJob)
    → x < 2 ^ 62
    → j.every_ms < 2 ^ 62
    → j.enabled ≡ true
    → let k = (run_job m has_agent (pos x) j).1 in
      (k.id ≡ j.id) × (k.last_run ≡ pos x) × Ran j.schedule_kind x j k
unfolding run_job
run_job-Ran m has_agent x j hx hm on =
    let answer : Bool → List Bytes × CronJob = λ b. if not b then ([], j) else (
      log_line j.name (output_of m has_agent j.command j.job_type),
      after_run m.calendar (pos x) j j.schedule_kind,
    ) in
    let ran : (run_job m has_agent (pos x) j).1 ≡ after_run m.calendar (pos x) j j.schedule_kind =
      ap (λ (b : Bool). (answer b).1) on in
    subst (λ k. (k.id ≡ j.id) × (k.last_run ≡ pos x) × Ran j.schedule_kind x j k) (sym ran)
      (after_run-Ran m.calendar x j j.schedule_kind hx hm on refl)

-- A round of the scheduler, at the times `later` at which the runs of the jobs end: a job that is
-- not due stays as it is, and one that is due ran: its id stays, it notes the time, a one-shot is
-- switched off and never due again, and an interval job is due again one interval later, in whole
-- seconds, or after a minute if the interval is below a second. Times and intervals fit 62 bits.
pub tick_jobs-Ticked :
    (m : Machine) (has_agent : Bool) (now : ℤ) (later : ℕ → ℕ) (i : ℕ) (js : List CronJob)
    → InRange later i js
    → Ticked now later i js (tick_jobs m has_agent now (λ n. pos (later n)) i js).2
unfolding tick_jobs
tick_jobs-Ticked m has_agent now later i [] h = tt
tick_jobs-Ticked m has_agent now later i (j ∷ js) (hx, hm, h) = elim (Bool-cases (is_due now j)) [
  | inl due ↦ rw due (
    (λ not_due. absurd (cc)),
    (λ e. run_job-Ran m has_agent (later i) j hx hm (enabled_of now j due)),
    tick_jobs-Ticked m has_agent now later (suc i) js h,
  )
  | inr later_on ↦
      rw later_on
        ((λ e. refl), (λ is. absurd (cc)), tick_jobs-Ticked m has_agent now later (suc i) js h)
]
