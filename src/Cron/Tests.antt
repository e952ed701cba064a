-- ===== src/Cron/Tests.antt =====
-- Schedules and jobs at concrete values, and the witnesses of the scheduler's theorems.
use tiniclaw.Base.{
  ℕ, ◌*◌, ◌%◌, ◌==◌, if◌then◌else◌, Option, Bytes, map, inl, false, ◌+◌, ◌/◌, ◌≡◌, ◌⊎◌, refl, true,
  false, none, some, [], ◌∷◌, ◌++◌, codes, arith,
}
use tiniclaw.Base.Int.{ℤ, pos, negsuc}
use tiniclaw.Json.{Tree, array}
use tiniclaw.Cron.{CronJob, job_shell, sched_at, sched_every, delivery_none}
use tiniclaw.Base.Print.{print_u64, print_digits}
use tiniclaw.Cron.Expr.{Calendar, cron_next_run, every_expr}
use tiniclaw.Cron.Expr.RoundTrip.{next_run-every_expr}
use tiniclaw.Cron.Store.{CronScheduler, cron_save, save_at, job_object}
use tiniclaw.Cron.Load.{Casts, cron_init}
use tiniclaw.Cron.Load.Reload.{IsExact, IsSaved, job_tree, cron_init-cron_save}
use tiniclaw.Cron.Jobs.{cron_remove, cron_update}
use tiniclaw.Cron.Jobs.Lookup.{NoneHas, Found, remove_update_lem}
use tiniclaw.Cron.Tick.{Machine, tick_jobs}
use tiniclaw.Cron.Tick.Due.{Ticked, tick_jobs-Ticked}

abbrev no_dates : Calendar
no_dates s = none

abbrev job : CronJob
job = record {
  id = 0;
  name = codes "j";
  job_type = job_shell;
  command = codes "date";
  schedule_kind = sched_every;
  cron_expr = [];
  at_timestamp = pos 0;
  every_ms = 90000;
  timezone = [];
  enabled = true;
  delivery_mode = delivery_none;
  delivery_channel = [];
  delivery_to = [];
  last_run = pos 0;
  next_run = pos 50;
}

abbrev once : CronJob
once = record job { id = 7; schedule_kind = sched_at; next_run = pos 40 }

abbrev second : CronJob
second = record job { id = 2 }

-- A scheduler whose first job was removed: the second one has the id 2.
abbrev one_left : CronScheduler
one_left = record {
  jobs = second ∷ [];
  cap = 16;
  jobs_path = [];
  has_agent = false;
  running = true;
  file = none;
}

minutes : every_expr 120000 ≡ codes "every:2m"
unfolding every_expr print_u64 print_digits
minutes = refl

abbrev found : Found 2 (second ∷ [])
found = record { front = []; job = second; back = []; whole = refl; first = tt; has_id = refl }

next_run-every_expr_example :
    cron_next_run no_dates (every_expr 90000) (pos 1000) ≡ some (pos (1000 + 90000 / 1000))
next_run-every_expr_example =
    next_run-every_expr no_dates 90000 1000 (omega arith) (omega arith) (omega arith)

remove_update_lem_example :
    (NoneHas 2 one_left.jobs
      × (cron_remove one_left 2 ≡ (false, one_left))
      × (cron_update one_left 2 (some job) ≡ (false, one_left)))
    ⊎ ((f : Found 2 one_left.jobs) × (cron_remove one_left 2
          ≡ (true, cron_save (record one_left { jobs = f.front ++ f.back })))
        × (cron_update one_left 2 (some job) ≡ (
          true,
          cron_save (record one_left { jobs = f.front ++ record job { id = 2 } ∷ f.back }),
        )))
remove_update_lem_example = remove_update_lem one_left 2 job

abbrev machine : Machine
machine = record { shell = λ cmd. some (codes "out"); calendar = no_dates }

tick_jobs-Ticked_example :
    Ticked
      (pos 45)
      (λ n. 46)
      0
      (job ∷ once ∷ [])
      (tick_jobs machine false (pos 45) (λ n. pos 46) 0 (job ∷ once ∷ [])).2
tick_jobs-Ticked_example =
    tick_jobs-Ticked machine false (pos 45) (λ n. 46) 0 (job ∷ once ∷ [])
      (omega arith, omega arith, (omega arith, omega arith, tt))

-- An integer and its code, in place of a double and its bits.
abbrev word : ℤ → ℕ
word (pos n) = n * 2
word (negsuc n) = n * 2 + 1

abbrev signed : ℕ → ℤ
signed w = if w % 2 == 0 then pos (w / 2) else negsuc (w / 2)

abbrev casts : Casts
casts = record { to_u64 = λ w. w / 2; to_s64 = signed; to_enum = λ w. w / 2 }

signed-word : (z : ℤ) → signed (word z) ≡ z
signed-word (pos n) =
    let even : (n * 2 % 2 == 0) ≡ true = ground arith in
    let half : n * 2 / 2 ≡ n = omega arith in rw (even, half) refl
signed-word (negsuc n) =
    let odd : ((n * 2 + 1) % 2 == 0) ≡ false = ground arith in
    let half : (n * 2 + 1) / 2 ≡ n = omega arith in rw (odd, half) refl

casts-IsExact : IsExact casts word signed
casts-IsExact = record {
  exact_u64 = λ n h. omega arith;
  exact_s64 = λ z h. signed-word z;
  exact_enum = λ n h. omega arith;
}

abbrev saving : CronScheduler
saving = record one_left { jobs_path = codes "jobs.json" }

second-IsSaved : IsSaved second
second-IsSaved = record {
  has_id = omega arith;
  id_small = omega arith;
  every_small = omega arith;
  at_small = omega arith;
  last_small = omega arith;
  next_small = omega arith;
  planned = inl refl;
  type_back = refl;
  type_small = omega arith;
  kind_back = refl;
  kind_small = omega arith;
  mode_back = refl;
  mode_small = omega arith;
  name_fits = omega arith;
  command_fits = omega arith;
  expr_fits = omega arith;
  timezone_fits = omega arith;
  channel_fits = omega arith;
  to_fits = omega arith;
}

abbrev parse_saved : Bytes → Option Tree
parse_saved buf = some (array (map (job_tree casts word signed) (map job_object saving.jobs)))

cron_init-cron_save_example :
    (t : CronScheduler) × (cron_init casts parse_saved
        (λ path. some (codes "[]"))
        no_dates
        (λ n. true)
        (λ n. pos 9)
        true
        (some (codes "jobs.json"))
        false
      ≡ some t)
    × (t.jobs ≡ second ∷ [])
unfolding cron_save save_at
cron_init-cron_save_example =
    cron_init-cron_save casts word signed parse_saved (λ path. some (codes "[]")) no_dates
      (λ n. pos 9) false saving (map job_object saving.jobs) b'[' (codes "]") casts-IsExact
      (second-IsSaved, tt) (omega arith) refl (λ e. cc) refl refl
