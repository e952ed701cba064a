-- ===== src/Cron.antt =====
-- The cron scheduler of src/cron.c, with the types of include/gateway.h. A string that the source
-- keeps in an array is the text up to its NUL.
pub mod Expr
pub mod Store
pub mod Jobs
pub mod Load
pub mod Tick
mod Tests
use tiniclaw.Base.{ℕ, Bool, Option, List, Bytes}
use tiniclaw.Base.Int.{ℤ}

-- The enums are read from a jobs file without a check: `_other` is a number that has no name.
pub data JobType : Type 0 where
  job_shell : JobType
  job_agent : JobType
  job_other : ℕ → JobType

pub data ScheduleKind : Type 0 where
  sched_cron : ScheduleKind
  sched_at : ScheduleKind
  sched_every : ScheduleKind
  sched_other : ℕ → ScheduleKind

pub data DeliveryMode : Type 0 where
  delivery_none : DeliveryMode
  delivery_always : DeliveryMode
  delivery_on_error : DeliveryMode
  delivery_on_success : DeliveryMode
  delivery_other : ℕ → DeliveryMode

pub record CronJob : Type 0 where
  pub id : ℕ
  pub name : Bytes
  pub job_type : JobType
  pub command : Bytes
  pub schedule_kind : ScheduleKind
  pub cron_expr : Bytes
  pub at_timestamp : ℤ
  pub every_ms : ℕ
  pub timezone : Bytes
  pub enabled : Bool
  pub delivery_mode : DeliveryMode
  pub delivery_channel : Bytes
  pub delivery_to : Bytes
  pub last_run : ℤ
  pub next_run : ℤ
