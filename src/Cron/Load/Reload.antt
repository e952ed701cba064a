-- ===== src/Cron/Load/Reload.antt =====
-- What a scheduler reads back of the jobs that another one saved.
use tiniclaw.Base.{
  ℕ, suc, ◌/◌, ◌^◌, ◌<◌, ◌≡◌, ◌≢◌, ◌∙◌, sym, ◌⊎◌, inl, inr, refl, ap, Bool, true, false, Option,
  none, some, List, [], ◌∷◌, ◌++◌, append_assoc, append-nil, map, Bytes, c_string, length, take-all,
  leb, ltb, All, arith, ◌==◌, if◌then◌else◌, if_false, Bool-cases, str_eq,
}
use tiniclaw.Base.Int.{ℤ, pos, negsuc, is_zero, sub_ℕ}
use tiniclaw.Json.{
  Tree, object, array, get_item, members, from_members, to_members, lookup, lookup_in, as_text,
  as_number, as_boolean, as_items, items-array, or_else, number as tree_number, text as tree_text,
  boolean as tree_boolean,
}
use tiniclaw.Cron.{CronJob}
use tiniclaw.Cron.Expr.{Calendar}
use tiniclaw.Cron.Store.{
  CronScheduler, Json, number, text, boolean, cron_save, save_at, job_object, double, double_ℤ,
  excess, round_bits, type_code, kind_code, mode_code,
}
use tiniclaw.Cron.Jobs.{cron_add, push_job, stored, with_id, with_run, initial_run}
use tiniclaw.Cron.Jobs.Lookup.{cron_save-jobs}
use tiniclaw.Cron.Load.{
  Casts, type_named, kind_named, mode_named, clip_found, text_at, cast_found, number_at, true_at,
  read_job, load_jobs, load_from, parse_jobs, cron_load, with_path, cron_init,
}

-- An integer that a double holds exactly.
abbrev pub Small : ℤ → Type 0
Small (pos n) = n < 2 ^ 53
Small (negsuc n) = suc n < 2 ^ 53

double_small : (n : ℕ) → n < 2 ^ 53 → double n ≡ n
unfolding double excess round_bits
double_small n h =
    let fits : ltb (n / 2 ^ 0) (2 ^ 53) ≡ true = ground arith in
    ap (λ k. round_bits k n) (ap (λ (b : Bool). if b then 0 else excess 10 1 n) fits)

double_ℤ-Small : (z : ℤ) → Small z → double_ℤ z ≡ z
unfolding double_ℤ
double_ℤ-Small (pos n) h = ap pos (double_small n h)
double_ℤ-Small (negsuc n) h = ap (sub_ℕ 0) (double_small (suc n) h) ∙ ground arith

-- A job that the file holds exactly: its texts fit their arrays, its numbers a double, its enums are
-- what their numbers are read as, it has an id, and it is planned or switched off.
pub record IsSaved (j : CronJob) : Type 0 where
  pub has_id : 0 < j.id
  pub id_small : j.id < 2 ^ 53
  pub every_small : j.every_ms < 2 ^ 53
  pub at_small : Small j.at_timestamp
  pub last_small : Small j.last_run
  pub next_small : Small j.next_run
  pub planned : (is_zero j.next_run ≡ false) ⊎ (j.enabled ≡ false)
  pub type_back : type_named (type_code j.job_type) ≡ j.job_type
  pub type_small : type_code j.job_type < 2 ^ 32
  pub kind_back : kind_named (kind_code j.schedule_kind) ≡ j.schedule_kind
  pub kind_small : kind_code j.schedule_kind < 2 ^ 32
  pub mode_back : mode_named (mode_code j.delivery_mode) ≡ j.delivery_mode
  pub mode_small : mode_code j.delivery_mode < 2 ^ 32
  pub name_fits : length j.name < 128
  pub command_fits : length j.command < 1024
  pub expr_fits : length j.cron_expr < 64
  pub timezone_fits : length j.timezone < 64
  pub channel_fits : length j.delivery_channel < 64
  pub to_fits : length j.delivery_to < 128

module _ (casts : Casts) (word : ℤ → ℕ) (valueint : ℕ → ℤ) where
  -- The casts give back the integers that the word of a double holds.
  pub record IsExact : Type 0 where
    pub exact_u64 : (n : ℕ) → n < 2 ^ 53 → casts.to_u64 (word (pos n)) ≡ n
    pub exact_s64 : (z : ℤ) → Small z → casts.to_s64 (word z) ≡ z
    pub exact_enum : (n : ℕ) → n < 2 ^ 32 → casts.to_enum (word (pos n)) ≡ n

  -- The tree that is read back for a value, and for the object of a job.
  abbrev pub value_tree : Json → Tree
  value_tree (number z) = tree_number (word z) (valueint (word z))
  value_tree (text s) = tree_text s
  value_tree (boolean b) = tree_boolean b

  abbrev pub job_tree : List (Bytes × Json) → Tree
  job_tree o = object (map (λ kv. (kv.0, value_tree kv.1)) o)

  read_back : IsExact → (j : CronJob) → IsSaved j → read_job casts (job_tree (job_object j)) ≡ j
  unfolding read_job job_object text_at clip_found number_at cast_found true_at or_else get_item
      as_text as_number as_boolean members from_members object to_members lookup lookup_in str_eq
  read_back e j s =
      let id : casts.to_u64 (word (pos (double j.id))) ≡ j.id =
        ap (λ n. casts.to_u64 (word (pos n))) (double_small j.id s.id_small)
        ∙ e.exact_u64 j.id s.id_small in
      let every : casts.to_u64 (word (pos (double j.every_ms))) ≡ j.every_ms =
        ap (λ n. casts.to_u64 (word (pos n))) (double_small j.every_ms s.every_small)
        ∙ e.exact_u64 j.every_ms s.every_small in
      let signed : (z : ℤ) → Small z → casts.to_s64 (word (double_ℤ z)) ≡ z =
        λ z h. ap (λ y. casts.to_s64 (word y)) (double_ℤ-Small z h) ∙ e.exact_s64 z h in
      let kind =
        ap kind_named (e.exact_enum (kind_code j.schedule_kind) s.kind_small) ∙ s.kind_back in
      let job_type =
        ap type_named (e.exact_enum (type_code j.job_type) s.type_small) ∙ s.type_back in
      let mode =
        ap mode_named (e.exact_enum (mode_code j.delivery_mode) s.mode_small) ∙ s.mode_back in
      λ i. record {
        id = id i;
        name = take-all 127 j.name (omega (arith, s.name_fits)) i;
        job_type = job_type i;
        command = take-all 1023 j.command (omega (arith, s.command_fits)) i;
        schedule_kind = kind i;
        cron_expr = take-all 63 j.cron_expr (omega (arith, s.expr_fits)) i;
        at_timestamp = signed j.at_timestamp s.at_small i;
        every_ms = every i;
        timezone = take-all 63 j.timezone (omega (arith, s.timezone_fits)) i;
        enabled = j.enabled;
        delivery_mode = mode i;
        delivery_channel = take-all 63 j.delivery_channel (omega (arith, s.channel_fits)) i;
        delivery_to = take-all 127 j.delivery_to (omega (arith, s.to_fits)) i;
        last_run = signed j.last_run s.last_small i;
        next_run = signed j.next_run s.next_small i;
      }

not_zero : (n : ℕ) → 0 < n → (n == 0) ≡ false
not_zero n h = ground arith

switched_off : (z : Bool) (j k : CronJob) → (if z then (if false then k else j) else j) ≡ j
switched_off true j k = refl
switched_off false j k = refl

with_run-same :
    (calendar : Calendar) (now : ℤ) (j : CronJob)
    → (is_zero j.next_run ≡ false) ⊎ (j.enabled ≡ false)
    → with_run calendar now j ≡ j
unfolding with_run
with_run-same calendar now j (inl later) = if_false (is_zero j.next_run) _ j later
with_run-same calendar now j (inr off) =
    let planned : CronJob = record j { next_run = initial_run calendar now j j.schedule_kind } in
    ap (λ (on : Bool). if is_zero j.next_run then (if on then planned else j) else j) off
    ∙ switched_off (is_zero j.next_run) j planned

-- A job that was saved is added as it is.
stored-same :
    (calendar : Calendar) (now : ℤ) (count : ℕ) (j : CronJob)
    → IsSaved j
    → stored calendar now count j ≡ j
unfolding stored with_id
stored-same calendar now count j s =
    ap (with_run calendar now) (if_false (j.id == 0) _ j (not_zero j.id s.has_id))
    ∙ with_run-same calendar now j s.planned

add_jobs :
    (calendar : Calendar) (now : ℤ) (s : CronScheduler) (j : CronJob)
    → IsSaved j
    → (cron_add calendar true now s (some j)).1.jobs ≡ s.jobs ++ j ∷ []
unfolding cron_add push_job
add_jobs calendar now s j h =
    let added : (s' : CronScheduler)
        → s'.jobs ≡ s.jobs
        → (push_job calendar now s' j).jobs ≡ s.jobs ++ j ∷ [] =
      λ s' e.
        cron_save-jobs _
        ∙ (λ i. e i ++ stored-same calendar now (suc (length s'.jobs)) j h i ∷ []) in
    elim (Bool-cases (leb s.cap (length s.jobs))) [
      | inl full ↦ rw full (added _ refl)
      | inr room ↦ rw room (added s refl)
    ]

file-save_at :
    (path : Bytes) (s : CronScheduler)
    → path ≢ []
    → (save_at path s).file ≡ some (map job_object s.jobs)
unfolding save_at
file-save_at [] s h = absurd (h refl)
file-save_at (c ∷ path) s h = refl

module _ (casts : Casts) (word : ℤ → ℕ) (valueint : ℕ → ℤ) where
  load_jobs-jobs :
      (calendar : Calendar) (clock : ℕ → ℤ) (i : ℕ) (js : List CronJob) (s : CronScheduler)
      → IsExact casts word valueint
      → All IsSaved js
      → (load_jobs casts calendar
          (λ n. true)
          clock
          i
          (map (job_tree casts word valueint) (map job_object js))
          s).jobs
        ≡ s.jobs ++ js
  unfolding load_jobs
  load_jobs-jobs calendar clock i [] s e h = sym (append-nil s.jobs)
  load_jobs-jobs calendar clock i (j ∷ js) s e (h, hs) =
      let o = job_tree casts word valueint (job_object j) in
      let added : (cron_add calendar true (clock i) s (some (read_job casts o))).1.jobs
          ≡ s.jobs ++ j ∷ [] =
        ap (λ k. (cron_add calendar true (clock i) s (some k)).1.jobs)
          (read_back casts word valueint e j h)
        ∙ add_jobs calendar (clock i) s j h in
      load_jobs-jobs calendar clock (suc i) js _ e hs
      ∙ ap (λ l. l ++ js) added
      ∙ append_assoc s.jobs (j ∷ []) js

  loads_saved :
      (parse : Bytes → Option Tree) (read_file : Bytes → Option Bytes) (calendar : Calendar)
      (clock : ℕ → ℤ) (js : List CronJob) (path : Bytes) (c : ℕ) (buf : Bytes) (t : CronScheduler)
      → IsExact casts word valueint
      → All IsSaved js
      → path ≢ []
      → read_file path ≡ some (c ∷ buf)
      → parse (c_string (c ∷ buf))
        ≡ some (array (map (job_tree casts word valueint) (map job_object js)))
      → (load_from casts parse read_file calendar (λ n. true) clock path t).jobs ≡ t.jobs ++ js
  unfolding load_from parse_jobs as_items or_else
  loads_saved parse read_file calendar clock js [] c buf t e h set found parses = absurd (set refl)
  loads_saved parse read_file calendar clock js (d ∷ path) c buf t e h set found parses =
      let trees = map (job_tree casts word valueint) (map job_object js) in
      ap (λ o. (load_jobs casts calendar (λ n. true) clock 0 (or_else [] (as_items o)) t).jobs)
        (ap (parse_jobs parse) found ∙ parses)
      ∙ ap (λ o. (load_jobs casts calendar (λ n. true) clock 0 (or_else [] o) t).jobs)
          (items-array trees)
      ∙ load_jobs-jobs calendar clock 0 js t e h

  -- A scheduler that starts with the path of another one reads back the jobs that this one saved, in
  -- their order and without a change, if memory is granted, cJSON reads the file as the array that
  -- was saved, and the jobs are ones that a file holds: numbers within 53 bits, texts that fit their
  -- arrays, an id, and a time to run unless they are switched off.
  pub cron_init-cron_save :
      (parse : Bytes → Option Tree) (read_file : Bytes → Option Bytes) (calendar : Calendar)
      (clock : ℕ → ℤ) (has_agent : Bool) (s : CronScheduler) (saved : List (List (Bytes × Json)))
      (c : ℕ) (buf : Bytes)
      → IsExact casts word valueint
      → All IsSaved s.jobs
      → length s.jobs_path < 4096
      → (cron_save s).file ≡ some saved
      → s.jobs_path ≢ []
      → read_file s.jobs_path ≡ some (c ∷ buf)
      → parse (c_string (c ∷ buf)) ≡ some (array (map (job_tree casts word valueint) saved))
      → (t : CronScheduler) × (cron_init casts parse read_file calendar
            (λ n. true)
            clock
            true
            (some s.jobs_path)
            has_agent
          ≡ some t)
        × (t.jobs ≡ s.jobs)
  unfolding cron_save cron_init cron_load with_path load_from parse_jobs or_else as_items
  cron_init-cron_save parse read_file calendar clock has_agent s saved c buf e h fits file set found
        parses =
      let same : saved ≡ map job_object s.jobs =
        ap (or_else []) (sym file ∙ file-save_at s.jobs_path s set) in
      let start : Bytes → CronScheduler = λ p. record {
        jobs = [];
        cap = 16;
        jobs_path = p;
        has_agent = has_agent;
        running = false;
        file = none;
      } in
      (
        _,
        refl,
        ap (λ p. (load_from casts parse read_file calendar (λ n. true) clock p (start p)).jobs)
              (take-all 4095 s.jobs_path (omega (arith, fits)))
            ∙ loads_saved parse read_file calendar clock s.jobs s.jobs_path c buf
                (start s.jobs_path) e h set found
                (parses ∙ ap (λ objs. some (array (map (job_tree casts word valueint) objs))) same),
      )
