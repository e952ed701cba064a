-- ===== src/Cron/Jobs/Lookup.antt =====
-- Which job an operation by id reaches, and which id a new job gets.
use tiniclaw.Base.{
  ℕ, suc, ◌<◌, ◌≡◌, ◌≢◌, ◌∙◌, ◌⊎◌, inl, inr, refl, ap, Bool, true, false, Option, none, some, List,
  [], ◌∷◌, ◌++◌, append_assoc, length, leb, All, arith, ◌==◌, ==_iff, if◌then◌else◌, Bool-cases,
}
use tiniclaw.Base.Int.{ℤ, is_zero}
use tiniclaw.Cron.{CronJob}
use tiniclaw.Cron.Expr.{Calendar}
use tiniclaw.Cron.Store.{CronScheduler, cron_save, save_at}
use tiniclaw.Cron.Jobs.{
  kept, without, replaced, settle, cron_add, cron_remove, cron_update, push_job, stored, with_id,
  with_run, initial_run,
}

-- No job of the list has the id.
abbrev pub NoneHas : ℕ → List CronJob → Type 0
NoneHas job_id = All (λ j. j.id ≢ job_id)

-- The first job of the list with the id, and what stands before and behind it.
pub record Found (job_id : ℕ) (js : List CronJob) : Type 0 where
  pub front : List CronJob
  pub job : CronJob
  pub back : List CronJob
  pub whole : js ≡ front ++ job ∷ back
  pub first : NoneHas job_id front
  pub has_id : job.id ≡ job_id

-- What the two loops come to when they find a job.
record Reached (job_id : ℕ) (updated : CronJob) (js : List CronJob) : Type 0 where
  found : Found job_id js
  removes : without job_id js ≡ some (found.front ++ found.back)
  replaces :
      replaced job_id updated js ≡ some (found.front ++ record updated { id = job_id } ∷ found.back)

abbrev Missed : ℕ → CronJob → List CronJob → Type 0
Missed job_id updated js =
    NoneHas job_id js × (without job_id js ≡ none) × (replaced job_id updated js ≡ none)

further :
    (job_id : ℕ) (updated j : CronJob) (js : List CronJob)
    → j.id ≢ job_id
    → Missed job_id updated js ⊎ Reached job_id updated js
    → Missed job_id updated (j ∷ js) ⊎ Reached job_id updated (j ∷ js)
unfolding without replaced kept
further job_id updated j js other (inl (miss, a, b)) =
    let ne : (j.id == job_id) ≡ false = ground arith in
    inl ((other, miss), rw ne (ap (kept j) a), rw ne (ap (kept j) b))
further job_id updated j js other (inr r) =
    let ne : (j.id == job_id) ≡ false = ground arith in
    inr (record {
      found = record {
        front = j ∷ r.found.front;
        job = r.found.job;
        back = r.found.back;
        whole = ap (λ (l : List CronJob). j ∷ l) r.found.whole;
        first = (other, r.found.first);
        has_id = r.found.has_id;
      };
      removes = rw ne (ap (kept j) r.removes);
      replaces = rw ne (ap (kept j) r.replaces);
    })

loops :
    (job_id : ℕ) (updated : CronJob) (js : List CronJob)
    → Missed job_id updated js ⊎ Reached job_id updated js
unfolding without replaced
loops job_id updated [] = inl (tt, refl, refl)
loops job_id updated (j ∷ js) = elim (Bool-cases (j.id == job_id)) [
  | inl same ↦ inr (record {
    found = record {
      front = [];
      job = j;
      back = js;
      whole = refl;
      first = tt;
      has_id = (==_iff j.id job_id).0 same;
    };
    removes = rw same refl;
    replaces = rw same refl;
  })
  | inr other ↦ further job_id updated j js (ground arith) (loops job_id updated js)
]

-- Removing by id fails and changes nothing if no job has the id; otherwise it removes the first
-- job that has it, keeps the others in their order, and saves them. Updating by id replaces that
-- same job, keeping its id and its place.
pub remove_update_lem :
    (s : CronScheduler) (job_id : ℕ) (updated : CronJob)
    → (NoneHas job_id s.jobs
        × (cron_remove s job_id ≡ (false, s))
        × (cron_update s job_id (some updated) ≡ (false, s)))
      ⊎ ((f : Found job_id s.jobs) × (cron_remove s job_id
            ≡ (true, cron_save (record s { jobs = f.front ++ f.back })))
          × (cron_update s job_id (some updated) ≡ (
            true,
            cron_save (record s { jobs = f.front ++ record updated { id = job_id } ∷ f.back }),
          )))
unfolding cron_remove cron_update settle
remove_update_lem s job_id updated = elim (loops job_id updated s.jobs) [
  | inl (miss, a, b) ↦ inl (miss, ap (settle s) a, ap (settle s) b)
  | inr r ↦ inr (r.found, ap (settle s) r.removes, ap (settle s) r.replaces)
]

saves_jobs : (path : List ℕ) (s : CronScheduler) → (save_at path s).jobs ≡ s.jobs
unfolding save_at
saves_jobs [] s = refl
saves_jobs (c ∷ path) s = refl

pub cron_save-jobs : (s : CronScheduler) → (cron_save s).jobs ≡ s.jobs
unfolding cron_save
cron_save-jobs s = saves_jobs s.jobs_path s

-- What `without` does when the list is known around the first job with the id.
without-append :
    (job_id : ℕ) (front : List CronJob) (j : CronJob) (back : List CronJob)
    → NoneHas job_id front
    → j.id ≡ job_id
    → without job_id (front ++ j ∷ back) ≡ some (front ++ back)
unfolding without kept
without-append job_id [] j back h e =
    let same : (j.id == job_id) ≡ true = ground arith in rw same refl
without-append job_id (k ∷ front) j back (hk, h) e =
    let ne : (k.id == job_id) ≡ false = ground arith in
    rw ne (ap (kept k) (without-append job_id front j back h e))

with_run-id : (calendar : Calendar) (now : ℤ) (j : CronJob) → (with_run calendar now j).id ≡ j.id
unfolding with_run
with_run-id calendar now j = go (is_zero j.next_run) j.enabled
  where
    go :
        (z on : Bool)
        → (if z
            then (if on
                then record j { next_run = initial_run calendar now j j.schedule_kind }
                else j)
            else j).id
          ≡ j.id
    go true true = refl
    go true false = refl
    go false on = refl

removed_jobs :
    (s : CronScheduler) (job_id : ℕ) (js : List CronJob)
    → without job_id s.jobs ≡ some js
    → (cron_remove s job_id).1.jobs ≡ js
unfolding cron_remove settle
removed_jobs s job_id js e =
    ap (λ (o : Option (List CronJob)). (settle s o).1.jobs) e
    ∙ cron_save-jobs (record s { jobs = js })

-- Adding a job without an id, where there is room, appends it with the number of jobs as its id.
-- When an older job has that id, as can be after a removal, removing by the new job's id removes
-- the older one and keeps the new one.
pub reused_id :
    (calendar : Calendar) (now : ℤ) (s : CronScheduler) (j : CronJob)
    (f : Found (suc (length s.jobs)) s.jobs)
    → j.id ≡ 0
    → length s.jobs < s.cap
    → let (ok, s') = cron_add calendar true now s (some j) in
      let new = stored calendar now (suc (length s.jobs)) j in
      (ok ≡ true)
      × (s'.jobs ≡ s.jobs ++ new ∷ [])
      × (new.id ≡ suc (length s.jobs))
      × ((cron_remove s' new.id).1.jobs ≡ f.front ++ (f.back ++ new ∷ []))
unfolding cron_add push_job stored with_id
reused_id calendar now s j f no_id room =
    let n : ℕ = suc (length s.jobs) in
    let new : CronJob = stored calendar now n j in
    let s' : CronScheduler = push_job calendar now s j in
    let fits : leb s.cap (length s.jobs) ≡ false = ground arith in
    let added : s'.jobs ≡ s.jobs ++ new ∷ [] =
      cron_save-jobs (record s { jobs = s.jobs ++ new ∷ [] }) in
    let unset : (j.id == 0) ≡ true = ground arith in
    let same_id : new.id ≡ n =
      with_run-id calendar now (with_id n j)
      ∙ ap (λ (b : Bool). (if b then record j { id = n } else j).id) unset in
    let around : s.jobs ++ new ∷ [] ≡ f.front ++ f.job ∷ (f.back ++ new ∷ []) =
      ap (λ (l : List CronJob). l ++ new ∷ []) f.whole
      ∙ append_assoc f.front (f.job ∷ f.back) (new ∷ []) in
    let gone : without new.id s'.jobs ≡ some (f.front ++ (f.back ++ new ∷ [])) =
      ap (λ (k : ℕ). without k s'.jobs) same_id
      ∙ ap (without n) (added ∙ around)
      ∙ without-append n f.front f.job (f.back ++ new ∷ []) f.first f.has_id in
    rw fits (refl, added, same_id, removed_jobs s' new.id (f.front ++ (f.back ++ new ∷ [])) gone)
