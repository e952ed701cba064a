-- ===== src/Security/Rate/Window.antt =====
-- A sliding window over the whole history: the specification of the tracker, and the refinement.
use tiniclaw.Base.{
  ℕ, ◌+◌, ◌≤◌, ◌<◌, ◌≡◌, ◌∙◌, refl, ap, Bool, true, false, ◌&&◌, Option, some, List, [], ◌∷◌, ◌++◌,
  Bytes, length, arith, ltb, ◌==◌, if◌then◌else◌, Bool-cases, inl, inr,
}
use mathlib.Core.Path.{ap₂}
use tiniclaw.Base.Int.{ℤ, ◌-ℤ◌, ◌≤ℤ◌, ltb_ℤ, to_i64, -ℤ_parts}
use tiniclaw.Security.Rate.{
  RateEntry, RateTracker, max_timestamps, same_key, after_cutoff, hit, stamps, restamp, with_key,
  rate_tracker_new, rate_tracker_allow,
}
use tiniclaw.Security.Rate.Entries.{
  same_key_trans, same_key_sym, stamps-with_key, has_key-with_key, stamps-restamp,
}

-- A request: its key and its time.
abbrev pub Request : Type 0
Request = Bytes × ℤ

abbrev pub one_if : Bool → ℕ
one_if b = if b then 1 else 0

-- How many requests of the log have the key and come after the cutoff.
pub recent : ℤ → Bytes → List Request → ℕ
recent c k [] = 0
recent c k ((j, t) ∷ log) = one_if (same_key j k && ltb_ℤ c t) + recent c k log

-- The decisions of the specification: it keeps every accepted request for ever, and accepts one
-- when fewer than `limit` of its key fall after `now - window`.
pub decide_all : ℕ → ℕ → List Request → List Request → List Bool
decide_all limit window log [] = []
decide_all limit window log ((k, now) ∷ rs) =
    let ok = ltb (recent (now -ℤ to_i64 window) k log) limit in
    ok ∷ decide_all limit window (if ok then (k, now) ∷ log else log) rs

-- The answers of the tracker to a run of calls.
unfoldable pub answers : Option RateTracker → List Request → List Bool
answers t [] = []
answers t ((k, now) ∷ rs) = let (ok, t') = rate_tracker_allow t k now in ok ∷ answers t' rs

-- The clock does not go back.
abbrev pub Monotone : ℤ → List Request → Type 0
Monotone last [] = Unit
Monotone last ((k, now) ∷ rs) = (last ≤ℤ now) × Monotone now rs

count_after : ℤ → List ℤ → ℕ
count_after c [] = 0
count_after c (t ∷ ts) = one_if (ltb_ℤ c t) + count_after c ts

count_after-append :
    (c now : ℤ) (ts : List ℤ)
    → count_after c (ts ++ now ∷ []) ≡ count_after c ts + one_if (ltb_ℤ c now)
unfolding count_after
count_after-append c now [] = omega arith
count_after-append c now (t ∷ ts) = omega (arith, count_after-append c now ts)

length-after_cutoff : (c : ℤ) (ts : List ℤ) → length (after_cutoff c ts) ≡ count_after c ts
unfolding after_cutoff count_after
length-after_cutoff c [] = refl
length-after_cutoff c (t ∷ ts) = elim (Bool-cases (ltb_ℤ c t)) [
  | inl l ↦ rw l (omega (arith, length-after_cutoff c ts))
  | inr n ↦ rw n (omega (arith, length-after_cutoff c ts))
]

-- Dropping what is before an earlier cutoff loses nothing that a later one counts.
count_after-after_cutoff :
    (c d : ℤ) (ts : List ℤ) → c ≤ℤ d → count_after d (after_cutoff c ts) ≡ count_after d ts
unfolding after_cutoff count_after
count_after-after_cutoff c d [] h = refl
count_after-after_cutoff c d (t ∷ ts) h = elim (Bool-cases (ltb_ℤ c t)) [
  | inl l ↦
      rw (l, count_after)
        (ap (λ (n : ℕ). one_if (ltb_ℤ d t) + n) (count_after-after_cutoff c d ts h))
  | inr n ↦
      let late : ltb_ℤ d t ≡ false = ground arith in
      rw (n, late) (count_after-after_cutoff c d ts h ∙ omega arith)
]

recent_same :
    (c : ℤ) (j k : Bytes) (log : List Request)
    → same_key j k ≡ true
    → recent c j log ≡ recent c k log
unfolding recent
recent_same c j k [] h = refl
recent_same c j k ((i, t) ∷ log) h =
    let e : same_key i j ≡ same_key i k =
      same_key_sym i j ∙ same_key_trans j k i h ∙ same_key_sym k i in
    ap₂ (λ (b : Bool) (n : ℕ). one_if (b && ltb_ℤ c t) + n) e (recent_same c j k log h)

-- The tracker's entries count like the log, for every cutoff that can still be asked for.
abbrev Counts : ℤ → List RateEntry → List Request → Type 0
Counts low es log = (j : Bytes) (c : ℤ) → low ≤ℤ c → count_after c (stamps j es) ≡ recent c j log

-- What a call does, by counting: below the capacity nothing but the limit refuses.
hit_lem :
    (limit : ℕ) (cutoff now : ℤ) (ts : List ℤ)
    → limit ≤ max_timestamps
    → hit limit cutoff now ts ≡ (
      ltb (count_after cutoff ts) limit,
      if ltb (count_after cutoff ts) limit
          then after_cutoff cutoff ts ++ now ∷ []
          else after_cutoff cutoff ts,
    )
unfolding hit
hit_lem limit cutoff now ts small =
    rw (length-after_cutoff cutoff ts) (elim (Bool-cases (ltb (count_after cutoff ts) limit)) [
      | inl ok ↦
          let room : ltb (count_after cutoff ts) 1024 ≡ true = ground arith in rw (ok, room) refl
      | inr full ↦ rw full refl
    ])

-- The timestamps that a call leaves, counted: one more if it was accepted.
count_after_hit :
    (cutoff now c : ℤ) (ts : List ℤ) (ok : Bool)
    → cutoff ≤ℤ c
    → count_after c (if ok then after_cutoff cutoff ts ++ now ∷ [] else after_cutoff cutoff ts)
      ≡ (if ok then one_if (ltb_ℤ c now) else 0) + count_after c ts
count_after_hit cutoff now c ts true h = omega (
  arith,
  count_after-append c now (after_cutoff cutoff ts),
  count_after-after_cutoff cutoff c ts h,
)
count_after_hit cutoff now c ts false h = omega (arith, count_after-after_cutoff cutoff c ts h)

recent_more :
    (c now : ℤ) (k j : Bytes) (ok : Bool) (log : List Request)
    → recent c j (if ok then (k, now) ∷ log else log)
      ≡ (if same_key k j then (if ok then one_if (ltb_ℤ c now) else 0) else 0) + recent c j log
unfolding recent
recent_more c now k j ok log = ground arith

Counts-step :
    (low cutoff now : ℤ) (k : Bytes) (es : List RateEntry) (log : List Request) (ok : Bool)
    → low ≤ℤ cutoff
    → Counts low es log
    → Counts cutoff
        (restamp k
          (if ok
            then after_cutoff cutoff (stamps k es) ++ now ∷ []
            else after_cutoff cutoff (stamps k es))
          (with_key k es))
        (if ok then (k, now) ∷ log else log)
Counts-step low cutoff now k es log ok le inv j c h =
    let ts = stamps k es in
    rw
      (stamps-restamp k j
        (if ok then after_cutoff cutoff ts ++ now ∷ [] else after_cutoff cutoff ts) (with_key k es)
        (has_key-with_key k es))
      (rw (recent_more c now k j ok log) (elim (Bool-cases (same_key k j)) [
        | inl s ↦ rw s (
            count_after_hit cutoff now c ts ok h
            ∙ ap (λ (n : ℕ). (if ok then one_if (ltb_ℤ c now) else 0) + n)
                (inv k c (omega arith) ∙ recent_same c k j log s))
        | inr d ↦ rw d (rw (stamps-with_key k j es) (inv j c (omega arith) ∙ omega arith))
      ]))

allow_lem :
    (t : RateTracker) (k : Bytes) (now : ℤ)
    → 0 < t.limit
    → t.limit ≤ max_timestamps
    → let cutoff = now -ℤ to_i64 t.window_s in
      let ts = stamps k t.entries in
      let ok = ltb (count_after cutoff ts) t.limit in
      rate_tracker_allow (some t) k now ≡ (
        ok,
        some (record t {
          entries =
              restamp k
                (if ok then after_cutoff cutoff ts ++ now ∷ [] else after_cutoff cutoff ts)
                (with_key k t.entries);
        }),
      )
unfolding rate_tracker_allow
allow_lem t k now pos small =
    let nonzero : (t.limit == 0) ≡ false = ground arith in
    rw
      (
        nonzero,
        stamps-with_key k k t.entries,
        hit_lem t.limit (now -ℤ to_i64 t.window_s) now (stamps k t.entries) small,
      )
      refl

answers-decide_all :
    (t : RateTracker) (last : ℤ) (log rs : List Request)
    → 0 < t.limit
    → t.limit ≤ max_timestamps
    → Counts (last -ℤ to_i64 t.window_s) t.entries log
    → Monotone last rs
    → answers (some t) rs ≡ decide_all t.limit t.window_s log rs
unfolding answers decide_all
answers-decide_all t last log [] pos small inv mono = refl
answers-decide_all t last log ((k, now) ∷ rs) pos small inv (le, mono) =
    let low = last -ℤ to_i64 t.window_s in
    let cutoff = now -ℤ to_i64 t.window_s in
    let later : low ≤ℤ cutoff =
      omega (arith, -ℤ_parts last (to_i64 t.window_s), -ℤ_parts now (to_i64 t.window_s)) in
    let ok : Bool = ltb (recent cutoff k log) t.limit in
    let es : List RateEntry =
      restamp k
        (if ok
          then after_cutoff cutoff (stamps k t.entries) ++ now ∷ []
          else after_cutoff cutoff (stamps k t.entries))
        (with_key k t.entries) in
    rw (allow_lem t k now pos small, answers)
      (rw (inv k cutoff later) (
        ap (λ (l : List Bool). ok ∷ l)
          (answers-decide_all (record t { entries = es }) now (if ok then (k, now) ∷ log else log)
            rs pos small (Counts-step low cutoff now k t.entries log ok later inv) mono)))

-- A new tracker with a limit of at least 1 and at most 1024 answers every run of calls, of any
-- keys, whose clock does not go back, as the specification does: it accepts a call exactly when
-- fewer than `limit` accepted calls of the same key (of its first 255 bytes) fall in the window.
pub rate_tracker_refines :
    (limit window : ℕ) (last : ℤ) (rs : List Request)
    → 0 < limit
    → limit ≤ max_timestamps
    → Monotone last rs
    → answers (some (rate_tracker_new limit window)) rs ≡ decide_all limit window [] rs
unfolding rate_tracker_new count_after
rate_tracker_refines limit window last rs pos small mono =
    answers-decide_all (record { limit = limit; window_s = window; entries = [] }) last [] rs pos
      small (unfold stamps recent in λ j c h. refl) mono
