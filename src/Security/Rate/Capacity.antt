-- ===== src/Security/Rate/Capacity.antt =====
-- Above 1024 the limit is not enforced.
use tiniclaw.Base.{
  ℕ, ◌≤◌, ◌<◌, ◌≡◌, refl, Bool, true, false, Option, none, some, List, [], ◌∷◌, Bytes, length,
  length-append, All, arith, ◌==◌, Bool-cases, inl, inr,
}
use tiniclaw.Base.Int.{ℤ, ◌-ℤ◌, to_i64}
use tiniclaw.Security.Rate.{
  RateEntry, RateTracker, max_timestamps, same_key, after_cutoff, hit, has_key, stamps, restamp,
  with_key, rate_tracker_allow,
}
use tiniclaw.Security.Rate.Window.{Request, answers}

-- No entry has more timestamps than its array.
abbrev pub InCapacity : List RateEntry → Type 0
InCapacity = All (λ e. length e.timestamps ≤ max_timestamps)

length-after_cutoff_le : (c : ℤ) (ts : List ℤ) → length (after_cutoff c ts) ≤ length ts
unfolding after_cutoff
length-after_cutoff_le c [] = omega arith
length-after_cutoff_le c (t ∷ ts) = ground (arith, length-after_cutoff_le c ts)

stamps-InCapacity :
    (k : Bytes) (es : List RateEntry) → InCapacity es → length (stamps k es) ≤ max_timestamps
unfolding stamps
stamps-InCapacity k [] h = omega arith
stamps-InCapacity k (e ∷ es) (he, h) = ground (arith, stamps-InCapacity k es h)

hit-InCapacity :
    (limit : ℕ) (cutoff now : ℤ) (ts : List ℤ)
    → length ts ≤ max_timestamps
    → length (hit limit cutoff now ts).1 ≤ max_timestamps
unfolding hit
hit-InCapacity limit cutoff now ts h =
    ground
      (arith, length-after_cutoff_le cutoff ts, length-append (after_cutoff cutoff ts) (now ∷ []))

restamp-InCapacity :
    (k : Bytes) (ts : List ℤ) (es : List RateEntry)
    → length ts ≤ max_timestamps
    → InCapacity es
    → InCapacity (restamp k ts es)
unfolding restamp
restamp-InCapacity k ts [] ht h = h
restamp-InCapacity k ts (e ∷ es) ht (he, h) = elim (Bool-cases (same_key e.key k)) [
  | inl s ↦ rw s (ht, h)
  | inr d ↦ rw d (he, restamp-InCapacity k ts es ht h)
]

with_key-InCapacity : (k : Bytes) (es : List RateEntry) → InCapacity es → InCapacity (with_key k es)
unfolding with_key
with_key-InCapacity k es h = elim (Bool-cases (has_key k es)) [
  | inl s ↦ rw s h
  | inr d ↦ rw d (omega arith, h)
]

abbrev pub Within : Option RateTracker → Type 0
Within none = Unit
Within (some t) = InCapacity t.entries

-- Every call, whatever the limit, keeps the timestamps of every entry inside its array.
pub rate_tracker_allow-Within :
    (t : Option RateTracker) (k : Bytes) (now : ℤ)
    → Within t
    → Within (rate_tracker_allow t k now).1
unfolding rate_tracker_allow
rate_tracker_allow-Within none k now h = h
rate_tracker_allow-Within (some t) k now h = elim (Bool-cases (t.limit == 0)) [
  | inl z ↦ rw z h
  | inr nz ↦
      let es = with_key k t.entries in
      let hes = with_key-InCapacity k t.entries h in
      rw nz (
        restamp-InCapacity k _ es
          (hit-InCapacity t.limit (now -ℤ to_i64 t.window_s) now (stamps k es)
            (stamps-InCapacity k es hes))
          hes)
]

hit_large :
    (limit : ℕ) (cutoff now : ℤ) (ts : List ℤ)
    → max_timestamps < limit
    → length ts ≤ max_timestamps
    → (hit limit cutoff now ts).0 ≡ true
unfolding hit
hit_large limit cutoff now ts big h = ground (arith, length-after_cutoff_le cutoff ts)

abbrev pub AllTrue : List Bool → Type 0
AllTrue [] = Unit
AllTrue (b ∷ bs) = (b ≡ true) × AllTrue bs

-- A limit above the array's size of 1024 refuses no call of any run: the count of an entry stops at
-- 1024, and so never reaches the limit.
pub large_limit_refuses_none :
    (t : RateTracker) (rs : List Request)
    → max_timestamps < t.limit
    → InCapacity t.entries
    → AllTrue (answers (some t) rs)
unfolding answers rate_tracker_allow
large_limit_refuses_none t [] h c = tt
large_limit_refuses_none t ((k, now) ∷ rs) big c =
    let nonzero : (t.limit == 0) ≡ false = ground arith in
    let es = with_key k t.entries in
    let hes = with_key-InCapacity k t.entries c in
    let cutoff = now -ℤ to_i64 t.window_s in
    let ts = (hit t.limit cutoff now (stamps k es)).1 in
    let ok = hit_large t.limit cutoff now (stamps k es) big (stamps-InCapacity k es hes) in
    let kept =
      restamp-InCapacity k ts es
        (hit-InCapacity t.limit cutoff now (stamps k es) (stamps-InCapacity k es hes)) hes in
    rw (nonzero, rate_tracker_allow, answers)
      (rw ok (refl, large_limit_refuses_none (record t { entries = restamp k ts es }) rs big kept))
