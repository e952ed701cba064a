-- ===== src/Security/Rate.antt =====
-- The rate tracker of src/security/pairing.c: accepted requests are remembered per key, with their
-- times, for a sliding window. The mutex makes each call atomic: a run of calls is a list.
pub mod Entries
pub mod Window
pub mod Capacity
mod Tests
use tiniclaw.Base.{
  ℕ, zero, suc, ◌^◌, Bool, true, false, Option, none, some, List, [], ◌∷◌, ◌++◌, Bytes, length,
  take, clip, str_eq, ltb, ◌==◌, if◌then◌else◌, ◌&&◌,
}
use tiniclaw.Base.Int.{ℤ, ◌-ℤ◌, ltb_ℤ, to_i64}

abbrev pub max_timestamps : ℕ
max_timestamps = 1024

-- The timestamps that are in use, oldest first: `count` is their number.
pub record RateEntry : Type 0 where
  pub key : Bytes
  pub timestamps : List ℤ

pub record RateTracker : Type 0 where
  pub limit : ℕ
  pub window_s : ℕ
  pub entries : List RateEntry

unfoldable pub rate_tracker_new : ℕ → ℕ → RateTracker
rate_tracker_new limit window_secs = record { limit = limit; window_s = window_secs; entries = [] }

-- `strncmp(a, b, 255) == 0`
pub same_key : Bytes → Bytes → Bool
same_key a b = str_eq (take 255 a) (take 255 b)

-- The compaction loop: the timestamps after the cutoff.
pub after_cutoff : ℤ → List ℤ → List ℤ
after_cutoff cutoff [] = []
after_cutoff cutoff (t ∷ ts) =
    let rest = after_cutoff cutoff ts in if ltb_ℤ cutoff t then t ∷ rest else rest

-- What a call does to the timestamps of its entry.
pub hit : ℕ → ℤ → ℤ → List ℤ → Bool × List ℤ
unfolding after_cutoff
hit limit cutoff now ts =
    let valid = after_cutoff cutoff ts in
    let allowed = ltb (length valid) limit in
    (allowed, if allowed && ltb (length valid) max_timestamps then valid ++ now ∷ [] else valid)

pub has_key : Bytes → List RateEntry → Bool
unfolding same_key
has_key k [] = false
has_key k (e ∷ es) = if same_key e.key k then true else has_key k es

-- The timestamps of the first entry with the key, and the list with them replaced.
pub stamps : Bytes → List RateEntry → List ℤ
unfolding same_key
stamps k [] = []
stamps k (e ∷ es) = if same_key e.key k then e.timestamps else stamps k es

pub restamp : Bytes → List ℤ → List RateEntry → List RateEntry
unfolding same_key
restamp k ts [] = []
restamp k ts (e ∷ es) =
    if same_key e.key k then record e { timestamps = ts } ∷ es else e ∷ restamp k ts es

-- The search, and a fresh entry in front when it finds none.
pub with_key : Bytes → List RateEntry → List RateEntry
unfolding has_key
with_key k es = if has_key k es then es else record { key = clip 256 k; timestamps = [] } ∷ es

-- `none` is the NULL tracker; `now` is what `time` returns. The subtraction of the window is exact: in
-- the source it overflows, without a defined result, for a window of about 2^63 and more.
unfoldable pub rate_tracker_allow : Option RateTracker → Bytes → ℤ → Bool × Option RateTracker
rate_tracker_allow none k now = (true, none)
rate_tracker_allow (some t) k now =
    if t.limit == 0
    then (true, some t)
    else (let es = with_key k t.entries in
        let (allowed, ts) = hit t.limit (now -ℤ to_i64 t.window_s) now (stamps k es) in
        (allowed, some (record t { entries = restamp k ts es })))
