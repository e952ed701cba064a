-- ===== src/Security/Rate/Tests.antt =====
-- The tracker on a short run of calls, and the witnesses of its theorems.
use tiniclaw.Base.{◌≡◌, refl, true, false, some, [], ◌∷◌, codes, arith, str_eq, List}
use tiniclaw.Base.Int.{pos, ◌-ℤ◌}
use tiniclaw.Security.Rate.{
  RateTracker, rate_tracker_new, rate_tracker_allow, with_key, hit, stamps, restamp,
}
use tiniclaw.Security.Rate.Window.{Request, answers, decide_all, rate_tracker_refines}

abbrev calls : List Request
calls =
    (codes "a", pos 100) ∷ (codes "a", pos 101) ∷ (codes "b", pos 101) ∷ (codes "a", pos 111) ∷ []

abbrev empty : RateTracker
empty = record { limit = 2000; window_s = 10; entries = [] }

slides :
    answers (some (record { limit = 1; window_s = 10; entries = [] })) calls
    ≡ true ∷ false ∷ true ∷ true ∷ []
unfolding answers rate_tracker_allow with_key hit stamps restamp str_eq ◌-ℤ◌
slides = refl

rate_tracker_refines_example :
    answers (some (rate_tracker_new 1 10)) calls ≡ decide_all 1 10 [] calls
rate_tracker_refines_example =
    rate_tracker_refines 1 10 (pos 0) calls (omega arith) (omega arith)
      (omega arith, (omega arith, (omega arith, (omega arith, tt))))
