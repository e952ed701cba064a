-- ===== src/Memory/Toolset/Limits.antt =====
-- The limit of the recall tool, and the tools without a memory.
use tiniclaw.Base.{ℕ, ◌≤◌, ◌≡◌, refl, Option, none, some, Bytes, codes, arith}
use tiniclaw.Base.Int.{ℤ, pos, negsuc}
use tiniclaw.Json.{Tree, get_in, as_number}
use tiniclaw.Memory.{Memory}
use tiniclaw.Memory.Toolset.{arg, clamp, limit_of, recall_result, with_text, mem_recall_execute}

clamp_bounds : (n : ℤ) → (1 ≤ clamp n) × (clamp n ≤ 50)
unfolding clamp
clamp_bounds (pos n) = ground arith
clamp_bounds (negsuc n) = omega arith

limit_bounds :
    (truncate : ℕ → ℤ) (o : Option (ℕ × ℤ)) → (1 ≤ limit_of truncate o) × (limit_of truncate o ≤ 50)
unfolding limit_of
limit_bounds truncate none = omega arith
limit_bounds truncate (some (w, n)) = clamp_bounds (truncate w)

-- With a query, the tool asks the back end for between 1 and 50 entries, whatever the `limit` is, and
-- its result is made of what the back end gives.
pub mem_recall_execute-limit :
    {W : Type 0} (truncate : ℕ → ℤ) (mem : Memory W) (args : Option Tree) (w : W) (query : Bytes)
    → arg args (codes "query") ≡ some query
    → (n : ℕ) × (1 ≤ n)
      × (n ≤ 50)
      × (mem_recall_execute truncate (some mem) args w ≡ (recall_result (mem.recall query n w), w))
unfolding mem_recall_execute with_text
mem_recall_execute-limit truncate mem args w query has_query =
    let n = limit_of truncate (as_number (get_in args (codes "limit"))) in
    let bounds = limit_bounds truncate (as_number (get_in args (codes "limit"))) in
    (n, bounds.0, bounds.1, rw has_query refl)
