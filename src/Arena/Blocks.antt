-- ===== src/Arena/Blocks.antt =====
-- The blocks that a run of allocations hands out, and what a wrapping size does.
use tiniclaw.Base.{
  ℕ, ◌+◌, ◌%◌, ◌^◌, ◌≤◌, ◌<◌, ◌≡◌, Option, none, some, List, [], ◌∷◌, arith, leb, Bool-cases,
  leb→le, inl, inr,
}
use tiniclaw.Arena.{Arena, IsValid, alloc}
use tiniclaw.Arena.Align.{round_up, round_up_bounds, alloc_exact, align_up_lem}

-- A request: a size, and the power of two that is its alignment.
pub record Request : Type 0 where
  pub size : ℕ
  pub log_align : ℕ

pub record Block : Type 0 where
  pub start : ℕ
  pub request : Request
  pub open request use *

-- A request that fails gets no block.
keep : Option ℕ → Request → List Block → List Block
keep none r rest = rest
keep (some start) r rest = record { start = start; request = r } ∷ rest

-- The blocks that the requests get, in order.
pub blocks : Arena → List Request → List Block
unfolding keep
blocks a [] = []
blocks a (r ∷ rs) = let (p, a') = alloc a r.size (2 ^ r.log_align) in keep p r (blocks a' rs)

-- Every block lies between `lo` and `hi`, behind the end of the one before, and is aligned.
abbrev pub Laid : ℕ → ℕ → List Block → Type 0
Laid lo hi [] = lo ≤ hi
Laid lo hi (b ∷ bs) =
    (lo ≤ b.start) × (b.start % 2 ^ b.log_align ≡ 0) × Laid (b.start + b.size) hi bs

-- No `size_t` sum of these requests wraps.
abbrev pub Fits : ℕ → List Request → Type 0
Fits cap [] = Unit
Fits cap (r ∷ rs) = (r.log_align ≤ 64) × (cap + 2 ^ r.log_align + r.size ≤ 2 ^ 64) × Fits cap rs

-- In a valid arena, any run of requests that does not wrap `size_t` gets blocks that are aligned,
-- lie in the free part of the buffer, and do not overlap one another.
pub blocks-Laid :
    (a : Arena) (rs : List Request) → IsValid a → Fits a.cap rs → Laid a.pos a.cap (blocks a rs)
unfolding blocks
blocks-Laid a [] v h = v.within
blocks-Laid a (r ∷ rs) v (small, fits, more) =
    elim (Bool-cases (leb (round_up r.log_align a.pos + r.size) a.cap)) [
      | inl room ↦
          let start = round_up r.log_align a.pos in
          let b = round_up_bounds r.log_align a.pos in
          let next : Arena = record a { pos = start + r.size } in
          let v' : IsValid next = record {
            within = leb→le _ _ room;
            backed = v.backed;
            sized = v.sized;
          } in
          rw (alloc_exact a r.size r.log_align v small fits, blocks)
            (rw room (b.1, b.0, blocks-Laid next rs v' more))
      | inr full ↦
          rw (alloc_exact a r.size r.log_align v small fits, blocks)
            (rw full (blocks-Laid a rs v more))
    ]

-- A size that wraps is not refused: where `pos + size` passes 2 ^ 64, the allocation succeeds, and
-- moves the position back below where the block starts, so that the next block overlaps it.
pub alloc_wraps :
    (a : Arena) (size : ℕ)
    → IsValid a
    → size < 2 ^ 64
    → 2 ^ 64 ≤ a.pos + size
    → (alloc a size 1).0 ≡ some a.pos
      × ((alloc a size 1).1.pos + 2 ^ 64 ≡ a.pos + size)
      × ((alloc a size 1).1.pos < a.pos)
unfolding alloc
alloc_wraps a size v hs wraps = rw (align_up_lem 0 a.pos (omega arith) (omega arith)) (ground arith)
