-- ===== src/Arena/Tests.antt =====
-- The allocator on small buffers, and the witnesses of its theorems.
use tiniclaw.Base.{◌≡◌, refl, none, some, [], ◌∷◌, arith, false, codes}
use tiniclaw.Base.Memory.{copy_at}
use tiniclaw.Arena.{Arena, IsValid, align_up, alloc, strdup, zalloc, reset, arena_from_buf}
use tiniclaw.Arena.Blocks.{Laid, blocks, blocks-Laid}

abbrev small : Arena
small = record { buf = 7 ∷ 7 ∷ 7 ∷ 7 ∷ 7 ∷ 7 ∷ 7 ∷ 7 ∷ []; cap = 8; pos = 1; owns_buf = false }

small-IsValid : IsValid small
small-IsValid = omega arith

alloc_skips_to_alignment : alloc small 2 4 ≡ (some 4, record small { pos = 6 })
unfolding alloc align_up
alloc_skips_to_alignment = refl

alloc_full : alloc small 5 4 ≡ (none, small)
unfolding alloc align_up
alloc_full = refl

zalloc_clears : (zalloc small 2 4).1.buf ≡ 7 ∷ 7 ∷ 7 ∷ 7 ∷ 0 ∷ 0 ∷ 7 ∷ 7 ∷ []
unfolding zalloc alloc align_up copy_at
zalloc_clears = refl

strdup_writes : (strdup small (some (codes "hi"))).1.buf ≡ 7 ∷ b'h' ∷ b'i' ∷ 0 ∷ 7 ∷ 7 ∷ 7 ∷ 7 ∷ []
unfolding strdup alloc align_up copy_at
strdup_writes = refl

reset_starts_over : reset small ≡ arena_from_buf (7 ∷ 7 ∷ 7 ∷ 7 ∷ 7 ∷ 7 ∷ 7 ∷ 7 ∷ []) 8
unfolding reset arena_from_buf
reset_starts_over = refl

blocks-Laid_example : Laid 1 8 (
    blocks small (
      record { size = 1; log_align = 2 }
      ∷ record { size = 9; log_align = 0 }
      ∷ record { size = 2; log_align = 1 }
      ∷ []))
blocks-Laid_example =
    blocks-Laid small
      (record { size = 1; log_align = 2 }
        ∷ record { size = 9; log_align = 0 }
        ∷ record { size = 2; log_align = 1 }
        ∷ [])
      small-IsValid (omega arith)
