-- ===== src/Arena.antt =====
-- src/arena.c and include/arena.h: the bump allocator. A pointer into the arena is its offset in
-- the backing buffer; `size_t` is 64 bits wide and wraps.
mod Align
pub mod Blocks
pub mod Copies
mod Tests
use tiniclaw.Base.{
  ℕ, ◌+◌, ◌-◌, ◌*◌, ◌%◌, ◌^◌, ◌<◌, ◌≤◌, Bool, true, false, Option, none, some, List, [], ◌∷◌, ◌++◌,
  length, take, replicate, Bytes, ltb, if◌then◌else◌,
}
use tiniclaw.Base.Bits.{bit_and}
use tiniclaw.Base.Memory.{copy_at}

pub record Arena : Type 0 where
  pub buf : Bytes
  pub cap : ℕ
  pub pos : ℕ
  pub owns_buf : Bool

abbrev pub default_size : ℕ
default_size = 1024 * 1024

-- `(pos + align - 1) & ~(align - 1)` in `size_t`
pub align_up : ℕ → ℕ → ℕ
align_up pos align =
    bit_and ((pos + align + 2 ^ 64 - 1) % 2 ^ 64) (2 ^ 64 - 1 - (align + 2 ^ 64 - 1) % 2 ^ 64)

-- The two `malloc`s are arguments: whether the first one succeeds, and what the second returns.
unfoldable pub arena_new : Bool → Option Bytes → ℕ → Option Arena
arena_new false mem size = none
arena_new true none size = none
arena_new true (some mem) size = some (record { buf = mem; cap = size; pos = 0; owns_buf = true })

unfoldable pub arena_from_buf : Bytes → ℕ → Arena
arena_from_buf mem size = record { buf = mem; cap = size; pos = 0; owns_buf = false }

-- `none` is the NULL of an allocation that does not fit.
unfoldable pub alloc : Arena → ℕ → ℕ → Option ℕ × Arena
alloc a size align =
    let p = align_up a.pos align in
    let end = (p + size) % 2 ^ 64 in
    if ltb a.cap end then (none, a) else (some p, record a { pos = end })

-- What follows an allocation: bytes written at the pointer, unless it is NULL.
pub fill : Option ℕ × Arena → Bytes → Option ℕ × Arena
fill (none, a) bytes = (none, a)
fill (some p, a) bytes = (some p, record a { buf = copy_at a.buf p bytes })

unfoldable pub zalloc : Arena → ℕ → ℕ → Option ℕ × Arena
unfolding fill
zalloc a size align = fill (alloc a size align) (replicate size 0)

-- The string is given with the memory behind it: `n` bytes of it are copied, and then a NUL.
unfoldable pub strndup : Arena → Option Bytes → ℕ → Option ℕ × Arena
unfolding fill
strndup a none n = (none, a)
strndup a (some s) n = fill (alloc a ((n + 1) % 2 ^ 64) 1) (take n s ++ 0 ∷ [])

unfoldable pub strdup : Arena → Option Bytes → Option ℕ × Arena
unfolding fill
strdup a none = (none, a)
strdup a (some s) = fill (alloc a ((length s + 1) % 2 ^ 64) 1) (s ++ 0 ∷ [])

unfoldable pub reset : Arena → Arena
reset a = record a { pos = 0 }

-- `nc_arena_free` of a non-NULL arena: whether the backing buffer is freed with the header.
unfoldable pub frees_buf : Arena → Bool
frees_buf a = a.owns_buf

-- The offset lies in the buffer, and the buffer is as large as the arena says.
pub record IsValid (a : Arena) : Type 0 where
  pub within : a.pos ≤ a.cap
  pub backed : a.cap ≤ length a.buf
  pub sized : a.cap < 2 ^ 64
