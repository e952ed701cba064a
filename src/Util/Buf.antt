-- ===== src/Util/Buf.antt =====
-- The growing byte buffers: `NcBuf` of src/util.c, and `CurlBuf` of src/providers/provider.c, which
-- differ in the capacity that the first growth starts from. `data` is NULL or a block of `cap`
-- cells; `size_t` is 64 bits wide and wraps.
pub mod Append
mod Tests
use tiniclaw.Base.{
  ℕ, zero, suc, ◌+◌, ◌-◌, ◌*◌, ◌%◌, ◌^◌, ◌≤◌, ◌<◌, ◌≡◌, get_elem?, Bool, true, false, Option, none,
  some, List, [], ◌∷◌, ◌++◌, Bytes, length, take, replicate, ltb, ◌==◌, if◌then◌else◌,
}
use tiniclaw.Base.Memory.{copy_at}

pub record Buf : Type 0 where
  pub cells : Option Bytes
  pub len : ℕ
  pub cap : ℕ

-- What `realloc` does: whether it grants a size, and the byte that it leaves in new cells.
pub record Allocator : Type 0 where
  pub grants : ℕ → Bool
  pub junk : ℕ

unfoldable pub init : Buf
init = record { cells = none; len = 0; cap = 0 }

-- `nc_buf_free` leaves the same fields.
unfoldable pub free : Buf → Buf
free b = record { cells = none; len = 0; cap = 0 }

-- `while (new_cap < needed) new_cap *= 2;`, with fuel; `none` is a loop that does not end.
pub double_until : ℕ → ℕ → ℕ → Option ℕ
double_until zero new_cap needed = none
double_until (suc fuel) new_cap needed =
    let more = double_until fuel (new_cap * 2 % 2 ^ 64) needed in
    if ltb new_cap needed then more else some new_cap

-- A capacity doubles at most 63 times before it wraps to 0.
abbrev pub max_doublings : ℕ
max_doublings = 64

-- `realloc(data, n)`: the old cells, and new ones behind them.
pub realloc_cells : ℕ → Option Bytes → ℕ → Bytes
realloc_cells junk none n = replicate n junk
realloc_cells junk (some m) n = take n m ++ replicate (n - length m) junk

-- What a function on a buffer returns: 0 or -1, with the buffer; `none` if it does not return.
abbrev pub Outcome : Type 0
Outcome = Option (Bool × Buf)

-- `memcpy(data + len, s, n); len += n; data[len] = '\0';`
pub put_bytes : Buf → Bytes → Buf
put_bytes b s = record b {
  cells = elim b.cells [ none ↦ none | some m ↦ some (copy_at m b.len (s ++ 0 ∷ [])) ];
  len = (b.len + length s) % 2 ^ 64;
}

pub put_after : Bytes → Outcome → Outcome
put_after s none = none
put_after s (some (false, b)) = some (false, b)
put_after s (some (true, b)) = some (true, put_bytes b s)

-- `realloc` of the capacity that the loop ended at.
pub grow_to : Allocator → Buf → Option ℕ → Outcome
grow_to al b none = none
grow_to al b (some n) =
    if al.grants n
    then some (true, record b { cells = some (realloc_cells al.junk b.cells n); cap = n })
    else some (false, b)

module _ (al : Allocator) (first : ℕ) where
  pub grow : Buf → ℕ → Outcome
  unfolding grow_to
  grow b needed =
      grow_to al b
        (double_until max_doublings (if b.cap == 0 then first else b.cap * 2 % 2 ^ 64) needed)

  unfoldable pub append : Buf → Bytes → Outcome
  unfolding grow put_bytes put_after
  append b s =
      let needed = (b.len + length s + 1) % 2 ^ 64 in
      if ltb b.cap needed then put_after s (grow b needed) else some (true, put_bytes b s)

-- `NcBuf` starts at 256 bytes, `CurlBuf` at 4096.
unfoldable pub buf_append : Allocator → Buf → Bytes → Outcome
unfolding append
buf_append al = append al 256

-- `nc_buf_appendz` and, of the formatted text, `nc_buf_appendf`.
unfoldable pub buf_appendz : Allocator → Buf → Bytes → Outcome
unfolding buf_append
buf_appendz al b s = buf_append al b s

-- `curl_write_cb` returns `n`, or 0 when it could not grow.
unfoldable pub curl_write : Allocator → Buf → Bytes → Option (ℕ × Buf)
unfolding append
curl_write al b s = elim (append al 4096 b s) [
  | none ↦ none
  | some (done, b') ↦ some (if done then length s else 0, b')
]

unfoldable pub buf_reset : Buf → Buf
unfolding copy_at
buf_reset b = record b {
  cells = elim b.cells [ none ↦ none | some m ↦ some (copy_at m 0 (0 ∷ [])) ];
  len = 0;
}

-- `nc_buf_take`: the block goes to the caller, and the buffer is empty again.
unfoldable pub buf_take : Buf → Option Bytes × Buf
buf_take b = (b.cells, record { cells = none; len = 0; cap = 0 })

-- The text that the buffer holds.
abbrev pub held : Option Bytes → ℕ → Bytes
held none len = []
held (some m) len = take len m

abbrev pub text : Buf → Bytes
text b = held b.cells b.len

-- No block and nothing held, or a block of `cap` cells with room for the text and its NUL.
abbrev pub HasBlock : Option Bytes → ℕ → ℕ → Type 0
HasBlock none len cap = (len ≡ 0) × (cap ≡ 0)
HasBlock (some m) len cap = (length m ≡ cap) × (len < cap) × (get_elem? m len ≡ some 0)

pub record IsValid (b : Buf) : Type 0 where
  pub block : HasBlock b.cells b.len b.cap
  pub sized : b.cap ≤ 2 ^ 63
