-- ===== src/Util/Strings.antt =====
-- The string helpers of src/util.c. A C string is the list of its bytes before the NUL; where a
-- function writes, the memory behind the pointer is a list of cells.
pub mod Compare
pub mod Trim
pub mod Concat
mod Tests
use tiniclaw.Base.{
  ℕ, zero, suc, ◌+◌, ◌-◌, ◌^◌, ◌%◌, Bool, true, false, ◌&&◌, ◌||◌, Option, none, some, [], ◌∷◌,
  ◌++◌, Bytes, length, take, get_or, leb, ltb, ◌==◌, min, if◌then◌else◌,
}
use tiniclaw.Base.Int.{ℤ, pos, sub_ℕ, is_zero}
use tiniclaw.Base.Bits.{bit_or, bit_xor}
use tiniclaw.Base.Memory.{copy_at}

-- `tolower` and `isspace` of the C locale.
unfoldable pub tolower : ℕ → ℕ
tolower c = if leb b'A' c && leb c b'Z' then c + 32 else c

unfoldable pub isspace : ℕ → Bool
isspace c = c == 32 || leb 9 c && leb c 13

-- `nc_strdup`; a `malloc` that fails is the first argument.
unfoldable pub strdup : Bool → Option Bytes → Option Bytes
strdup granted none = none
strdup false (some s) = none
strdup true (some s) = some s

-- `nc_strndup`: `n` bytes of the memory at `s`, up to the first NUL among them once it is read back
-- as a string.
unfoldable pub strndup : Bool → Option Bytes → ℕ → Option Bytes
strndup granted none n = none
strndup false (some s) n = none
strndup true (some s) n = some (take n s)

-- The byte that `*p` reads: 0 at the end of the string.
abbrev pub first_byte : Bytes → ℕ
first_byte [] = 0
first_byte (c ∷ s) = c

unfoldable pub strcasecmp : Bytes → Bytes → ℤ
strcasecmp [] b = sub_ℕ 0 (first_byte b)
strcasecmp (x ∷ a) [] = sub_ℕ x 0
strcasecmp (x ∷ a) (y ∷ b) =
    let d = sub_ℕ (tolower x) (tolower y) in
    let rest = strcasecmp a b in if is_zero d then rest else d

-- The count of the loop reaches -1 exactly when `n` characters were compared.
unfoldable pub strncasecmp : Bytes → Bytes → ℕ → ℤ
strncasecmp a b zero = pos 0
strncasecmp [] b (suc n) = sub_ℕ 0 (first_byte b)
strncasecmp (x ∷ a) [] (suc n) = sub_ℕ x 0
strncasecmp (x ∷ a) (y ∷ b) (suc n) =
    let d = sub_ℕ (tolower x) (tolower y) in
    let rest = strncasecmp a b n in if is_zero d then rest else d

-- `while (isspace(*s)) s++;`
unfoldable pub skip_spaces : Bytes → Bytes
unfolding isspace
skip_spaces [] = []
skip_spaces (c ∷ s) = let rest = skip_spaces s in if isspace c then rest else c ∷ s

-- `while (end > s && isspace(*end)) end--;`, from an offset
pub last_kept : Bytes → ℕ → ℕ
unfolding isspace
last_kept s zero = zero
last_kept s (suc end) =
    let rest = last_kept s end in if isspace (get_or s (suc end) 0) then rest else suc end

pub cut_end : Bytes → Bytes
unfolding last_kept
cut_end [] = []
cut_end (c ∷ s) = take (last_kept (c ∷ s) (length s) + 1) (c ∷ s)

unfoldable pub strtrim : Option Bytes → Option Bytes
unfolding skip_spaces cut_end
strtrim none = none
strtrim (some s) = some (cut_end (skip_spaces s))

-- `strnlen`
pub strnlen : Bytes → ℕ → ℕ
strnlen cells zero = 0
strnlen [] (suc n) = 0
strnlen (c ∷ cells) (suc n) = if c == 0 then 0 else suc (strnlen cells n)

-- The return value, and the memory at `dst` afterwards; `dst_size - 1` and the room left are
-- computed in `size_t`.
unfoldable pub strlcat : Bytes → Bytes → ℕ → ℕ × Bytes
unfolding strnlen
strlcat dst src dst_size =
    let dst_len = strnlen dst dst_size in
    let src_len = length src in
    if ltb dst_len ((dst_size + 2 ^ 64 - 1) % 2 ^ 64)
    then (
      (dst_len + src_len) % 2 ^ 64,
      copy_at dst dst_len
          (take (min ((dst_size + 2 ^ 64 - dst_len + 2 ^ 64 - 1) % 2 ^ 64) src_len) src ++ 0 ∷ []),
    )
    else ((dst_len + src_len) % 2 ^ 64, dst)

-- The loop of `nc_const_eq`, from index `i`, with `n` bytes left. The operands are bytes, so the
-- conversion back to `uint8_t` loses nothing.
pub diff_from : Bytes → Bytes → ℕ → ℕ → ℕ → ℕ
diff_from a b zero i diff = diff
diff_from a b (suc n) i diff =
    diff_from a b n (i + 1) (bit_or diff (bit_xor (get_or a i 0) (get_or b i 0)))

unfoldable pub const_eq : Bytes → Bytes → ℕ → Bool
unfolding diff_from
const_eq a b n = diff_from a b n 0 0 == 0
