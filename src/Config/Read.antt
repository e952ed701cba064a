-- ===== src/Config/Read.antt =====
-- The readers `safe_str` to `safe_double` of src/config.c: a field keeps its value where the object
-- has no child of the name and the type.
use tiniclaw.Base.{ℕ, ◌-◌, ◌%◌, ◌^◌, Bool, Option, none, some, Bytes, clip}
use tiniclaw.Base.Int.{ℤ, pos, negsuc}
use tiniclaw.Json.{Tree, get_item, as_text, as_number, as_boolean, or_else}

unfoldable pub clip_or : ℕ → Bytes → Option Bytes → Bytes
clip_or size old none = old
clip_or size old (some s) = clip size s

unfoldable pub safe_str : ℕ → Tree → Bytes → Bytes → Bytes
unfolding clip_or get_item as_text
safe_str size obj key old = clip_or size old (as_text (get_item obj key))

unfoldable pub safe_bool : Tree → Bytes → Bool → Bool
unfolding get_item as_boolean or_else
safe_bool obj key old = or_else old (as_boolean (get_item obj key))

-- `(uint32_t)v->valueint` and `(uint16_t)v->valueint`, at the number of bits.
unfoldable pub to_word : ℕ → ℤ → ℕ
to_word bits (pos n) = n % 2 ^ bits
to_word bits (negsuc n) = 2 ^ bits - 1 - n % 2 ^ bits

unfoldable pub word_or : ℕ → ℕ → Option (ℕ × ℤ) → ℕ
word_or bits old none = old
word_or bits old (some (w, n)) = to_word bits n

unfoldable pub safe_uint32 : Tree → Bytes → ℕ → ℕ
unfolding word_or to_word get_item as_number
safe_uint32 obj key old = word_or 32 old (as_number (get_item obj key))

unfoldable pub safe_uint16 : Tree → Bytes → ℕ → ℕ
unfolding word_or to_word get_item as_number
safe_uint16 obj key old = word_or 16 old (as_number (get_item obj key))

unfoldable pub double_or : ℕ → Option (ℕ × ℤ) → ℕ
double_or old none = old
double_or old (some (w, n)) = w

unfoldable pub safe_double : Tree → Bytes → ℕ → ℕ
unfolding double_or get_item as_number
safe_double obj key old = double_or old (as_number (get_item obj key))

-- A section of the file: the reader runs where the root has the child.
unfoldable pub section {ℓ} : {A : Type ℓ} → Option Tree → (Tree → A → A) → A → A
section none read a = a
section (some obj) read a = read obj a
