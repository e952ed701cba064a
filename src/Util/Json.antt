-- ===== src/Util/Json.antt =====
-- `nc_json_escape` of src/util.c: a text as a JSON string literal, appended to a buffer.
pub mod Reader
pub mod Literal
mod Tests
use tiniclaw.Base.{
  ℕ, ◌/◌, ◌%◌, ◌≡◌, Bool, true, false, Option, none, some, [], ◌∷◌, ◌++◌, Bytes, codes, ltb, ◌==◌,
  if◌then◌else◌,
}
use tiniclaw.Util.Buf.{Buf, Allocator, Outcome, buf_append, buf_appendz}
use tiniclaw.Util.Hex.{digit}

abbrev pub quote : ℕ
quote = b'"'

abbrev pub backslash : ℕ
backslash = b'\\'

-- What one round of the loop appends. `\u%04x` of a byte below 0x20 is `\u00` and two digits.
unfoldable pub chunk : ℕ → Bytes
chunk c =
    if c == quote
    then backslash ∷ quote ∷ []
    else if c == backslash
    then backslash ∷ backslash ∷ []
    else if c == 10
    then backslash ∷ b'n' ∷ []
    else if c == 13
    then backslash ∷ b'r' ∷ []
    else if c == 9
    then backslash ∷ b't' ∷ []
    else if ltb c 0x20
    then backslash ∷ b'u' ∷ digit 0 ∷ digit 0 ∷ digit (c / 16) ∷ digit (c % 16) ∷ []
    else c ∷ []

-- `if (… < 0) return -1;`, and then the rest.
pub and_then : Outcome → (Buf → Outcome) → Outcome
and_then none k = none
and_then (some (false, b)) k = some (false, b)
and_then (some (true, b)) k = k b

pub escape_from : Allocator → Buf → Bytes → Outcome
unfolding and_then
escape_from al b [] = some (true, b)
escape_from al b (c ∷ s) = and_then (buf_append al b (chunk c)) (λ b'. escape_from al b' s)

unfoldable pub json_escape : Allocator → Buf → Bytes → Outcome
unfolding and_then escape_from
json_escape al b s =
    and_then (buf_append al b (quote ∷ []))
      (λ b'. and_then (escape_from al b' s) (λ b''. buf_append al b'' (quote ∷ [])))

-- The literal's body, as plain text.
pub escaped : Bytes → Bytes
escaped [] = []
escaped (c ∷ s) = chunk c ++ escaped s
