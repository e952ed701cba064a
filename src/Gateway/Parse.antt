-- ===== src/Gateway/Parse.antt =====
-- `gw_parse_request` of src/gateway.c. The buffer is the bytes received, with a NUL behind them; what
-- the string functions see ends at the first NUL.
pub mod Fields
use tiniclaw.Base.{
  ℕ, zero, suc, ◌+◌, ◌-◌, ◌*◌, ◌^◌, Bool, true, false, Option, none, some, [], ◌∷◌, Bytes, codes,
  take, drop, length, c_string, starts_with, ltb, leb, min, ◌==◌, if◌then◌else◌,
}
use tiniclaw.Util.Strings.{tolower}
use tiniclaw.Gateway.{GwRequest}

abbrev pub method_size : ℕ
method_size = 8

abbrev pub path_size : ℕ
path_size = 256

abbrev pub auth_size : ℕ
auth_size = 512

-- `GW_BODY_MAX`
abbrev pub body_max : ℕ
body_max = 1024 * 1024

-- The text before the first character `c`, and the text behind it; `none` if it does not occur.
unfoldable pub split_at : ℕ → Bytes → Option (Bytes × Bytes)
split_at c [] = none
split_at c (x ∷ s) =
    let rest = split_at c s in
    if x == c
    then some ([], s)
    else elim rest [ none ↦ none | some (front, back) ↦ some (x ∷ front, back) ]

-- What stands before the first character `c`, or the whole text.
unfoldable pub cut_at : ℕ → Bytes → Bytes
cut_at c [] = []
cut_at c (x ∷ s) = let rest = cut_at c s in if x == c then [] else x ∷ rest

-- `strstr`: what follows the first occurrence of `p`.
unfoldable pub behind : Bytes → Bytes → Option Bytes
behind p [] = none
behind p (x ∷ s) =
    let rest = behind p s in if starts_with p (x ∷ s) then some (drop (length p) (x ∷ s)) else rest

-- `strcasecmp` of the front, for `strcasestr`.
unfoldable pub starts_with_case : Bytes → Bytes → Bool
starts_with_case [] s = true
starts_with_case (p ∷ ps) [] = false
starts_with_case (p ∷ ps) (x ∷ s) =
    let rest = starts_with_case ps s in if tolower p == tolower x then rest else false

unfoldable pub behind_case : Bytes → Bytes → Option Bytes
behind_case p [] = none
behind_case p (x ∷ s) =
    let rest = behind_case p s in
    if starts_with_case p (x ∷ s) then some (drop (length p) (x ∷ s)) else rest

-- The text before the first `p`, or the whole text.
unfoldable pub before : Bytes → Bytes → Bytes
before p [] = []
before p (x ∷ s) = let rest = before p s in if starts_with p (x ∷ s) then [] else x ∷ rest

abbrev pub crlf : Bytes
crlf = 13 ∷ 10 ∷ []

abbrev pub blank_line : Bytes
blank_line = 13 ∷ 10 ∷ 13 ∷ 10 ∷ []

unfoldable pub auth_value : Option Bytes → Bytes
auth_value none = []
auth_value (some line) = take (auth_size - 1) (before crlf line)

-- The bytes behind the headers, unless there are none or too many.
unfoldable pub body_of : Bytes → Option Bytes
body_of rest =
    if length rest == 0 then none else if ltb (length rest) body_max then some rest else none

-- The bytes behind the blank line; they may contain NULs, the headers do not.
unfoldable pub with_headers : Bytes → Bytes → Bytes → Bytes → Option Bytes → Option GwRequest
with_headers buf text method path none = none
with_headers buf text method path (some tail) = some (record {
  method = method;
  path = cut_at b'?' (take (path_size - 1) path);
  auth = auth_value (behind_case (codes "\r\nAuthorization: ") text);
  body = body_of (drop (length text - length tail) buf);
})

unfoldable pub with_path : Bytes → Bytes → Bytes → Option (Bytes × Bytes) → Option GwRequest
with_path buf text method none = none
with_path buf text method (some (path, rest)) =
    with_headers buf text method path (behind blank_line text)

unfoldable pub with_method : Bytes → Bytes → Option (Bytes × Bytes) → Option GwRequest
with_method buf text none = none
with_method buf text (some (method, rest)) =
    if leb method_size (length method) then none else with_path buf text method (split_at b' ' rest)

-- `none` is -1.
unfoldable pub parse_request : Bytes → Option GwRequest
parse_request buf = let text = c_string buf in with_method buf text (split_at b' ' text)
