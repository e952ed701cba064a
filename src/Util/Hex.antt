-- ===== src/Util/Hex.antt =====
-- Hexadecimal text: `nc_hex_encode` and `nc_hex_decode` of src/util.c. A buffer is the list of the
-- bytes written to it, and the terminating NUL is the end of the list.
pub mod RoundTrip
mod Tests
use tiniclaw.Base.{
  ℕ, ◌+◌, ◌-◌, ◌*◌, ◌/◌, ◌<◌, Bool, ◌&&◌, ◌||◌, Option, none, some, [], ◌∷◌, Bytes, codes, length,
  get_or, leb, ltb, ◌==◌, not, if◌then◌else◌,
}
use tiniclaw.Base.Bits.{bit_and, bit_or}

abbrev pub hex_digits : Bytes
hex_digits = codes "0123456789abcdef"

-- `HEX[n]`
pub digit : ℕ → ℕ
digit n = get_or hex_digits n 0

unfoldable pub hex_encode : Bytes → Bytes
unfolding digit
hex_encode [] = []
hex_encode (b ∷ bs) = digit (b / 16) ∷ digit (bit_and b 0x0f) ∷ hex_encode bs

-- `none` is the -1 of a character that is no digit.
unfoldable pub hex_val : ℕ → Option ℕ
hex_val c =
    if leb b'0' c && leb c b'9'
    then some (c - b'0')
    else if leb b'a' c && leb c b'f'
    then some (c - b'a' + 10)
    else if leb b'A' c && leb c b'F'
    then some (c - b'A' + 10)
    else none

-- One round of the loop: the byte `(hi << 4) | lo`, in front of what the rounds behind it give.
pub join_digits : Option ℕ → Option ℕ → Option Bytes → Option Bytes
join_digits (some hi) (some lo) (some rest) = some (bit_or (hi * 16) lo ∷ rest)
join_digits _ _ _ = none

-- The loop over the pairs of characters; a last single one is not read.
pub decode_pairs : Bytes → Option Bytes
unfolding hex_val join_digits
decode_pairs [] = some []
decode_pairs (c ∷ []) = some []
decode_pairs (c ∷ d ∷ s) = join_digits (hex_val c) (hex_val d) (decode_pairs s)

unfoldable pub hex_decode : Bytes → ℕ → Option Bytes
unfolding decode_pairs
hex_decode hex out_size =
    if not (bit_and (length hex) 1 == 0)
    then none
    else if ltb out_size (length hex / 2)
    then none
    else decode_pairs hex
