-- ===== src/Security/Pairing.antt =====
-- The pairing guard of src/security/pairing.c: a 6-digit code is exchanged for a bearer token.
pub mod Tokens
mod Tests
use tiniclaw.Base.{
  ℕ, ◌+◌, ◌*◌, ◌/◌, ◌%◌, Bool, true, false, not, ◌||◌, Option, none, some, List, [], ◌∷◌, Bytes,
  codes, length, str_eq, ◌==◌, if◌then◌else◌,
}
use tiniclaw.Util.Hex.{hex_encode}
use tiniclaw.Util.Strings.{const_eq}

pub record PairingGuard : Type 0 where
  pub pairing_code : Bytes
  pub bearer_token : Bytes
  pub paired : Bool

abbrev pub pairing_code_len : ℕ
pairing_code_len = 6

-- `%06u` of a number below 1000000.
pub six_digits : ℕ → Bytes
six_digits n =
    (b'0' + n / 100000 % 10)
    ∷ (b'0' + n / 10000 % 10)
    ∷ (b'0' + n / 1000 % 10)
    ∷ (b'0' + n / 100 % 10)
    ∷ (b'0' + n / 10 % 10)
    ∷ (b'0' + n % 10)
    ∷ []

-- The random code and the random token bytes are arguments.
unfoldable pub pairing_init : ℕ → Bytes → PairingGuard
unfolding six_digits
pairing_init code tok = record {
  pairing_code = six_digits (code % 1000000);
  bearer_token = hex_encode tok;
  paired = false;
}

unfoldable pub pairing_try : PairingGuard → Option Bytes → Bool × PairingGuard
pairing_try g none = (false, g)
pairing_try g (some code) =
    if not (length code == pairing_code_len)
    then (false, g)
    else if const_eq g.pairing_code code pairing_code_len
    then (true, record g { paired = true })
    else (false, g)

unfoldable pub validate_token : PairingGuard → Option Bytes → Bool
validate_token g none = false
validate_token g (some token) =
    if not g.paired
    then false
    else if not (length token == length g.bearer_token)
    then false
    else const_eq g.bearer_token token (length g.bearer_token)

unfoldable pub is_public_bind : Option Bytes → Bool
is_public_bind none = false
is_public_bind (some host) =
    str_eq host (codes "0.0.0.0")
    || str_eq host (codes "::")
    || str_eq host (codes "0:0:0:0:0:0:0:0")
