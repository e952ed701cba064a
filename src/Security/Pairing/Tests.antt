-- ===== src/Security/Pairing/Tests.antt =====
-- The guard on concrete codes, and the witnesses of its theorems.
use tiniclaw.Base.{◌≡◌, ◌↔◌, refl, true, false, if◌then◌else◌, some, [], ◌∷◌, codes, str_eq}
use tiniclaw.Util.Hex.{hex_encode}
use tiniclaw.Util.Strings.{const_eq}
use tiniclaw.Security.Pairing.{
  PairingGuard, pairing_init, pairing_try, validate_token, is_public_bind,
}
use tiniclaw.Security.Pairing.Tokens.{
  pairing_try_lem, validate_token_iff, Tried, attempts, attempts_validate,
}

abbrev guard : PairingGuard
guard = record { pairing_code = codes "004711"; bearer_token = codes "0a0b"; paired = false }

init_pads : pairing_init 5004711 (0x0a ∷ 0x0b ∷ []) ≡ guard
unfolding pairing_init hex_encode
init_pads = refl

good_code : (pairing_try guard (some (codes "004711"))).0 ≡ true
unfolding pairing_try const_eq
good_code = refl

bad_codes : (pairing_try guard (some (codes "04711"))) ≡ (false, guard)
unfolding pairing_try const_eq
bad_codes = refl

public_binds : is_public_bind (some (codes "::")) ≡ true
unfolding is_public_bind str_eq
public_binds = refl

pairing_try_lem_example :
    (((pairing_try guard (some (codes "004711"))).0 ≡ true) ↔ (codes "004711" ≡ guard.pairing_code))
    × (pairing_try guard (some (codes "004711")) ≡ (
        if (pairing_try guard (some (codes "004711"))).0
        then (true, record guard { paired = true })
        else (false, guard)))
pairing_try_lem_example = pairing_try_lem guard (codes "004711") refl

validate_token_iff_example :
    (validate_token guard (some (codes "0a0b")) ≡ true)
    ↔ ((false ≡ true) × (codes "0a0b" ≡ codes "0a0b"))
validate_token_iff_example = validate_token_iff guard (codes "0a0b")

attempts_validate_example :
    (validate_token (attempts guard (codes "000000" ∷ codes "004711" ∷ [])) (some (codes "0a0b"))
      ≡ true)
    ↔ (Tried (codes "004711") (codes "000000" ∷ codes "004711" ∷ [])
        × (codes "0a0b" ≡ codes "0a0b"))
attempts_validate_example =
    attempts_validate guard (codes "000000" ∷ codes "004711" ∷ []) (codes "0a0b") refl refl
