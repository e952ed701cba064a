-- ===== src/Util/Hex/Tests.antt =====
-- Two bytes as hexadecimal text, and the witnesses of the round trips.
use tiniclaw.Base.{◌≡◌, refl, some, none, [], ◌∷◌, codes, arith}
use tiniclaw.Util.Hex.{hex_encode, hex_decode}
use tiniclaw.Util.Hex.RoundTrip.{hex_decode-hex_encode}

decodes : hex_decode (codes "0A2f") 2 ≡ some (10 ∷ 47 ∷ [])
unfolding hex_decode
decodes = refl

odd_is_refused : hex_decode (codes "0A2") 2 ≡ none
unfolding hex_decode
odd_is_refused = refl

hex_decode-hex_encode_example : hex_decode (hex_encode (10 ∷ 255 ∷ [])) 2 ≡ some (10 ∷ 255 ∷ [])
hex_decode-hex_encode_example =
    hex_decode-hex_encode (10 ∷ 255 ∷ []) 2 (omega arith, (omega arith, tt)) (omega arith)
