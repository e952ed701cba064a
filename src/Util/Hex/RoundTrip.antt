-- ===== src/Util/Hex/RoundTrip.antt =====
-- Decoding undoes encoding, and encoding undoes decoding up to the case of the digits.
use tiniclaw.Base.{
  ℕ, ◌+◌, ◌*◌, ◌/◌, ◌%◌, ◌≤◌, ◌<◌, ◌≡◌, ◌∙◌, refl, ap, Bool, true, false, ◌&&◌, Option, none, some,
  [], ◌∷◌, Bytes, length, All, arith, ltb, leb, ◌==◌, ==_iff, if◌then◌else◌, map, Bool-cases,
  length-map, inl, inr, ◌≢◌,
}
use native.Mathlib.Decide.{dec_lt}
use tiniclaw.Base.Bits.{bit_and, bit_or, and_fifteen, and_one, or_shifted}
use tiniclaw.Base.Table.{all_below, all_below_sound}
use tiniclaw.Util.Hex.{digit, hex_encode, hex_val, join_digits, decode_pairs, hex_decode}

abbrev pub IsBytes : Bytes → Type 0
IsBytes = All (λ b. b < 256)

abbrev value_or : ℕ → Option ℕ → ℕ
value_or d none = d
value_or d (some v) = v

digit_table : all_below 16 (λ n. value_or 16 (hex_val (digit n)) == n) ≡ true
unfolding all_below hex_val digit
digit_table = refl

eq_some : (o : Option ℕ) (n d : ℕ) → n ≢ d → value_or d o ≡ n → o ≡ some n
eq_some none n d ne e = absurd (omega arith)
eq_some (some v) n d ne e = cc

-- Reading a digit gives its value back.
pub hex_val-digit : (n : ℕ) → n < 16 → hex_val (digit n) ≡ some n
hex_val-digit n h =
    eq_some (hex_val (digit n)) n 16 (omega arith)
      ((==_iff _ n).0 (all_below_sound _ 16 n h digit_table))

pub length-hex_encode : (bs : Bytes) → length (hex_encode bs) ≡ 2 * length bs
unfolding hex_encode
length-hex_encode [] = refl
length-hex_encode (b ∷ bs) = omega (arith, length-hex_encode bs)

decode_pairs-hex_encode : (bs : Bytes) → IsBytes bs → decode_pairs (hex_encode bs) ≡ some bs
unfolding decode_pairs hex_encode
decode_pairs-hex_encode [] h = refl
decode_pairs-hex_encode (b ∷ bs) (small, rest) =
    let low : bit_and b 15 ≡ b % 16 = and_fifteen b in
    let whole : bit_or (b / 16 * 16) (b % 16) ≡ b =
      or_shifted 4 (b / 16) (b % 16) (omega arith) ∙ omega arith in
    rw (
      low,
      hex_val-digit (b / 16) (omega arith),
      hex_val-digit (b % 16) (omega arith),
      decode_pairs-hex_encode bs rest,
      whole,
    )

-- Decoding an encoded text gives the bytes back, whenever the output buffer has room for them.
pub hex_decode-hex_encode :
    (bs : Bytes) (room : ℕ)
    → IsBytes bs
    → length bs ≤ room
    → hex_decode (hex_encode bs) room ≡ some bs
unfolding hex_decode
hex_decode-hex_encode bs room h fits =
    let even : bit_and (length (hex_encode bs)) 1 ≡ 0 =
      and_one (length (hex_encode bs)) ∙ omega (arith, length-hex_encode bs) in
    let half : length (hex_encode bs) / 2 ≡ length bs = omega (arith, length-hex_encode bs) in
    let roomy : ltb room (length bs) ≡ false = ground arith in
    rw (even, half, roomy) (decode_pairs-hex_encode bs h)

-- An upper-case hex digit in lower case.
abbrev pub lower : ℕ → ℕ
lower c = if leb b'A' c && leb c b'F' then c + 32 else c

agrees : ℕ → Option ℕ → Bool
agrees c none = true
agrees c (some v) = digit v == lower c && ltb v 16

lower_table : all_below 103 (λ c. agrees c (hex_val c)) ≡ true
unfolding all_below agrees hex_val digit
lower_table = refl

hex_val_above : (c : ℕ) → 103 ≤ c → hex_val c ≡ none
unfolding hex_val
hex_val_above c h = ground arith

digit-hex_val : (c v : ℕ) → hex_val c ≡ some v → (digit v ≡ lower c) × (v < 16)
unfolding agrees
digit-hex_val c v e = elim (dec_lt c 103) [
  | yes small ↦
      let t = all_below_sound (λ c. agrees c (hex_val c)) 103 c small lower_table in
      let u : agrees c (some v) ≡ true = rw e at t in ground (arith, u)
  | no large ↦ let n = hex_val_above c (omega arith) in ground (arith, n, e)
]

pair_inverse :
    (c d x : ℕ) (s bs : Bytes)
    → join_digits (hex_val c) (hex_val d) (decode_pairs s) ≡ some (x ∷ bs)
    → (decode_pairs s ≡ some bs)
      × (x < 256)
      × (digit (x / 16) ≡ lower c)
      × (digit (bit_and x 0x0f) ≡ lower d)
unfolding join_digits
pair_inverse c d x s bs e = go (hex_val c) (hex_val d) (decode_pairs s) refl refl e
  where
    go :
        (o p : Option ℕ) (q : Option Bytes)
        → hex_val c ≡ o
        → hex_val d ≡ p
        → join_digits o p q ≡ some (x ∷ bs)
        → (q ≡ some bs)
          × (x < 256)
          × (digit (x / 16) ≡ lower c)
          × (digit (bit_and x 0x0f) ≡ lower d)
    go none p q _ _ e = cc
    go (some hi) none q _ _ e = cc
    go (some hi) (some lo) none _ _ e = cc
    go (some hi) (some lo) (some rest) eh el e =
        let h = digit-hex_val c hi eh in
        let l = digit-hex_val d lo el in
        let whole : bit_or (hi * 16) lo ≡ hi * 16 + lo = or_shifted 4 hi lo (omega arith) in
        let x_is : x ≡ hi * 16 + lo = ground (arith, whole, e) in
        let top : x / 16 ≡ hi = omega arith in
        let low : bit_and x 15 ≡ lo = and_fifteen x ∙ omega arith in
        (cc, omega (arith, h.1, l.1), rw top h.0, rw low l.0)

join-ne-nil : (o p : Option ℕ) (q : Option Bytes) → join_digits o p q ≢ some []
unfolding join_digits
join-ne-nil none p q e = cc
join-ne-nil (some hi) none q e = cc
join-ne-nil (some hi) (some lo) none e = cc
join-ne-nil (some hi) (some lo) (some rest) e = cc

encode-decode_pairs :
    (s bs : Bytes)
    → length s % 2 ≡ 0
    → decode_pairs s ≡ some bs
    → IsBytes bs × (hex_encode bs ≡ map lower s)
unfolding decode_pairs hex_encode
encode-decode_pairs [] [] even e = (tt, refl)
encode-decode_pairs [] (x ∷ bs) even e = cc
encode-decode_pairs (c ∷ []) bs even e = absurd (omega arith)
encode-decode_pairs (c ∷ d ∷ s) [] even e = absurd (join-ne-nil _ _ _ e)
encode-decode_pairs (c ∷ d ∷ s) (x ∷ bs) even e =
    let (rest, small, hi, lo) = pair_inverse c d x s bs e in
    let ih = encode-decode_pairs s bs (omega arith) rest in ((small, ih.0), cc (hi, lo, ih.1))

no_result : {bs : Bytes} → ◌≡◌ {A = Option Bytes} none (some bs) → ⊥
no_result e = cc

-- What decodes gives bytes, fits the output buffer, and encodes back to the same text in lower
-- case: so a text decodes only if it is made of an even number of hex digits.
pub hex_encode-hex_decode :
    (s : Bytes) (room : ℕ) (bs : Bytes)
    → hex_decode s room ≡ some bs
    → IsBytes bs × (length bs ≤ room) × (hex_encode bs ≡ map lower s)
unfolding hex_decode
hex_encode-hex_decode s room bs e = elim (Bool-cases (bit_and (length s) 1 == 0)) [
  | inr odd ↦ absurd (no_result (rw odd at e))
  | inl even ↦
      let e' : (if ltb room (length s / 2) then none else decode_pairs s) ≡ some bs =
        rw even at e in
      elim (Bool-cases (ltb room (length s / 2))) [
        | inl short ↦ absurd (no_result (rw short at e'))
        | inr fits ↦
            let parity : length s % 2 ≡ 0 =
              omega (arith, and_one (length s), (==_iff _ _).0 even) in
            let (small, text) = encode-decode_pairs s bs parity (rw fits at e') in
            let sizes : 2 * length bs ≡ length s = omega (
              arith,
              length-hex_encode bs,
              ap (λ (l : Bytes). length l) text,
              length-map s lower,
            ) in
            (small, ground (arith, fits, sizes), text)
      ]
]
