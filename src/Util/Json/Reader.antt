-- ===== src/Util/Json/Reader.antt =====
-- JSON's own reading of a string literal (RFC 8259, section 7), over the escapes of one byte: the
-- independent description that the escaper is held against.
use tiniclaw.Base.{
  ℕ, zero, suc, ◌+◌, ◌*◌, ◌/◌, ◌%◌, ◌<◌, ◌≡◌, ◌∙◌, refl, ap, true, false, Option, none, some, [],
  ◌∷◌, ◌++◌, Bytes, arith, ltb, ◌==◌, if◌then◌else◌, append_assoc, Bool-cases, inl, inr, sym,
  ==_iff, ltb→lt,
}
use tiniclaw.Util.Hex.{digit, hex_val}
use tiniclaw.Util.Hex.RoundTrip.{hex_val-digit}
use tiniclaw.Util.Json.{quote, backslash, chunk, escaped}

-- In plain text, behind a backslash, or with some digits of `\uXXXX` still to come.
pub data Mode : Type 0 where
  plain behind : Mode
  hex : ℕ → ℕ → Mode

-- The text read so far goes in front of what is read next.
pub push : ℕ → Option (Bytes × Bytes) → Option (Bytes × Bytes)
push c none = none
push c (some (s, rest)) = some (c ∷ s, rest)

-- The character that a short escape stands for.
short_escape : ℕ → Option ℕ
short_escape e =
    if e == quote
    then some quote
    else if e == backslash
    then some backslash
    else if e == b'/'
    then some b'/'
    else if e == b'b'
    then some 8
    else if e == b'f'
    then some 12
    else if e == b'n'
    then some 10
    else if e == b'r'
    then some 13
    else if e == b't'
    then some 9
    else none

-- The value of the literal whose body begins the text, and what follows its closing quote.
pub read : Mode → Bytes → Option (Bytes × Bytes)
unfolding push short_escape
read m [] = none
read plain (c ∷ s) =
    let next = read behind s in
    let more = read plain s in
    if c == quote
    then some ([], s)
    else if c == backslash
    then next
    else if ltb c 0x20
    then none
    else push c more
read behind (e ∷ s) =
    let more = read plain s in
    let digits = read (hex 4 0) s in
    if e == b'u' then digits else elim (short_escape e) [ none ↦ none | some c ↦ push c more ]
read (hex zero acc) (c ∷ s) = none
read (hex (suc zero) acc) (d ∷ s) =
    let more = read plain s in elim (hex_val d) [ none ↦ none | some v ↦ push (acc * 16 + v) more ]
read (hex (suc (suc k)) acc) (d ∷ s) = elim (hex_val d) [
  | none ↦ none
  | some v ↦ read (hex (suc k) (acc * 16 + v)) s
]

read-digit :
    (k acc n : ℕ) (s : Bytes)
    → n < 16
    → read (hex (suc (suc k)) acc) (digit n ∷ s) ≡ read (hex (suc k) (acc * 16 + n)) s
unfolding read
read-digit k acc n s h = rw (hex_val-digit n h, read)

read_last_digit :
    (acc n : ℕ) (s : Bytes)
    → n < 16
    → read (hex 1 acc) (digit n ∷ s) ≡ push (acc * 16 + n) (read plain s)
unfolding read
read_last_digit acc n s h = rw (hex_val-digit n h, read)

enters : (s : Bytes) → read plain (backslash ∷ b'u' ∷ s) ≡ read (hex 4 0) s
unfolding read
enters s = refl

read_plain :
    (c : ℕ) (s : Bytes)
    → (c == quote) ≡ false
    → (c == backslash) ≡ false
    → ltb c 0x20 ≡ false
    → read plain (c ∷ s) ≡ push c (read plain s)
unfolding read
read_plain c s q b l = rw (q, b, l)

read_control :
    (c : ℕ) (s : Bytes)
    → c < 0x20
    → read plain (backslash ∷ b'u' ∷ digit 0 ∷ digit 0 ∷ digit (c / 16) ∷ digit (c % 16) ∷ s)
      ≡ push c (read plain s)
read_control c s h =
    let enter : read plain
          (backslash ∷ b'u' ∷ digit 0 ∷ digit 0 ∷ digit (c / 16) ∷ digit (c % 16) ∷ s)
        ≡ read (hex 4 0) (digit 0 ∷ digit 0 ∷ digit (c / 16) ∷ digit (c % 16) ∷ s) =
      enters _ in
    enter
    ∙ read-digit 2 0 0 _ (omega arith)
    ∙ read-digit 1 0 0 _ (omega arith)
    ∙ read-digit 0 0 (c / 16) _ (omega arith)
    ∙ read_last_digit (0 * 16 + c / 16) (c % 16) s (omega arith)
    ∙ ap (λ (v : ℕ). push v (read plain s)) (omega arith)

read_short :
    (c k e : ℕ) (s : Bytes)
    → (c == k) ≡ true
    → short_escape e ≡ some k
    → (e == b'u') ≡ false
    → read plain (backslash ∷ e ∷ s) ≡ push c (read plain s)
unfolding read
read_short c k e s is known other =
    rw (other, known, read) (ap (λ (v : ℕ). push v (read plain s)) (sym ((==_iff c k).0 is)))

-- One escaped byte reads back as itself.
read-chunk : (c : ℕ) (s : Bytes) → read plain (chunk c ++ s) ≡ push c (read plain s)
unfolding chunk short_escape
read-chunk c s = elim (Bool-cases (c == quote)) [
  | inl is ↦ rw is (read_short c quote quote s is refl refl)
  | inr q ↦ rw q (elim (Bool-cases (c == backslash)) [
    | inl is ↦ rw is (read_short c backslash backslash s is refl refl)
    | inr b ↦ rw b (elim (Bool-cases (c == 10)) [
      | inl is ↦ rw is (read_short c 10 b'n' s is refl refl)
      | inr newline ↦ rw newline (elim (Bool-cases (c == 13)) [
        | inl is ↦ rw is (read_short c 13 b'r' s is refl refl)
        | inr ret ↦ rw ret (elim (Bool-cases (c == 9)) [
          | inl is ↦ rw is (read_short c 9 b't' s is refl refl)
          | inr tab ↦ rw tab (elim (Bool-cases (ltb c 0x20)) [
            | inl low ↦ rw low (read_control c s (ltb→lt c 0x20 low))
            | inr high ↦ rw high (read_plain c s q b high)
          ])
        ])
      ])
    ])
  ])
]

-- What follows the quote that opens the literal of `s`, and then anything, reads as `s`, up to the
-- quote that closes it.
pub read-escaped : (s rest : Bytes) → read plain (escaped s ++ quote ∷ rest) ≡ some (s, rest)
unfolding escaped push
read-escaped [] rest = unfold read in refl
read-escaped (c ∷ s) rest =
    rw append_assoc (read-chunk c (escaped s ++ quote ∷ rest) ∙ ap (push c) (read-escaped s rest))
