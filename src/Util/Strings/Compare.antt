-- ===== src/Util/Strings/Compare.antt =====
-- What the comparisons decide.
use tiniclaw.Base.{
  ℕ, zero, suc, ◌+◌, ◌≡◌, ◌↔◌, ◌∙◌, refl, sym, true, [], ◌∷◌, Bytes, take, get_or, map, IsText,
  arith, ==_iff, if◌then◌else◌, Bool-cases, clash, inl, inr,
}
use tiniclaw.Base.Int.{ℤ, sub_ℕ, is_zero}
use tiniclaw.Base.Bits.{bit_or, bit_xor, or_eq_zero, eq_of_xor, xor_self}
use tiniclaw.Util.Strings.{tolower, strcasecmp, strncasecmp, diff_from, const_eq}

sub-IsZero : (x y : ℕ) → (is_zero (sub_ℕ x y) ≡ true) ↔ (x ≡ y)
sub-IsZero x y = (λ h. ground arith, λ h. ground arith)

head_eq : {x y : ℕ} {a b : Bytes} → x ∷ a ≡ y ∷ b → x ≡ y
head_eq h = cc

-- The sign of a first difference decides the comparison.
decided_here :
    {x y : ℕ} {a b : Bytes} (d rest : ℤ)
    → ((is_zero d ≡ true) ↔ (x ≡ y))
    → ((is_zero rest ≡ true) ↔ (a ≡ b))
    → (is_zero (if is_zero d then rest else d) ≡ true) ↔ (x ∷ a ≡ y ∷ b)
decided_here d rest hd hr = elim (Bool-cases (is_zero d)) [
  | inl same ↦ rw same (λ h. cc (hd.0 same, hr.0 h), λ h. hr.1 (cc))
  | inr other ↦ rw other (λ h. absurd (clash (sym other ∙ h)), λ h. hd.1 (head_eq h))
]

-- Comparing without case decides whether the strings agree in lower case.
pub strcasecmp_iff :
    (a b : Bytes)
    → IsText a
    → IsText b
    → (is_zero (strcasecmp a b) ≡ true) ↔ (map tolower a ≡ map tolower b)
unfolding strcasecmp
strcasecmp_iff [] [] ha hb = (λ h. refl, λ h. refl)
strcasecmp_iff [] (y ∷ b) ha hb = (λ h. absurd (ground arith), λ h. cc)
strcasecmp_iff (x ∷ a) [] ha hb = (λ h. absurd (ground arith), λ h. cc)
strcasecmp_iff (x ∷ a) (y ∷ b) ha hb =
    decided_here (sub_ℕ (tolower x) (tolower y)) (strcasecmp a b)
      (sub-IsZero (tolower x) (tolower y)) (strcasecmp_iff a b ha.1 hb.1)

-- The bounded comparison decides whether the first `n` bytes agree in lower case, where a string
-- that is shorter counts as all that it has.
pub strncasecmp_iff :
    (a b : Bytes) (n : ℕ)
    → IsText a
    → IsText b
    → (is_zero (strncasecmp a b n) ≡ true) ↔ (map tolower (take n a) ≡ map tolower (take n b))
unfolding strncasecmp
strncasecmp_iff a b zero ha hb = (λ h. refl, λ h. refl)
strncasecmp_iff [] [] (suc n) ha hb = (λ h. refl, λ h. refl)
strncasecmp_iff [] (y ∷ b) (suc n) ha hb = (λ h. absurd (ground arith), λ h. cc)
strncasecmp_iff (x ∷ a) [] (suc n) ha hb = (λ h. absurd (ground arith), λ h. cc)
strncasecmp_iff (x ∷ a) (y ∷ b) (suc n) ha hb =
    decided_here (sub_ℕ (tolower x) (tolower y)) (strncasecmp a b n)
      (sub-IsZero (tolower x) (tolower y)) (strncasecmp_iff a b n ha.1 hb.1)

-- Two memories agree from index `i` on, for `n` cells.
abbrev pub Agree : Bytes → Bytes → ℕ → ℕ → Type 0
Agree a b zero i = Unit
Agree a b (suc n) i = (get_or a i 0 ≡ get_or b i 0) × Agree a b n (i + 1)

diff_from_iff : (a b : Bytes) (n i d : ℕ) → (diff_from a b n i d ≡ 0) ↔ ((d ≡ 0) × Agree a b n i)
unfolding diff_from
diff_from_iff a b zero i d = (λ h. (h, tt), λ h. h.0)
diff_from_iff a b (suc n) i d =
    let x = get_or a i 0 in
    let y = get_or b i 0 in
    let ih = diff_from_iff a b n (i + 1) (bit_or d (bit_xor x y)) in
    (
      λ h.
          let (z, rest) = ih.0 h in
          let (dz, xz) =
            or_eq_zero (d + bit_xor x y) d (bit_xor x y) (omega arith) (omega arith) z in
          (dz, (eq_of_xor (x + y) x y (omega arith) (omega arith) xz, rest)),
      λ h. ih.1 (rw (h.0, let e : x ≡ y = h.1.0 in e) (rw (xor_self y) refl), h.1.1),
    )

-- The comparison without early exit decides whether the first `n` bytes are the same.
pub const_eq_iff : (a b : Bytes) (n : ℕ) → (const_eq a b n ≡ true) ↔ Agree a b n 0
unfolding const_eq
const_eq_iff a b n = (
  λ h. ((diff_from_iff a b n 0 0).0 ((==_iff _ 0).0 h)).1,
  λ h. (==_iff _ 0).1 ((diff_from_iff a b n 0 0).1 (refl, h)),
)
