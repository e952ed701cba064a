-- ===== src/Security/Rate/Entries.antt =====
-- The list of entries as a map from keys to timestamps.
use tiniclaw.Base.{
  ℕ, zero, suc, ◌≡◌, ◌↔◌, ◌∙◌, refl, sym, ap, Bool, true, false, List, [], ◌∷◌, Bytes, take, clip,
  str_eq_iff, if◌then◌else◌, Bool-cases, inl, inr, clash,
}
use tiniclaw.Base.Int.{ℤ}
use tiniclaw.Security.Rate.{RateEntry, same_key, has_key, stamps, restamp, with_key}

pub same_key_iff : (a b : Bytes) → (same_key a b ≡ true) ↔ (take 255 a ≡ take 255 b)
unfolding same_key
same_key_iff a b = str_eq_iff (take 255 a) (take 255 b)

take_twice {ℓ} : {A : Type ℓ} (n : ℕ) (xs : List A) → take n (take n xs) ≡ take n xs
take_twice zero xs = refl
take_twice (suc n) [] = refl
take_twice (suc n) (x ∷ xs) = ap (λ (l : List _). x ∷ l) (take_twice n xs)

-- Keys that agree cannot be told apart by comparing with a third.
pub same_key_trans : (a b c : Bytes) → same_key a b ≡ true → same_key a c ≡ same_key b c
unfolding same_key
same_key_trans a b c h = rw ((same_key_iff a b).0 h)

pub same_key_sym : (a b : Bytes) → same_key a b ≡ same_key b a
same_key_sym a b = elim (Bool-cases (same_key a b)) [
  | inl h ↦ h ∙ sym ((same_key_iff b a).1 (sym ((same_key_iff a b).0 h)))
  | inr n ↦ elim (Bool-cases (same_key b a)) [
    | inl h ↦ absurd (clash (sym n ∙ (same_key_iff a b).1 (sym ((same_key_iff b a).0 h))))
    | inr m ↦ n ∙ sym m
  ]
]

fresh_key : (k : Bytes) → same_key (clip 256 k) k ≡ true
fresh_key k = (same_key_iff (clip 256 k) k).1 (take_twice 255 k)

same_key-clip : (k j : Bytes) → same_key (clip 256 k) j ≡ same_key k j
same_key-clip k j = same_key_trans (clip 256 k) k j (fresh_key k)

stamps_absent :
    (k j : Bytes) (es : List RateEntry)
    → has_key k es ≡ false
    → same_key k j ≡ true
    → stamps j es ≡ []
unfolding has_key stamps
stamps_absent k j [] n h = refl
stamps_absent k j (e ∷ es) n h = elim (Bool-cases (same_key e.key k)) [
  | inl s ↦ absurd (clash (sym (rw s at n)))
  | inr s ↦
      let other : same_key e.key j ≡ false =
        same_key_sym e.key j ∙ sym (same_key_trans k j e.key h) ∙ same_key_sym k e.key ∙ s in
      rw other (stamps_absent k j es (rw s at n) h)
]

-- Making room for a key changes no timestamps, and the key is then there.
pub stamps-with_key : (k j : Bytes) (es : List RateEntry) → stamps j (with_key k es) ≡ stamps j es
unfolding with_key stamps
stamps-with_key k j es = elim (Bool-cases (has_key k es)) [
  | inl h ↦ rw h
  | inr n ↦ elim (Bool-cases (same_key k j)) [
    | inl s ↦ rw (n, stamps) (rw (same_key-clip k j, s) (sym (stamps_absent k j es n s)))
    | inr d ↦ rw (n, stamps) (rw (same_key-clip k j, d) refl)
  ]
]

pub has_key-with_key : (k : Bytes) (es : List RateEntry) → has_key k (with_key k es) ≡ true
unfolding with_key has_key
has_key-with_key k es = elim (Bool-cases (has_key k es)) [
  | inl h ↦ rw h h
  | inr n ↦ rw (n, has_key) (rw (fresh_key k) refl)
]

-- Writing the timestamps of a key that is there changes those of the keys that agree with it, and
-- no others.
pub stamps-restamp :
    (k j : Bytes) (ts : List ℤ) (es : List RateEntry)
    → has_key k es ≡ true
    → stamps j (restamp k ts es) ≡ (if same_key k j then ts else stamps j es)
unfolding has_key stamps restamp
stamps-restamp k j ts [] h = absurd (clash h)
stamps-restamp k j ts (e ∷ es) h = elim (Bool-cases (same_key e.key k)) [
  | inl s ↦ rw (s, stamps) (rw (same_key_trans e.key k j s) (choose (same_key k j)))
  | inr d ↦
      let ih = stamps-restamp k j ts es (rw d at h) in
      rw (d, stamps)
        (elim (Bool-cases (same_key e.key j)) [
          | inl m ↦
              let other : same_key k j ≡ false =
                same_key_sym k j ∙ sym (same_key_trans e.key j k m) ∙ d in
              rw (m, other) refl
          | inr m ↦ rw m ih
        ])
]
  where
    choose :
        (b : Bool)
        → (if b then ts else stamps j es)
          ≡ (if b then ts else (if b then e.timestamps else stamps j es))
    choose true = refl
    choose false = refl
