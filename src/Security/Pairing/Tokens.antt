-- ===== src/Security/Pairing/Tokens.antt =====
-- Which codes pair, which tokens are accepted, and what a run of attempts leaves.
use tiniclaw.Base.{
  ℕ, zero, suc, ◌+◌, ◌*◌, ◌≤◌, ◌≡◌, ◌↔◌, ◌⊎◌, inl, inr, ◌∙◌, refl, sym, ap, true, false, some, List,
  [], ◌∷◌, Bytes, length, All, arith, ◌==◌, ==_iff, if◌then◌else◌, Bool-cases, clash, clash,
}
use tiniclaw.Util.Hex.RoundTrip.{length-hex_encode}
use tiniclaw.Util.Strings.{const_eq}
use tiniclaw.Util.Strings.Compare.{Agree, const_eq_iff}
use tiniclaw.Security.Pairing.{
  PairingGuard, pairing_code_len, pairing_init, pairing_try, validate_token,
}

Agree-tail : (x y : ℕ) (a b : Bytes) (n i : ℕ) → Agree (x ∷ a) (y ∷ b) n (suc i) → Agree a b n i
Agree-tail x y a b zero i h = tt
Agree-tail x y a b (suc n) i (e, h) =
    (e, Agree-tail x y a b n (i + 1) (rw (let q : suc i + 1 ≡ suc (i + 1) = omega arith in q) at h))

Agree-eq : (a b : Bytes) → length b ≡ length a → Agree a b (length a) 0 → a ≡ b
Agree-eq [] [] l h = refl
Agree-eq [] (y ∷ b) l h = absurd (omega arith)
Agree-eq (x ∷ a) [] l h = absurd (omega arith)
Agree-eq (x ∷ a) (y ∷ b) l (e, h) =
    let tails : a ≡ b = Agree-eq a b (omega arith) (Agree-tail x y a b (length a) 0 h) in cc

Agree-refl : (a : Bytes) (n i : ℕ) → Agree a a n i
Agree-refl a zero i = tt
Agree-refl a (suc n) i = (refl, Agree-refl a n (i + 1))

-- Texts of one length: the comparison without early exit is equality.
const_eq-eq :
    (a b : Bytes) (n : ℕ) → length a ≡ n → length b ≡ n → (const_eq a b n ≡ true) ↔ (a ≡ b)
const_eq-eq a b n ha hb = (
  λ h. Agree-eq a b (omega arith) (rw (let e : length a ≡ n = ha in e) ((const_eq_iff a b n).0 h)),
  λ e. (const_eq_iff a b n).1 (rw (← e) (Agree-refl a n 0)),
)

-- A six-digit code pairs exactly when the attempt is the code; success sets `paired`, failure
-- changes nothing, and neither touches the code or the token.
pub pairing_try_lem :
    (g : PairingGuard) (code : Bytes)
    → length g.pairing_code ≡ pairing_code_len
    → (((pairing_try g (some code)).0 ≡ true) ↔ (code ≡ g.pairing_code))
      × (pairing_try g (some code) ≡ (
          if (pairing_try g (some code)).0 then (true, record g { paired = true }) else (false, g)))
unfolding pairing_try
pairing_try_lem g code six = elim (Bool-cases (length code == 6)) [
  | inr short ↦
      rw short
        ((λ h. cc, λ e. absurd (clash (sym short ∙ (==_iff _ 6).1 (ap length e ∙ six)))), refl)
  | inl long ↦
      let same = const_eq-eq g.pairing_code code 6 six ((==_iff _ 6).0 long) in
      rw long (elim (Bool-cases (const_eq g.pairing_code code 6)) [
        | inl hit ↦ rw hit ((λ h. sym (same.0 hit), λ e. refl), refl)
        | inr miss ↦ rw miss ((λ h. cc, λ e. absurd (clash (sym miss ∙ same.1 (sym e)))), refl)
      ])
]

-- A token is accepted exactly when the guard is paired and the token is the bearer token.
pub validate_token_iff :
    (g : PairingGuard) (token : Bytes)
    → (validate_token g (some token) ≡ true) ↔ ((g.paired ≡ true) × (token ≡ g.bearer_token))
unfolding validate_token
validate_token_iff g token = elim (Bool-cases g.paired) [
  | inr unpaired ↦ rw (unpaired) (λ h. cc, λ h. h.0)
  | inl paired ↦ rw paired (elim (Bool-cases (length token == length g.bearer_token)) [
    | inr other ↦
        rw other (λ h. cc, λ h. absurd (clash (sym other ∙ (==_iff _ _).1 (ap length h.1))))
    | inl long ↦
        let same =
          const_eq-eq g.bearer_token token (length g.bearer_token) refl ((==_iff _ _).0 long) in
        rw long (λ h. (refl, sym (same.0 h)), λ h. same.1 (sym h.1))
  ])
]

-- A guard fresh from `pairing_init` has a code of six decimal digits and a token of twice as many
-- characters as random bytes, and accepts no token.
pub pairing_init_lem :
    (code : ℕ) (tok token : Bytes)
    → let g = pairing_init code tok in
      (length g.pairing_code ≡ pairing_code_len)
      × All (λ c. (b'0' ≤ c) × (c ≤ b'9')) g.pairing_code
      × (length g.bearer_token ≡ 2 * length tok)
      × (validate_token g (some token) ≡ false)
unfolding pairing_init validate_token
pairing_init_lem code tok token = (refl, omega arith, length-hex_encode tok, refl)

-- The guard after a run of attempts.
pub attempts : PairingGuard → List Bytes → PairingGuard
attempts g [] = g
attempts g (code ∷ codes) = attempts (pairing_try g (some code)).1 codes

-- One of the codes is the right one.
abbrev pub Tried : Bytes → List Bytes → Type 0
Tried code [] = ⊥
Tried code (c ∷ cs) = (c ≡ code) ⊎ Tried code cs

after_hit :
    (g : PairingGuard) (code : Bytes)
    → (pairing_try g (some code)).0 ≡ true
    → (pairing_try g (some code)).1 ≡ record g { paired = true }
unfolding pairing_try
after_hit g code h = ground arith

after_miss :
    (g : PairingGuard) (code : Bytes)
    → (pairing_try g (some code)).0 ≡ false
    → (pairing_try g (some code)).1 ≡ g
unfolding pairing_try
after_miss g code h = ground arith

attempts_frame :
    (g : PairingGuard) (codes : List Bytes)
    → length g.pairing_code ≡ pairing_code_len
    → ((attempts g codes).pairing_code ≡ g.pairing_code)
      × ((attempts g codes).bearer_token ≡ g.bearer_token)
      × (((attempts g codes).paired ≡ true) ↔ ((g.paired ≡ true) ⊎ Tried g.pairing_code codes))
unfolding attempts
attempts_frame g [] six =
    (refl, refl, (λ h. inl h, λ h. elim h [ inl p ↦ p | inr none_left ↦ absurd none_left ]))
attempts_frame g (code ∷ codes) six =
    let (right, step) = pairing_try_lem g code six in
    elim (Bool-cases (pairing_try g (some code)).0) [
      | inl hit ↦
          let e : (pairing_try g (some code)).1 ≡ record g { paired = true } =
            after_hit g code hit in
          let (c, t, p) = attempts_frame (record g { paired = true }) codes six in
          rw (e, attempts) (c, t, (λ h. inr (inl (right.0 hit)), λ h. p.1 (inl refl)))
      | inr miss ↦
          let e : (pairing_try g (some code)).1 ≡ g = after_miss g code miss in
          let (c, t, p) = attempts_frame g codes six in
          rw (e, attempts)
            (
              c,
              t,
              (
                λ h. elim (p.0 h) [ inl q ↦ inl q | inr q ↦ inr (inr q) ],
                λ h. elim h [
                  | inl q ↦ p.1 (inl q)
                  | inr (inl q) ↦ absurd (clash (sym miss ∙ right.1 q))
                  | inr (inr q) ↦ p.1 (inr q)
                ],
              ),
            )
    ]

-- After any run of attempts on an unpaired guard, a token is accepted exactly when one of the
-- attempts was the pairing code and the token is the guard's bearer token. The number of failed
-- attempts does not matter, before or after the right one.
pub attempts_validate :
    (g : PairingGuard) (codes : List Bytes) (token : Bytes)
    → length g.pairing_code ≡ pairing_code_len
    → g.paired ≡ false
    → (validate_token (attempts g codes) (some token) ≡ true)
      ↔ (Tried g.pairing_code codes × (token ≡ g.bearer_token))
attempts_validate g codes token six fresh =
    let (c, t, p) = attempts_frame g codes six in
    let v = validate_token_iff (attempts g codes) token in
    (
      λ h.
          let (paired, is_token) = v.0 h in
          (elim (p.0 paired) [ inl q ↦ absurd (clash (sym fresh ∙ q)) | inr q ↦ q ], is_token ∙ t),
      λ h. v.1 (p.1 (inr h.0), h.1 ∙ sym t),
    )

-- The code is not used up: a code that has paired once pairs again, on the paired guard.
pub pairing_try_again :
    (g : PairingGuard) (code : Bytes)
    → (pairing_try g (some code)).0 ≡ true
    → pairing_try (pairing_try g (some code)).1 (some code) ≡ pairing_try g (some code)
unfolding pairing_try
pairing_try_again g code h = ground arith
