-- ===== src/Security/Policy/Commands.antt =====
-- Which word of a command line decides its risk.
use tiniclaw.Base.{
  ℕ, zero, suc, ◌≤◌, ◌==◌, if_true, if_false, ◌<◌, ◌≡◌, ◌≢◌, ◌↔◌, ◌⊎◌, ◌∙◌, inl, inr, refl, sym, ap,
  true, false, Option, none, some, List, [], ◌∷◌, ◌++◌, Bytes, All, length, take, clip, str_eq,
  str_eq_iff, arith, Bool-cases, clash,
}
use tiniclaw.Security.Policy.{
  SecurityPolicy, CommandRisk, low, medium, high, high_risk_cmds, medium_risk_cmds,
  behind_last_slash, base_of, first_word, listed, risk_in, risk_of, classify_command,
}

-- No byte of the text is `b`.
abbrev pub Lacks : ℕ → Bytes → Type 0
Lacks b = All (λ c. c ≢ b)

-- The text is one of the list.
abbrev pub In : Bytes → List Bytes → Type 0
In name [] = ⊥
In name (n ∷ ns) = (name ≡ n) ⊎ In name ns

no_slash : (s : Bytes) → Lacks b'/' s → behind_last_slash s ≡ none
unfolding behind_last_slash
no_slash [] h = refl
no_slash (c ∷ s) (ne, h) = rw (no_slash s h) (ground arith)

last_slash : (front s : Bytes) → Lacks b'/' s → behind_last_slash (front ++ b'/' ∷ s) ≡ some s
unfolding behind_last_slash
last_slash [] s h = rw (no_slash s h)
last_slash (c ∷ front) s h = rw (last_slash front s h)

-- What stands behind the first word: nothing, or a space and the arguments.
abbrev pub Behind : Bytes → Type 0
Behind [] = Unit
Behind (c ∷ args) = c ≡ 32

-- Cutting behind the first word does not change it.
first_word_cut :
    (n : ℕ) (w rest : Bytes)
    → Lacks 32 w
    → Behind rest
    → length w ≤ n
    → first_word (take n (w ++ rest)) ≡ w
unfolding first_word
first_word_cut zero [] rest h b short = refl
first_word_cut zero (c ∷ w) rest h b short = absurd (omega arith)
first_word_cut (suc n) [] [] h b short = refl
first_word_cut (suc n) [] (c ∷ args) h b short =
    let space : (c == 32) ≡ true = ground arith in if_true (c == 32) [] _ space
first_word_cut (suc n) (c ∷ w) rest (ne, h) b short =
    let other : (c == 32) ≡ false = ground arith in
    if_false (c == 32) [] _ other
    ∙ ap (λ (l : Bytes). c ∷ l) (first_word_cut n w rest h b (omega arith))

listed_iff : (name : Bytes) (ns : List Bytes) → (listed name ns ≡ true) ↔ In name ns
unfolding listed
listed_iff name [] = (λ h. cc, λ h. absurd h)
listed_iff name (n ∷ ns) = elim (Bool-cases (str_eq name n)) [
  | inl same ↦ rw same (λ h. inl ((str_eq_iff name n).0 same), λ h. refl)
  | inr other ↦ rw other (
    λ h. inr ((listed_iff name ns).0 h),
    λ h. elim h [
      | inl e ↦ absurd (clash (sym other ∙ (str_eq_iff name n).1 e))
      | inr i ↦ (listed_iff name ns).1 i
    ],
  )
]

-- What a verdict says about the name.
abbrev pub Verdict : List Bytes → List Bytes → Bytes → CommandRisk → Type 0
Verdict highs mediums name high = In name highs
Verdict highs mediums name medium = (¬ In name highs) × In name mediums
Verdict highs mediums name low = (¬ In name highs) × (¬ In name mediums)

not-In : (name : Bytes) (ns : List Bytes) → listed name ns ≡ false → ¬ In name ns
not-In name ns e i = clash (sym e ∙ (listed_iff name ns).1 i)

risk_in-Verdict :
    (highs mediums : List Bytes) (name : Bytes)
    → Verdict highs mediums name (risk_in highs mediums name)
unfolding risk_in
risk_in-Verdict highs mediums name = elim (Bool-cases (listed name highs)) [
  | inl h ↦ rw h ((listed_iff name highs).0 h)
  | inr nh ↦ elim (Bool-cases (listed name mediums)) [
    | inl m ↦ rw (nh, m) (not-In name highs nh, (listed_iff name mediums).0 m)
    | inr nm ↦ rw (nh, nm) (not-In name highs nh, not-In name mediums nm)
  ]
]

base_behind_slash : (front s : Bytes) → Lacks b'/' s → base_of (front ++ b'/' ∷ s) ≡ s
unfolding base_of
base_behind_slash front s h = rw (last_slash front s h, base_of)

base_flat : (s : Bytes) → Lacks b'/' s → base_of s ≡ s
unfolding base_of
base_flat s h = rw (no_slash s h, base_of)

-- The word that a command line is classified by: the one that begins behind its last slash.
classify_base :
    (p : Option SecurityPolicy) (front s : Bytes)
    → Lacks b'/' s
    → classify_command p (some (front ++ b'/' ∷ s)) ≡ risk_of (first_word (clip 64 s))
unfolding classify_command
classify_base p front s h =
    ap (λ (b : Bytes). risk_of (first_word (clip 64 b))) (base_behind_slash front s h)

classify_flat :
    (p : Option SecurityPolicy) (s : Bytes)
    → Lacks b'/' s
    → classify_command p (some s) ≡ risk_of (first_word (clip 64 s))
unfolding classify_command
classify_flat p s h = ap (λ (b : Bytes). risk_of (first_word (clip 64 b))) (base_flat s h)

-- A command line whose only slashes are in the path of the program, with arguments behind a space or
-- without any, and with a program's name of fewer than 64 bytes, is classified by that name: high if
-- it is in the table of high-risk commands, else medium if it is in that of medium ones, else low.
pub classify_command_lem :
    (p : Option SecurityPolicy) (dir name rest : Bytes)
    → Lacks b'/' (name ++ rest)
    → Lacks 32 name
    → Behind rest
    → length name < 64
    → (classify_command p (some (dir ++ b'/' ∷ (name ++ rest))) ≡ risk_of name)
      × (classify_command p (some (name ++ rest)) ≡ risk_of name)
      × Verdict high_risk_cmds medium_risk_cmds name (risk_of name)
unfolding risk_of
classify_command_lem p dir name rest flat word behind short =
    let word_is : first_word (take 63 (name ++ rest)) ≡ name =
      first_word_cut 63 name rest word behind (omega arith) in
    (
      classify_base p dir (name ++ rest) flat ∙ ap risk_of word_is,
      classify_flat p (name ++ rest) flat ∙ ap risk_of word_is,
      risk_in-Verdict high_risk_cmds medium_risk_cmds name,
    )

-- Behind a slash among the arguments the program's name does not count: whatever the program is,
-- the line is classified by what follows the last slash.
pub classify_ignores_program :
    (p : Option SecurityPolicy) (program other args name : Bytes)
    → Lacks b'/' name
    → (classify_command p (some (program ++ (32 ∷ args) ++ b'/' ∷ name))
        ≡ classify_command p (some (other ++ (32 ∷ args) ++ b'/' ∷ name)))
      × (classify_command p (some (program ++ (32 ∷ args) ++ b'/' ∷ name))
          ≡ risk_of (first_word (clip 64 name)))
classify_ignores_program p program other args name h =
    let one = classify_base p (program ++ 32 ∷ args) name h in
    let two = classify_base p (other ++ 32 ∷ args) name h in (one ∙ sym two, one)
