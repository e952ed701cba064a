-- ===== src/Agent/History/Trimmed.antt =====
-- What the operations on the history do to it, and that they change nothing else.
use tiniclaw.Base.{
  ℕ, suc, ◌-◌, ◌≤◌, ◌<◌, ◌≡◌, ◌∙◌, refl, ap, ◌*◌, false, ◌||◌, Option, List, [], ◌∷◌, ◌++◌, Bytes,
  length, length-drop, drop, arith, leb, ◌==◌, if◌then◌else◌, Bool-cases, inl, inr,
}
use tiniclaw.Agent.{Role, OwnedMessage, Agent}
use tiniclaw.Agent.History.{or_empty, push_at, history_push, pushed, trimmed}

abbrev pub message : Role → Bytes → OwnedMessage
message role text = record { role = role; content = text }

-- The agent with another history.
abbrev pub with_history : {W J : Type 0} → Agent W J → List OwnedMessage → ℕ → Agent W J
with_history a h n = record a { history = h; history_cap = n }

-- The agent `b` is `a` with the history `h`.
abbrev pub Became : {W J : Type 0} → Agent W J → List OwnedMessage → Agent W J → Type 0
Became a h b = (n : ℕ) × (b ≡ with_history a h n)

module _ {W J : Type 0} where
  pub pushed-Became :
      (a : Agent W J) (role : Role) (content : Option Bytes)
      → Became a (a.history ++ message role (or_empty content) ∷ []) (pushed a role content)
  unfolding pushed history_push push_at
  pushed-Became a role content = elim (Bool-cases (leb a.history_cap (length a.history))) [
    | inl full ↦ (if a.history_cap == 0 then 32 else a.history_cap * 2, rw (full, pushed) refl)
    | inr room ↦ (a.history_cap, rw (room, pushed) refl)
  ]

  -- One change of the history and then another.
  pub then-Became :
      (a b c : Agent W J) (h k : List OwnedMessage) → Became a h b → Became b k c → Became a k c
  then-Became a b c h k (n, e) (m, f) = (m, f ∙ ap (λ (x : Agent W J). with_history x k m) e)

  pub history-Became : (a b : Agent W J) (h : List OwnedMessage) → Became a h b → b.history ≡ h
  history-Became a b h (n, e) = ap (λ (x : Agent W J). x.history) e

-- Trimming keeps at most `max` messages, the last ones.
pub length-trimmed : (max : ℕ) (h : List OwnedMessage) → 0 < max → length (trimmed max h) ≤ max
unfolding trimmed
length-trimmed max h pos = elim (Bool-cases (max == 0 || leb (length h) max)) [
  | inl short ↦ rw short (ground arith)
  | inr long ↦
      rw long
        (let long' : max < length h = ground arith in omega (arith, length-drop (length h - max) h))
]

-- Trimming only drops messages at the front.
pub trimmed_suffix :
    (max : ℕ) (h : List OwnedMessage)
    → (n : ℕ) × (trimmed max h ≡ drop n h) × (length h ≤ max → n ≡ 0)
unfolding trimmed
trimmed_suffix max h = elim (Bool-cases (max == 0 || leb (length h) max)) [
  | inl short ↦ (0, rw short refl, λ le. refl)
  | inr long ↦ (length h - max, rw long refl, λ le. omega arith)
]

-- A history that is too long loses its first message.
pub trimmed_long :
    (max : ℕ) (m : OwnedMessage) (rest : List OwnedMessage)
    → 0 < max
    → max ≤ length rest
    → trimmed max (m ∷ rest) ≡ drop (length rest - max) rest
unfolding trimmed
trimmed_long max m rest pos long =
    let over : (max == 0 || leb (suc (length rest)) max) ≡ false = ground arith in
    rw over (
      ap (λ (k : ℕ). drop k (m ∷ rest))
        (let e : suc (length rest) - max ≡ suc (length rest - max) = omega arith in e))
