-- ===== src/Agent/Turn/Begin.antt =====
-- What a turn adds to the history before it calls the provider, and what trimming does to the system
-- prompt.
use mathlib.Core.Path.{subst}
use tiniclaw.Base.{
  ℕ, ◌-◌, ◌≤◌, ◌<◌, ◌≡◌, ◌≢◌, ◌∙◌, refl, sym, ap, Bool, true, false, Option, List, [], ◌∷◌, ◌++◌,
  append-nil, Bytes, All, All-append, All-drop, length, drop,
}
use tiniclaw.Agent.{role_system, role_user, OwnedMessage, Agent}
use tiniclaw.Agent.History.{or_empty, trimmed, trim_history}
use tiniclaw.Agent.History.Trimmed.{message, with_history, trimmed_long, pushed-Became}
use tiniclaw.Agent.Prompt.{build_system_prompt}
use tiniclaw.Agent.Turn.{Outside, inject_prompt, begin_turn}

-- The agent `b` is `a` with the history `h`, and has its prompt.
abbrev pub Begun : {W J : Type 0} → Agent W J → List OwnedMessage → Agent W J → Type 0
Begun a h b = (n : ℕ) × (b ≡ record a { history = h; history_cap = n; has_system_prompt = true })

user_is_not_system : role_user ≢ role_system
user_is_not_system e = cc

module _ {W J : Type 0} (o : Outside J) where
  abbrev pub prompt_messages : Agent W J → Bool → List OwnedMessage
  prompt_messages a true = []
  prompt_messages a false =
      message role_system (
        or_empty
          (build_system_prompt o.room o.read_file o.now a.workspace_dir a.tools a.model_name))
      ∷ []

  inject_prompt-Begun :
      (a : Agent W J) (b : Bool)
      → a.has_system_prompt ≡ b
      → Begun a (a.history ++ prompt_messages a b) (inject_prompt o a b)
  unfolding inject_prompt
  inject_prompt-Begun a true e = (
    a.history_cap,
    ap (λ (p : Bool). record a { has_system_prompt = p }) e
        ∙ ap (λ (h : List OwnedMessage). record a { history = h; has_system_prompt = true })
            (sym (append-nil a.history)),
  )
  inject_prompt-Begun a false e =
      let p =
        pushed-Became a role_system
          (build_system_prompt o.room o.read_file o.now a.workspace_dir a.tools a.model_name) in
      (p.0, ap (λ (x : Agent W J). record x { has_system_prompt = true }) p.1)

  -- A turn begins with the system prompt, if the agent has not had it, and the user's message.
  pub begin_turn-Begun :
      (a : Agent W J) (input : Option Bytes)
      → Begun a
          (a.history
            ++ prompt_messages a a.has_system_prompt
            ++ message role_user (or_empty input) ∷ [])
          (begin_turn o a input)
  unfolding begin_turn
  begin_turn-Begun a input =
      let p = inject_prompt-Begun a a.has_system_prompt refl in
      let q = pushed-Became (inject_prompt o a a.has_system_prompt) role_user input in
      (
        q.0,
        q.1
            ∙ ap
                (λ (x : Agent W J).
                  with_history x (x.history ++ message role_user (or_empty input) ∷ []) q.0)
                p.1,
      )

  -- Trimming a conversation that is too long drops its system prompt, and the next turn does not
  -- put it back: no message of the next request is a system message, if the first one was the only
  -- one.
  pub trimmed_prompt_lost :
      (a : Agent W J) (prompt : OwnedMessage) (rest : List OwnedMessage) (input : Option Bytes)
      → a.has_system_prompt ≡ true
      → a.history ≡ prompt ∷ rest
      → All (λ m. m.role ≢ role_system) rest
      → 0 < a.max_history_messages
      → a.max_history_messages ≤ length rest
      → All (λ m. m.role ≢ role_system) (begin_turn o (trim_history a) input).history
  unfolding trim_history
  trimmed_prompt_lost a prompt rest input had h others pos long =
      let begun = begin_turn-Begun (trim_history a) input in
      let cut : trimmed a.max_history_messages a.history
          ≡ drop (length rest - a.max_history_messages) rest =
        ap (trimmed a.max_history_messages) h
        ∙ trimmed_long a.max_history_messages prompt rest pos long in
      let shape : (begin_turn o (trim_history a) input).history
          ≡ drop (length rest - a.max_history_messages) rest
            ++ message role_user (or_empty input) ∷ [] =
        ap (λ (x : Agent W J). x.history) begun.1
        ∙ ap
            (λ (b : Bool).
              trimmed a.max_history_messages a.history
              ++ prompt_messages (trim_history a) b
              ++ message role_user (or_empty input) ∷ [])
            had
        ∙ ap (λ (l : List OwnedMessage). l ++ [] ++ message role_user (or_empty input) ∷ []) cut
        ∙ ap (λ (l : List OwnedMessage). l ++ message role_user (or_empty input) ∷ [])
            (append-nil (drop (length rest - a.max_history_messages) rest)) in
      subst (All (λ (m : OwnedMessage). m.role ≢ role_system)) (sym shape) (
        All-append (λ (m : OwnedMessage). m.role ≢ role_system)
          (drop (length rest - a.max_history_messages) rest)
          (message role_user (or_empty input) ∷ [])
          (All-drop (λ (m : OwnedMessage). m.role ≢ role_system)
            (length rest - a.max_history_messages) rest others)
          (user_is_not_system, tt))
