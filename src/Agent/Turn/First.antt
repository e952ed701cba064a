-- ===== src/Agent/Turn/First.antt =====
-- How a turn ends whose first call of the provider decides it.
use mathlib.Core.Path.{subst}
use tiniclaw.Base.{
  ℕ, suc, ◌≡◌, ◌∙◌, sym, ap, Bool, true, false, Bool-cases, refl, ◌⊎◌, inl, inr, ◌&&◌, Option, none,
  some, List, [], ◌∷◌, ◌++◌, Bytes, codes,
}
use tiniclaw.Agent.{OwnedMessage, role_user, role_assistant, ChatResponse, Agent}
use tiniclaw.Agent.History.{or_empty, pushed}
use tiniclaw.Agent.History.Trimmed.{message, pushed-Became}
use tiniclaw.Agent.Dispatch.{or_text}
use tiniclaw.Agent.Turn.{
  Outside, answered, failed, begin_turn, request, calls_on, loop_on, turn_loop, finish, agent_turn,
  save_to, auto_saved,
}
use tiniclaw.Agent.Turn.Begin.{prompt_messages, begin_turn-Begun}

module _ {W J : Type 0} (o : Outside J) where
  one_round :
      (n m : ℕ) (b : Agent W J) (w w' : W) (resp : ChatResponse) (returned : Bool)
      → m ≡ suc n
      → b.provider.chat (request b) w ≡ (returned, resp, w')
      → turn_loop o m b w ≡ loop_on o (turn_loop o n) b w' resp (returned && resp.ok)
  unfolding turn_loop
  one_round n m b w w' resp returned e chat =
      ap (λ (k : ℕ). turn_loop o k b w) e
      ∙ ap (λ (r : Bool × ChatResponse × W). loop_on o (turn_loop o n) b r.2 r.1 (r.0 && r.1.ok))
          chat

  plain_loop :
      (n m : ℕ) (b : Agent W J) (w w' : W) (resp : ChatResponse) (returned : Bool)
      → m ≡ suc n
      → b.provider.chat (request b) w ≡ (returned, resp, w')
      → (returned && resp.ok) ≡ true
      → resp.tool_calls ≡ []
      → turn_loop o m b w ≡ (
        answered (or_empty resp.content),
        pushed b role_assistant (some (or_empty resp.content)),
        w',
      )
  unfolding loop_on calls_on
  plain_loop n m b w w' resp returned e chat ok plain =
      one_round n m b w w' resp returned e chat
      ∙ ap (loop_on o (turn_loop o n) b w' resp) ok
      ∙ ap (calls_on o (turn_loop o n) b w' resp.content) plain

  failed_loop :
      (n m : ℕ) (b : Agent W J) (w w' : W) (resp : ChatResponse) (returned : Bool)
      → m ≡ suc n
      → b.provider.chat (request b) w ≡ (returned, resp, w')
      → (returned && resp.ok) ≡ false
      → turn_loop o m b w ≡ (failed (or_text (codes "Provider error") resp.error_msg), b, w')
  unfolding loop_on
  failed_loop n m b w w' resp returned e chat bad =
      one_round n m b w w' resp returned e chat ∙ ap (loop_on o (turn_loop o n) b w' resp) bad

  -- What a turn stores in the memory: the input with the answer, when saving is on and both a memory
  -- and an input are there.
  abbrev pub Stored : Agent W J → Option Bytes → Bytes → W → W → Type 0
  Stored a input answer w w1 =
      ((a.auto_save ≡ true)
        × (store : Bytes → Bytes → W → W) × (key : Bytes) × (a.memory ≡ some store)
        × (input ≡ some key)
        × (w1 ≡ store key answer w))
      ⊎ (((a.auto_save ≡ false) ⊎ ((a.memory ≡ none) ⊎ (input ≡ none))) × (w1 ≡ w))

  save_to-Stored :
      (a : Agent W J) (save : Bool) (memory : Option (Bytes → Bytes → W → W)) (input : Option Bytes)
      (answer : Bytes) (w : W)
      → a.auto_save ≡ save
      → a.memory ≡ memory
      → Stored a input answer w (save_to save memory input answer w)
  unfolding save_to
  save_to-Stored a true (some store) (some key) answer w on has =
      inl (on, store, key, has, refl, refl)
  save_to-Stored a true (some store) none answer w on has = inr (inr (inr refl), refl)
  save_to-Stored a true none input answer w on has = inr (inr (inl has), refl)
  save_to-Stored a false memory input answer w off has = inr (inl off, refl)

  -- The history in which the first call of a turn finds the conversation.
  abbrev pub asked : Agent W J → Option Bytes → List OwnedMessage
  asked a input =
      a.history
      ++ prompt_messages o a a.has_system_prompt
      ++ message role_user (or_empty input) ∷ []

  -- How a turn ends that its first call decides, with its text, agent and world.
  abbrev pub Ended :
      Agent W J → Option Bytes → ChatResponse → Bool → W → Bytes × Agent W J × W → Type 0
  Ended a input resp ok w' (text, a', w1) =
      ((ok ≡ true)
        × (text ≡ or_empty resp.content)
        × (a'.history ≡ asked a input ++ message role_assistant (or_empty resp.content) ∷ [])
        × Stored a input text w' w1)
      ⊎ ((ok ≡ false)
          × (text ≡ or_text (codes "Provider error") resp.error_msg)
          × (a'.history ≡ asked a input)
          × (w1 ≡ w'))

  begun_history :
      (a : Agent W J) (input : Option Bytes) → (begin_turn o a input).history ≡ asked a input
  begun_history a input = ap (λ (x : Agent W J). x.history) (begin_turn-Begun o a input).1

  answered_ends :
      (a : Agent W J) (input : Option Bytes) (resp : ChatResponse) (ok : Bool) (w' : W)
      → ok ≡ true
      → Ended a input resp ok w' (
          finish input (
            answered (or_empty resp.content),
            pushed (begin_turn o a input) role_assistant (some (or_empty resp.content)),
            w',
          ))
  unfolding finish auto_saved
  answered_ends a input resp ok w' good =
      let b = begin_turn o a input in
      let reply = pushed b role_assistant (some (or_empty resp.content)) in
      let begun = begin_turn-Begun o a input in
      let added = pushed-Became b role_assistant (some (or_empty resp.content)) in
      inl (
        good,
        refl,
        ap (λ (x : Agent W J). x.history) added.1
            ∙ ap
                (λ (h : List OwnedMessage).
                  h ++ message role_assistant (or_empty resp.content) ∷ [])
                (begun_history a input),
        save_to-Stored a reply.auto_save reply.memory input (or_empty resp.content) w'
            (sym (
              ap (λ (x : Agent W J). x.auto_save) added.1
              ∙ ap (λ (x : Agent W J). x.auto_save) begun.1))
            (sym (
              ap (λ (x : Agent W J). x.memory) added.1 ∙ ap (λ (x : Agent W J). x.memory) begun.1)),
      )

  -- With at least one iteration allowed, a turn ends with its first call of the provider if that fails
  -- or is answered without tool calls. The call gets
  -- the history, the system prompt if the agent has not had it, and the user's message, which stay
  -- in the history in both cases. An answer is returned, stands behind them, and is stored in the
  -- memory with the input, when saving is on and both are there; a failure gives its message, or
  -- `Provider error`, and nothing is added or stored.
  pub first_call_ends :
      (n : ℕ) (a : Agent W J) (input : Option Bytes) (w w' : W) (resp : ChatResponse)
      (returned : Bool)
      → a.max_tool_iterations ≡ suc n
      → (begin_turn o a input).provider.chat (request (begin_turn o a input)) w
        ≡ (returned, resp, w')
      → ((returned && resp.ok) ≡ false) ⊎ (resp.tool_calls ≡ [])
      → ((request (begin_turn o a input)).messages ≡ asked a input)
        × Ended a input resp (returned && resp.ok) w' (agent_turn o a input w)
  unfolding agent_turn finish request
  first_call_ends n a input w w' resp returned iterations chat ends =
      let b = begin_turn o a input in
      let ok = returned && resp.ok in
      let P = Ended a input resp ok w' in
      let failing : ok ≡ false → P (agent_turn o a input w) = λ bad.
        subst P
          (sym (
            ap (finish input)
              (failed_loop n a.max_tool_iterations b w w' resp returned iterations chat bad)))
          (inr (bad, refl, begun_history a input, refl)) in
      (
        begun_history a input,
        elim ends [
          | inl bad ↦ failing bad
          | inr plain ↦ elim (Bool-cases ok) [
            | inr bad ↦ failing bad
            | inl good ↦
                subst P
                  (sym (
                    ap (finish input) (
                      plain_loop n a.max_tool_iterations b w w' resp returned iterations chat good
                        plain)))
                  (answered_ends a input resp ok w' good)
          ]
        ],
      )
