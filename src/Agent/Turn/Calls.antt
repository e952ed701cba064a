-- ===== src/Agent/Turn/Calls.antt =====
-- A turn calls the provider at most `max_tool_iterations` times.
use mathlib.Core.Path.{subst}
use tiniclaw.Base.{
  ℕ, zero, suc, ◌+◌, ◌≤◌, ◌≡◌, ◌∙◌, refl, sym, ap, Bool, true, false, ◌&&◌, Option, none, some,
  List, [], ◌∷◌, ◌++◌, append_assoc, append-nil, map, Bytes, All, arith,
}
use tiniclaw.Agent.{
  role_assistant, role_tool, OwnedMessage, Tool, ToolCall, ChatRequest, ChatResponse, Provider,
  Agent,
}
use tiniclaw.Agent.History.{pushed, trimmed, trim_history, or_empty}
use tiniclaw.Agent.History.Trimmed.{message, with_history, Became, pushed-Became, then-Became}
use tiniclaw.Agent.Dispatch.Counted.{Quiet, dispatch_tools-counted}
use tiniclaw.Agent.Dispatch.{ToolCallResult, dispatch_tools}
use tiniclaw.Agent.Turn.Begin.{begin_turn-Begun}
use tiniclaw.Agent.Turn.{
  Outside, Finish, answered, failed, exhausted, begin_turn, request, push_content, result_text,
  push_results, after_tools, calls_on, loop_on, turn_loop, finish, save_to, auto_saved, agent_turn,
}

abbrev pub content_messages : Option Bytes → List OwnedMessage
content_messages none = []
content_messages (some text) = message role_assistant text ∷ []

abbrev pub tool_message : ToolCallResult → OwnedMessage
tool_message r = message role_tool (result_text r)

-- Storing in the memory does not count.
abbrev pub QuietMemory : {W : Type 0} → (W → ℕ) → Option (Bytes → Bytes → W → W) → Type 0
QuietMemory {W} c none = Unit
QuietMemory {W} c (some store) = (key content : Bytes) (w : W) → c (store key content w) ≡ c w

save_to-quiet :
    {W : Type 0} (c : W → ℕ) (save : Bool) (memory : Option (Bytes → Bytes → W → W))
    (input : Option Bytes) (text : Bytes) (w : W)
    → QuietMemory c memory
    → c (save_to save memory input text w) ≡ c w
unfolding save_to
save_to-quiet c true (some store) (some key) text w q = q key text w
save_to-quiet c true (some store) none text w q = refl
save_to-quiet c true none input text w q = refl
save_to-quiet c false memory input text w q = refl

module _ {W J : Type 0} where
  push_results-Became :
      (a : Agent W J) (rs : List ToolCallResult)
      → Became a (a.history ++ map tool_message rs) (push_results a rs)
  unfolding push_results
  push_results-Became a [] = (
    a.history_cap,
    ap (λ (h : List OwnedMessage). with_history a h a.history_cap) (sym (append-nil a.history)),
  )
  push_results-Became a (r ∷ rs) =
      let b = pushed a role_tool (some (result_text r)) in
      let one : Became a (a.history ++ tool_message r ∷ []) b =
        pushed-Became a role_tool (some (result_text r)) in
      let rest : Became b (b.history ++ map tool_message rs) (push_results b rs) =
        push_results-Became b rs in
      let whole : b.history ++ map tool_message rs
          ≡ a.history ++ tool_message r ∷ map tool_message rs =
        ap (λ (x : Agent W J). x.history ++ map tool_message rs) one.1
        ∙ append_assoc a.history (tool_message r ∷ []) (map tool_message rs) in
      subst (λ h. Became a h (push_results b rs)) whole
        (then-Became a b (push_results b rs) _ (b.history ++ map tool_message rs) one rest)

  push_content-Became :
      (a : Agent W J) (content : Option Bytes)
      → Became a (a.history ++ content_messages content) (push_content a content)
  unfolding push_content
  push_content-Became a none = (
    a.history_cap,
    ap (λ (h : List OwnedMessage). with_history a h a.history_cap) (sym (append-nil a.history)),
  )
  push_content-Became a (some text) = pushed-Became a role_assistant (some text)

  -- After the tools of one answer ran, the history has the answer's text and the results, trimmed.
  pub after_tools-Became :
      (a : Agent W J) (content : Option Bytes) (rs : List ToolCallResult)
      → Became a
          (trimmed a.max_history_messages
            (a.history ++ content_messages content ++ map tool_message rs))
          (after_tools a content rs)
  unfolding after_tools trim_history
  after_tools-Became a content rs =
      let b = push_content a content in
      let one : Became a (a.history ++ content_messages content) b =
        push_content-Became a content in
      let two : Became b (b.history ++ map tool_message rs) (push_results b rs) =
        push_results-Became b rs in
      let whole : b.history ++ map tool_message rs
          ≡ a.history ++ content_messages content ++ map tool_message rs =
        ap (λ (x : Agent W J). x.history ++ map tool_message rs) one.1 in
      let both : Became a (a.history ++ content_messages content ++ map tool_message rs)
          (push_results b rs) =
        subst (λ h. Became a h (push_results b rs)) whole
          (then-Became a b (push_results b rs) _ (b.history ++ map tool_message rs) one two) in
      (both.0, ap (λ (x : Agent W J). trim_history x) both.1)

  -- A count of the provider's calls: a call adds one at most, and the tools add none.
  pub record Counts (c : W → ℕ) (provider : Provider W) (tools : List (Tool W J)) : Type 0 where
    pub chats : (r : ChatRequest) (w : W) → c (provider.chat r w).2 ≤ suc (c w)
    pub executes : All (Quiet c) tools

  finish-quiet :
      (c : W → ℕ) (input : Option Bytes) (f : Finish) (a : Agent W J) (w : W)
      → QuietMemory c a.memory
      → c (finish input (f, a, w)).2 ≡ c w
  unfolding finish auto_saved
  finish-quiet c input (answered text) a w q = save_to-quiet c a.auto_save a.memory input text w q
  finish-quiet c input (failed err) a w q = refl
  finish-quiet c input exhausted a w q = refl

  module _ (o : Outside J) (c : W → ℕ) where
    -- What the rest of the loop calls, after an answer.
    loop_on-calls :
        (n : ℕ) (again : Agent W J → W → Finish × Agent W J × W) (a : Agent W J) (w : W)
        (resp : ChatResponse) (ok : Bool)
        → Counts c a.provider a.tools
        → ((b : Agent W J) (w : W) → Counts c b.provider b.tools → c (again b w).2 ≤ c w + n)
        → c (loop_on o again a w resp ok).2 ≤ c w + n
    unfolding loop_on calls_on
    loop_on-calls n again a w resp false counts more = omega arith
    loop_on-calls n again a w resp true counts more = go resp.tool_calls
      where
        go : (calls : List ToolCall) → c (calls_on o again a w resp.content calls).2 ≤ c w + n
        go [] = omega arith
        go (call ∷ calls) =
            let rs = (dispatch_tools o.parse a.tools (call ∷ calls) w).0 in
            let w' = (dispatch_tools o.parse a.tools (call ∷ calls) w).1 in
            let b = after_tools a resp.content rs in
            let became = after_tools-Became a resp.content rs in
            let counts' : Counts c b.provider b.tools =
              subst (λ (x : Agent W J). Counts c x.provider x.tools) (sym became.1) counts in
            omega (
              arith,
              more b w' counts',
              dispatch_tools-counted c o.parse a.tools (call ∷ calls) w counts.executes,
            )

    turn_loop-calls :
        (n : ℕ) (a : Agent W J) (w : W)
        → Counts c a.provider a.tools
        → c (turn_loop o n a w).2 ≤ c w + n
    unfolding turn_loop
    turn_loop-calls zero a w counts = omega arith
    turn_loop-calls (suc n) a w counts =
        let r = a.provider.chat (request a) w in
        omega (
          arith,
          counts.chats (request a) w,
          loop_on-calls n (turn_loop o n) a r.2 r.1 (r.0 && r.1.ok) counts
              (λ b w. turn_loop-calls n b w),
        )

  module _ (o : Outside J) where
    loop_on-Became :
        (again : Agent W J → W → Finish × Agent W J × W) (a : Agent W J) (w : W)
        (resp : ChatResponse) (ok : Bool)
        → ((b : Agent W J) (w : W) → (h : List OwnedMessage) × Became b h (again b w).1)
        → (h : List OwnedMessage) × Became a h (loop_on o again a w resp ok).1
    unfolding loop_on calls_on
    loop_on-Became again a w resp false more = (a.history, (a.history_cap, refl))
    loop_on-Became again a w resp true more = go resp.tool_calls
      where
        go :
            (calls : List ToolCall)
            → (h : List OwnedMessage) × Became a h (calls_on o again a w resp.content calls).1
        go [] =
            let p = pushed-Became a role_assistant (some (or_empty resp.content)) in
            (a.history ++ message role_assistant (or_empty resp.content) ∷ [], p)
        go (call ∷ calls) =
            let r = dispatch_tools o.parse a.tools (call ∷ calls) w in
            let b = after_tools a resp.content r.0 in
            let (h, next) = more b r.1 in
            (h, then-Became a b (again b r.1).1 _ h (after_tools-Became a resp.content r.0) next)

    -- The loop changes nothing of the agent but its history.
    pub turn_loop-Became :
        (n : ℕ) (a : Agent W J) (w : W) → (h : List OwnedMessage) × Became a h (turn_loop o n a w).1
    unfolding turn_loop
    turn_loop-Became zero a w = (a.history, (a.history_cap, refl))
    turn_loop-Became (suc n) a w =
        let r = a.provider.chat (request a) w in
        loop_on-Became (turn_loop o n) a r.2 r.1 (r.0 && r.1.ok) (λ b w. turn_loop-Became n b w)

    -- A count that only the provider raises, by one at most at each call, rises in a turn by
    -- `max_tool_iterations` at most: the turn ends after at most so many calls of the provider.
    pub agent_turn-calls :
        (c : W → ℕ) (a : Agent W J) (input : Option Bytes) (w : W)
        → Counts c a.provider a.tools
        → QuietMemory c a.memory
        → c (agent_turn o a input w).2 ≤ c w + a.max_tool_iterations
    unfolding agent_turn
    agent_turn-calls c a input w counts quiet =
        let n = a.max_tool_iterations in
        let b = begin_turn o a input in
        let begun = begin_turn-Begun o a input in
        let counts' : Counts c b.provider b.tools =
          subst (λ (x : Agent W J). Counts c x.provider x.tools) (sym begun.1) counts in
        let (h, end) = turn_loop-Became n b w in
        let memory : (turn_loop o n b w).1.memory ≡ a.memory =
          ap (λ (x : Agent W J). x.memory) end.1 ∙ ap (λ (x : Agent W J). x.memory) begun.1 in
        let r = turn_loop o n b w in
        omega (
          arith,
          turn_loop-calls o c n b w counts',
          finish-quiet c input r.0 r.1 r.2 (subst (QuietMemory c) (sym memory) quiet),
        )
