-- ===== src/Agent/Turn/Keeps.antt =====
-- A property of the world outside that the provider, the tools and the memory keep is kept by a turn.
use mathlib.Core.Path.{subst}
use tiniclaw.Base.{
  ℕ, zero, suc, ◌≡◌, ◌∙◌, sym, ap, Bool, true, false, ◌&&◌, Option, none, some, List, [], ◌∷◌,
  Bytes, All, str_eq, Bool-cases, inl, inr,
}
use tiniclaw.Agent.{Tool, ToolCall, ChatRequest, ChatResponse, Provider, Agent}
use tiniclaw.Agent.Dispatch.{find_tool, run_call, dispatch_tools}
use tiniclaw.Agent.Turn.{
  Outside, Finish, answered, failed, exhausted, begin_turn, request, after_tools, calls_on, loop_on,
  turn_loop, finish, save_to, auto_saved, agent_turn,
}
use tiniclaw.Agent.Turn.Begin.{begin_turn-Begun}
use tiniclaw.Agent.Turn.Calls.{after_tools-Became, turn_loop-Became}

module _ {W : Type 0} (P : W → Type 0) where
  abbrev pub KeepsMemory : Option (Bytes → Bytes → W → W) → Type 0
  KeepsMemory none = Unit
  KeepsMemory (some store) = (key content : Bytes) (w : W) → P w → P (store key content w)

  save_to-keeps :
      (save : Bool) (memory : Option (Bytes → Bytes → W → W)) (input : Option Bytes) (text : Bytes)
      (w : W)
      → KeepsMemory memory
      → P w
      → P (save_to save memory input text w)
  unfolding save_to
  save_to-keeps true (some store) (some key) text w k p = k key text w p
  save_to-keeps true (some store) none text w k p = p
  save_to-keeps true none input text w k p = p
  save_to-keeps false memory input text w k p = p

module _ {W J : Type 0} (P : W → Type 0) where
  abbrev pub KeepsTool : Tool W J → Type 0
  KeepsTool t = (args : Option J) (w : W) → P w → P (t.execute args w).1

  pub record Keeps (provider : Provider W) (tools : List (Tool W J)) : Type 0 where
    pub chats : (r : ChatRequest) (w : W) → P w → P (provider.chat r w).2
    pub executes : All KeepsTool tools

  finish-keeps :
      (input : Option Bytes) (f : Finish) (a : Agent W J) (w : W)
      → KeepsMemory P a.memory
      → P w
      → P (finish input (f, a, w)).2
  unfolding finish auto_saved
  finish-keeps input (answered text) a w k p = save_to-keeps P a.auto_save a.memory input text w k p
  finish-keeps input (failed err) a w k p = p
  finish-keeps input exhausted a w k p = p

  module _ (parse : Bytes → Option J) where
    found_keeps :
        (call : ToolCall) (tools : List (Tool W J)) (w : W)
        → All KeepsTool tools
        → P w
        → P (run_call parse call (find_tool call.name tools) w).1
    unfolding run_call find_tool
    found_keeps call [] w h p = p
    found_keeps call (t ∷ ts) w (ht, h) p = elim (Bool-cases (str_eq t.name call.name)) [
      | inl same ↦ rw same (ht _ w p)
      | inr other ↦ rw other (found_keeps call ts w h p)
    ]

    dispatch_tools-keeps :
        (tools : List (Tool W J)) (calls : List ToolCall) (w : W)
        → All KeepsTool tools
        → P w
        → P (dispatch_tools parse tools calls w).1
    unfolding dispatch_tools
    dispatch_tools-keeps tools [] w h p = p
    dispatch_tools-keeps tools (call ∷ calls) w h p =
        dispatch_tools-keeps tools calls (run_call parse call (find_tool call.name tools) w).1 h
          (found_keeps call tools w h p)

  module _ (o : Outside J) where
    loop_on-keeps :
        (again : Agent W J → W → Finish × Agent W J × W) (a : Agent W J) (w : W)
        (resp : ChatResponse) (ok : Bool)
        → Keeps a.provider a.tools
        → P w
        → ((b : Agent W J) (v : W) → Keeps b.provider b.tools → P v → P (again b v).2)
        → P (loop_on o again a w resp ok).2
    unfolding loop_on calls_on
    loop_on-keeps again a w resp false k p more = p
    loop_on-keeps again a w resp true k p more = go resp.tool_calls
      where
        go : (calls : List ToolCall) → P (calls_on o again a w resp.content calls).2
        go [] = p
        go (call ∷ calls) =
            let r = dispatch_tools o.parse a.tools (call ∷ calls) w in
            let became = after_tools-Became a resp.content r.0 in
            more (after_tools a resp.content r.0) r.1
              (subst (λ (x : Agent W J). Keeps x.provider x.tools) (sym became.1) k)
              (dispatch_tools-keeps o.parse a.tools (call ∷ calls) w k.executes p)

    turn_loop-keeps :
        (n : ℕ) (a : Agent W J) (w : W) → Keeps a.provider a.tools → P w → P (turn_loop o n a w).2
    unfolding turn_loop
    turn_loop-keeps zero a w k p = p
    turn_loop-keeps (suc n) a w k p =
        let r = a.provider.chat (request a) w in
        loop_on-keeps (turn_loop o n) a r.2 r.1 (r.0 && r.1.ok) k (k.chats (request a) w p)
          (λ b v kb pv. turn_loop-keeps n b v kb pv)

    pub agent_turn-keeps :
        (a : Agent W J) (input : Option Bytes) (w : W)
        → Keeps a.provider a.tools
        → KeepsMemory P a.memory
        → P w
        → P (agent_turn o a input w).2
    unfolding agent_turn
    agent_turn-keeps a input w k m p =
        let n = a.max_tool_iterations in
        let b = begin_turn o a input in
        let begun = begin_turn-Begun o a input in
        let r = turn_loop o n b w in
        let memory : r.1.memory ≡ a.memory =
          ap (λ (x : Agent W J). x.memory) (turn_loop-Became o n b w).1.1
          ∙ ap (λ (x : Agent W J). x.memory) begun.1 in
        finish-keeps input r.0 r.1 r.2 (subst (KeepsMemory P) (sym memory) m) (
          turn_loop-keeps n b w
            (subst (λ (x : Agent W J). Keeps x.provider x.tools) (sym begun.1) k) p)
