-- ===== src/Agent/Turn/Growth.antt =====
-- When a turn trims the history.
use mathlib.Core.Path.{subst}
use tiniclaw.Base.{
  ℕ, zero, suc, ◌≤◌, ◌<◌, ◌≡◌, sym, ap, Bool, true, false, ◌&&◌, List, [], ◌∷◌, length, arith,
}
use tiniclaw.Agent.{ToolCall, ChatResponse, Agent}
use tiniclaw.Agent.History.Trimmed.{length-trimmed}
use tiniclaw.Agent.Dispatch.{dispatch_tools}
use tiniclaw.Agent.Turn.{
  Outside, Finish, exhausted, request, after_tools, calls_on, loop_on, turn_loop,
}
use tiniclaw.Agent.Turn.Calls.{after_tools-Became}

module _ {W J : Type 0} (o : Outside J) where
  -- A loop that was not ended by an answer or an error ends with a trimmed history.
  loop_on-exhausted :
      (again : Agent W J → W → Finish × Agent W J × W) (a : Agent W J) (w : W) (resp : ChatResponse)
      (ok : Bool)
      → 0 < a.max_history_messages
      → ((b : Agent W J) (w : W)
          → 0 < b.max_history_messages
          → length b.history ≤ b.max_history_messages
          → (again b w).0 ≡ exhausted
          → length (again b w).1.history ≤ b.max_history_messages)
      → (loop_on o again a w resp ok).0 ≡ exhausted
      → length (loop_on o again a w resp ok).1.history ≤ a.max_history_messages
  unfolding loop_on calls_on
  loop_on-exhausted again a w resp false pos more e = absurd (cc)
  loop_on-exhausted again a w resp true pos more e = go resp.tool_calls e
    where
      go :
          (calls : List ToolCall)
          → (calls_on o again a w resp.content calls).0 ≡ exhausted
          → length (calls_on o again a w resp.content calls).1.history ≤ a.max_history_messages
      go [] e = absurd (cc)
      go (call ∷ calls) e =
          let r = dispatch_tools o.parse a.tools (call ∷ calls) w in
          let b = after_tools a resp.content r.0 in
          let became = after_tools-Became a resp.content r.0 in
          let same : b.max_history_messages ≡ a.max_history_messages =
            ap (λ (x : Agent W J). x.max_history_messages) became.1 in
          let short : length b.history ≤ a.max_history_messages =
            subst (λ (x : Agent W J). length x.history ≤ a.max_history_messages) (sym became.1)
              (length-trimmed a.max_history_messages _ pos) in
          let h = more b r.1 (omega (arith, same, pos)) (omega (arith, same, short)) e in
          omega (arith, same, h)

  turn_loop-exhausted :
      (n : ℕ) (a : Agent W J) (w : W)
      → 0 < a.max_history_messages
      → length a.history ≤ a.max_history_messages
      → (turn_loop o n a w).0 ≡ exhausted
      → length (turn_loop o n a w).1.history ≤ a.max_history_messages
  unfolding turn_loop
  turn_loop-exhausted zero a w pos short e = short
  turn_loop-exhausted (suc n) a w pos short e =
      let r = a.provider.chat (request a) w in
      loop_on-exhausted (turn_loop o n) a r.2 r.1 (r.0 && r.1.ok) pos (turn_loop-exhausted n) e

  -- A turn whose iterations all call tools leaves at most `max_history_messages` messages, if that
  -- is not 0, as `nc_agent_init` makes sure.
  pub exhausted_bounded :
      (n : ℕ) (a : Agent W J) (w : W)
      → 0 < a.max_history_messages
      → (turn_loop o (suc n) a w).0 ≡ exhausted
      → length (turn_loop o (suc n) a w).1.history ≤ a.max_history_messages
  unfolding turn_loop
  exhausted_bounded n a w pos e =
      let r = a.provider.chat (request a) w in
      loop_on-exhausted (turn_loop o n) a r.2 r.1 (r.0 && r.1.ok) pos (turn_loop-exhausted n) e
