-- ===== src/Agent/History.antt =====
-- The conversation: `history_push`, `nc_agent_trim_history` and `nc_agent_reset_history` of
-- src/agent/agent.c.
pub mod Trimmed
use tiniclaw.Base.{
  ℕ, ◌*◌, ◌-◌, Bool, true, false, ◌||◌, Option, none, some, List, [], ◌∷◌, ◌++◌, Bytes, length,
  drop, leb, ◌==◌, if◌then◌else◌,
}
use tiniclaw.Agent.{Role, OwnedMessage, Agent}

abbrev pub or_empty : Option Bytes → Bytes
or_empty none = []
or_empty (some s) = s

-- The last `max` messages stay.
unfoldable pub trimmed : ℕ → List OwnedMessage → List OwnedMessage
trimmed max history =
    if max == 0 || leb (length history) max then history else drop (length history - max) history

module _ {W J : Type 0} where
  unfoldable pub push_at : Agent W J → ℕ → Role → Option Bytes → Agent W J
  push_at a cap role content = record a {
    history = a.history ++ record { role = role; content = or_empty content } ∷ [];
    history_cap = cap;
  }

  -- The answer is true for 0 and false for -1; the first argument is whether `realloc` returns memory.
  unfoldable pub history_push : Bool → Agent W J → Role → Option Bytes → Bool × Agent W J
  history_push granted a role content =
      if leb a.history_cap (length a.history)
      then (if granted
          then (true, push_at a (if a.history_cap == 0 then 32 else a.history_cap * 2) role content)
          else (false, a))
      else (true, push_at a a.history_cap role content)

  -- A push in a turn: its answer is not looked at.
  unfoldable pub pushed : Agent W J → Role → Option Bytes → Agent W J
  unfolding history_push
  pushed a role content = (history_push true a role content).1

  unfoldable pub trim_history : Agent W J → Agent W J
  trim_history a = record a { history = trimmed a.max_history_messages a.history }

  unfoldable pub reset_history : Agent W J → Agent W J
  reset_history a = record a { history = []; has_system_prompt = false }
