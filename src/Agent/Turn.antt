-- ===== src/Agent/Turn.antt =====
-- `nc_agent_turn` of src/agent/agent.c: a turn of the conversation, with its loop over the provider's
-- answers and the tools that they call.
pub mod Calls
pub mod Growth
pub mod First
pub mod Begin
pub mod Keeps
use tiniclaw.Base.{
  ℕ, zero, suc, Bool, true, false, ◌&&◌, Option, none, some, List, [], ◌∷◌, ◌++◌, Bytes, codes, map,
  if◌then◌else◌,
}
use tiniclaw.Agent.{
  Role, role_system, role_user, role_assistant, role_tool, OwnedMessage, Tool, ToolCall, ToolSpec,
  ChatRequest, ChatResponse, Provider, Agent,
}
use tiniclaw.Agent.History.{pushed, trim_history, or_empty}
use tiniclaw.Agent.Prompt.{build_system_prompt}
use tiniclaw.Agent.Dispatch.{ToolCallResult, or_text, dispatch_tools}

-- What the turn takes from outside besides the world's state: cJSON's parser, the room that is left
-- in the arena, the files and the text of the clock.
pub record Outside (J : Type 0) : Type 0 where
  pub parse : Bytes → Option J
  pub room : ℕ
  pub read_file : Bytes → Option Bytes
  pub now : Bytes

-- How the loop ends: with an answer, with the provider's error, or after the last iteration.
pub data Finish : Type 0 where
  answered : Bytes → Finish
  failed : Bytes → Finish
  exhausted : Finish

unfoldable pub result_text : ToolCallResult → Bytes
result_text r = codes "[" ++ r.tool_name ++ codes "] " ++ r.output

-- `nc_memory_store`, when saving is on, there is a memory, and there is an input.
unfoldable pub save_to :
    {W : Type 0} → Bool → Option (Bytes → Bytes → W → W) → Option Bytes → Bytes → W → W
save_to true (some store) (some text) answer w = store text answer w
save_to true (some store) none answer w = w
save_to true none input answer w = w
save_to false memory input answer w = w

module _ {W J : Type 0} where
  pub spec_of : Tool W J → ToolSpec
  spec_of t = record {
    name = t.name;
    description = t.description;
    parameters_json = t.parameters_json;
  }

  unfoldable pub request : Agent W J → ChatRequest
  request a = record {
    model = a.model_name;
    temperature = a.temperature;
    max_tokens = a.max_tokens;
    messages = a.history;
    tools = if a.provider.supports_tools then map spec_of a.tools else [];
  }

  -- The assistant's text beside its calls, if there is one.
  unfoldable pub push_content : Agent W J → Option Bytes → Agent W J
  push_content a none = a
  push_content a (some text) = pushed a role_assistant (some text)

  unfoldable pub push_results : Agent W J → List ToolCallResult → Agent W J
  push_results a [] = a
  push_results a (r ∷ rs) = push_results (pushed a role_tool (some (result_text r))) rs

  -- What follows the execution of the tools of one answer.
  unfoldable pub after_tools : Agent W J → Option Bytes → List ToolCallResult → Agent W J
  after_tools a content rs = trim_history (push_results (push_content a content) rs)

  unfoldable pub auto_saved : Agent W J → Option Bytes → Bytes → W → W
  auto_saved a input answer w = save_to a.auto_save a.memory input answer w

  unfoldable pub finish : Option Bytes → Finish × Agent W J × W → Bytes × Agent W J × W
  finish input (answered text, a, w) = (text, a, auto_saved a input text w)
  finish input (failed err, a, w) = (err, a, w)
  finish input (exhausted, a, w) = (codes "(no response)", a, w)

module _ {W J : Type 0} (o : Outside J) where
  unfoldable pub inject_prompt : Agent W J → Bool → Agent W J
  inject_prompt a true = a
  inject_prompt a false =
      record (pushed a role_system
        (build_system_prompt o.room o.read_file o.now a.workspace_dir a.tools a.model_name)) {
          has_system_prompt = true;
        }

  -- The system prompt on a first turn, and the user's message.
  unfoldable pub begin_turn : Agent W J → Option Bytes → Agent W J
  begin_turn a input = pushed (inject_prompt a a.has_system_prompt) role_user input

  -- The next iteration is `again`.
  unfoldable pub calls_on :
      (Agent W J → W → Finish × Agent W J × W)
      → Agent W J
      → W
      → Option Bytes
      → List ToolCall
      → Finish × Agent W J × W
  calls_on again a w content [] =
      (answered (or_empty content), pushed a role_assistant (some (or_empty content)), w)
  calls_on again a w content (c ∷ cs) =
      let (rs, w') = dispatch_tools o.parse a.tools (c ∷ cs) w in
      again (after_tools a content rs) w'

  -- After the provider returned; the last argument is whether it gave an answer.
  unfoldable pub loop_on :
      (Agent W J → W → Finish × Agent W J × W)
      → Agent W J
      → W
      → ChatResponse
      → Bool
      → Finish × Agent W J × W
  loop_on again a w resp false = (failed (or_text (codes "Provider error") resp.error_msg), a, w)
  loop_on again a w resp true = calls_on again a w resp.content resp.tool_calls

  -- At most `n` iterations.
  unfoldable pub turn_loop : ℕ → Agent W J → W → Finish × Agent W J × W
  turn_loop zero a w = (exhausted, a, w)
  turn_loop (suc n) a w =
      let (returned, resp, w') = a.provider.chat (request a) w in
      loop_on (turn_loop n) a w' resp (returned && resp.ok)

  unfoldable pub agent_turn : Agent W J → Option Bytes → W → Bytes × Agent W J × W
  agent_turn a input w = finish input (turn_loop a.max_tool_iterations (begin_turn a input) w)
