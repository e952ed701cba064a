-- ===== src/Agent/Tests.antt =====
-- An agent with one tool and a scripted provider, and the witnesses of the agent's theorems. The
-- world is the number of calls of the provider so far.
use tiniclaw.Base.{
  inr, ℕ, suc, ◌+◌, ◌≤◌, ◌≡◌, refl, true, false, none, some, [], ◌∷◌, codes, length, arith, str_eq,
}
use tiniclaw.Agent.{
  role_system, role_user, role_assistant, Tool, ToolCall, ChatResponse, Provider, Agent,
}
use tiniclaw.Agent.History.{trim_history, trimmed, pushed, history_push, push_at}
use tiniclaw.Agent.History.Trimmed.{message}
use tiniclaw.Agent.Dispatch.{or_text, shown, answer, find_tool, run_call, dispatch_tools}
use tiniclaw.Agent.Dispatch.Results.{Dispatched, dispatch_tools-Dispatched}
use tiniclaw.Agent.Turn.{
  Outside, exhausted, inject_prompt, begin_turn, request, push_content, push_results, after_tools,
  calls_on, loop_on, turn_loop, agent_turn,
}
use tiniclaw.Agent.Turn.Calls.{Counts, agent_turn-calls}
use tiniclaw.Agent.Turn.Growth.{exhausted_bounded}
use tiniclaw.Agent.Turn.First.{asked, Ended, first_call_ends}

abbrev outside : Outside Unit
outside = record { parse = λ s. some tt; room = 0; read_file = λ p. none; now = [] }

abbrev echo : Tool ℕ Unit
echo = record {
  name = codes "echo";
  description = [];
  parameters_json = codes "{}";
  execute = λ args w. (record { success = true; output = some (codes "hi"); error_msg = none }, w);
}

abbrev call : ToolCall
call = record { id = some (codes "1"); name = codes "echo"; arguments = none }

abbrev unknown : ToolCall
unknown = record { id = none; name = codes "rm"; arguments = none }

abbrev calling : ChatResponse
calling = record { content = none; tool_calls = call ∷ []; ok = true; error_msg = none }

abbrev done : ChatResponse
done = record { content = some (codes "ok"); tool_calls = []; ok = true; error_msg = none }

abbrev broken : ChatResponse
broken = record { content = none; tool_calls = []; ok = false; error_msg = some (codes "no key") }

-- A provider that always answers the same.
abbrev says : ChatResponse → Provider ℕ
says resp = record { supports_tools = true; chat = λ r w. (true, resp, suc w) }

abbrev agent_of : ChatResponse → Agent ℕ Unit
agent_of resp = record {
  provider = says resp;
  tools = echo ∷ [];
  memory = none;
  model_name = codes "m";
  temperature = 0;
  workspace_dir = codes "/ws";
  max_tool_iterations = 2;
  max_history_messages = 2;
  auto_save = false;
  max_tokens = 0;
  history =
      message role_system (codes "s")
      ∷ message role_user (codes "a")
      ∷ message role_assistant (codes "b")
      ∷ [];
  history_cap = 32;
  has_system_prompt = true;
}

counts : (resp : ChatResponse) → Counts (λ w. w) (says resp) (echo ∷ [])
counts resp = record { chats = λ r w. omega arith; executes = ((λ args w. refl), tt) }

abbrev started : ChatResponse → Agent ℕ Unit
started resp = begin_turn outside (agent_of resp) (some (codes "q"))

chats_with :
    (resp : ChatResponse)
    → (started resp).provider.chat (request (started resp)) 0 ≡ (true, resp, 1)
unfolding begin_turn inject_prompt pushed history_push push_at
chats_with resp = refl

loops : (turn_loop outside 2 (agent_of calling) 0).0 ≡ exhausted
unfolding turn_loop loop_on calls_on after_tools push_content push_results trim_history trimmed
    dispatch_tools run_call find_tool answer shown or_text pushed history_push push_at str_eq
loops = refl

agent_turn-calls_example : (agent_turn outside (agent_of calling) (some (codes "q")) 0).2 ≤ 0 + 2
agent_turn-calls_example =
    agent_turn-calls outside (λ w. w) (agent_of calling) (some (codes "q")) 0 (counts calling) tt

exhausted_bounded_example : length (turn_loop outside 2 (agent_of calling) 0).1.history ≤ 2
exhausted_bounded_example = exhausted_bounded outside 1 (agent_of calling) 0 (omega arith) loops

first_call_ends_example :
    ((request (begin_turn outside (agent_of done) (some (codes "q")))).messages
      ≡ asked outside (agent_of done) (some (codes "q")))
    × Ended outside
        (agent_of done)
        (some (codes "q"))
        done
        true
        1
        (agent_turn outside (agent_of done) (some (codes "q")) 0)
first_call_ends_example =
    first_call_ends outside 1 (agent_of done) (some (codes "q")) 0 1 done true refl
      (chats_with done) (inr refl)

dispatch_tools-Dispatched_example :
    let (rs, w') = dispatch_tools outside.parse (echo ∷ []) (call ∷ unknown ∷ []) 5 in
    Dispatched outside.parse (echo ∷ []) (call ∷ unknown ∷ []) 5 rs w'
dispatch_tools-Dispatched_example =
    dispatch_tools-Dispatched outside.parse (echo ∷ []) (call ∷ unknown ∷ []) 5
