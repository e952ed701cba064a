-- ===== src/Agent/Dispatch.antt =====
-- `nc_agent_dispatch_tools` of src/agent/agent.c.
pub mod Counted
pub mod Results
use tiniclaw.Base.{
  ℕ, Bool, true, false, Option, none, some, List, [], ◌∷◌, Bytes, codes, str_eq, if◌then◌else◌,
}
use tiniclaw.Agent.{ToolCall, ToolResult, Tool}
use tiniclaw.Agent.History.{or_empty}

pub record ToolCallResult : Type 0 where
  pub tool_call_id : Bytes
  pub tool_name : Bytes
  pub output : Bytes
  pub success : Bool

unfoldable pub or_text : Bytes → Option Bytes → Bytes
or_text d none = d
or_text d (some s) = s

unfoldable pub shown : ToolResult → Bytes
shown result =
    if result.success then or_empty result.output else or_text (codes "Tool error") result.error_msg

-- The first tool that has the name.
unfoldable pub find_tool : {W J : Type 0} → Bytes → List (Tool W J) → Option (Tool W J)
find_tool name [] = none
find_tool name (t ∷ ts) =
    let more = find_tool name ts in if str_eq t.name name then some t else more

unfoldable pub answer : ToolCall → ToolResult → ToolCallResult
answer call result = record {
  tool_call_id = or_empty call.id;
  tool_name = call.name;
  output = shown result;
  success = result.success;
}

-- `cJSON_Parse` is the parameter `parse`.
module _ {W J : Type 0} (parse : Bytes → Option J) where
  -- A call without a tool, and a call of the tool that was found.
  unfoldable pub run_call : ToolCall → Option (Tool W J) → W → ToolCallResult × W
  run_call call none w = (
    record {
      tool_call_id = or_empty call.id;
      tool_name = call.name;
      output = codes "Tool not found";
      success = false;
    },
    w,
  )
  run_call call (some t) w =
      let (result, w') = t.execute (parse (or_text (codes "{}") call.arguments)) w in
      (answer call result, w')

  unfoldable pub dispatch_tools : List (Tool W J) → List ToolCall → W → List ToolCallResult × W
  dispatch_tools tools [] w = ([], w)
  dispatch_tools tools (call ∷ calls) w =
      let (r, w1) = run_call call (find_tool call.name tools) w in
      let (rs, w2) = dispatch_tools tools calls w1 in (r ∷ rs, w2)
