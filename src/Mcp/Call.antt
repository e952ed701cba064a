-- ===== src/Mcp/Call.antt =====
-- `nc_mcp_call_tool` and `nc_mcp_wrap_tools` of src/mcp.c. The servers are an array that the wrapped
-- tools point into: a tool holds the index of its server.
pub mod Frame
pub mod Texts
use tiniclaw.Base.{
  ℕ, zero, suc, ◌+◌, Bool, true, false, ◌&&◌, Option, none, some, List, [], ◌∷◌, ◌++◌, map, Bytes,
  codes, clip, get_elem?, set, str_eq, if◌then◌else◌,
}
use tiniclaw.Json.{Tree, Object, text, object, get_item, get_in, as_text, as_items, or_else}
use tiniclaw.Agent.{Tool, ToolResult}
use tiniclaw.Tools.File.{result_ok}
use tiniclaw.Providers.{Cjson, text_in}
use tiniclaw.Mcp.{McpTool, McpServer, Pipes}
use tiniclaw.Mcp.Rpc.{mcp_rpc}

unfoldable pub optional_arguments : Option Tree → Object
optional_arguments none = []
optional_arguments (some args) = (codes "arguments", args) ∷ []

-- Empty arguments are not parsed.
unfoldable pub parse_arguments : Cjson → Bytes → Option Tree
parse_arguments cj [] = none
parse_arguments cj (c ∷ s) = cj.parse (c ∷ s)

unfoldable pub call_params : Cjson → Bytes → Bytes → Tree
unfolding object optional_arguments parse_arguments
call_params cj name args_json =
    object ((codes "name", text name) ∷ optional_arguments (parse_arguments cj args_json))

-- The text of an item of the type `text`.
unfoldable pub text_if : Option Bytes → Option Bytes → Bytes
text_if none s = []
text_if (some type) s = if str_eq type (codes "text") then or_else [] s else []

unfoldable pub item_text : Tree → Bytes
unfolding text_if as_text get_item or_else
item_text item =
    text_if (as_text (get_item item (codes "type"))) (as_text (get_item item (codes "text")))

unfoldable pub item_texts : List Tree → Bytes
unfolding item_text
item_texts [] = []
item_texts (v ∷ vs) = item_text v ++ item_texts vs

unfoldable pub result_text : Option Tree → Tree → Bytes
unfolding text_in get_item get_in as_items item_texts or_else
result_text (some error) resp = text_in (codes "MCP error") (get_item error (codes "message"))
result_text none resp =
    item_texts (or_else [] (as_items (get_in (get_item resp (codes "result")) (codes "content"))))

unfoldable pub response_text : Option Tree → Bytes
unfolding result_text get_item
response_text none = codes "(MCP call failed: no response)"
response_text (some resp) = result_text (get_item resp (codes "error")) resp

module _ {W : Type 0} (cj : Cjson) (pipes : Pipes W) where
  unfoldable pub mcp_call_tool : Bytes → Bytes → McpServer → W → Bytes × McpServer × W
  unfolding mcp_rpc call_params response_text
  mcp_call_tool name args_json s w =
      let (resp, s', w') =
        mcp_rpc cj pipes (codes "tools/call") (some (call_params cj name args_json)) s w in
      if s.stdin_open
      then (response_text resp, s', w')
      else (codes "(MCP server not connected)", s, w)

  -- The world of the wrapped tools: the array of servers, each with the world that its pipes lead to.
  abbrev pub Servers : Type 0
  Servers = List (McpServer × W)

  unfoldable pub arguments_text : Option Tree → Bytes
  arguments_text none = codes "{}"
  arguments_text (some args) = cj.print args

  unfoldable pub execute_at :
      ℕ → Bytes → Bytes → Option (McpServer × W) → Servers → ToolResult × Servers
  unfolding mcp_call_tool result_ok
  execute_at i name args_json none ss = (result_ok [], ss)
  execute_at i name args_json (some (s, w)) ss =
      let (r, s', w') = mcp_call_tool name args_json s w in (result_ok r, set ss i (s', w'))

  unfoldable pub mcp_tool_execute : ℕ → Bytes → Option Tree → Servers → ToolResult × Servers
  unfolding execute_at arguments_text
  mcp_tool_execute i name args ss = execute_at i name (arguments_text args) (get_elem? ss i) ss

  unfoldable pub params_text : Bytes → Bytes
  params_text [] = codes "{}"
  params_text (c ∷ s) = c ∷ s

  unfoldable pub wrap_tool : ℕ → McpTool → Tool Servers Tree
  unfolding mcp_tool_execute params_text
  wrap_tool i t = record {
    name = clip 128 t.name;
    description = clip 512 t.description;
    parameters_json = params_text t.input_schema;
    execute = mcp_tool_execute i (clip 128 t.name);
  }

  unfoldable pub wrap_from : ℕ → List McpServer → List (Tool Servers Tree)
  unfolding wrap_tool
  wrap_from i [] = []
  wrap_from i (s ∷ ss) = map (wrap_tool i) s.tools ++ wrap_from (i + 1) ss

  unfoldable pub mcp_wrap_tools : List McpServer → List (Tool Servers Tree)
  unfolding wrap_from
  mcp_wrap_tools ss = wrap_from 0 ss
