-- ===== src/Mcp/Connect.antt =====
-- `nc_mcp_server_connect` and `nc_mcp_server_disconnect` of src/mcp.c.
use tiniclaw.Base.{
  Bool, true, false, Option, none, some, List, [], ◌∷◌, ◌++◌, map, Bytes, codes, clip, take,
  if◌then◌else◌,
}
use tiniclaw.Json.{Tree, text, object, get_item, get_in, as_text, as_items}
use tiniclaw.Config.{McpServerConfig}
use tiniclaw.Config.Read.{clip_or}
use tiniclaw.Providers.{Cjson}
use tiniclaw.Mcp.{McpTool, McpServer, Pipes}
use tiniclaw.Mcp.Rpc.{line_of, mcp_rpc}

-- The arguments and the variables of the child process.
unfoldable pub argv_of : McpServerConfig → List Bytes
argv_of cfg = cfg.command ∷ take 8 cfg.args

unfoldable pub env_text : Bytes × Bytes → Bytes
env_text (k, v) = clip 384 (k ++ codes "=" ++ v)

unfoldable pub env_of : McpServerConfig → List Bytes
unfolding env_text
env_of cfg = map env_text (take 8 cfg.env)

abbrev pub init_params : Tree
init_params = object (
    (codes "protocolVersion", text (codes "2025-03-26"))
    ∷ (
      codes "clientInfo",
      object
          ((codes "name", text (codes "tiniclaw")) ∷ (codes "version", text (codes "0.1.0")) ∷ []),
    )
    ∷ [])

abbrev pub initialized : Tree
initialized = object (
    (codes "jsonrpc", text (codes "2.0"))
    ∷ (codes "method", text (codes "notifications/initialized"))
    ∷ [])

-- A tool with no name is passed over.
unfoldable pub schema_of : Cjson → Option Tree → Bytes
schema_of cj none = []
schema_of cj (some schema) = clip 4096 (cj.print schema)

unfoldable pub read_tools : Cjson → List Tree → List McpTool
unfolding as_text get_item clip_or schema_of
read_tools cj [] = []
read_tools cj (t ∷ ts) = elim (as_text (get_item t (codes "name"))) [
  | none ↦ read_tools cj ts
  | some name ↦
      record {
        name = clip 128 name;
        description = clip_or 512 [] (as_text (get_item t (codes "description")));
        input_schema = schema_of cj (get_item t (codes "inputSchema"));
      }
      ∷ read_tools cj ts
]

unfoldable pub found_tools : Cjson → Option (List Tree) → List McpTool → List McpTool
unfolding read_tools
found_tools cj none old = old
found_tools cj (some ts) old = read_tools cj ts

unfoldable pub listed_tools : Cjson → Option Tree → List McpTool → List McpTool
unfolding found_tools as_items get_in
listed_tools cj tlist old =
    found_tools cj (as_items (get_in (get_in tlist (codes "result")) (codes "tools"))) old

-- `spawn` makes the pipes and the process, from the command, its arguments and its variables.
module _ {W : Type 0} (cj : Cjson) (pipes : Pipes W)
    (spawn : List Bytes → List Bytes → W → Bool × W) where
  unfoldable pub handshake : McpServer → W → Bool × McpServer × W
  unfolding mcp_rpc line_of listed_tools
  handshake s w =
      let (_, s1, w1) = mcp_rpc cj pipes (codes "initialize") (some init_params) s w in
      let w2 = pipes.write (line_of (cj.print initialized)) w1 in
      let (tlist, s2, w3) = mcp_rpc cj pipes (codes "tools/list") (some (object [])) s1 w2 in
      (true, record s2 { tools = listed_tools cj tlist s2.tools }, w3)

  unfoldable pub started : McpServer → McpServer
  started s = record s { has_pid = true; stdin_open = true; stdout_open = true; next_id = 1 }

  unfoldable pub connect_with : Bytes → McpServer → W → Bool × McpServer × W
  unfolding handshake started argv_of env_of
  connect_with [] s w = (false, s, w)
  connect_with (c ∷ command) s w =
      let (done, w1) = spawn (argv_of s.cfg) (env_of s.cfg) w in
      if done then handshake (started s) w1 else (false, s, w1)

  -- Whether 0 is returned, with the server.
  unfoldable pub mcp_server_connect : McpServer → W → Bool × McpServer × W
  unfolding connect_with
  mcp_server_connect s w = connect_with s.cfg.command s w

-- The process is ended besides.
unfoldable pub mcp_server_disconnect : McpServer → McpServer
mcp_server_disconnect s =
    if s.has_pid
    then record s { has_pid = false; stdin_open = false; stdout_open = false; tools = [] }
    else s
