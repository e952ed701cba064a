-- ===== src/Mcp/Tests.antt =====
-- The MCP client on a concrete server.
use tiniclaw.Base.{
  ℕ, ◌≡◌, ◌≢◌, refl, true, Option, none, some, List, [], ◌∷◌, ◌++◌, Bytes, codes, All, get_elem?,
  arith,
}
use tiniclaw.Base.Int.{pos}
use tiniclaw.Json.{text}
use tiniclaw.Providers.{Cjson}
use tiniclaw.Mcp.{McpServer}
use tiniclaw.Mcp.Rpc.Frames.{logging, Requests, run_requests, numbered, IsLine, run_requests-frames}
use tiniclaw.Mcp.Call.{mcp_tool_execute}
use tiniclaw.Mcp.Call.Frame.{mcp_tool_execute-frame}

abbrev cjson : Cjson
cjson = record {
  to_double = λ n. n;
  valueint = pos;
  truncate = pos;
  parse = λ s. some (text s);
  print = λ v. codes "{ }";
}

abbrev server : McpServer
server = record {
  cfg = record { name = codes "s"; command = codes "mcp"; args = []; env = [] };
  has_pid = true;
  stdin_open = true;
  stdout_open = true;
  next_id = 1;
  tools = [];
}

abbrev silent : List Bytes → Option Bytes
silent log = none

abbrev two_requests : Requests
two_requests = (codes "initialize", none) ∷ (codes "tools/list", none) ∷ []

run_requests-frames_example :
    ((run_requests cjson silent two_requests (server, [])).1 ≡ [] ++ numbered cjson 1 two_requests)
    × All IsLine (numbered cjson 1 two_requests)
run_requests-frames_example = run_requests-frames cjson silent two_requests server [] refl refl

mcp_tool_execute-frame_example :
    ((mcp_tool_execute cjson (logging silent) 0 (codes "t") none ((server, []) ∷ [])).0.success
      ≡ true)
    × ((j : ℕ)
        → ◌≢◌ {A = ℕ} 0 j
        → get_elem?
            (mcp_tool_execute cjson (logging silent) 0 (codes "t") none ((server, []) ∷ [])).1
            j
          ≡ get_elem? ((server, []) ∷ []) j)
    × ((id : ℕ) × (w : List Bytes) × (get_elem?
            (mcp_tool_execute cjson (logging silent) 0 (codes "t") none ((server, []) ∷ [])).1
            0
          ≡ some (record server { next_id = id }, w)))
mcp_tool_execute-frame_example =
    mcp_tool_execute-frame cjson (logging silent) 0 (codes "t") none ((server, []) ∷ []) server []
      refl (omega arith)
