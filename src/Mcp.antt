-- ===== src/Mcp.antt =====
-- The MCP client of src/mcp.c, with the server's record of include/gateway.h. A server's pipes, cJSON
-- and the creation of the process are parameters; memory does not run out.
pub mod Rpc
pub mod Connect
pub mod Call
mod Tests
use tiniclaw.Base.{ℕ, Bool, true, false, Option, none, some, List, [], Bytes}
use tiniclaw.Config.{McpServerConfig}

pub record McpTool : Type 0 where
  pub name : Bytes
  pub description : Bytes
  pub input_schema : Bytes

-- A descriptor is whether it is open (not negative); a pid is whether it is positive.
pub record McpServer : Type 0 where
  pub cfg : McpServerConfig
  pub has_pid : Bool
  pub stdin_open : Bool
  pub stdout_open : Bool
  pub next_id : ℕ
  pub tools : List McpTool

-- What a server's process does with a line, and the bytes that one `read` of its output returns,
-- `none` where it returns 0 or -1.
pub record Pipes (W : Type 0) : Type 0 where
  pub write : Bytes → W → W
  pub read : W → Option Bytes × W
