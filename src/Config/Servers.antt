-- ===== src/Config/Servers.antt =====
-- `parse_mcp_servers` of src/config.c.
use tiniclaw.Base.{
  Option, none, some, List, [], ◌∷◌, ◌++◌, Bytes, codes, clip, length, leb, if◌then◌else◌,
}
use tiniclaw.Json.{Tree, Object, get_item, as_text, as_items, as_members}
use tiniclaw.Config.{McpServerConfig, max_mcp}
use tiniclaw.Config.Read.{safe_str, clip_or}

unfoldable pub add_arg : Option Bytes → List Bytes → List Bytes
add_arg none args = args
add_arg (some s) args = args ++ (clip 256 s ∷ [])

unfoldable pub read_args : Option (List Tree) → List Bytes → List Bytes
unfolding add_arg as_text
read_args none args = args
read_args (some []) args = args
read_args (some (v ∷ vs)) args =
    let more = read_args (some vs) (add_arg (as_text (some v)) args) in
    if leb 8 (length args) then args else more

-- A value that is not a string stays empty.
unfoldable pub read_env : Option Object → List (Bytes × Bytes) → List (Bytes × Bytes)
unfolding clip_or as_text
read_env none env = env
read_env (some []) env = env
read_env (some ((k, v) ∷ ms)) env =
    let more = read_env (some ms) (env ++ ((clip 64 k, clip_or 256 [] (as_text (some v))) ∷ [])) in
    if leb 8 (length env) then env else more

unfoldable pub read_server : Tree → McpServerConfig
unfolding safe_str get_item as_items as_members read_args read_env
read_server item = record {
  name = safe_str 64 item (codes "name") [];
  command = safe_str 256 item (codes "command") [];
  args = read_args (as_items (get_item item (codes "args"))) [];
  env = read_env (as_members (get_item item (codes "env"))) [];
}

unfoldable pub add_servers : Option (List Tree) → List McpServerConfig → List McpServerConfig
unfolding read_server
add_servers none ss = ss
add_servers (some []) ss = ss
add_servers (some (v ∷ vs)) ss =
    let more = add_servers (some vs) (ss ++ (read_server v ∷ [])) in
    if leb max_mcp (length ss) then ss else more

unfoldable pub parse_mcp_servers : Tree → List McpServerConfig → List McpServerConfig
unfolding get_item as_items add_servers
parse_mcp_servers root ss = add_servers (as_items (get_item root (codes "mcp_servers"))) ss
