-- ===== src/Mcp/Rpc.antt =====
-- `mcp_rpc` of src/mcp.c.
pub mod Frames
use tiniclaw.Base.{
  ℕ, ◌+◌, ◌%◌, ◌^◌, Bool, true, false, ◌&&◌, ◌||◌, Option, none, some, List, [], ◌∷◌, ◌++◌, map,
  Bytes, codes, c_string, take, ◌==◌, if◌then◌else◌,
}
use tiniclaw.Json.{Tree, text, object, or_else}
use tiniclaw.Providers.{Cjson, create_number}
use tiniclaw.Mcp.{McpServer, Pipes}

-- A line feed becomes a space.
unfoldable pub collapse : Bytes → Bytes
collapse [] = []
collapse (c ∷ s) = (if c == 10 then 32 else c) ∷ collapse s

unfoldable pub line_of : Bytes → Bytes
unfolding collapse
line_of s = collapse s ++ (10 ∷ [])

-- The line feeds and carriage returns at the end become NULs.
unfoldable pub strip_eol : Bytes → Bytes
strip_eol [] = []
strip_eol (c ∷ s) = elim (strip_eol s) [
  | [] ↦ if c == 10 || c == 13 then [] else c ∷ []
  | d ∷ r ↦ c ∷ d ∷ r
]

unfoldable pub request_tree : Cjson → Bytes → ℕ → Option Tree → Tree
unfolding object create_number or_else
request_tree cj method id params = object (
    (codes "jsonrpc", text (codes "2.0"))
    ∷ (codes "method", text method)
    ∷ (codes "id", create_number cj (cj.to_double id))
    ∷ (codes "params", or_else (object []) params)
    ∷ [])

-- One `read` of at most 65535 bytes.
unfoldable pub parse_reply : Cjson → Option Bytes → Option Tree
unfolding strip_eol
parse_reply cj none = none
parse_reply cj (some s) = cj.parse (c_string (strip_eol (take 65535 s)))

module _ {W : Type 0} (cj : Cjson) (pipes : Pipes W) where
  unfoldable pub send : Bytes → Option Tree → McpServer → W → Option Tree × McpServer × W
  unfolding line_of request_tree parse_reply
  send method params s w =
      let w1 = pipes.write (line_of (cj.print (request_tree cj method s.next_id params))) w in
      let (reply, w2) = pipes.read w1 in
      (parse_reply cj reply, record s { next_id = (s.next_id + 1) % 2 ^ 32 }, w2)

  unfoldable pub mcp_rpc : Bytes → Option Tree → McpServer → W → Option Tree × McpServer × W
  unfolding send
  mcp_rpc method params s w =
      if s.stdin_open && s.stdout_open then send method params s w else (none, s, w)
