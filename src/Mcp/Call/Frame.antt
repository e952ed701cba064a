-- ===== src/Mcp/Call/Frame.antt =====
-- What a wrapped tool of an MCP server does to the servers, and what it answers.
use tiniclaw.Base.{
  ℕ, ◌+◌, ◌%◌, ◌^◌, ◌<◌, if_true, if_false, ◌≡◌, refl, ap, ◌∙◌, ◌≢◌, true, ◌&&◌, Option, none, some,
  List, Bytes, codes, get_elem?, get_elem?-set_self, get_elem?-set_ne, length, Bool-cases, inl, inr,
}
use tiniclaw.Json.{Tree}
use tiniclaw.Tools.File.{result_ok}
use tiniclaw.Providers.{Cjson}
use tiniclaw.Mcp.{McpServer, Pipes}
use tiniclaw.Mcp.Rpc.{send, mcp_rpc}
use tiniclaw.Mcp.Call.{mcp_call_tool, arguments_text, call_params, execute_at, mcp_tool_execute}

module _ {W : Type 0} (cj : Cjson) (pipes : Pipes W) where
  -- Only the id of the server that is asked may change.
  rpc_keeps :
      (method : Bytes) (params : Option Tree) (s : McpServer) (w : W)
      → (id : ℕ) × ((mcp_rpc cj pipes method params s w).1 ≡ record s { next_id = id })
  unfolding mcp_rpc send
  rpc_keeps method params s w = elim (Bool-cases (s.stdin_open && s.stdout_open)) [
    | inl e ↦ (
      (s.next_id + 1) % 2 ^ 32,
      ap (λ (r : Option Tree × McpServer × W). r.1) (if_true _ _ (none, s, w) e),
    )
    | inr e ↦
        (s.next_id, ap (λ (r : Option Tree × McpServer × W). r.1) (if_false _ _ (none, s, w) e))
  ]

  call_keeps :
      (name args : Bytes) (s : McpServer) (w : W)
      → (id : ℕ) × ((mcp_call_tool cj pipes name args s w).1 ≡ record s { next_id = id })
  unfolding mcp_call_tool
  call_keeps name args s w =
      let closed : Bytes × McpServer × W = (codes "(MCP server not connected)", s, w) in
      let kept = rpc_keeps (codes "tools/call") (some (call_params cj name args)) s w in
      elim (Bool-cases s.stdin_open) [
        | inl e ↦ (
          kept.0,
          ap (λ (r : Bytes × McpServer × W). r.1) (if_true s.stdin_open _ closed e) ∙ kept.1,
        )
        | inr e ↦
            (s.next_id, ap (λ (r : Bytes × McpServer × W). r.1) (if_false s.stdin_open _ closed e))
      ]

  -- A wrapped tool of the server `i` succeeds whatever the server says. It leaves the number of
  -- servers and every other server alone, and of its own server it changes at most the next id.
  pub mcp_tool_execute-frame :
      (i : ℕ) (name : Bytes) (args : Option Tree) (ss : List (McpServer × W)) (s : McpServer)
      (w : W)
      → get_elem? ss i ≡ some (s, w)
      → i < length ss
      → ((mcp_tool_execute cj pipes i name args ss).0.success ≡ true)
        × ((j : ℕ)
            → i ≢ j
            → get_elem? (mcp_tool_execute cj pipes i name args ss).1 j ≡ get_elem? ss j)
        × ((id : ℕ) × (w' : W) × (get_elem? (mcp_tool_execute cj pipes i name args ss).1 i
              ≡ some (record s { next_id = id }, w')))
  unfolding mcp_tool_execute execute_at result_ok
  mcp_tool_execute-frame i name args ss s w at_i inside =
      let text = arguments_text cj pipes args in
      let r = mcp_call_tool cj pipes name text s w in
      let kept = call_keeps name text s w in
      rw at_i (
        refl,
        (λ j ne. get_elem?-set_ne ss i j (r.1, r.2) ne),
        (kept.0, r.2, get_elem?-set_self ss i (r.1, r.2) inside ∙ λ k. some (kept.1 k, r.2)),
      )
