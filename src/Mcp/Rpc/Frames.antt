-- ===== src/Mcp/Rpc/Frames.antt =====
-- The lines that a run of requests writes.
use tiniclaw.Base.{
  ℕ, ◌+◌, ◌%◌, ◌^◌, ◌≡◌, refl, sym, ap, ◌∙◌, ◌≢◌, true, ◌&&◌, Option, none, List, [], ◌∷◌, ◌++◌,
  append_assoc, append-nil, Bytes, if_true, All, arith,
}
use tiniclaw.Json.{Tree}
use tiniclaw.Providers.{Cjson}
use tiniclaw.Mcp.{McpServer, Pipes}
use tiniclaw.Mcp.Rpc.{collapse, line_of, request_tree, send, mcp_rpc}

-- Pipes that keep the lines that were written; the lines so far decide what is read.
unfoldable pub logging : (List Bytes → Option Bytes) → Pipes (List Bytes)
logging answer = record { write = λ line log. log ++ (line ∷ []); read = λ log. (answer log, log) }

abbrev pub Requests : Type 0
Requests = List (Bytes × Option Tree)

-- Requests one after the other.
unfoldable pub run_requests :
    Cjson → (List Bytes → Option Bytes) → Requests → McpServer × List Bytes → McpServer × List Bytes
run_requests cj answer [] (s, log) = (s, log)
run_requests cj answer ((method, params) ∷ rs) (s, log) =
    let (_, s', log') = mcp_rpc cj (logging answer) method params s log in
    run_requests cj answer rs (s', log')

-- The lines of the requests, their ids counting up from one.
unfoldable pub numbered : Cjson → ℕ → Requests → List Bytes
numbered cj id [] = []
numbered cj id ((method, params) ∷ rs) =
    line_of (cj.print (request_tree cj method id params)) ∷ numbered cj ((id + 1) % 2 ^ 32) rs

-- A line: one line feed, at the end.
abbrev pub IsLine : Bytes → Type 0
IsLine l = (s : Bytes) × (l ≡ s ++ (10 ∷ [])) × All (λ c. c ≢ 10) s

collapse-All : (s : Bytes) → All (λ (c : ℕ). c ≢ 10) (collapse s)
unfolding collapse
collapse-All [] = tt
collapse-All (c ∷ s) = (ground arith, collapse-All s)

line_of-IsLine : (s : Bytes) → IsLine (line_of s)
unfolding line_of
line_of-IsLine s = (collapse s, refl, collapse-All s)

numbered-IsLine : (cj : Cjson) (rs : Requests) (id : ℕ) → All IsLine (numbered cj id rs)
unfolding numbered
numbered-IsLine cj [] id = tt
numbered-IsLine cj ((method, params) ∷ rs) id = (line_of-IsLine _, numbered-IsLine cj rs _)

run-numbered :
    (cj : Cjson) (answer : List Bytes → Option Bytes) (rs : Requests) (s : McpServer)
    (log : List Bytes)
    → s.stdin_open ≡ true
    → s.stdout_open ≡ true
    → (run_requests cj answer rs (s, log)).1 ≡ log ++ numbered cj s.next_id rs
unfolding run_requests numbered mcp_rpc send logging
run-numbered cj answer [] s log ein eout = sym (append-nil log)
run-numbered cj answer ((method, params) ∷ rs) s log ein eout =
    let line = line_of (cj.print (request_tree cj method s.next_id params)) in
    let s' : McpServer = record s { next_id = (s.next_id + 1) % 2 ^ 32 } in
    ap (λ (r : Option Tree × McpServer × List Bytes). (run_requests cj answer rs (r.1, r.2)).1)
      (if_true (s.stdin_open && s.stdout_open) _ (none, s, log) (λ i. ein i && eout i))
    ∙ run-numbered cj answer rs s' (log ++ (line ∷ [])) ein eout
    ∙ append_assoc log (line ∷ []) (numbered cj s'.next_id rs)

-- On an open connection every request writes one line, whatever the requests hold and whatever is
-- read: a JSON text with no line feed, then a line feed. The ids count up from `next_id`, modulo
-- 2^32.
pub run_requests-frames :
    (cj : Cjson) (answer : List Bytes → Option Bytes) (rs : Requests) (s : McpServer)
    (log : List Bytes)
    → s.stdin_open ≡ true
    → s.stdout_open ≡ true
    → ((run_requests cj answer rs (s, log)).1 ≡ log ++ numbered cj s.next_id rs)
      × All IsLine (numbered cj s.next_id rs)
run_requests-frames cj answer rs s log ein eout =
    (run-numbered cj answer rs s log ein eout, numbered-IsLine cj rs s.next_id)
