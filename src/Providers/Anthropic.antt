-- ===== src/Providers/Anthropic.antt =====
-- src/providers/anthropic.c.
pub mod Answers
pub mod Requests
use tiniclaw.Base.{
  ℕ, ◌+◌, ◌%◌, ◌^◌, Bool, true, false, Option, none, some, List, [], ◌∷◌, ◌++◌, Bytes, codes, map,
  clip, c_string, str_eq, ◌==◌, if◌then◌else◌,
}
use tiniclaw.Json.{
  Tree, Object, text, number, array, object, get_item, get_in, as_text, as_items, or_else, null,
  boolean, array_node, object_node,
}
use tiniclaw.Agent.{Role, role_system, role_user, role_assistant, role_tool, ToolSpec}
use tiniclaw.Config.Read.{to_word}
use tiniclaw.Providers.{
  Message, Request, Call, Usage, Response, no_usage, no_response, Cjson, create_number, text_in,
  Curl, Reply, failed_with, parse_body,
}
use tiniclaw.Providers.Openai.{optional}

unfoldable pub is_system : Role → Bool
is_system role_system = true
is_system role_user = false
is_system role_assistant = false
is_system role_tool = false

unfoldable pub role_text : Role → Bytes
role_text role_assistant = codes "assistant"
role_text role_system = codes "user"
role_text role_user = codes "user"
role_text role_tool = codes "user"

unfoldable pub message_tree : Message → Tree
unfolding object role_text or_else
message_tree m =
    object (
      (codes "role", text (role_text m.role)) ∷ (codes "content", text (or_else [] m.content)) ∷ [])

-- A system message is a member of the root; the other messages are items of the array.
unfoldable pub system_members : List Message → Object
unfolding is_system or_else
system_members [] = []
system_members (m ∷ ms) =
    let rest = system_members ms in
    if is_system m.role then (codes "system", text (or_else [] m.content)) ∷ rest else rest

unfoldable pub message_items : List Message → List Tree
unfolding is_system message_tree
message_items [] = []
message_items (m ∷ ms) =
    let rest = message_items ms in if is_system m.role then rest else message_tree m ∷ rest

unfoldable pub tool_tree : Cjson → ToolSpec → Tree
unfolding object optional
tool_tree cj t = object (
    (codes "name", text t.name)
    ∷ (codes "description", text t.description)
    ∷ optional (codes "input_schema") (cj.parse t.parameters_json))

unfoldable pub tools_members : Cjson → List ToolSpec → Object
unfolding array tool_tree
tools_members cj [] = []
tools_members cj (t ∷ ts) = (codes "tools", array (map (tool_tree cj) (t ∷ ts))) ∷ []

unfoldable pub request_members : Cjson → Request → Object
unfolding array create_number system_members message_items tools_members
request_members cj r =
    (codes "model", text r.model)
    ∷ (
      codes "max_tokens",
      create_number cj (cj.to_double (if r.max_tokens == 0 then 8192 else r.max_tokens)),
    )
    ∷ (system_members r.messages
        ++ ((codes "messages", array (message_items r.messages)) ∷ tools_members cj r.tools))

unfoldable pub build_request : Cjson → Request → Tree
unfolding object request_members
build_request cj r = object (request_members cj r)

-- What a block adds to the text, and the call that it is.
unfoldable pub has_type : Bytes → Tree → Bool
unfolding get_item as_text
has_type type block = elim (as_text (get_item block (codes "type"))) [
  | none ↦ false
  | some s ↦ str_eq s type
]

unfoldable pub block_text : Tree → Bytes
unfolding has_type text_in get_item
block_text block =
    if has_type (codes "text") block then text_in [] (get_item block (codes "text")) else []

unfoldable pub texts : List Tree → Bytes
unfolding block_text
texts [] = []
texts (b ∷ bs) = block_text b ++ texts bs

unfoldable pub arguments_of : Cjson → Option Tree → Bytes
arguments_of cj none = codes "{}"
arguments_of cj (some input) = cj.print input

unfoldable pub block_call : Cjson → Tree → Call
unfolding text_in get_item arguments_of
block_call cj block = record {
  id = text_in [] (get_item block (codes "id"));
  name = some (text_in [] (get_item block (codes "name")));
  arguments = some (arguments_of cj (get_item block (codes "input")));
}

unfoldable pub calls : Cjson → List Tree → List Call
unfolding has_type block_call
calls cj [] = []
calls cj (b ∷ bs) =
    let rest = calls cj bs in if has_type (codes "tool_use") b then block_call cj b ∷ rest else rest

-- `v->valuedouble`: cJSON sets it for a number; on any other child it is zero.
unfoldable pub valuedouble_of : Tree → ℕ
valuedouble_of (number w n) = w
valuedouble_of null = 0
valuedouble_of (boolean b) = 0
valuedouble_of (text s) = 0
valuedouble_of (array_node vs) = 0
valuedouble_of (object_node ms) = 0

unfoldable pub tokens_of : Cjson → Option Tree → ℕ
unfolding valuedouble_of to_word
tokens_of cj none = 0
tokens_of cj (some v) = to_word 32 (cj.truncate (valuedouble_of v))

unfoldable pub usage_of : Cjson → Option Tree → Usage
unfolding tokens_of get_item
usage_of cj none = no_usage
usage_of cj (some usage) =
    let input : ℕ = tokens_of cj (get_item usage (codes "input_tokens")) in
    let output : ℕ = tokens_of cj (get_item usage (codes "output_tokens")) in
    record {
      prompt_tokens = input;
      completion_tokens = output;
      total_tokens = (input + output) % 2 ^ 32;
    }

unfoldable pub parse_content : Cjson → Tree → Option (List Tree) → Bool × Response
unfolding failed_with texts calls usage_of get_item
parse_content cj root none = failed_with (codes "No content array")
parse_content cj root (some blocks) = (
  true,
  record {
    content = some (texts blocks);
    tool_calls = calls cj blocks;
    usage = usage_of cj (get_item root (codes "usage"));
    ok = true;
    error_msg = none;
  },
)

unfoldable pub parse_error : Cjson → Tree → Option Tree → Bool × Response
unfolding failed_with text_in get_item as_items parse_content
parse_error cj root (some err) =
    failed_with (text_in (codes "Anthropic API error") (get_item err (codes "message")))
parse_error cj root none = parse_content cj root (as_items (get_item root (codes "content")))

unfoldable pub parse_response : Cjson → Option Tree → Bool × Response
unfolding failed_with parse_error get_item
parse_response cj none = failed_with (codes "Parse error")
parse_response cj (some root) = parse_error cj root (get_item root (codes "error"))

pub record AnthropicProvider : Type 0 where
  pub api_key : Option Bytes
  pub base_url : Option Bytes

abbrev pub anthropic_url : Bytes
anthropic_url = codes "https://api.anthropic.com/v1/messages"

unfoldable pub url_or : Bytes → Option Bytes → Bytes
url_or d none = d
url_or d (some []) = d
url_or d (some (c ∷ url)) = c ∷ url

-- Whether the transfer succeeded is not looked at: what came in is parsed.
unfoldable pub parse_reply : Cjson → Option Reply → Bool × Response
unfolding failed_with parse_body parse_response
parse_reply cj none = failed_with (codes "curl init failed")
parse_reply cj (some r) = parse_body (codes "HTTP request failed") (parse_response cj) cj r.body

module _ {W : Type 0} (cj : Cjson) (curl : Curl W) where
  unfoldable pub anthropic_chat : AnthropicProvider → Request → W → Bool × Response × W
  unfolding parse_reply build_request or_else url_or
  anthropic_chat p r w =
      let auth : Bytes = clip 600 (codes "x-api-key: " ++ or_else [] p.api_key) in
      let headers : List Bytes =
        codes "Content-Type: application/json"
        ∷ auth
        ∷ codes "anthropic-version: 2023-06-01"
        ∷ codes "anthropic-beta: tools-2024-04-04"
        ∷ [] in
      let (reply, w') =
        curl (url_or anthropic_url p.base_url) headers (cj.print (build_request cj r)) w in
      let (rc, out) = parse_reply cj reply in (rc, out, w')
