-- ===== src/Providers/Openai.antt =====
-- src/providers/openai.c.
pub mod Answers
use tiniclaw.Base.{
  ℕ, Bool, true, false, Option, none, some, List, [], ◌∷◌, ◌++◌, Bytes, codes, map, clip, ◌==◌,
  if◌then◌else◌,
}
use tiniclaw.Json.{
  Tree, Object, text, number, array, object, get_item, get_in, as_text, as_items, or_else,
}
use tiniclaw.Agent.{Role, role_system, role_user, role_assistant, role_tool, ToolSpec}
use tiniclaw.Providers.{
  Message, Request, Call, Usage, Response, no_usage, no_response, Cjson, create_number, text_in,
  count_or, Curl, http_post_json, failed_with, parse_body,
}

unfoldable pub role_text : Role → Bytes
role_text role_system = codes "system"
role_text role_assistant = codes "assistant"
role_text role_tool = codes "tool"
role_text role_user = codes "user"

unfoldable pub id_member : Role → Option Bytes → Object
id_member role_tool (some id) = (codes "tool_call_id", text id) ∷ []
id_member role_tool none = []
id_member role_system id = []
id_member role_user id = []
id_member role_assistant id = []

unfoldable pub message_tree : Message → Tree
unfolding object role_text or_else id_member
message_tree m = object (
    (codes "role", text (role_text m.role))
    ∷ (codes "content", text (or_else [] m.content))
    ∷ id_member m.role m.tool_call_id)

unfoldable pub optional : Bytes → Option Tree → Object
optional key none = []
optional key (some v) = (key, v) ∷ []

unfoldable pub tool_tree : Cjson → ToolSpec → Tree
unfolding object optional
tool_tree cj t = object (
    (codes "type", text (codes "function"))
    ∷ (
      codes "function",
      object (
          (codes "name", text t.name)
          ∷ (codes "description", text t.description)
          ∷ optional (codes "parameters") (cj.parse t.parameters_json)),
    )
    ∷ [])

unfoldable pub tools_members : Cjson → List ToolSpec → Object
unfolding array tool_tree
tools_members cj [] = []
tools_members cj (t ∷ ts) =
    (codes "tools", array (map (tool_tree cj) (t ∷ ts)))
    ∷ (codes "tool_choice", text (codes "auto"))
    ∷ []

unfoldable pub max_tokens_member : Cjson → ℕ → Object
unfolding create_number
max_tokens_member cj n =
    if n == 0 then [] else (codes "max_tokens", create_number cj (cj.to_double n)) ∷ []

unfoldable pub build_request : Cjson → Request → Tree
unfolding object array create_number message_tree tools_members max_tokens_member
build_request cj r = object (
    (codes "model", text r.model)
      ∷ (codes "temperature", create_number cj r.temperature)
      ∷ max_tokens_member cj r.max_tokens
    ++ ((codes "messages", array (map message_tree r.messages)) ∷ tools_members cj r.tools))

-- The name and the arguments stay NULL where the item has no `function`.
unfoldable pub call_of : Option Tree → Bytes → Call
unfolding get_item text_in
call_of none id = record { id = id; name = none; arguments = none }
call_of (some fn) id = record {
  id = id;
  name = some (text_in [] (get_item fn (codes "name")));
  arguments = some (text_in (codes "{}") (get_item fn (codes "arguments")));
}

unfoldable pub tool_call : Tree → Call
unfolding call_of get_item text_in
tool_call tc = call_of (get_item tc (codes "function")) (text_in [] (get_item tc (codes "id")))

unfoldable pub tool_calls_of : Option (List Tree) → List Call
unfolding tool_call
tool_calls_of none = []
tool_calls_of (some vs) = map tool_call vs

unfoldable pub usage_of : Option Tree → Usage
unfolding count_or get_item
usage_of none = no_usage
usage_of (some usage) = record {
  prompt_tokens = count_or 0 (get_item usage (codes "prompt_tokens"));
  completion_tokens = count_or 0 (get_item usage (codes "completion_tokens"));
  total_tokens = count_or 0 (get_item usage (codes "total_tokens"));
}

unfoldable pub parse_message : Tree → Option Tree → Bool × Response
unfolding as_text get_item as_items tool_calls_of usage_of
parse_message root none = (false, no_response)
parse_message root (some message) = (
  true,
  record {
    content = as_text (get_item message (codes "content"));
    tool_calls = tool_calls_of (as_items (get_item message (codes "tool_calls")));
    usage = usage_of (get_item root (codes "usage"));
    ok = true;
    error_msg = none;
  },
)

unfoldable pub parse_choices : Tree → Option (List Tree) → Bool × Response
unfolding failed_with parse_message get_item
parse_choices root none = failed_with (codes "No choices in response")
parse_choices root (some []) = failed_with (codes "No choices in response")
parse_choices root (some (choice ∷ choices)) =
    parse_message root (get_item choice (codes "message"))

unfoldable pub parse_error : Tree → Option Tree → Bool × Response
unfolding failed_with text_in get_item parse_choices as_items
parse_error root (some error) =
    failed_with (text_in (codes "API error") (get_item error (codes "message")))
parse_error root none = parse_choices root (as_items (get_item root (codes "choices")))

-- Whether 0 is returned, with the response.
unfoldable pub parse_response : Option Tree → Bool × Response
unfolding failed_with parse_error get_item
parse_response none = failed_with (codes "Failed to parse response JSON")
parse_response (some root) = parse_error root (get_item root (codes "error"))

pub record OpenAiProvider : Type 0 where
  pub api_key : Option Bytes
  pub base_url : Option Bytes

abbrev pub openai_url : Bytes
openai_url = codes "https://api.openai.com/v1/chat/completions"

module _ {W : Type 0} (cj : Cjson) (curl : Curl W) where
  unfoldable pub openai_chat : OpenAiProvider → Request → W → Bool × Response × W
  unfolding http_post_json parse_body or_else parse_response build_request
  openai_chat p r w =
      let auth : Bytes = clip 600 (codes "Authorization: Bearer " ++ or_else [] p.api_key) in
      let (resp, w') =
        http_post_json curl (or_else openai_url p.base_url) (some auth)
          (cj.print (build_request cj r)) w in
      let (rc, out) = parse_body (codes "HTTP request failed") parse_response cj resp in
      (rc, out, w')
