-- ===== src/Providers.antt =====
-- The providers of src/providers: the request and response types of include/provider.h, with the
-- fields that the agent leaves zero where a provider reads them, and the HTTP call that they share.
-- libcurl and cJSON are parameters; memory does not run out.
pub mod Openai
pub mod Anthropic
pub mod Ollama
pub mod Factory
pub mod Agree
mod Tests
use tiniclaw.Base.{
  ℕ, ◌+◌, ◌%◌, ◌^◌, ◌-◌, Bool, true, false, Option, none, some, List, [], ◌∷◌, ◌++◌, Bytes, codes,
  map, clip, c_string, if◌then◌else◌,
}
use tiniclaw.Base.Int.{ℤ, pos}
use tiniclaw.Json.{Tree, null, boolean, number, text, array_node, object_node, as_text, or_else}
use tiniclaw.Config.Read.{to_word, word_or}
use tiniclaw.Agent.{Role, OwnedMessage, ToolCall, ToolSpec, ChatRequest, ChatResponse}

pub record Message : Type 0 where
  pub role : Role
  pub content : Option Bytes
  pub tool_call_id : Option Bytes

pub record Request : Type 0 where
  pub model : Bytes
  pub temperature : ℕ
  pub max_tokens : ℕ
  pub messages : List Message
  pub tools : List ToolSpec

-- A name that is not there is NULL.
pub record Call : Type 0 where
  pub id : Bytes
  pub name : Option Bytes
  pub arguments : Option Bytes

pub record Usage : Type 0 where
  pub prompt_tokens : ℕ
  pub completion_tokens : ℕ
  pub total_tokens : ℕ

pub record Response : Type 0 where
  pub content : Option Bytes
  pub tool_calls : List Call
  pub usage : Usage
  pub ok : Bool
  pub error_msg : Option Bytes

abbrev pub no_usage : Usage
no_usage = record { prompt_tokens = 0; completion_tokens = 0; total_tokens = 0 }

-- `memset(out, 0, sizeof *out)`
abbrev pub no_response : Response
no_response = record {
  content = none;
  tool_calls = [];
  usage = no_usage;
  ok = false;
  error_msg = none;
}

-- What `nc_agent_turn` asks for: its messages have no call's id.
pub message_of : OwnedMessage → Message
message_of m = record { role = m.role; content = some m.content; tool_call_id = none }

unfoldable pub request_of : ChatRequest → Request
unfolding message_of
request_of r = record {
  model = r.model;
  temperature = r.temperature;
  max_tokens = r.max_tokens;
  messages = map message_of r.messages;
  tools = r.tools;
}

-- The agent compares every name with its tools' names, so it takes a response whose names are there.
unfoldable pub named : List Call → Option (List ToolCall)
named [] = some []
named (c ∷ cs) = elim c.name [
  | none ↦ none
  | some name ↦ elim (named cs) [
    | none ↦ none
    | some calls ↦ some (record { id = some c.id; name = name; arguments = c.arguments } ∷ calls)
  ]
]

-- What the conversions and libraries outside do: `(double)n` of a word, the `valueint` that cJSON has
-- for a double, a double cut off to an integer, the parser and the printer.
pub record Cjson : Type 0 where
  pub to_double : ℕ → ℕ
  pub valueint : ℕ → ℤ
  pub truncate : ℕ → ℤ
  pub parse : Bytes → Option Tree
  pub print : Tree → Bytes

-- `cJSON_CreateNumber`
unfoldable pub create_number : Cjson → ℕ → Tree
create_number cj w = number w (cj.valueint w)

-- A string child, or else a default.
unfoldable pub text_in : Bytes → Option Tree → Bytes
unfolding or_else as_text
text_in d o = or_else d (as_text o)

-- `if (v) field = (uint32_t)v->valueint`: on a child that is not a number `valueint` is 0, but for
-- `true`, where cJSON sets it to 1.
unfoldable pub valueint_of : Tree → ℤ
valueint_of (number w n) = n
valueint_of null = pos 0
valueint_of (boolean true) = pos 1
valueint_of (boolean false) = pos 0
valueint_of (text s) = pos 0
valueint_of (array_node vs) = pos 0
valueint_of (object_node ms) = pos 0

unfoldable pub count_or : ℕ → Option Tree → ℕ
unfolding valueint_of to_word
count_or old none = old
count_or old (some v) = to_word 32 (valueint_of v)

-- One POST by libcurl: `none` where `curl_easy_init` fails, otherwise whether the transfer succeeded,
-- and what came in, `none` where nothing did.
pub record Reply : Type 0 where
  pub ok : Bool
  pub body : Option Bytes

abbrev pub Curl : Type 0 → Type 0
Curl W = Bytes → List Bytes → Bytes → W → Option Reply × W

-- `nc_http_post_json`
unfoldable pub reply_body : Option Reply → Option Bytes
reply_body none = none
reply_body (some r) = if r.ok then r.body else none

unfoldable pub auth_headers : Option Bytes → List Bytes
auth_headers none = codes "Content-Type: application/json" ∷ []
auth_headers (some auth) = codes "Content-Type: application/json" ∷ auth ∷ []

unfoldable pub http_post_json :
    {W : Type 0} → Curl W → Bytes → Option Bytes → Bytes → W → Option Bytes × W
unfolding reply_body auth_headers
http_post_json curl url auth body w =
    let (r, w') = curl url (auth_headers auth) body w in (reply_body r, w')

-- A response that only says what went wrong.
unfoldable pub failed_with : Bytes → Bool × Response
failed_with msg = (false, record no_response { error_msg = some msg })

-- What a provider does with the body: the message, where there is none.
unfoldable pub parse_body :
    Bytes → (Option Tree → Bool × Response) → Cjson → Option Bytes → Bool × Response
unfolding failed_with
parse_body msg parse_tree cj none = failed_with msg
parse_body msg parse_tree cj (some body) = parse_tree (cj.parse (c_string body))
