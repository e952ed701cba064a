-- ===== src/Providers/Tests.antt =====
-- The providers on concrete answers and names.
use tiniclaw.Base.{◌≡◌, ◌↔◌, Bool, true, Option, none, some, List, [], ◌∷◌, map, Bytes, codes, All}
use tiniclaw.Base.Int.{pos}
use tiniclaw.Json.{Tree, text, object, get_item, as_items}
use tiniclaw.Agent.{ToolCall, role_system, role_user}
use tiniclaw.Providers.{Request, Cjson, named, Reply}
use tiniclaw.Providers.Openai
use tiniclaw.Providers.Openai.Answers.{IsAnswer, parse_response_iff, named-tool_calls, HasFunction}
use tiniclaw.Providers.Anthropic
use tiniclaw.Providers.Anthropic.Requests.{text_node, first_system, spoken, build_request-divides}
use tiniclaw.Providers.Agree.{
  Part, said, used, openai_answer, anthropic_answer, response_of, parse_response-agree,
}

abbrev cjson : Cjson
cjson = record {
  to_double = λ n. n;
  valueint = pos;
  truncate = pos;
  parse = λ s. some (text s);
  print = λ v. codes "{}";
}

abbrev parts : List Part
parts = said (codes "one") ∷ used (codes "c1") (codes "shell") (text []) ∷ said (codes "two") ∷ []

parse_response-agree_example :
    (Openai.parse_response (some (openai_answer cjson parts)) ≡ (true, response_of cjson parts))
    × (Anthropic.parse_response cjson (some (anthropic_answer parts))
        ≡ (true, response_of cjson parts))
parse_response-agree_example = parse_response-agree cjson parts

abbrev conversation : Request
conversation = record {
  model = codes "claude-haiku-4";
  temperature = 0;
  max_tokens = 0;
  messages =
      record { role = role_system; content = some (codes "be brief"); tool_call_id = none }
      ∷ record { role = role_user; content = some (codes "hi"); tool_call_id = none }
      ∷ [];
  tools = [];
}

build_request-divides_example :
    (get_item (Anthropic.build_request cjson conversation) (codes "system")
      ≡ text_node (first_system conversation.messages))
    × (as_items (get_item (Anthropic.build_request cjson conversation) (codes "messages"))
        ≡ some (map Anthropic.message_tree (spoken conversation.messages)))
build_request-divides_example = build_request-divides cjson conversation

parse_response_iff_example :
    ((Openai.parse_response (some (openai_answer cjson parts))).0 ≡ true)
    ↔ IsAnswer (openai_answer cjson parts)
parse_response_iff_example = parse_response_iff (openai_answer cjson parts)

-- One call with a function, and one without.
abbrev two_calls : List Tree
two_calls = object ((codes "function", object []) ∷ []) ∷ object [] ∷ []

named-tool_calls_example :
    ((calls : List ToolCall) × (named (map Openai.tool_call two_calls) ≡ some calls))
    ↔ All HasFunction two_calls
named-tool_calls_example = named-tool_calls two_calls

abbrev no_reply : Bytes → Bool → Option Reply × Bool
no_reply body v = (none, v)
