-- ===== src/Providers/Ollama.antt =====
-- The Ollama provider of src/providers/ollama.c. The compatible provider there is the OpenAI
-- provider with the same key and URL.
use tiniclaw.Base.{
  ℕ, ◌+◌, ◌%◌, ◌^◌, Bool, true, false, Option, none, some, [], ◌∷◌, ◌++◌, Bytes, codes, map, clip,
}
use tiniclaw.Json.{Tree, text, boolean, array, object, get_item, get_in, as_text, or_else}
use tiniclaw.Agent.{Role, role_system, role_user, role_assistant, role_tool}
use tiniclaw.Providers.{
  Message, Request, Response, Cjson, create_number, count_or, Curl, http_post_json, failed_with,
  parse_body,
}
use tiniclaw.Providers.Openai.{OpenAiProvider}

unfoldable pub role_text : Role → Bytes
role_text role_system = codes "system"
role_text role_assistant = codes "assistant"
role_text role_user = codes "user"
role_text role_tool = codes "user"

unfoldable pub message_tree : Message → Tree
unfolding object role_text or_else
message_tree m =
    object (
      (codes "role", text (role_text m.role)) ∷ (codes "content", text (or_else [] m.content)) ∷ [])

unfoldable pub build_request : Cjson → Request → Tree
unfolding object array create_number message_tree
build_request cj r = object (
    (codes "model", text r.model)
    ∷ (codes "stream", boolean false)
    ∷ (codes "options", object ((codes "temperature", create_number cj r.temperature) ∷ []))
    ∷ (codes "messages", array (map message_tree r.messages))
    ∷ [])

unfoldable pub parse_root : Tree → Response
unfolding get_item get_in as_text count_or
parse_root root =
    let input : ℕ = count_or 0 (get_item root (codes "prompt_eval_count")) in
    let output : ℕ = count_or 0 (get_item root (codes "eval_count")) in
    record {
      content = as_text (get_in (get_item root (codes "message")) (codes "content"));
      tool_calls = [];
      usage = record {
        prompt_tokens = input;
        completion_tokens = output;
        total_tokens = (input + output) % 2 ^ 32;
      };
      ok = true;
      error_msg = none;
    }

-- An `error` that is not a string is passed over.
unfoldable pub parse_error : Tree → Option Bytes → Bool × Response
unfolding failed_with parse_root
parse_error root (some msg) = failed_with msg
parse_error root none = (true, parse_root root)

unfoldable pub parse_response : Option Tree → Bool × Response
unfolding failed_with parse_error get_item as_text
parse_response none = failed_with (codes "Parse error")
parse_response (some root) = parse_error root (as_text (get_item root (codes "error")))

pub record OllamaProvider : Type 0 where
  pub base_url : Option Bytes

abbrev pub ollama_url : Bytes
ollama_url = codes "http://localhost:11434"

module _ {W : Type 0} (cj : Cjson) (curl : Curl W) where
  unfoldable pub ollama_chat : OllamaProvider → Request → W → Bool × Response × W
  unfolding http_post_json parse_body or_else parse_response build_request
  ollama_chat p r w =
      let url : Bytes = clip 512 (or_else ollama_url p.base_url ++ codes "/api/chat") in
      let (resp, w') = http_post_json curl url none (cj.print (build_request cj r)) w in
      let (rc, out) = parse_body (codes "HTTP failed") parse_response cj resp in (rc, out, w')

-- `nc_compatible_provider_init`: the display name is not kept.
pub compatible_provider_init : Option Bytes → Option Bytes → Option Bytes → OpenAiProvider
compatible_provider_init api_key base_url display_name = record {
  api_key = api_key;
  base_url = base_url;
}
