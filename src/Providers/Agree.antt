-- ===== src/Providers/Agree.antt =====
-- One answer in the wire formats of OpenAI and of Anthropic: both providers read the same response.
use tiniclaw.Base.{
  ◌≡◌, refl, ap, ◌∙◌, true, none, some, List, [], ◌∷◌, ◌++◌, map, Bytes, codes, str_eq,
}
use tiniclaw.Json.{
  Tree, text, array, object, get_item, members, from_members, to_members, lookup, lookup_in,
  as_text, as_items, items, to_items, from_items, from_items-to_items, or_else,
}
use tiniclaw.Providers.{Call, Response, no_usage, Cjson, text_in}
use tiniclaw.Providers.Openai
use tiniclaw.Providers.Anthropic

-- A part of an answer: text, or a tool's use with its id, its name and its input.
pub data Part : Type 0 where
  said : Bytes → Part
  used : Bytes → Bytes → Tree → Part

unfoldable pub text_of : List Part → Bytes
text_of [] = []
text_of (said s ∷ ps) = s ++ text_of ps
text_of (used id name input ∷ ps) = text_of ps

abbrev pub call_for : Cjson → Bytes → Bytes → Tree → Call
call_for cj id name input = record { id = id; name = some name; arguments = some (cj.print input) }

unfoldable pub calls_of : Cjson → List Part → List Call
calls_of cj [] = []
calls_of cj (said s ∷ ps) = calls_of cj ps
calls_of cj (used id name input ∷ ps) = call_for cj id name input ∷ calls_of cj ps

unfoldable pub response_of : Cjson → List Part → Response
response_of cj ps = record {
  content = some (text_of ps);
  tool_calls = calls_of cj ps;
  usage = no_usage;
  ok = true;
  error_msg = none;
}

-- OpenAI's format: the text in one string, and the calls in an array with their arguments printed.
unfoldable pub openai_calls : Cjson → List Part → List Tree
unfolding object
openai_calls cj [] = []
openai_calls cj (said s ∷ ps) = openai_calls cj ps
openai_calls cj (used id name input ∷ ps) =
    object (
      (codes "id", text id)
      ∷ (codes "type", text (codes "function"))
      ∷ (
        codes "function",
        object ((codes "name", text name) ∷ (codes "arguments", text (cj.print input)) ∷ []),
      )
      ∷ [])
    ∷ openai_calls cj ps

unfoldable pub openai_answer : Cjson → List Part → Tree
unfolding object array openai_calls
openai_answer cj ps = object (
    (codes "object", text (codes "chat.completion"))
    ∷ (
      codes "choices",
      array (
          object (
            (
              codes "message",
              object (
                  (codes "role", text (codes "assistant"))
                  ∷ (codes "content", text (text_of ps))
                  ∷ (codes "tool_calls", array (openai_calls cj ps))
                  ∷ []),
            )
            ∷ [])
          ∷ []),
    )
    ∷ [])

-- Anthropic's format: a block for each part.
unfoldable pub anthropic_block : Part → Tree
unfolding object
anthropic_block (said s) =
    object ((codes "type", text (codes "text")) ∷ (codes "text", text s) ∷ [])
anthropic_block (used id name input) = object (
    (codes "type", text (codes "tool_use"))
    ∷ (codes "id", text id)
    ∷ (codes "name", text name)
    ∷ (codes "input", input)
    ∷ [])

unfoldable pub anthropic_answer : List Part → Tree
unfolding object array anthropic_block
anthropic_answer ps = object (
    (codes "type", text (codes "message"))
    ∷ (codes "role", text (codes "assistant"))
    ∷ (codes "content", array (map anthropic_block ps))
    ∷ [])

openai_calls_read :
    (cj : Cjson) (ps : List Part) → map Openai.tool_call (openai_calls cj ps) ≡ calls_of cj ps
unfolding openai_calls calls_of Openai.tool_call Openai.call_of text_in or_else get_item as_text
    members from_members object to_members lookup lookup_in str_eq
openai_calls_read cj [] = refl
openai_calls_read cj (said s ∷ ps) = openai_calls_read cj ps
openai_calls_read cj (used id name input ∷ ps) =
    ap (λ (cs : List Call). call_for cj id name input ∷ cs) (openai_calls_read cj ps)

openai_reads :
    (cj : Cjson) (ps : List Part)
    → Openai.parse_response (some (openai_answer cj ps)) ≡ (true, response_of cj ps)
unfolding response_of openai_answer Openai.parse_response Openai.parse_error Openai.parse_choices
    Openai.parse_message Openai.tool_calls_of Openai.usage_of get_item as_text as_items members
    items array to_items from_items from_members object to_members lookup lookup_in str_eq
openai_reads cj ps =
    let calls =
      ap (map Openai.tool_call) (from_items-to_items (openai_calls cj ps))
      ∙ openai_calls_read cj ps in
    λ i. (true, record (response_of cj ps) { tool_calls = calls i })

texts_read : (ps : List Part) → Anthropic.texts (map anthropic_block ps) ≡ text_of ps
unfolding Anthropic.texts Anthropic.block_text Anthropic.has_type anthropic_block text_of text_in
    or_else get_item as_text members from_members object to_members lookup lookup_in str_eq
texts_read [] = refl
texts_read (said s ∷ ps) = ap (λ (r : Bytes). s ++ r) (texts_read ps)
texts_read (used id name input ∷ ps) = texts_read ps

calls_read :
    (cj : Cjson) (ps : List Part) → Anthropic.calls cj (map anthropic_block ps) ≡ calls_of cj ps
unfolding Anthropic.calls Anthropic.block_call Anthropic.arguments_of Anthropic.has_type
    anthropic_block calls_of text_in or_else get_item as_text members from_members object to_members
    lookup lookup_in str_eq
calls_read cj [] = refl
calls_read cj (said s ∷ ps) = calls_read cj ps
calls_read cj (used id name input ∷ ps) =
    ap (λ (cs : List Call). call_for cj id name input ∷ cs) (calls_read cj ps)

anthropic_reads :
    (cj : Cjson) (ps : List Part)
    → Anthropic.parse_response cj (some (anthropic_answer ps)) ≡ (true, response_of cj ps)
unfolding response_of anthropic_answer Anthropic.parse_response Anthropic.parse_error
    Anthropic.parse_content Anthropic.usage_of get_item as_text as_items members items array
    to_items from_items from_members object to_members lookup lookup_in str_eq
anthropic_reads cj ps =
    let back = from_items-to_items (map anthropic_block ps) in
    λ i. (
      true,
      record (response_of cj ps) {
        content = some ((ap Anthropic.texts back ∙ texts_read ps) i);
        tool_calls = (ap (Anthropic.calls cj) back ∙ calls_read cj ps) i;
      },
    )

-- An answer of texts and tool uses, in any order and number, gives the same in both formats: the
-- texts joined, one call for each use in its order, with the printed input, and 0 is returned.
pub parse_response-agree :
    (cj : Cjson) (ps : List Part)
    → (Openai.parse_response (some (openai_answer cj ps)) ≡ (true, response_of cj ps))
      × (Anthropic.parse_response cj (some (anthropic_answer ps)) ≡ (true, response_of cj ps))
parse_response-agree cj ps = (openai_reads cj ps, anthropic_reads cj ps)
