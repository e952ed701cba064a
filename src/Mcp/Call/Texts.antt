-- ===== src/Mcp/Call/Texts.antt =====
-- The text that a reply of an MCP server becomes.
use tiniclaw.Base.{
  ◌≡◌, refl, ap, ◌∙◌, some, List, [], ◌∷◌, ◌++◌, append-nil, map, Bytes, codes, str_eq,
  if◌then◌else◌,
}
use tiniclaw.Json.{
  Tree, text, array, object, get_item, get_in, members, from_members, to_members, from_items,
  to_items, from_items-to_items, items, lookup, lookup_in, as_text, as_items, or_else,
}
use tiniclaw.Providers.{text_in}
use tiniclaw.Mcp.Call.{text_if, item_text, item_texts, result_text, response_text}

-- A content item of a type, with its text; and a reply that holds such items, or an error.
unfoldable pub content_item : Bytes × Bytes → Tree
unfolding object
content_item (type, s) = object ((codes "type", text type) ∷ (codes "text", text s) ∷ [])

unfoldable pub content_reply : List (Bytes × Bytes) → Tree
unfolding object array content_item
content_reply cs = object (
    (codes "jsonrpc", text (codes "2.0"))
    ∷ (codes "result", object ((codes "content", array (map content_item cs)) ∷ []))
    ∷ [])

unfoldable pub error_reply : Bytes → Tree
unfolding object
error_reply msg = object (
    (codes "jsonrpc", text (codes "2.0"))
    ∷ (codes "error", object ((codes "message", text msg) ∷ []))
    ∷ [])

-- The texts of the items of the type `text`, joined.
unfoldable pub joined : List (Bytes × Bytes) → Bytes
joined [] = []
joined ((type, s) ∷ cs) = (if str_eq type (codes "text") then s else []) ++ joined cs

texts-joined : (cs : List (Bytes × Bytes)) → item_texts (map content_item cs) ≡ joined cs
unfolding item_texts item_text text_if content_item joined or_else get_item as_text members
    from_members object to_members lookup lookup_in str_eq
texts-joined [] = refl
texts-joined ((type, s) ∷ cs) =
    ap (λ (r : Bytes). (if str_eq type (codes "text") then s else []) ++ r) (texts-joined cs)

content_text : (cs : List (Bytes × Bytes)) → response_text (some (content_reply cs)) ≡ joined cs
unfolding response_text result_text content_reply get_item get_in as_items items array to_items
    from_items members from_members object to_members lookup lookup_in or_else str_eq
content_text cs = ap item_texts (from_items-to_items (map content_item cs)) ∙ texts-joined cs

-- A call's answer: of a result the texts of its items of the type `text`, joined in their order; of
-- an error its message. A result with that one text gives the same answer.
pub response_text-reads :
    (cs : List (Bytes × Bytes)) (msg : Bytes)
    → (response_text (some (content_reply cs)) ≡ joined cs)
      × (response_text (some (error_reply msg)) ≡ msg)
      × (response_text (some (content_reply ((codes "text", msg) ∷ []))) ≡ msg)
unfolding response_text result_text error_reply text_in or_else get_item as_text joined members
    from_members object to_members lookup lookup_in str_eq
response_text-reads cs msg =
    (content_text cs, refl, content_text ((codes "text", msg) ∷ []) ∙ append-nil msg)
