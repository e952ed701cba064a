-- ===== src/Providers/Anthropic/Requests.antt =====
-- How `build_anthropic_request` divides the conversation between `system` and `messages`.
use tiniclaw.Base.{
  ◌≡◌, refl, ap, ◌∙◌, Option, none, some, List, [], ◌∷◌, ◌++◌, map, Bytes, codes, str_eq,
  if◌then◌else◌, Bool-cases, inl, inr,
}
use tiniclaw.Json.{
  Tree, Object, text, array, get_item, get_item-object, lookup, as_items, items-array, or_else,
}
use tiniclaw.Agent.{ToolSpec}
use tiniclaw.Providers.{Message, Request, Cjson}
use tiniclaw.Providers.Anthropic.{
  is_system, message_tree, system_members, message_items, tools_members, request_members,
  build_request,
}

-- The first system message, and the others without the system messages.
unfoldable pub first_system : List Message → Option Bytes
first_system [] = none
first_system (m ∷ ms) =
    let rest = first_system ms in if is_system m.role then some (or_else [] m.content) else rest

unfoldable pub spoken : List Message → List Message
spoken [] = []
spoken (m ∷ ms) = let rest = spoken ms in if is_system m.role then rest else m ∷ rest

items_spoken : (ms : List Message) → message_items ms ≡ map message_tree (spoken ms)
unfolding message_items spoken
items_spoken [] = refl
items_spoken (m ∷ ms) = elim (Bool-cases (is_system m.role)) [
  | inl e ↦ rw e (items_spoken ms)
  | inr e ↦ rw e (ap (λ (vs : List Tree). message_tree m ∷ vs) (items_spoken ms))
]

abbrev pub text_node : Option Bytes → Option Tree
text_node none = none
text_node (some s) = some (text s)

-- In the members of the system messages, then the rest, `system` is the first system message.
system_first :
    (ms : List Message) (rest : Object)
    → lookup rest (codes "system") ≡ none
    → lookup (system_members ms ++ rest) (codes "system") ≡ text_node (first_system ms)
unfolding system_members first_system lookup str_eq
system_first [] rest h = h
system_first (m ∷ ms) rest h = elim (Bool-cases (is_system m.role)) [
  | inl e ↦ rw e refl
  | inr e ↦ rw e (system_first ms rest h)
]

messages_behind :
    (ms : List Message) (rest : Object)
    → lookup (system_members ms ++ rest) (codes "messages") ≡ lookup rest (codes "messages")
unfolding system_members lookup str_eq
messages_behind [] rest = refl
messages_behind (m ∷ ms) rest = elim (Bool-cases (is_system m.role)) [
  | inl e ↦ rw e (messages_behind ms rest)
  | inr e ↦ rw e (messages_behind ms rest)
]

no_system : (cj : Cjson) (ts : List ToolSpec) → lookup (tools_members cj ts) (codes "system") ≡ none
unfolding tools_members lookup str_eq
no_system cj [] = refl
no_system cj (t ∷ ts) = refl

-- Of the body of a request, `system` is the text of the first system message, and is not there without
-- one; `messages` holds the messages of the other roles, each once and in order.
pub build_request-divides :
    (cj : Cjson) (r : Request)
    → (get_item (build_request cj r) (codes "system") ≡ text_node (first_system r.messages))
      × (as_items (get_item (build_request cj r) (codes "messages"))
          ≡ some (map message_tree (spoken r.messages)))
unfolding build_request request_members as_items lookup str_eq
build_request-divides cj r =
    let rest : Object =
      (codes "messages", array (message_items r.messages)) ∷ tools_members cj r.tools in
    (
      get_item-object (request_members cj r) (codes "system")
          ∙ system_first r.messages rest (no_system cj r.tools),
      ap as_items (
            get_item-object (request_members cj r) (codes "messages")
            ∙ messages_behind r.messages rest)
          ∙ items-array (message_items r.messages)
          ∙ ap some (items_spoken r.messages),
    )
