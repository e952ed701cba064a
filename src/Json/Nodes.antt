-- ===== src/Json/Nodes.antt =====
-- The types of a tree, and the lists of its children.
use tiniclaw.Base.{
  ℕ, Bool, ◌≡◌, refl, ap, Option, none, some, List, [], ◌∷◌, Bytes, str_eq, if◌then◌else◌,
}
use tiniclaw.Base.Int.{ℤ}

mutual
  pub data Tree : Type 0 where
    null : Tree
    boolean : Bool → Tree
    number : ℕ → ℤ → Tree
    text : Bytes → Tree
    array_node : Items → Tree
    object_node : Members → Tree

  pub data Items : Type 0 where
    nil : Items
    item : Tree → Items → Items

  pub data Members : Type 0 where
    empty : Members
    member : Bytes → Tree → Members → Members

abbrev pub Object : Type 0
Object = List (Bytes × Tree)

-- `cJSON_CreateArray` and `cJSON_AddItemToArray`; `cJSON_CreateObject` and `cJSON_AddItemToObject`,
-- which adds at the end also where the name is there.
unfoldable pub to_items : List Tree → Items
to_items [] = nil
to_items (v ∷ vs) = item v (to_items vs)

unfoldable pub to_members : Object → Members
to_members [] = empty
to_members ((k, v) ∷ ms) = member k v (to_members ms)

unfoldable pub array : List Tree → Tree
unfolding to_items
array vs = array_node (to_items vs)

unfoldable pub object : Object → Tree
unfolding to_members
object ms = object_node (to_members ms)

unfoldable pub from_items : Items → List Tree
from_items nil = []
from_items (item v vs) = v ∷ from_items vs

unfoldable pub from_members : Members → Object
from_members empty = []
from_members (member k v ms) = (k, v) ∷ from_members ms

-- The children that `cJSON_IsArray`, or `cJSON_IsObject`, and `cJSON_ArrayForEach` go through.
unfoldable pub items : Tree → Option (List Tree)
unfolding from_items
items (array_node vs) = some (from_items vs)
items null = none
items (boolean b) = none
items (number w n) = none
items (text s) = none
items (object_node ms) = none

unfoldable pub members : Tree → Option Object
unfolding from_members
members (object_node ms) = some (from_members ms)
members null = none
members (boolean b) = none
members (number w n) = none
members (text s) = none
members (array_node vs) = none

unfoldable pub lookup : Object → Bytes → Option Tree
lookup [] key = none
lookup ((k, v) ∷ ms) key = let rest = lookup ms key in if str_eq k key then some v else rest

unfoldable pub lookup_in : Option Object → Bytes → Option Tree
lookup_in none key = none
lookup_in (some ms) key = lookup ms key

-- `cJSON_GetObjectItemCaseSensitive`: the first child of the name.
unfoldable pub get_item : Tree → Bytes → Option Tree
unfolding lookup_in members
get_item v key = lookup_in (members v) key

-- `p && cJSON_IsString(p)`, with the text.
unfoldable pub as_text : Option Tree → Option Bytes
as_text (some (text s)) = some s
as_text none = none
as_text (some null) = none
as_text (some (boolean b)) = none
as_text (some (number w n)) = none
as_text (some (array_node vs)) = none
as_text (some (object_node ms)) = none

unfoldable pub as_number : Option Tree → Option (ℕ × ℤ)
as_number (some (number w n)) = some (w, n)
as_number none = none
as_number (some null) = none
as_number (some (boolean b)) = none
as_number (some (text s)) = none
as_number (some (array_node vs)) = none
as_number (some (object_node ms)) = none

unfoldable pub as_boolean : Option Tree → Option Bool
as_boolean (some (boolean b)) = some b
as_boolean none = none
as_boolean (some null) = none
as_boolean (some (text s)) = none
as_boolean (some (number w n)) = none
as_boolean (some (array_node vs)) = none
as_boolean (some (object_node ms)) = none

unfoldable pub as_items : Option Tree → Option (List Tree)
as_items none = none
as_items (some v) = items v

unfoldable pub as_members : Option Tree → Option Object
as_members none = none
as_members (some v) = members v

unfoldable pub or_else {ℓ} : {A : Type ℓ} → A → Option A → A
or_else d none = d
or_else d (some a) = a

-- The child of a child, where there is one.
unfoldable pub get_in : Option Tree → Bytes → Option Tree
get_in none key = none
get_in (some v) key = get_item v key

pub from_items-to_items : (vs : List Tree) → from_items (to_items vs) ≡ vs
unfolding to_items from_items
from_items-to_items [] = refl
from_items-to_items (v ∷ vs) = ap (λ r. v ∷ r) (from_items-to_items vs)

pub from_members-to_members : (ms : Object) → from_members (to_members ms) ≡ ms
unfolding to_members from_members
from_members-to_members [] = refl
from_members-to_members ((k, v) ∷ ms) = ap (λ r. (k, v) ∷ r) (from_members-to_members ms)

pub items-array : (vs : List Tree) → items (array vs) ≡ some vs
unfolding items array
items-array vs = ap some (from_items-to_items vs)

pub members-object : (ms : Object) → members (object ms) ≡ some ms
unfolding members object
members-object ms = ap some (from_members-to_members ms)

pub get_item-object : (ms : Object) (key : Bytes) → get_item (object ms) key ≡ lookup ms key
unfolding get_item lookup_in
get_item-object ms key = ap (λ o. lookup_in o key) (members-object ms)
