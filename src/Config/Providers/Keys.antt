-- ===== src/Config/Providers/Keys.antt =====
-- Which provider a name finds in the array that `parse_providers` fills, and how many there are.
use tiniclaw.Base.{
  ◌+◌, ◌≤◌, ◌≡◌, sym, ◌∙◌, inl, inr, Bool, false, ◌||◌, Option, none, some, List, [], ◌∷◌, ◌++◌,
  map, append_assoc, append-nil, Bytes, codes, clip, length, length-append, str_eq, leb,
  if◌then◌else◌, Bool-cases, arith,
}
use tiniclaw.Json.{Tree, Object, get_item, get_in, as_members, or_else}
use tiniclaw.Config.{ProviderEntry, max_providers}
use tiniclaw.Config.Providers.{
  providers_object, parse_entry, add_entries, key_suffixes, flat_key, add_flat, add_flats,
  parse_providers,
}

unfoldable pub entry_of : Bytes × Tree → ProviderEntry
entry_of m = parse_entry m.0 m.1

unfoldable pub first : Option ProviderEntry → Option ProviderEntry → Option ProviderEntry
first none q = q
first (some p) q = some p

add_entries-le :
    (es : Option Object) (ps : List ProviderEntry)
    → length ps ≤ max_providers
    → length (add_entries es ps) ≤ max_providers
unfolding add_entries
add_entries-le none ps h = h
add_entries-le (some []) ps h = h
add_entries-le (some ((name, entry) ∷ es)) ps h =
    elim (Bool-cases (leb max_providers (length ps))) [
      | inl full ↦ rw full h
      | inr room ↦ rw room (
          add_entries-le (some es) (ps ++ (parse_entry name entry ∷ []))
            (ground (arith, length-append ps (parse_entry name entry ∷ []))))
    ]

add_flat-le :
    (key : Option Bytes) (suffix : Bytes) (ps : List ProviderEntry)
    → length ps ≤ max_providers
    → length (add_flat key suffix ps) ≤ max_providers
unfolding add_flat
add_flat-le none suffix ps h = h
add_flat-le (some key) suffix ps h =
    let p : ProviderEntry = record {
      name = clip 64 suffix;
      api_key = clip 512 key;
      base_url = [];
    } in
    ground (arith, length-append ps (p ∷ []))

add_flats-le :
    (root : Tree) (suffixes : List Bytes) (ps : List ProviderEntry)
    → length ps ≤ max_providers
    → length (add_flats root suffixes ps) ≤ max_providers
unfolding add_flats
add_flats-le root [] ps h = h
add_flats-le root (s ∷ suffixes) ps h =
    add_flats-le root suffixes (add_flat (flat_key root s) s ps)
      (add_flat-le (flat_key root s) s ps h)

-- The array never holds more providers than it has room for.
pub parse_providers-le :
    (root : Tree) (ps : List ProviderEntry)
    → length ps ≤ max_providers
    → length (parse_providers root ps) ≤ max_providers
unfolding parse_providers
parse_providers-le root ps h = add_flats-le root key_suffixes _ (add_entries-le _ ps h)

pub add_entries-map :
    (es : Object) (ps : List ProviderEntry)
    → length ps + length es ≤ max_providers
    → add_entries (some es) ps ≡ ps ++ map entry_of es
unfolding add_entries entry_of
add_entries-map [] ps h = sym (append-nil ps)
add_entries-map ((name, entry) ∷ es) ps h =
    let e = parse_entry name entry in
    let room : leb max_providers (length ps) ≡ false = ground arith in
    rw room (
      add_entries-map es (ps ++ (e ∷ [])) (omega (arith, length-append ps (e ∷ [])))
      ∙ append_assoc ps (e ∷ []) (map entry_of es))

-- The entry of a flat key.
unfoldable pub flat_entry : Option Bytes → Bytes → Option ProviderEntry
flat_entry none suffix = none
flat_entry (some key) suffix =
    some (record { name = clip 64 suffix; api_key = clip 512 key; base_url = [] })

if_name : Bytes → Bytes → Option ProviderEntry → Option ProviderEntry
if_name suffix name p = if str_eq suffix name then p else none

flat_find : Tree → List Bytes → Bytes → Option ProviderEntry
flat_find root [] name = none
flat_find root (s ∷ suffixes) name =
    first (if_name s name (flat_entry (flat_key root s) s)) (flat_find root suffixes name)

unfoldable pub is_among : Bytes → List Bytes → Bool
is_among name [] = false
is_among name (s ∷ suffixes) = str_eq s name || is_among name suffixes

-- The entries that the file lists.
unfoldable pub listed : Tree → Object
listed root = or_else [] (
    as_members
      (providers_object (get_in (get_item root (codes "models")) (codes "providers")) root))
