-- ===== src/Config/Providers.antt =====
-- `parse_providers`, `nc_config_get_provider_key` and `nc_config_get_provider_url` of src/config.c.
-- The array and its count are a list, empty when the file is read.
pub mod Keys
use tiniclaw.Base.{
  Bool, true, false, ◌||◌, Option, none, some, List, [], ◌∷◌, ◌++◌, Bytes, codes, clip, length,
  str_eq, leb, if◌then◌else◌,
}
use tiniclaw.Json.{Tree, Object, get_item, get_in, as_text, as_members}
use tiniclaw.Config.{ProviderEntry, max_providers}
use tiniclaw.Config.Read.{safe_str}

-- The child `providers` of `models`, or else that of the root.
unfoldable pub providers_object : Option Tree → Tree → Option Tree
unfolding get_item
providers_object none root = get_item root (codes "providers")
providers_object (some p) root = some p

unfoldable pub parse_entry : Bytes → Tree → ProviderEntry
unfolding safe_str
parse_entry name entry = record {
  name = clip 64 name;
  api_key = safe_str 512 entry (codes "api_key") [];
  base_url = safe_str 512 entry (codes "base_url") [];
}

unfoldable pub add_entries : Option Object → List ProviderEntry → List ProviderEntry
unfolding parse_entry
add_entries none ps = ps
add_entries (some []) ps = ps
add_entries (some ((name, entry) ∷ es)) ps =
    let more = add_entries (some es) (ps ++ (parse_entry name entry ∷ [])) in
    if leb max_providers (length ps) then ps else more

abbrev pub key_suffixes : List Bytes
key_suffixes =
    codes "openai"
    ∷ codes "anthropic"
    ∷ codes "groq"
    ∷ codes "mistral"
    ∷ codes "together"
    ∷ codes "fireworks"
    ∷ codes "perplexity"
    ∷ codes "deepseek"
    ∷ codes "xai"
    ∷ codes "cohere"
    ∷ codes "openrouter"
    ∷ codes "gemini"
    ∷ codes "ollama"
    ∷ []

unfoldable pub has_provider : List ProviderEntry → Bytes → Bool
has_provider [] name = false
has_provider (p ∷ ps) name = str_eq p.name name || has_provider ps name

-- The text under `<suffix>_api_key`, where it is not empty.
unfoldable pub flat_key : Tree → Bytes → Option Bytes
unfolding get_item as_text
flat_key root suffix = elim (as_text (get_item root (suffix ++ codes "_api_key"))) [
  | none ↦ none
  | some [] ↦ none
  | some (c ∷ key) ↦ some (c ∷ key)
]

unfoldable pub add_flat : Option Bytes → Bytes → List ProviderEntry → List ProviderEntry
unfolding has_provider
add_flat none suffix ps = ps
add_flat (some key) suffix ps =
    if has_provider ps suffix || leb max_providers (length ps)
    then ps
    else ps ++ (record { name = clip 64 suffix; api_key = clip 512 key; base_url = [] } ∷ [])

unfoldable pub add_flats : Tree → List Bytes → List ProviderEntry → List ProviderEntry
unfolding add_flat flat_key
add_flats root [] ps = ps
add_flats root (suffix ∷ suffixes) ps =
    add_flats root suffixes (add_flat (flat_key root suffix) suffix ps)

unfoldable pub parse_providers : Tree → List ProviderEntry → List ProviderEntry
unfolding get_in get_item as_members providers_object add_entries add_flats
parse_providers root ps = add_flats root key_suffixes (
    add_entries
      (as_members
        (providers_object (get_in (get_item root (codes "models")) (codes "providers")) root))
      ps)

unfoldable pub find_provider : List ProviderEntry → Bytes → Option ProviderEntry
find_provider [] name = none
find_provider (p ∷ ps) name =
    let rest = find_provider ps name in if str_eq p.name name then some p else rest

unfoldable pub nonempty : Bytes → Option Bytes
nonempty [] = none
nonempty (c ∷ s) = some (c ∷ s)

unfoldable pub key_of : Option ProviderEntry → Option Bytes
unfolding nonempty
key_of none = none
key_of (some p) = nonempty p.api_key

unfoldable pub url_of : Option ProviderEntry → Option Bytes
unfolding nonempty
url_of none = none
url_of (some p) = nonempty p.base_url

unfoldable pub get_provider_key : List ProviderEntry → Bytes → Option Bytes
unfolding find_provider key_of
get_provider_key ps name = key_of (find_provider ps name)

unfoldable pub get_provider_url : List ProviderEntry → Bytes → Option Bytes
unfolding find_provider url_of
get_provider_url ps name = url_of (find_provider ps name)
