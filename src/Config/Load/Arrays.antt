-- ===== src/Config/Load/Arrays.antt =====
-- The arrays that are read from the file keep their bounds, and so do their elements.
use tiniclaw.Base.{
  ℕ, ◌≤◌, ◌≡◌, false, ◌||◌, Option, none, some, List, [], ◌∷◌, ◌++◌, Bytes, codes, clip, length,
  length-append, leb, Bool-cases, inl, inr, All, All-append, arith,
}
use tiniclaw.Json.{Tree, Object, get_item, as_text, as_items, as_members}
use tiniclaw.Config.{ProviderEntry, McpServerConfig, max_mcp, max_providers}
use tiniclaw.Config.Read.{clip_or}
use tiniclaw.Config.Providers.{
  parse_entry, add_entries, key_suffixes, has_provider, flat_key, add_flat, add_flats,
  parse_providers,
}
use tiniclaw.Config.Providers.Keys.{parse_providers-le}
use tiniclaw.Config.Servers.{
  add_arg, read_args, read_env, read_server, add_servers, parse_mcp_servers,
}
use tiniclaw.Config.Load.Fits.{Fits, clip-Fits, clip_or-Fits, safe_str-Fits, EntryFits, ServerFits}

-- The loops that stop at a full array: one more element, where there is room for it.
abbrev Bounded : {A : Type 0} → ℕ → (A → Type 0) → List A → Type 0
Bounded n P xs = (length xs ≤ n) × All P xs

Bounded-snoc :
    {A : Type 0} (n : ℕ) (P : A → Type 0) (xs : List A) (x : A)
    → leb n (length xs) ≡ false
    → P x
    → Bounded n P xs
    → Bounded n P (xs ++ (x ∷ []))
Bounded-snoc n P xs x room px (hn, hx) =
    (ground (arith, length-append xs (x ∷ [])), All-append P xs (x ∷ []) hx (px, tt))

Bounded-add_arg :
    (o : Option Bytes) (args : List Bytes)
    → leb 8 (length args) ≡ false
    → Bounded 8 (Fits 256) args
    → Bounded 8 (Fits 256) (add_arg o args)
unfolding add_arg
Bounded-add_arg none args room h = h
Bounded-add_arg (some s) args room h =
    Bounded-snoc 8 (Fits 256) args (clip 256 s) room (clip-Fits 256 s (omega arith)) h

read_args-Bounded :
    (vs : Option (List Tree)) (args : List Bytes)
    → Bounded 8 (Fits 256) args
    → Bounded 8 (Fits 256) (read_args vs args)
unfolding read_args
read_args-Bounded none args h = h
read_args-Bounded (some []) args h = h
read_args-Bounded (some (v ∷ vs)) args h = elim (Bool-cases (leb 8 (length args))) [
  | inl full ↦ rw full h
  | inr room ↦
      rw room (read_args-Bounded (some vs) _ (Bounded-add_arg (as_text (some v)) args room h))
]

abbrev PairFits : Bytes × Bytes → Type 0
PairFits e = Fits 64 e.0 × Fits 256 e.1

read_env-Bounded :
    (ms : Option Object) (env : List (Bytes × Bytes))
    → Bounded 8 PairFits env
    → Bounded 8 PairFits (read_env ms env)
unfolding read_env
read_env-Bounded none env h = h
read_env-Bounded (some []) env h = h
read_env-Bounded (some ((k, v) ∷ ms)) env h = elim (Bool-cases (leb 8 (length env))) [
  | inl full ↦ rw full h
  | inr room ↦ rw room (
      read_env-Bounded (some ms) _ (
        Bounded-snoc 8 PairFits env (clip 64 k, clip_or 256 [] (as_text (some v))) room
          (
            clip-Fits 64 k (omega arith),
            clip_or-Fits 256 [] (as_text (some v)) (omega arith) (omega arith),
          )
          h))
]

read_server-ServerFits : (item : Tree) → ServerFits (read_server item)
unfolding read_server
read_server-ServerFits item = record {
  name = safe_str-Fits 64 item (codes "name") [] (omega arith) (omega arith);
  command = safe_str-Fits 256 item (codes "command") [] (omega arith) (omega arith);
  args = read_args-Bounded (as_items (get_item item (codes "args"))) [] (omega arith, tt);
  env = read_env-Bounded (as_members (get_item item (codes "env"))) [] (omega arith, tt);
}

add_servers-Bounded :
    (vs : Option (List Tree)) (ss : List McpServerConfig)
    → Bounded max_mcp ServerFits ss
    → Bounded max_mcp ServerFits (add_servers vs ss)
unfolding add_servers
add_servers-Bounded none ss h = h
add_servers-Bounded (some []) ss h = h
add_servers-Bounded (some (v ∷ vs)) ss h = elim (Bool-cases (leb max_mcp (length ss))) [
  | inl full ↦ rw full h
  | inr room ↦ rw room (
      add_servers-Bounded (some vs) _
        (Bounded-snoc max_mcp ServerFits ss (read_server v) room (read_server-ServerFits v) h))
]

pub parse_mcp_servers-Bounded :
    (root : Tree) (ss : List McpServerConfig)
    → (length ss ≤ max_mcp) × All ServerFits ss
    → (length (parse_mcp_servers root ss) ≤ max_mcp) × All ServerFits (parse_mcp_servers root ss)
unfolding parse_mcp_servers
parse_mcp_servers-Bounded root ss h =
    add_servers-Bounded (as_items (get_item root (codes "mcp_servers"))) ss h

parse_entry-EntryFits : (name : Bytes) (entry : Tree) → EntryFits (parse_entry name entry)
unfolding parse_entry
parse_entry-EntryFits name entry = record {
  name = clip-Fits 64 name (omega arith);
  api_key = safe_str-Fits 512 entry (codes "api_key") [] (omega arith) (omega arith);
  base_url = safe_str-Fits 512 entry (codes "base_url") [] (omega arith) (omega arith);
}

add_entries-All :
    (es : Option Object) (ps : List ProviderEntry)
    → All EntryFits ps
    → All EntryFits (add_entries es ps)
unfolding add_entries
add_entries-All none ps h = h
add_entries-All (some []) ps h = h
add_entries-All (some ((name, entry) ∷ es)) ps h =
    elim (Bool-cases (leb max_providers (length ps))) [
      | inl full ↦ rw full h
      | inr room ↦ rw room (
          add_entries-All (some es) _ (
            All-append EntryFits ps (parse_entry name entry ∷ []) h
              (parse_entry-EntryFits name entry, tt)))
    ]

add_flat-All :
    (key : Option Bytes) (suffix : Bytes) (ps : List ProviderEntry)
    → All EntryFits ps
    → All EntryFits (add_flat key suffix ps)
unfolding add_flat
add_flat-All none suffix ps h = h
add_flat-All (some key) suffix ps h =
    elim (Bool-cases (has_provider ps suffix || leb max_providers (length ps))) [
      | inl skip ↦ rw skip h
      | inr take_it ↦ rw take_it (
          All-append EntryFits ps _ h (
            record {
              name = clip-Fits 64 suffix (omega arith);
              api_key = clip-Fits 512 key (omega arith);
              base_url = omega arith;
            },
            tt,
          ))
    ]

add_flats-All :
    (root : Tree) (suffixes : List Bytes) (ps : List ProviderEntry)
    → All EntryFits ps
    → All EntryFits (add_flats root suffixes ps)
unfolding add_flats
add_flats-All root [] ps h = h
add_flats-All root (s ∷ suffixes) ps h =
    add_flats-All root suffixes _ (add_flat-All (flat_key root s) s ps h)

pub parse_providers-Bounded :
    (root : Tree) (ps : List ProviderEntry)
    → (length ps ≤ max_providers) × All EntryFits ps
    → (length (parse_providers root ps) ≤ max_providers) × All EntryFits (parse_providers root ps)
unfolding parse_providers
parse_providers-Bounded root ps (hn, h) =
    (parse_providers-le root ps hn, add_flats-All root key_suffixes _ (add_entries-All _ ps h))
