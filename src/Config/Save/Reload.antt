-- ===== src/Config/Save/Reload.antt =====
-- What is left of a configuration that is saved and loaded again.
use tiniclaw.Base.{
  ℕ, ◌≤◌, ◌<◌, ◌^◌, ◌≡◌, refl, ap, ◌∙◌, ◌≢◌, true, Option, some, List, [], ◌∷◌, map, Bytes, codes,
  clip, length, length-map, take-all, str_eq, All, arith,
}
use tiniclaw.Base.Int.{ℤ, pos}
use tiniclaw.Json.{
  Tree, Object, object, get_item, get_in, members, from_members, to_members, lookup, lookup_in,
  as_text, as_number, as_members, as_items, members-object,
}
use tiniclaw.Config.{Config, ProviderEntry, max_providers}
use tiniclaw.Config.Read.{
  safe_str, clip_or, section, safe_uint16, word_or, to_word, safe_double, double_or,
}
use tiniclaw.Config.Defaults.{apply_defaults, text_or, number_or, seven_tenths}
use tiniclaw.Config.Defaults.Usable.{
  text_or_keep, number_or_keep, double_or_keep, NonZero, IsUsable,
}
use tiniclaw.Config.Providers.{
  providers_object, parse_entry, add_entries, key_suffixes, flat_key, add_flats, parse_providers,
}
use tiniclaw.Config.Providers.Keys.{add_entries-map, entry_of}
use tiniclaw.Config.Load.{
  load_path, load_tree, start_config, parse_file, read_root, read_gateway, read_primary,
}
use tiniclaw.Config.Load.Fits.{EntryFits, ConfigFits}
use tiniclaw.Config.Servers.{add_servers, parse_mcp_servers}
use tiniclaw.Config.Save.{url_member, entry_member, add_number, config_tree}

-- The texts of an entry fit their arrays.
abbrev EntryWhole : ProviderEntry → Type 0
EntryWhole p =
    (clip 64 p.name ≡ p.name)
    × (clip 512 p.api_key ≡ p.api_key)
    × (clip 512 p.base_url ≡ p.base_url)

parse_entry-text :
    (name key url : Bytes)
    → clip 64 name ≡ name
    → clip 512 key ≡ key
    → clip 512 url ≡ url
    → entry_of (entry_member (record { name = name; api_key = key; base_url = url }))
      ≡ record { name = name; api_key = key; base_url = url }
unfolding entry_of parse_entry entry_member url_member safe_str clip_or get_item as_text members
    from_members object to_members lookup lookup_in str_eq
parse_entry-text name key [] hn hk hu = λ i. record { name = hn i; api_key = hk i; base_url = [] }
parse_entry-text name key (c ∷ url) hn hk hu =
    λ i. record { name = hn i; api_key = hk i; base_url = hu i }

entry_of-entry_member : (p : ProviderEntry) → EntryWhole p → entry_of (entry_member p) ≡ p
entry_of-entry_member p (hn, hk, hu) = parse_entry-text p.name p.api_key p.base_url hn hk hu

entries_back :
    (ps : List ProviderEntry) → All EntryWhole ps → map entry_of (map entry_member ps) ≡ ps
entries_back [] h = refl
entries_back (p ∷ ps) (h, hs) = λ i. entry_of-entry_member p h i ∷ entries_back ps hs i

All-whole : (ps : List ProviderEntry) → All EntryFits ps → All EntryWhole ps
All-whole [] h = h
All-whole (p ∷ ps) (h, hs) = (
  (
    take-all 63 p.name (omega (arith, h.name)),
    take-all 511 p.api_key (omega (arith, h.api_key)),
    take-all 511 p.base_url (omega (arith, h.base_url)),
  ),
  All-whole ps hs,
)

module _ (to_double : ℕ → ℕ) (valueint : ℕ → ℤ) (c : Config) where
  no_flats :
      (ps : List ProviderEntry) → add_flats (config_tree to_double valueint c) key_suffixes ps ≡ ps
  unfolding add_flats flat_key config_tree get_item as_text members from_members object to_members
      lookup lookup_in str_eq
  no_flats ps = refl

  providers_back :
      All EntryWhole c.providers
      → length c.providers ≤ max_providers
      → parse_providers (config_tree to_double valueint c) [] ≡ c.providers
  unfolding parse_providers config_tree get_in get_item as_members providers_object members
      from_members object to_members lookup lookup_in str_eq
  providers_back fits room =
      no_flats _
      ∙ ap (λ (es : Option Object). add_entries es [])
          (members-object (map entry_member c.providers))
      ∙ add_entries-map (map entry_member c.providers) []
          (omega (arith, length-map c.providers entry_member, room))
      ∙ entries_back c.providers fits

  -- The fields that a saved configuration gives back.
  abbrev pub GivesBack : Config → Type 0
  GivesBack d =
      (d.providers ≡ c.providers)
      × (d.default_provider ≡ c.default_provider)
      × (d.default_model ≡ c.default_model)
      × (d.default_temperature ≡ c.default_temperature)
      × (d.gateway.host ≡ c.gateway.host)
      × (d.gateway.port ≡ c.gateway.port)

  -- What the saved fields are when they come from a loaded configuration.
  record CanSave : Type 0 where
    pub entries : All EntryWhole c.providers
    pub room : length c.providers ≤ max_providers
    pub provider_set : c.default_provider ≢ []
    pub provider_fits : clip 64 c.default_provider ≡ c.default_provider
    pub model_set : c.default_model ≢ []
    pub model_fits : clip 128 c.default_model ≡ c.default_model
    pub temperature_set : NonZero c.default_temperature
    pub host_set : c.gateway.host ≢ []
    pub host_fits : clip 128 c.gateway.host ≡ c.gateway.host
    pub port_set : 0 < c.gateway.port
    pub port_fits : c.gateway.port < 2 ^ 16
    pub port_int : valueint (to_double c.gateway.port) ≡ pos c.gateway.port

  servers_gone :
      (start : Config)
      → start.mcp_servers ≡ []
      → (load_tree (some (config_tree to_double valueint c)) start).1.mcp_servers ≡ []
  unfolding load_tree apply_defaults read_root config_tree get_item parse_mcp_servers add_servers
      as_items members from_members object to_members lookup lookup_in str_eq
  servers_gone start none_yet = none_yet

  reload :
      (start : Config)
      → start.providers ≡ []
      → CanSave
      → GivesBack (load_tree (some (config_tree to_double valueint c)) start).1
  unfolding load_tree apply_defaults read_root config_tree get_item get_in section as_text as_number
      members from_members object to_members lookup lookup_in str_eq safe_str clip_or read_primary
      read_gateway safe_uint16 safe_double word_or double_or to_word add_number
  reload start none_yet s =
      let small : to_word 16 (pos c.gateway.port) ≡ c.gateway.port = omega (arith, s.port_fits) in
      (
        ap (parse_providers (config_tree to_double valueint c)) none_yet
            ∙ providers_back s.entries s.room,
        ap (text_or (codes "openrouter")) s.provider_fits
            ∙ text_or_keep (codes "openrouter") c.default_provider s.provider_set,
        ap (text_or (codes "anthropic/claude-sonnet-4")) s.model_fits
            ∙ text_or_keep (codes "anthropic/claude-sonnet-4") c.default_model s.model_set,
        double_or_keep seven_tenths c.default_temperature s.temperature_set,
        ap (text_or (codes "127.0.0.1")) s.host_fits
            ∙ text_or_keep (codes "127.0.0.1") c.gateway.host s.host_set,
        ap (λ (n : ℤ). number_or 3000 (to_word 16 n)) s.port_int
            ∙ ap (number_or 3000) small
            ∙ number_or_keep 3000 c.gateway.port s.port_set,
      )

  CanSave-loaded :
      IsUsable c → ConfigFits c → valueint (to_double c.gateway.port) ≡ pos c.gateway.port → CanSave
  CanSave-loaded u f int = record {
    entries = All-whole c.providers f.providers.1;
    room = f.providers.0;
    provider_set = u.has_default_provider;
    provider_fits = take-all 63 c.default_provider (omega (arith, f.provider));
    model_set = u.has_default_model;
    model_fits = take-all 127 c.default_model (omega (arith, f.model));
    temperature_set = u.set_default_temperature;
    host_set = u.has_gateway_host;
    host_fits = take-all 127 c.gateway.host (omega (arith, f.gateway.host));
    port_set = u.pos_gateway_port;
    port_fits = f.gateway.port;
    port_int = int;
  }

  -- `c` is usable and in bounds, as `nc_config_load_path` leaves it; cJSON makes the port's `valueint`
  -- out of its double, and reads the file back as the tree that was saved. Then loading the file
  -- returns 0, and gives back the providers, the default provider, model and temperature, and the
  -- gateway's address. The MCP servers, which the file does not hold, are gone.
  pub save-load :
      (parse : Bytes → Option Tree) (read_file : Bytes → Option Bytes) (cwd : Option Bytes)
      (path json : Bytes)
      → IsUsable c
      → ConfigFits c
      → valueint (to_double c.gateway.port) ≡ pos c.gateway.port
      → read_file path ≡ some json
      → parse json ≡ some (config_tree to_double valueint c)
      → ((load_path parse read_file cwd path).0 ≡ true)
        × GivesBack (load_path parse read_file cwd path).1
        × ((load_path parse read_file cwd path).1.mcp_servers ≡ [])
  unfolding load_path load_tree parse_file
  save-load parse read_file cwd path json u f int reads parses =
      rw (reads, parses)
        (
          refl,
          reload (start_config cwd path) refl (CanSave-loaded u f int),
          servers_gone (start_config cwd path) refl,
        )
