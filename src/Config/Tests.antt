-- ===== src/Config/Tests.antt =====
-- The configuration on concrete files.
use tiniclaw.Base.{
  ℕ, ◌≡◌, refl, ◌↔◌, Bool, true, false, Option, none, some, [], ◌∷◌, Bytes, codes, str_eq,
}
use tiniclaw.Base.Int.{pos}
use tiniclaw.Json.{
  Tree, text, number, boolean, object, members, from_members, to_members, lookup, lookup_in,
}
use tiniclaw.Config.{Config, zero_config}
use tiniclaw.Config.Defaults.{apply_defaults}
use tiniclaw.Config.Defaults.Usable.{IsUsable, apply_defaults_fixed}
use tiniclaw.Config.Providers.{get_provider_key}
use tiniclaw.Config.Load.{load_path}
use tiniclaw.Config.Load.Bounds.{load_path-Safe}
use tiniclaw.Config.Save.{config_tree}
use tiniclaw.Config.Save.Reload.{GivesBack, save-load}

-- A file with a nested provider, a flat key for another one, a channel and a port.
abbrev sample : Tree
sample = object (
    (codes "default_provider", text (codes "groq"))
    ∷ (
      codes "providers",
      object ((codes "groq", object ((codes "api_key", text (codes "k1")) ∷ [])) ∷ []),
    )
    ∷ (codes "openai_api_key", text (codes "k2"))
    ∷ (codes "groq_api_key", text (codes "k3"))
    ∷ (codes "gateway", object ((codes "port", number 0 (pos 65600)) ∷ []))
    ∷ (codes "autonomy", object ((codes "workspace_only", boolean false) ∷ []))
    ∷ [])

abbrev parse_sample : Bytes → Option Tree
parse_sample s = some sample

abbrev read_sample : Bytes → Option Bytes
read_sample path = some (codes "{}")

abbrev loaded : Bool × Config
loaded = load_path parse_sample read_sample none (codes "/home/u/.tiniclaw/config.json")

loaded_fields :
    (loaded.0 ≡ true)
    × (loaded.1.workspace_dir ≡ codes "/home/u/.tiniclaw")
    × (loaded.1.gateway.port ≡ 64)
    × (loaded.1.autonomy.workspace_only ≡ true)
    × (get_provider_key loaded.1.providers (codes "groq") ≡ some (codes "k1"))
    × (get_provider_key loaded.1.providers (codes "openai") ≡ some (codes "k2"))
    × (get_provider_key loaded.1.providers (codes "xai") ≡ none)
unfolding load_path object members from_members to_members lookup lookup_in str_eq get_provider_key
loaded_fields = (refl, refl, refl, refl, refl, refl, refl)

apply_defaults_fixed_example :
    ((apply_defaults zero_config ≡ zero_config) ↔ IsUsable zero_config)
    × IsUsable (apply_defaults zero_config)
    × (apply_defaults (apply_defaults zero_config) ≡ apply_defaults zero_config)
apply_defaults_fixed_example = apply_defaults_fixed zero_config

-- The conversions of small numbers, as cJSON makes them; the word stands for itself.
abbrev same_word : ℕ → ℕ
same_word n = n

abbrev saved : Tree
saved = config_tree same_word pos loaded.1

save-load_example :
    ((load_path (λ json. some saved) read_sample none (codes "config.json")).0 ≡ true)
    × GivesBack same_word pos loaded.1
        (load_path (λ json. some saved) read_sample none (codes "config.json")).1
    × ((load_path (λ json. some saved) read_sample none (codes "config.json")).1.mcp_servers ≡ [])
save-load_example =
    let safe =
      load_path-Safe parse_sample read_sample none (codes "/home/u/.tiniclaw/config.json") in
    save-load same_word pos loaded.1 (λ json. some saved) read_sample none (codes "config.json")
      (codes "{}") safe.0 safe.1 refl refl refl
