-- ===== src/Main/Overrides.antt =====
-- The configuration that the program runs with.
use tiniclaw.Base.{
  ℕ, ◌<◌, ◌≤◌, ◌≡◌, refl, sym, ap, ◌∙◌, ◌≢◌, false, ◌||◌, Option, none, some, List, [], ◌∷◌, ◌++◌,
  Bytes, codes, clip, length, str_eq, if_false, All, Bool-cases, inl, inr, arith,
}
use mathlib.Core.Path.{subst}
use tiniclaw.Config.{Config, ProviderEntry, zero_config, max_providers}
use tiniclaw.Config.Defaults.{apply_defaults, copy_aliases, fill_defaults}
use tiniclaw.Config.Defaults.Usable.{IsUsable, apply_defaults-IsUsable}
use tiniclaw.Config.Providers.{find_provider, get_provider_key, key_of, nonempty}
use tiniclaw.Config.Load.Fits.{Fits, clip-Fits, EntryFits, ConfigFits}
use tiniclaw.Config.Load.Bounds.{load_path-Safe, apply_defaults-ConfigFits, zero-ConfigFits}
use tiniclaw.Main.{
  Environment, config_load, file_config, home_dir, first_provider, provider_key, with_key,
  text_over, with_names, load_config,
}

-- Usable and in bounds.
abbrev pub IsSafe : Config → Type 0
IsSafe c = IsUsable c × ConfigFits c

file_config-IsSafe : (env : Environment) → IsSafe (file_config env)
unfolding file_config config_load
file_config-IsSafe env =
    elim (Bool-cases (
      env.exists (clip 4096 (home_dir env ++ codes "/.tiniclaw/config.json"))
      || env.exists (codes "config.json"))) [
        | inl there ↦ rw there (load_path-Safe env.parse env.read_file env.cwd _)
        | inr gone ↦ rw gone (
          apply_defaults-IsUsable zero_config,
          apply_defaults-ConfigFits zero_config zero-ConfigFits,
        )
      ]

-- The overrides change the providers and the two names only.
renamed : List ProviderEntry → Bytes → Bytes → Config → Config
renamed ps provider model c = record c {
  providers = ps;
  default_provider = provider;
  default_model = model;
}

renamed-IsUsable :
    (ps : List ProviderEntry) (provider model : Bytes) (c : Config)
    → provider ≢ []
    → model ≢ []
    → IsUsable c
    → IsUsable (renamed ps provider model c)
unfolding renamed
renamed-IsUsable ps provider model c hp hm u = record {
  has_default_provider = hp;
  has_default_model = hm;
  has_gateway_host = u.has_gateway_host;
  has_memory_backend = u.has_memory_backend;
  has_autonomy_level = u.has_autonomy_level;
  has_security_sandbox_backend = u.has_security_sandbox_backend;
  pos_gateway_port = u.pos_gateway_port;
  pos_gateway_body_size_limit = u.pos_gateway_body_size_limit;
  pos_gateway_request_timeout_secs = u.pos_gateway_request_timeout_secs;
  pos_gateway_rate_limit_per_minute = u.pos_gateway_rate_limit_per_minute;
  pos_agent_max_tool_iterations = u.pos_agent_max_tool_iterations;
  pos_agent_max_history_messages = u.pos_agent_max_history_messages;
  pos_agent_compaction_keep_recent = u.pos_agent_compaction_keep_recent;
  pos_agent_compaction_max_summary_chars = u.pos_agent_compaction_max_summary_chars;
  pos_agent_compaction_max_source_chars = u.pos_agent_compaction_max_source_chars;
  pos_reliability_max_retries = u.pos_reliability_max_retries;
  pos_reliability_retry_delay_ms = u.pos_reliability_retry_delay_ms;
  pos_heartbeat_interval_minutes = u.pos_heartbeat_interval_minutes;
  pos_autonomy_max_actions_per_hour = u.pos_autonomy_max_actions_per_hour;
  set_default_temperature = u.set_default_temperature;
  set_memory_vector_weight = u.set_memory_vector_weight;
  set_memory_keyword_weight = u.set_memory_keyword_weight;
  on_autonomy_workspace_only = u.on_autonomy_workspace_only;
  on_security_secrets_encrypt = u.on_security_secrets_encrypt;
  on_memory_auto_save = u.on_memory_auto_save;
  on_memory_hygiene_enabled = u.on_memory_hygiene_enabled;
  same_temperature = u.same_temperature;
  same_workspace_only = u.same_workspace_only;
  same_max_actions_per_hour = u.same_max_actions_per_hour;
  same_gateway_port = u.same_gateway_port;
  same_gateway_host = u.same_gateway_host;
  same_memory_auto_save = u.same_memory_auto_save;
  same_heartbeat_enabled = u.same_heartbeat_enabled;
  same_heartbeat_interval_minutes = u.same_heartbeat_interval_minutes;
}

renamed-ConfigFits :
    (ps : List ProviderEntry) (provider model : Bytes) (c : Config)
    → (length ps ≤ max_providers) × All EntryFits ps
    → Fits 64 provider
    → Fits 128 model
    → ConfigFits c
    → ConfigFits (renamed ps provider model c)
unfolding renamed
renamed-ConfigFits ps provider model c hs hp hm f = record {
  workspace = f.workspace;
  path = f.path;
  providers = hs;
  provider = hp;
  model = hm;
  effort = f.effort;
  servers = f.servers;
  agent = f.agent;
  memory = f.memory;
  gateway = f.gateway;
  tunnel = f.tunnel;
  channels = f.channels;
  security = f.security;
  autonomy = f.autonomy;
  reliability = f.reliability;
  heartbeat = f.heartbeat;
}

-- A name that is not empty stays, and so it fits.
name_kept : (d s : Bytes) → s ≢ [] → (elim s [ [] ↦ d | x ∷ r ↦ x ∷ r ]) ≡ s
name_kept d [] h = absurd (h refl)
name_kept d (x ∷ r) h = refl

first_provider-renamed :
    (name key : Bytes) (c : Config)
    → c.default_provider ≢ []
    → first_provider name key c
      ≡ renamed
          (record { name = clip 64 name; api_key = clip 512 key; base_url = [] } ∷ [])
          c.default_provider
          c.default_model
          c
unfolding first_provider renamed
first_provider-renamed name key c h = λ i. record c {
  providers = record { name = clip 64 name; api_key = clip 512 key; base_url = [] } ∷ [];
  default_provider = name_kept name c.default_provider h i;
}

first_provider-IsSafe :
    (name key : Bytes) (c : Config) → IsSafe c → IsSafe (first_provider name key c)
first_provider-IsSafe name key c (u, f) =
    let fits : EntryFits (record { name = clip 64 name; api_key = clip 512 key; base_url = [] }) =
      record {
        name = clip-Fits 64 name (omega arith);
        api_key = clip-Fits 512 key (omega arith);
        base_url = omega arith;
      } in
    subst IsSafe (sym (first_provider-renamed name key c u.has_default_provider)) (
      renamed-IsUsable _ c.default_provider c.default_model c u.has_default_provider
          u.has_default_model u,
      renamed-ConfigFits _ c.default_provider c.default_model c (omega arith, (fits, tt)) f.provider
          f.model f,
    )

provider_key-IsSafe :
    (name : Bytes) (key : Option Bytes) (ps : List ProviderEntry) (c : Config)
    → IsSafe c
    → IsSafe (provider_key name key ps c)
unfolding provider_key
provider_key-IsSafe name none ps c h = h
provider_key-IsSafe name (some []) ps c h = h
provider_key-IsSafe name (some (x ∷ key)) (p ∷ ps) c h = h
provider_key-IsSafe name (some (x ∷ key)) [] c h = first_provider-IsSafe name (x ∷ key) c h

with_key-IsSafe :
    (name : Bytes) (key : Option Bytes) (c : Config) → IsSafe c → IsSafe (with_key name key c)
unfolding with_key
with_key-IsSafe name key c h = provider_key-IsSafe name key c.providers c h

text_over-Fits :
    (n : ℕ) (o : Option Bytes) (old : Bytes) → 0 < n → Fits n old → Fits n (text_over n o old)
unfolding text_over
text_over-Fits n none old h f = f
text_over-Fits n (some []) old h f = f
text_over-Fits n (some (x ∷ s)) old h f = clip-Fits n (x ∷ s) h

text_over_ne :
    (n : ℕ) (o : Option Bytes) (old : Bytes)
    → ((x : ℕ) (s : Bytes) → clip n (x ∷ s) ≢ [])
    → old ≢ []
    → text_over n o old ≢ []
unfolding text_over
text_over_ne n none old keep h = h
text_over_ne n (some []) old keep h = h
text_over_ne n (some (x ∷ s)) old keep h = keep x s

with_names-IsSafe :
    (model provider : Option Bytes) (c : Config) → IsSafe c → IsSafe (with_names model provider c)
unfolding with_names renamed
with_names-IsSafe model provider c (u, f) = (
  renamed-IsUsable c.providers _ _ c
      (text_over_ne 64 provider c.default_provider (λ x s e. cc) u.has_default_provider)
      (text_over_ne 128 model c.default_model (λ x s e. cc) u.has_default_model) u,
  renamed-ConfigFits c.providers _ _ c f.providers
      (text_over-Fits 64 provider c.default_provider (omega arith) f.provider)
      (text_over-Fits 128 model c.default_model (omega arith) f.model) f,
)

-- Whatever the files and the environment hold, the program runs with a usable configuration whose
-- texts, numbers and arrays are in bounds.
pub load_config-IsSafe :
    (env : Environment) → IsUsable (load_config env) × ConfigFits (load_config env)
unfolding load_config
load_config-IsSafe env = with_names-IsSafe _ _ _ (
    with_key-IsSafe (codes "anthropic") _ _
      (with_key-IsSafe (codes "openai") _ _ (file_config-IsSafe env)))

provider_key-kept :
    (name : Bytes) (key : Option Bytes) (p : ProviderEntry) (ps : List ProviderEntry) (c : Config)
    → provider_key name key (p ∷ ps) c ≡ c
unfolding provider_key
provider_key-kept name none p ps c = refl
provider_key-kept name (some []) p ps c = refl
provider_key-kept name (some (x ∷ key)) p ps c = refl

no_file :
    (env : Environment)
    → env.exists (clip 4096 (home_dir env ++ codes "/.tiniclaw/config.json")) ≡ false
    → env.exists (codes "config.json") ≡ false
    → file_config env ≡ apply_defaults zero_config
unfolding file_config
no_file env no_home no_local = if_false _ _ _ (λ i. no_home i || no_local i)

-- With no configuration file and no provider named in the environment, a key of OpenAI in the
-- environment is stored for `openai` and not found for the provider that the program asks, which
-- stays the default one.
pub openai_key_unused :
    (env : Environment) (x : ℕ) (key : Bytes)
    → env.exists (clip 4096 (home_dir env ++ codes "/.tiniclaw/config.json")) ≡ false
    → env.exists (codes "config.json") ≡ false
    → env.getenv (codes "OPENAI_API_KEY") ≡ some (x ∷ key)
    → env.getenv (codes "TINICLAW_PROVIDER") ≡ none
    → (get_provider_key (load_config env).providers (codes "openai") ≡ some (clip 512 (x ∷ key)))
      × (get_provider_key (load_config env).providers (load_config env).default_provider ≡ none)
unfolding load_config with_names with_key provider_key first_provider text_over file_config
    apply_defaults copy_aliases fill_defaults get_provider_key find_provider key_of nonempty str_eq
openai_key_unused env x key no_home no_local has_key no_name =
    let model = env.getenv (codes "TINICLAW_MODEL") in
    let other = env.getenv (codes "ANTHROPIC_API_KEY") in
    let c : Config = first_provider (codes "openai") (x ∷ key) (apply_defaults zero_config) in
    let same : load_config env ≡ with_names model none c =
      (λ i. with_names model (no_name i) (
        with_key (codes "anthropic") other
          (with_key (codes "openai") (has_key i) (no_file env no_home no_local i))))
      ∙ ap (with_names model none) (provider_key-kept (codes "anthropic") other _ [] c) in
    subst
      (λ (d : Config).
        (get_provider_key d.providers (codes "openai") ≡ some (clip 512 (x ∷ key)))
        × (get_provider_key d.providers d.default_provider ≡ none))
      (sym same) (refl, refl)
