-- ===== src/Config/Load.antt =====
-- `nc_config_load_path` of src/config.c. The tree that cJSON makes of the file and the working
-- directory are parameters.
pub mod Fits
pub mod Sections
pub mod Arrays
pub mod Bounds
use tiniclaw.Base.{
  ℕ, ◌+◌, Bool, true, false, Option, none, some, [], ◌∷◌, Bytes, codes, clip, take, ◌==◌,
  if◌then◌else◌,
}
use tiniclaw.Json.{Tree, get_item, get_in}
use tiniclaw.Config.{
  Config, MemoryConfig, GatewayConfig, TunnelConfig, SecurityConfig, AutonomyConfig, AgentLimits,
  HeartbeatConfig, CronConfig, ReliabilityConfig, zero_config,
}
use tiniclaw.Config.Read.{safe_str, safe_bool, safe_uint32, safe_uint16, safe_double, section}
use tiniclaw.Config.Defaults.{apply_defaults}
use tiniclaw.Config.Providers.{parse_providers}
use tiniclaw.Config.Channels.{parse_channels}
use tiniclaw.Config.Servers.{parse_mcp_servers}

unfoldable pub read_memory : Tree → MemoryConfig → MemoryConfig
unfolding safe_str safe_bool safe_double
read_memory obj m = record {
  backend = safe_str 32 obj (codes "backend") m.backend;
  auto_save = safe_bool obj (codes "auto_save") m.auto_save;
  embedding_provider = safe_str 32 obj (codes "embedding_provider") m.embedding_provider;
  vector_weight = safe_double obj (codes "vector_weight") m.vector_weight;
  keyword_weight = safe_double obj (codes "keyword_weight") m.keyword_weight;
  hygiene_enabled = safe_bool obj (codes "hygiene_enabled") m.hygiene_enabled;
  snapshot_enabled = safe_bool obj (codes "snapshot_enabled") m.snapshot_enabled;
}

unfoldable pub read_gateway : Tree → GatewayConfig → GatewayConfig
unfolding safe_str safe_bool safe_uint16 safe_uint32
read_gateway obj g = record g {
  host = safe_str 128 obj (codes "host") g.host;
  port = safe_uint16 obj (codes "port") g.port;
  allow_public_bind = safe_bool obj (codes "allow_public_bind") g.allow_public_bind;
  rate_limit_per_minute = safe_uint32 obj (codes "rate_limit_per_minute") g.rate_limit_per_minute;
}

unfoldable pub read_tunnel : Tree → TunnelConfig → TunnelConfig
unfolding safe_str safe_bool
read_tunnel obj t = record {
  provider = safe_str 32 obj (codes "provider") t.provider;
  token = safe_str 512 obj (codes "token") t.token;
  domain = safe_str 256 obj (codes "domain") t.domain;
  hostname = safe_str 256 obj (codes "hostname") t.hostname;
  tailscale_funnel = safe_bool obj (codes "funnel") t.tailscale_funnel;
}

unfoldable pub read_security : Tree → SecurityConfig → SecurityConfig
unfolding safe_str safe_bool safe_uint32
read_security obj s = record {
  sandbox_backend = safe_str 32 obj (codes "sandbox") s.sandbox_backend;
  secrets_encrypt = safe_bool obj (codes "secrets_encrypt") s.secrets_encrypt;
  audit_enabled = safe_bool obj (codes "audit_enabled") s.audit_enabled;
  audit_log_path = safe_str 4096 obj (codes "audit_log_path") s.audit_log_path;
  audit_retention_days = safe_uint32 obj (codes "audit_retention_days") s.audit_retention_days;
}

unfoldable pub read_autonomy : Tree → AutonomyConfig → AutonomyConfig
unfolding safe_str safe_bool safe_uint32
read_autonomy obj a = record {
  level = safe_str 16 obj (codes "level") a.level;
  workspace_only = safe_bool obj (codes "workspace_only") a.workspace_only;
  max_actions_per_hour = safe_uint32 obj (codes "max_actions_per_hour") a.max_actions_per_hour;
  max_output_bytes = safe_uint32 obj (codes "max_output_bytes") a.max_output_bytes;
}

unfoldable pub read_agent : Tree → AgentLimits → AgentLimits
unfolding safe_uint32
read_agent obj a = record {
  max_tool_iterations = safe_uint32 obj (codes "max_tool_iterations") a.max_tool_iterations;
  max_history_messages = safe_uint32 obj (codes "max_history_messages") a.max_history_messages;
  compaction_keep_recent =
      safe_uint32 obj (codes "compaction_keep_recent") a.compaction_keep_recent;
  compaction_max_summary_chars =
      safe_uint32 obj (codes "compaction_max_summary_chars") a.compaction_max_summary_chars;
  compaction_max_source_chars =
      safe_uint32 obj (codes "compaction_max_source_chars") a.compaction_max_source_chars;
}

unfoldable pub read_heartbeat : Tree → HeartbeatConfig → HeartbeatConfig
unfolding safe_bool safe_uint32
read_heartbeat obj h = record {
  enabled = safe_bool obj (codes "enabled") h.enabled;
  interval_minutes = safe_uint32 obj (codes "interval_minutes") h.interval_minutes;
}

unfoldable pub read_cron : Tree → CronConfig → CronConfig
unfolding safe_bool
read_cron obj c = record c { enabled = safe_bool obj (codes "enabled") c.enabled }

unfoldable pub read_reliability : Tree → ReliabilityConfig → ReliabilityConfig
unfolding safe_bool safe_uint32
read_reliability obj r = record {
  max_retries = safe_uint32 obj (codes "max_retries") r.max_retries;
  retry_delay_ms = safe_uint32 obj (codes "retry_delay_ms") r.retry_delay_ms;
  fallback_enabled = safe_bool obj (codes "fallback_enabled") r.fallback_enabled;
}

-- `agents.defaults.model.primary` takes the place of `default_model`.
unfoldable pub read_primary : Tree → Bytes → Bytes
unfolding get_item get_in section safe_str
read_primary root model =
    section (get_in (get_in (get_item root (codes "agents")) (codes "defaults")) (codes "model"))
      (λ (obj : Tree) (m : Bytes). safe_str 128 obj (codes "primary") m) model

unfoldable pub read_root : Tree → Config → Config
unfolding get_item section safe_str safe_double read_primary parse_providers parse_channels
    parse_mcp_servers read_memory read_gateway read_tunnel read_security read_autonomy read_agent
    read_heartbeat read_cron read_reliability
read_root root c = record c {
  default_provider = safe_str 64 root (codes "default_provider") c.default_provider;
  default_model = read_primary root (safe_str 128 root (codes "default_model") c.default_model);
  default_temperature = safe_double root (codes "default_temperature") c.default_temperature;
  reasoning_effort = safe_str 16 root (codes "reasoning_effort") c.reasoning_effort;
  providers = parse_providers root c.providers;
  channels = parse_channels root c.channels;
  mcp_servers = parse_mcp_servers root c.mcp_servers;
  memory = section (get_item root (codes "memory")) read_memory c.memory;
  gateway = section (get_item root (codes "gateway")) read_gateway c.gateway;
  tunnel = section (get_item root (codes "tunnel")) read_tunnel c.tunnel;
  security = section (get_item root (codes "security")) read_security c.security;
  autonomy = section (get_item root (codes "autonomy")) read_autonomy c.autonomy;
  agent = section (get_item root (codes "agent")) read_agent c.agent;
  heartbeat = section (get_item root (codes "heartbeat")) read_heartbeat c.heartbeat;
  cron = section (get_item root (codes "cron")) read_cron c.cron;
  reliability = section (get_item root (codes "reliability")) read_reliability c.reliability;
}

-- What stands before the last '/': `none` where there is no '/'.
unfoldable pub before_last_slash : Bytes → Option Bytes
before_last_slash [] = none
before_last_slash (c ∷ s) = elim (before_last_slash s) [
  | some dir ↦ some (c ∷ dir)
  | none ↦ if c == b'/' then some [] else none
]

-- The working directory, where `getcwd` has it; or else the directory of the path.
unfoldable pub workspace_of : Option Bytes → Option Bytes → Bytes
workspace_of (some cwd) dir = clip 4096 cwd
workspace_of none (some dir) = clip 4096 dir
workspace_of none none = codes "."

unfoldable pub start_config : Option Bytes → Bytes → Config
unfolding workspace_of before_last_slash
start_config cwd path =
    let path : Bytes = clip 4096 path in
    record zero_config {
      config_path = path;
      workspace_dir = workspace_of cwd (before_last_slash path);
    }

unfoldable pub parse_file : (Bytes → Option Tree) → Option Bytes → Option Tree
parse_file parse none = none
parse_file parse (some json) = parse json

-- Whether the call returns 0, with the configuration.
unfoldable pub load_tree : Option Tree → Config → Bool × Config
unfolding apply_defaults read_root
load_tree none c = (false, apply_defaults c)
load_tree (some root) c = (true, apply_defaults (read_root root c))

unfoldable pub load_path :
    (Bytes → Option Tree) → (Bytes → Option Bytes) → Option Bytes → Bytes → Bool × Config
unfolding start_config parse_file load_tree
load_path parse read_file cwd path =
    load_tree (parse_file parse (read_file path)) (start_config cwd path)
