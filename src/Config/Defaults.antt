-- ===== src/Config/Defaults.antt =====
-- `nc_config_apply_defaults` of src/config.c, one function for each part of the configuration.
pub mod Usable
use tiniclaw.Base.{ℕ, ◌^◌, Bool, true, ◌||◌, [], ◌∷◌, Bytes, codes, clip, ◌==◌, if◌then◌else◌}
use tiniclaw.Config.{
  Config, GatewayConfig, MemoryConfig, AgentLimits, ReliabilityConfig, HeartbeatConfig,
  AutonomyConfig, SecurityConfig,
}

unfoldable pub text_or : Bytes → Bytes → Bytes
text_or d [] = d
text_or d (c ∷ s) = c ∷ s

unfoldable pub number_or : ℕ → ℕ → ℕ
number_or d n = if n == 0 then d else n

-- `x == 0.0` holds of both zeros.
unfoldable pub double_or_default : ℕ → ℕ → ℕ
double_or_default d w = if w == 0 || w == 2 ^ 63 then d else w

-- The words of 0.7 and of 0.3.
abbrev pub seven_tenths : ℕ
seven_tenths = 0x3FE6666666666666

abbrev pub three_tenths : ℕ
three_tenths = 0x3FD3333333333333

unfoldable pub gateway_defaults : GatewayConfig → GatewayConfig
unfolding text_or number_or
gateway_defaults g = record g {
  host = text_or (codes "127.0.0.1") g.host;
  port = number_or 3000 g.port;
  body_size_limit = number_or 65536 g.body_size_limit;
  request_timeout_secs = number_or 30 g.request_timeout_secs;
  rate_limit_per_minute = number_or 60 g.rate_limit_per_minute;
}

unfoldable pub memory_defaults : MemoryConfig → MemoryConfig
unfolding text_or double_or_default
memory_defaults m = record m {
  backend = text_or (codes "sqlite") m.backend;
  vector_weight = double_or_default seven_tenths m.vector_weight;
  keyword_weight = double_or_default three_tenths m.keyword_weight;
  auto_save = true;
  hygiene_enabled = true;
}

unfoldable pub agent_defaults : AgentLimits → AgentLimits
unfolding number_or
agent_defaults a = record a {
  max_tool_iterations = number_or 25 a.max_tool_iterations;
  max_history_messages = number_or 50 a.max_history_messages;
  compaction_keep_recent = number_or 10 a.compaction_keep_recent;
  compaction_max_summary_chars = number_or 4000 a.compaction_max_summary_chars;
  compaction_max_source_chars = number_or 8000 a.compaction_max_source_chars;
}

unfoldable pub reliability_defaults : ReliabilityConfig → ReliabilityConfig
unfolding number_or
reliability_defaults r = record r {
  max_retries = number_or 3 r.max_retries;
  retry_delay_ms = number_or 1000 r.retry_delay_ms;
}

unfoldable pub heartbeat_defaults : HeartbeatConfig → HeartbeatConfig
unfolding number_or
heartbeat_defaults h = record h { interval_minutes = number_or 30 h.interval_minutes }

unfoldable pub autonomy_defaults : AutonomyConfig → AutonomyConfig
unfolding text_or number_or
autonomy_defaults a = record a {
  level = text_or (codes "standard") a.level;
  max_actions_per_hour = number_or 20 a.max_actions_per_hour;
  workspace_only = true;
}

unfoldable pub security_defaults : SecurityConfig → SecurityConfig
unfolding text_or
security_defaults s = record s {
  sandbox_backend = text_or (codes "auto") s.sandbox_backend;
  secrets_encrypt = true;
}

-- The nested values that the flat names repeat.
unfoldable pub copy_aliases : Config → Config
copy_aliases c = record c {
  temperature = c.default_temperature;
  workspace_only = c.autonomy.workspace_only;
  max_actions_per_hour = c.autonomy.max_actions_per_hour;
  gateway_port = c.gateway.port;
  gateway_host = clip 128 c.gateway.host;
  memory_auto_save = c.memory.auto_save;
  heartbeat_enabled = c.heartbeat.enabled;
  heartbeat_interval_minutes = c.heartbeat.interval_minutes;
}

unfoldable pub fill_defaults : Config → Config
unfolding text_or double_or_default gateway_defaults memory_defaults agent_defaults
    reliability_defaults heartbeat_defaults autonomy_defaults security_defaults
fill_defaults c = record c {
  default_provider = text_or (codes "openrouter") c.default_provider;
  default_model = text_or (codes "anthropic/claude-sonnet-4") c.default_model;
  default_temperature = double_or_default seven_tenths c.default_temperature;
  gateway = gateway_defaults c.gateway;
  memory = memory_defaults c.memory;
  agent = agent_defaults c.agent;
  reliability = reliability_defaults c.reliability;
  heartbeat = heartbeat_defaults c.heartbeat;
  autonomy = autonomy_defaults c.autonomy;
  security = security_defaults c.security;
}

unfoldable pub apply_defaults : Config → Config
unfolding copy_aliases fill_defaults
apply_defaults c = copy_aliases (fill_defaults c)
