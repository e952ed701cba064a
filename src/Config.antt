-- ===== src/Config.antt =====
-- The configuration of include/config.h: its records, without the fields that no code sets. A double
-- is its word.
pub mod Read
pub mod Defaults
pub mod Providers
pub mod Channels
pub mod Servers
pub mod Load
pub mod Save
mod Tests
use tiniclaw.Base.{ℕ, Bool, true, false, List, [], ◌∷◌, Bytes}

pub record ProviderEntry : Type 0 where
  pub name : Bytes
  pub api_key : Bytes
  pub base_url : Bytes

pub record MemoryConfig : Type 0 where
  pub backend : Bytes
  pub auto_save : Bool
  pub embedding_provider : Bytes
  pub vector_weight : ℕ
  pub keyword_weight : ℕ
  pub hygiene_enabled : Bool
  pub snapshot_enabled : Bool

pub record AutonomyConfig : Type 0 where
  pub level : Bytes
  pub workspace_only : Bool
  pub max_actions_per_hour : ℕ
  pub max_output_bytes : ℕ

pub record AgentLimits : Type 0 where
  pub max_tool_iterations : ℕ
  pub max_history_messages : ℕ
  pub compaction_keep_recent : ℕ
  pub compaction_max_summary_chars : ℕ
  pub compaction_max_source_chars : ℕ

pub record GatewayConfig : Type 0 where
  pub host : Bytes
  pub port : ℕ
  pub allow_public_bind : Bool
  pub rate_limit_per_minute : ℕ
  pub body_size_limit : ℕ
  pub request_timeout_secs : ℕ

pub record TunnelConfig : Type 0 where
  pub provider : Bytes
  pub token : Bytes
  pub domain : Bytes
  pub hostname : Bytes
  pub tailscale_funnel : Bool

pub record IrcConfig : Type 0 where
  pub host : Bytes
  pub port : ℕ
  pub nick : Bytes
  pub password : Bytes
  pub tls : Bool

pub record ChannelsConfig : Type 0 where
  pub telegram_bot_token : Bytes
  pub telegram_enabled : Bool
  pub discord_bot_token : Bytes
  pub discord_guild_id : Bytes
  pub discord_enabled : Bool
  pub slack_bot_token : Bytes
  pub slack_channel_id : Bytes
  pub slack_enabled : Bool
  pub matrix_homeserver : Bytes
  pub matrix_access_token : Bytes
  pub matrix_user_id : Bytes
  pub matrix_enabled : Bool
  pub irc : IrcConfig
  pub irc_enabled : Bool
  pub email_smtp_url : Bytes
  pub imessage_enabled : Bool

pub record SecurityConfig : Type 0 where
  pub sandbox_backend : Bytes
  pub secrets_encrypt : Bool
  pub audit_enabled : Bool
  pub audit_log_path : Bytes
  pub audit_retention_days : ℕ

pub record ReliabilityConfig : Type 0 where
  pub max_retries : ℕ
  pub retry_delay_ms : ℕ
  pub fallback_enabled : Bool

pub record CronConfig : Type 0 where
  pub enabled : Bool
  pub jobs_path : Bytes

pub record HeartbeatConfig : Type 0 where
  pub enabled : Bool
  pub interval_minutes : ℕ

-- The arrays and their counts are lists.
pub record McpServerConfig : Type 0 where
  pub name : Bytes
  pub command : Bytes
  pub args : List Bytes
  pub env : List (Bytes × Bytes)

pub record Config : Type 0 where
  pub workspace_dir : Bytes
  pub config_path : Bytes
  pub providers : List ProviderEntry
  pub default_provider : Bytes
  pub default_model : Bytes
  pub default_temperature : ℕ
  pub reasoning_effort : Bytes
  pub mcp_servers : List McpServerConfig
  pub agent : AgentLimits
  pub memory : MemoryConfig
  pub gateway : GatewayConfig
  pub tunnel : TunnelConfig
  pub channels : ChannelsConfig
  pub security : SecurityConfig
  pub autonomy : AutonomyConfig
  pub reliability : ReliabilityConfig
  pub cron : CronConfig
  pub heartbeat : HeartbeatConfig
  pub temperature : ℕ
  pub max_tokens : ℕ
  pub workspace_only : Bool
  pub max_actions_per_hour : ℕ
  pub gateway_port : ℕ
  pub gateway_host : Bytes
  pub memory_auto_save : Bool
  pub heartbeat_enabled : Bool
  pub heartbeat_interval_minutes : ℕ

-- `NC_MAX_PROVIDERS`, `NC_MAX_MCP`
abbrev pub max_providers : ℕ
max_providers = 32

abbrev pub max_mcp : ℕ
max_mcp = 16

abbrev no_irc : IrcConfig
no_irc = record { host = []; port = 0; nick = []; password = []; tls = false }

abbrev no_channels : ChannelsConfig
no_channels = record {
  telegram_bot_token = [];
  telegram_enabled = false;
  discord_bot_token = [];
  discord_guild_id = [];
  discord_enabled = false;
  slack_bot_token = [];
  slack_channel_id = [];
  slack_enabled = false;
  matrix_homeserver = [];
  matrix_access_token = [];
  matrix_user_id = [];
  matrix_enabled = false;
  irc = no_irc;
  irc_enabled = false;
  email_smtp_url = [];
  imessage_enabled = false;
}

-- `memset(cfg, 0, sizeof *cfg)`
abbrev pub zero_config : Config
zero_config = record {
  workspace_dir = [];
  config_path = [];
  providers = [];
  default_provider = [];
  default_model = [];
  default_temperature = 0;
  reasoning_effort = [];
  mcp_servers = [];
  agent = record {
    max_tool_iterations = 0;
    max_history_messages = 0;
    compaction_keep_recent = 0;
    compaction_max_summary_chars = 0;
    compaction_max_source_chars = 0;
  };
  memory = record {
    backend = [];
    auto_save = false;
    embedding_provider = [];
    vector_weight = 0;
    keyword_weight = 0;
    hygiene_enabled = false;
    snapshot_enabled = false;
  };
  gateway = record {
    host = [];
    port = 0;
    allow_public_bind = false;
    rate_limit_per_minute = 0;
    body_size_limit = 0;
    request_timeout_secs = 0;
  };
  tunnel = record {
    provider = [];
    token = [];
    domain = [];
    hostname = [];
    tailscale_funnel = false;
  };
  channels = no_channels;
  security = record {
    sandbox_backend = [];
    secrets_encrypt = false;
    audit_enabled = false;
    audit_log_path = [];
    audit_retention_days = 0;
  };
  autonomy = record {
    level = [];
    workspace_only = false;
    max_actions_per_hour = 0;
    max_output_bytes = 0;
  };
  reliability = record { max_retries = 0; retry_delay_ms = 0; fallback_enabled = false };
  cron = record { enabled = false; jobs_path = [] };
  heartbeat = record { enabled = false; interval_minutes = 0 };
  temperature = 0;
  max_tokens = 0;
  workspace_only = false;
  max_actions_per_hour = 0;
  gateway_port = 0;
  gateway_host = [];
  memory_auto_save = false;
  heartbeat_enabled = false;
  heartbeat_interval_minutes = 0;
}
