-- ===== src/Config/Load/Sections.antt =====
-- The readers of the sections keep the bounds.
use tiniclaw.Base.{◌^◌, codes, arith}
use tiniclaw.Json.{Tree}
use tiniclaw.Config.{
  ChannelsConfig, MemoryConfig, GatewayConfig, TunnelConfig, SecurityConfig, AutonomyConfig,
  AgentLimits, HeartbeatConfig, ReliabilityConfig,
}
use tiniclaw.Config.Read.{safe_uint16}
use tiniclaw.Config.Channels.{
  read_telegram, read_discord, read_slack, read_matrix, read_irc, read_imessage, read_channels,
  parse_channels,
}
use tiniclaw.Config.Load.{
  read_memory, read_gateway, read_tunnel, read_security, read_autonomy, read_agent, read_heartbeat,
  read_reliability,
}
use tiniclaw.Config.Load.Fits.{
  safe_str-Fits, safe_uint32-lt, safe_uint16-lt, section-keeps, number_or-lt, MemoryFits,
  GatewayFits, TunnelFits, ChannelsFits, SecurityFits, AutonomyFits, AgentFits, ReliabilityFits,
  HeartbeatFits,
}

pub read_memory-MemoryFits :
    (obj : Tree) (m : MemoryConfig) → MemoryFits m → MemoryFits (read_memory obj m)
unfolding read_memory
read_memory-MemoryFits obj m h = record {
  backend = safe_str-Fits 32 obj (codes "backend") m.backend (omega arith) h.backend;
  embedding_provider =
      safe_str-Fits 32 obj (codes "embedding_provider") m.embedding_provider (omega arith)
        h.embedding_provider;
}

pub read_gateway-GatewayFits :
    (obj : Tree) (g : GatewayConfig) → GatewayFits g → GatewayFits (read_gateway obj g)
unfolding read_gateway
read_gateway-GatewayFits obj g h = record {
  host = safe_str-Fits 128 obj (codes "host") g.host (omega arith) h.host;
  port = safe_uint16-lt obj (codes "port") g.port h.port;
  rate = safe_uint32-lt obj (codes "rate_limit_per_minute") g.rate_limit_per_minute h.rate;
  body = h.body;
  timeout = h.timeout;
}

pub read_tunnel-TunnelFits :
    (obj : Tree) (t : TunnelConfig) → TunnelFits t → TunnelFits (read_tunnel obj t)
unfolding read_tunnel
read_tunnel-TunnelFits obj t h = record {
  provider = safe_str-Fits 32 obj (codes "provider") t.provider (omega arith) h.provider;
  token = safe_str-Fits 512 obj (codes "token") t.token (omega arith) h.token;
  domain = safe_str-Fits 256 obj (codes "domain") t.domain (omega arith) h.domain;
  hostname = safe_str-Fits 256 obj (codes "hostname") t.hostname (omega arith) h.hostname;
}

pub read_security-SecurityFits :
    (obj : Tree) (s : SecurityConfig) → SecurityFits s → SecurityFits (read_security obj s)
unfolding read_security
read_security-SecurityFits obj s h = record {
  sandbox = safe_str-Fits 32 obj (codes "sandbox") s.sandbox_backend (omega arith) h.sandbox;
  audit = safe_str-Fits 4096 obj (codes "audit_log_path") s.audit_log_path (omega arith) h.audit;
  days = safe_uint32-lt obj (codes "audit_retention_days") s.audit_retention_days h.days;
}

pub read_autonomy-AutonomyFits :
    (obj : Tree) (a : AutonomyConfig) → AutonomyFits a → AutonomyFits (read_autonomy obj a)
unfolding read_autonomy
read_autonomy-AutonomyFits obj a h = record {
  level = safe_str-Fits 16 obj (codes "level") a.level (omega arith) h.level;
  actions = safe_uint32-lt obj (codes "max_actions_per_hour") a.max_actions_per_hour h.actions;
  output = safe_uint32-lt obj (codes "max_output_bytes") a.max_output_bytes h.output;
}

pub read_agent-AgentFits :
    (obj : Tree) (a : AgentLimits) → AgentFits a → AgentFits (read_agent obj a)
unfolding read_agent
read_agent-AgentFits obj a h = record {
  iterations = safe_uint32-lt obj (codes "max_tool_iterations") a.max_tool_iterations h.iterations;
  messages = safe_uint32-lt obj (codes "max_history_messages") a.max_history_messages h.messages;
  recent = safe_uint32-lt obj (codes "compaction_keep_recent") a.compaction_keep_recent h.recent;
  summary =
      safe_uint32-lt obj (codes "compaction_max_summary_chars") a.compaction_max_summary_chars
        h.summary;
  source =
      safe_uint32-lt obj (codes "compaction_max_source_chars") a.compaction_max_source_chars
        h.source;
}

pub read_reliability-ReliabilityFits :
    (obj : Tree) (r : ReliabilityConfig)
    → ReliabilityFits r
    → ReliabilityFits (read_reliability obj r)
unfolding read_reliability
read_reliability-ReliabilityFits obj r h = record {
  retries = safe_uint32-lt obj (codes "max_retries") r.max_retries h.retries;
  delay = safe_uint32-lt obj (codes "retry_delay_ms") r.retry_delay_ms h.delay;
}

pub read_heartbeat-HeartbeatFits :
    (obj : Tree) (t : HeartbeatConfig) → HeartbeatFits t → HeartbeatFits (read_heartbeat obj t)
unfolding read_heartbeat
read_heartbeat-HeartbeatFits obj t h = record {
  interval = safe_uint32-lt obj (codes "interval_minutes") t.interval_minutes h.interval;
}

read_telegram-ChannelsFits :
    (obj : Tree) (c : ChannelsConfig) → ChannelsFits c → ChannelsFits (read_telegram obj c)
unfolding read_telegram
read_telegram-ChannelsFits obj c h = record {
  telegram =
      safe_str-Fits 256 obj (codes "bot_token") c.telegram_bot_token (omega arith) h.telegram;
  discord = h.discord;
  slack = h.slack;
  matrix = h.matrix;
  irc = h.irc;
}

read_discord-ChannelsFits :
    (obj : Tree) (c : ChannelsConfig) → ChannelsFits c → ChannelsFits (read_discord obj c)
unfolding read_discord
read_discord-ChannelsFits obj c h = record {
  telegram = h.telegram;
  discord = (
    safe_str-Fits 256 obj (codes "bot_token") c.discord_bot_token (omega arith) h.discord.0,
    safe_str-Fits 64 obj (codes "guild_id") c.discord_guild_id (omega arith) h.discord.1,
  );
  slack = h.slack;
  matrix = h.matrix;
  irc = h.irc;
}

read_slack-ChannelsFits :
    (obj : Tree) (c : ChannelsConfig) → ChannelsFits c → ChannelsFits (read_slack obj c)
unfolding read_slack
read_slack-ChannelsFits obj c h = record {
  telegram = h.telegram;
  discord = h.discord;
  slack = (
    safe_str-Fits 256 obj (codes "bot_token") c.slack_bot_token (omega arith) h.slack.0,
    safe_str-Fits 64 obj (codes "channel_id") c.slack_channel_id (omega arith) h.slack.1,
  );
  matrix = h.matrix;
  irc = h.irc;
}

read_matrix-ChannelsFits :
    (obj : Tree) (c : ChannelsConfig) → ChannelsFits c → ChannelsFits (read_matrix obj c)
unfolding read_matrix
read_matrix-ChannelsFits obj c h = record {
  telegram = h.telegram;
  discord = h.discord;
  slack = h.slack;
  matrix = (
    safe_str-Fits 256 obj (codes "homeserver") c.matrix_homeserver (omega arith) h.matrix.0,
    safe_str-Fits 512 obj (codes "access_token") c.matrix_access_token (omega arith) h.matrix.1,
    safe_str-Fits 128 obj (codes "user_id") c.matrix_user_id (omega arith) h.matrix.2,
  );
  irc = h.irc;
}

read_irc-ChannelsFits :
    (obj : Tree) (c : ChannelsConfig) → ChannelsFits c → ChannelsFits (read_irc obj c)
unfolding read_irc
read_irc-ChannelsFits obj c h = record {
  telegram = h.telegram;
  discord = h.discord;
  slack = h.slack;
  matrix = h.matrix;
  irc = (
    safe_str-Fits 256 obj (codes "host") c.irc.host (omega arith) h.irc.0,
    safe_str-Fits 64 obj (codes "nick") c.irc.nick (omega arith) h.irc.1,
    safe_str-Fits 256 obj (codes "password") c.irc.password (omega arith) h.irc.2,
    number_or-lt 6697 (safe_uint16 obj (codes "port") c.irc.port) (2 ^ 16) (omega arith)
        (safe_uint16-lt obj (codes "port") c.irc.port h.irc.3),
  );
}

read_imessage-ChannelsFits :
    (ch obj : Tree) (c : ChannelsConfig) → ChannelsFits c → ChannelsFits (read_imessage ch obj c)
unfolding read_imessage
read_imessage-ChannelsFits ch obj c h = record {
  telegram = h.telegram;
  discord = h.discord;
  slack = h.slack;
  matrix = h.matrix;
  irc = h.irc;
}

read_channels-ChannelsFits :
    (obj : Tree) (c : ChannelsConfig) → ChannelsFits c → ChannelsFits (read_channels obj c)
unfolding read_channels
read_channels-ChannelsFits obj c h =
    section-keeps ChannelsFits _ (read_imessage obj) _ (read_imessage-ChannelsFits obj) (
      section-keeps ChannelsFits _ read_irc _ read_irc-ChannelsFits (
        section-keeps ChannelsFits _ read_matrix _ read_matrix-ChannelsFits (
          section-keeps ChannelsFits _ read_slack _ read_slack-ChannelsFits (
            section-keeps ChannelsFits _ read_discord _ read_discord-ChannelsFits
              (section-keeps ChannelsFits _ read_telegram c read_telegram-ChannelsFits h)))))

pub parse_channels-ChannelsFits :
    (root : Tree) (c : ChannelsConfig) → ChannelsFits c → ChannelsFits (parse_channels root c)
unfolding parse_channels
parse_channels-ChannelsFits root c h =
    section-keeps ChannelsFits _ read_channels c read_channels-ChannelsFits h
