-- ===== src/Config/Load/Fits.antt =====
-- The bounds that a loaded configuration keeps: every text fits its array, every number its word, and
-- every list its array.
use tiniclaw.Base.{
  ℕ, ◌-◌, ◌^◌, ◌≤◌, ◌<◌, Option, none, some, [], ◌∷◌, Bytes, clip, length, length-take, All, arith,
}
use tiniclaw.Base.Int.{ℤ, pos, negsuc}
use tiniclaw.Json.{Tree, get_item, as_text, as_number}
use tiniclaw.Config.{
  Config, ProviderEntry, McpServerConfig, ChannelsConfig, MemoryConfig, GatewayConfig, TunnelConfig,
  SecurityConfig, AutonomyConfig, AgentLimits, HeartbeatConfig, ReliabilityConfig, max_mcp,
  max_providers,
}
use tiniclaw.Config.Defaults.{text_or, number_or}
use tiniclaw.Config.Read.{clip_or, safe_str, to_word, word_or, safe_uint32, safe_uint16, section}

-- A text with its NUL fits `char f[n]`.
abbrev pub Fits : ℕ → Bytes → Type 0
Fits n s = length s < n

pub clip-Fits : (n : ℕ) (s : Bytes) → 0 < n → Fits n (clip n s)
clip-Fits n s h = ground (arith, length-take (n - 1) s)

pub clip_or-Fits :
    (n : ℕ) (old : Bytes) (o : Option Bytes) → 0 < n → Fits n old → Fits n (clip_or n old o)
unfolding clip_or
clip_or-Fits n old none h f = f
clip_or-Fits n old (some s) h f = clip-Fits n s h

pub safe_str-Fits :
    (n : ℕ) (obj : Tree) (key old : Bytes) → 0 < n → Fits n old → Fits n (safe_str n obj key old)
unfolding safe_str
safe_str-Fits n obj key old h f = clip_or-Fits n old (as_text (get_item obj key)) h f

word_or_32-lt : (old : ℕ) (o : Option (ℕ × ℤ)) → old < 2 ^ 32 → word_or 32 old o < 2 ^ 32
unfolding word_or to_word
word_or_32-lt old none h = h
word_or_32-lt old (some (w, pos n)) h = omega arith
word_or_32-lt old (some (w, negsuc n)) h = omega arith

word_or_16-lt : (old : ℕ) (o : Option (ℕ × ℤ)) → old < 2 ^ 16 → word_or 16 old o < 2 ^ 16
unfolding word_or to_word
word_or_16-lt old none h = h
word_or_16-lt old (some (w, pos n)) h = omega arith
word_or_16-lt old (some (w, negsuc n)) h = omega arith

pub safe_uint32-lt :
    (obj : Tree) (key : Bytes) (old : ℕ) → old < 2 ^ 32 → safe_uint32 obj key old < 2 ^ 32
unfolding safe_uint32
safe_uint32-lt obj key old h = word_or_32-lt old (as_number (get_item obj key)) h

pub safe_uint16-lt :
    (obj : Tree) (key : Bytes) (old : ℕ) → old < 2 ^ 16 → safe_uint16 obj key old < 2 ^ 16
unfolding safe_uint16
safe_uint16-lt obj key old h = word_or_16-lt old (as_number (get_item obj key)) h

pub section-keeps :
    {A : Type 0} (P : A → Type 0) (o : Option Tree) (read : Tree → A → A) (a : A)
    → ((obj : Tree) (a : A) → P a → P (read obj a))
    → P a
    → P (section o read a)
unfolding section
section-keeps P none read a keep h = h
section-keeps P (some obj) read a keep h = keep obj a h

pub text_or-Fits : (n : ℕ) (d s : Bytes) → Fits n d → Fits n s → Fits n (text_or d s)
unfolding text_or
text_or-Fits n d [] hd hs = hd
text_or-Fits n d (c ∷ s) hd hs = hs

pub number_or-lt : (d n b : ℕ) → d < b → n < b → number_or d n < b
unfolding number_or
number_or-lt d n b hd hn = ground arith

-- One record for each part.
pub record EntryFits (p : ProviderEntry) : Type 0 where
  pub name : Fits 64 p.name
  pub api_key : Fits 512 p.api_key
  pub base_url : Fits 512 p.base_url

pub record ServerFits (s : McpServerConfig) : Type 0 where
  pub name : Fits 64 s.name
  pub command : Fits 256 s.command
  pub args : (length s.args ≤ 8) × All (Fits 256) s.args
  pub env : (length s.env ≤ 8) × All (λ (e : Bytes × Bytes). Fits 64 e.0 × Fits 256 e.1) s.env

pub record MemoryFits (m : MemoryConfig) : Type 0 where
  pub backend : Fits 32 m.backend
  pub embedding_provider : Fits 32 m.embedding_provider

pub record GatewayFits (g : GatewayConfig) : Type 0 where
  pub host : Fits 128 g.host
  pub port : g.port < 2 ^ 16
  pub rate : g.rate_limit_per_minute < 2 ^ 32
  pub body : g.body_size_limit < 2 ^ 32
  pub timeout : g.request_timeout_secs < 2 ^ 32

pub record TunnelFits (t : TunnelConfig) : Type 0 where
  pub provider : Fits 32 t.provider
  pub token : Fits 512 t.token
  pub domain : Fits 256 t.domain
  pub hostname : Fits 256 t.hostname

pub record ChannelsFits (c : ChannelsConfig) : Type 0 where
  pub telegram : Fits 256 c.telegram_bot_token
  pub discord : Fits 256 c.discord_bot_token × Fits 64 c.discord_guild_id
  pub slack : Fits 256 c.slack_bot_token × Fits 64 c.slack_channel_id
  pub matrix :
      Fits 256 c.matrix_homeserver × Fits 512 c.matrix_access_token × Fits 128 c.matrix_user_id
  pub irc :
      Fits 256 c.irc.host × Fits 64 c.irc.nick × Fits 256 c.irc.password × (c.irc.port < 2 ^ 16)

pub record SecurityFits (s : SecurityConfig) : Type 0 where
  pub sandbox : Fits 32 s.sandbox_backend
  pub audit : Fits 4096 s.audit_log_path
  pub days : s.audit_retention_days < 2 ^ 32

pub record AutonomyFits (a : AutonomyConfig) : Type 0 where
  pub level : Fits 16 a.level
  pub actions : a.max_actions_per_hour < 2 ^ 32
  pub output : a.max_output_bytes < 2 ^ 32

pub record AgentFits (a : AgentLimits) : Type 0 where
  pub iterations : a.max_tool_iterations < 2 ^ 32
  pub messages : a.max_history_messages < 2 ^ 32
  pub recent : a.compaction_keep_recent < 2 ^ 32
  pub summary : a.compaction_max_summary_chars < 2 ^ 32
  pub source : a.compaction_max_source_chars < 2 ^ 32

pub record ReliabilityFits (r : ReliabilityConfig) : Type 0 where
  pub retries : r.max_retries < 2 ^ 32
  pub delay : r.retry_delay_ms < 2 ^ 32

pub record HeartbeatFits (h : HeartbeatConfig) : Type 0 where
  pub interval : h.interval_minutes < 2 ^ 32

pub record ConfigFits (c : Config) : Type 0 where
  pub workspace : Fits 4096 c.workspace_dir
  pub path : Fits 4096 c.config_path
  pub providers : (length c.providers ≤ max_providers) × All EntryFits c.providers
  pub provider : Fits 64 c.default_provider
  pub model : Fits 128 c.default_model
  pub effort : Fits 16 c.reasoning_effort
  pub servers : (length c.mcp_servers ≤ max_mcp) × All ServerFits c.mcp_servers
  pub agent : AgentFits c.agent
  pub memory : MemoryFits c.memory
  pub gateway : GatewayFits c.gateway
  pub tunnel : TunnelFits c.tunnel
  pub channels : ChannelsFits c.channels
  pub security : SecurityFits c.security
  pub autonomy : AutonomyFits c.autonomy
  pub reliability : ReliabilityFits c.reliability
  pub heartbeat : HeartbeatFits c.heartbeat
