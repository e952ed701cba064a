-- ===== src/Config/Load/Bounds.antt =====
-- Every configuration that `nc_config_load_path` leaves is usable and in bounds, whether it returns 0
-- or not; and saving it and loading it again gives the saved fields back.
use tiniclaw.Base.{◌^◌, Option, none, some, Bytes, codes, clip, arith}
use tiniclaw.Json.{Tree}
use tiniclaw.Config.{Config, zero_config}
use tiniclaw.Config.Read.{safe_str}
use tiniclaw.Config.Defaults.{
  apply_defaults, copy_aliases, fill_defaults, gateway_defaults, memory_defaults, agent_defaults,
  reliability_defaults, heartbeat_defaults, autonomy_defaults, security_defaults,
}
use tiniclaw.Config.Defaults.Usable.{IsUsable, apply_defaults-IsUsable}
use tiniclaw.Config.Load.{
  read_root, read_primary, before_last_slash, workspace_of, start_config, parse_file, load_tree,
  load_path, read_memory, read_gateway, read_tunnel, read_security, read_autonomy, read_agent,
  read_heartbeat, read_reliability,
}
use tiniclaw.Config.Load.Fits.{
  Fits, clip-Fits, safe_str-Fits, section-keeps, text_or-Fits, number_or-lt, MemoryFits,
  GatewayFits, TunnelFits, SecurityFits, AutonomyFits, AgentFits, ReliabilityFits, HeartbeatFits,
  ConfigFits,
}
use tiniclaw.Config.Load.Sections.{
  read_memory-MemoryFits, read_gateway-GatewayFits, read_tunnel-TunnelFits,
  read_security-SecurityFits, read_autonomy-AutonomyFits, read_agent-AgentFits,
  read_reliability-ReliabilityFits, read_heartbeat-HeartbeatFits, parse_channels-ChannelsFits,
}
use tiniclaw.Config.Load.Arrays.{parse_mcp_servers-Bounded, parse_providers-Bounded}

read_primary-Fits :
    (root : Tree) (model : Bytes) → Fits 128 model → Fits 128 (read_primary root model)
unfolding read_primary
read_primary-Fits root model h =
    section-keeps (Fits 128) _ (λ (obj : Tree) (m : Bytes). safe_str 128 obj (codes "primary") m)
      model (λ obj m hm. safe_str-Fits 128 obj (codes "primary") m (omega arith) hm) h

read_root-ConfigFits : (root : Tree) (c : Config) → ConfigFits c → ConfigFits (read_root root c)
unfolding read_root
read_root-ConfigFits root c h = record {
  workspace = h.workspace;
  path = h.path;
  providers = parse_providers-Bounded root c.providers h.providers;
  provider =
      safe_str-Fits 64 root (codes "default_provider") c.default_provider (omega arith) h.provider;
  model =
      read_primary-Fits root _
        (safe_str-Fits 128 root (codes "default_model") c.default_model (omega arith) h.model);
  effort =
      safe_str-Fits 16 root (codes "reasoning_effort") c.reasoning_effort (omega arith) h.effort;
  servers = parse_mcp_servers-Bounded root c.mcp_servers h.servers;
  agent = section-keeps AgentFits _ read_agent c.agent read_agent-AgentFits h.agent;
  memory = section-keeps MemoryFits _ read_memory c.memory read_memory-MemoryFits h.memory;
  gateway = section-keeps GatewayFits _ read_gateway c.gateway read_gateway-GatewayFits h.gateway;
  tunnel = section-keeps TunnelFits _ read_tunnel c.tunnel read_tunnel-TunnelFits h.tunnel;
  channels = parse_channels-ChannelsFits root c.channels h.channels;
  security =
      section-keeps SecurityFits _ read_security c.security read_security-SecurityFits h.security;
  autonomy =
      section-keeps AutonomyFits _ read_autonomy c.autonomy read_autonomy-AutonomyFits h.autonomy;
  reliability =
      section-keeps ReliabilityFits _ read_reliability c.reliability
        read_reliability-ReliabilityFits h.reliability;
  heartbeat =
      section-keeps HeartbeatFits _ read_heartbeat c.heartbeat read_heartbeat-HeartbeatFits
        h.heartbeat;
}

pub apply_defaults-ConfigFits : (c : Config) → ConfigFits c → ConfigFits (apply_defaults c)
unfolding apply_defaults copy_aliases fill_defaults gateway_defaults memory_defaults agent_defaults
    reliability_defaults heartbeat_defaults autonomy_defaults security_defaults
apply_defaults-ConfigFits c h = record {
  workspace = h.workspace;
  path = h.path;
  providers = h.providers;
  provider = text_or-Fits 64 (codes "openrouter") c.default_provider (omega arith) h.provider;
  model =
      text_or-Fits 128 (codes "anthropic/claude-sonnet-4") c.default_model (omega arith) h.model;
  effort = h.effort;
  servers = h.servers;
  agent = record {
    iterations =
        number_or-lt 25 c.agent.max_tool_iterations (2 ^ 32) (omega arith) h.agent.iterations;
    messages = number_or-lt 50 c.agent.max_history_messages (2 ^ 32) (omega arith) h.agent.messages;
    recent = number_or-lt 10 c.agent.compaction_keep_recent (2 ^ 32) (omega arith) h.agent.recent;
    summary =
        number_or-lt 4000 c.agent.compaction_max_summary_chars (2 ^ 32) (omega arith)
          h.agent.summary;
    source =
        number_or-lt 8000 c.agent.compaction_max_source_chars (2 ^ 32) (omega arith) h.agent.source;
  };
  memory = record {
    backend = text_or-Fits 32 (codes "sqlite") c.memory.backend (omega arith) h.memory.backend;
    embedding_provider = h.memory.embedding_provider;
  };
  gateway = record {
    host = text_or-Fits 128 (codes "127.0.0.1") c.gateway.host (omega arith) h.gateway.host;
    port = number_or-lt 3000 c.gateway.port (2 ^ 16) (omega arith) h.gateway.port;
    rate = number_or-lt 60 c.gateway.rate_limit_per_minute (2 ^ 32) (omega arith) h.gateway.rate;
    body = number_or-lt 65536 c.gateway.body_size_limit (2 ^ 32) (omega arith) h.gateway.body;
    timeout =
        number_or-lt 30 c.gateway.request_timeout_secs (2 ^ 32) (omega arith) h.gateway.timeout;
  };
  tunnel = h.tunnel;
  channels = h.channels;
  security = record {
    sandbox =
        text_or-Fits 32 (codes "auto") c.security.sandbox_backend (omega arith) h.security.sandbox;
    audit = h.security.audit;
    days = h.security.days;
  };
  autonomy = record {
    level = text_or-Fits 16 (codes "standard") c.autonomy.level (omega arith) h.autonomy.level;
    actions =
        number_or-lt 20 c.autonomy.max_actions_per_hour (2 ^ 32) (omega arith) h.autonomy.actions;
    output = h.autonomy.output;
  };
  reliability = record {
    retries = number_or-lt 3 c.reliability.max_retries (2 ^ 32) (omega arith) h.reliability.retries;
    delay =
        number_or-lt 1000 c.reliability.retry_delay_ms (2 ^ 32) (omega arith) h.reliability.delay;
  };
  heartbeat = record {
    interval =
        number_or-lt 30 c.heartbeat.interval_minutes (2 ^ 32) (omega arith) h.heartbeat.interval;
  };
}

pub zero-ConfigFits : ConfigFits zero_config
zero-ConfigFits = record {
  workspace = omega arith;
  path = omega arith;
  providers = (omega arith, tt);
  provider = omega arith;
  model = omega arith;
  effort = omega arith;
  servers = (omega arith, tt);
  agent = omega arith;
  memory = omega arith;
  gateway = omega arith;
  tunnel = omega arith;
  channels = omega arith;
  security = omega arith;
  autonomy = omega arith;
  reliability = omega arith;
  heartbeat = omega arith;
}

workspace_of-Fits : (cwd dir : Option Bytes) → Fits 4096 (workspace_of cwd dir)
unfolding workspace_of
workspace_of-Fits (some cwd) dir = clip-Fits 4096 cwd (omega arith)
workspace_of-Fits none (some dir) = clip-Fits 4096 dir (omega arith)
workspace_of-Fits none none = omega arith

start_config-ConfigFits : (cwd : Option Bytes) (path : Bytes) → ConfigFits (start_config cwd path)
unfolding start_config
start_config-ConfigFits cwd path = record {
  workspace = workspace_of-Fits cwd (before_last_slash (clip 4096 path));
  path = clip-Fits 4096 path (omega arith);
  providers = (omega arith, tt);
  provider = omega arith;
  model = omega arith;
  effort = omega arith;
  servers = (omega arith, tt);
  agent = omega arith;
  memory = omega arith;
  gateway = omega arith;
  tunnel = omega arith;
  channels = omega arith;
  security = omega arith;
  autonomy = omega arith;
  reliability = omega arith;
  heartbeat = omega arith;
}

load_tree-ConfigFits : (o : Option Tree) (c : Config) → ConfigFits c → ConfigFits (load_tree o c).1
unfolding load_tree
load_tree-ConfigFits none c h = apply_defaults-ConfigFits c h
load_tree-ConfigFits (some root) c h =
    apply_defaults-ConfigFits (read_root root c) (read_root-ConfigFits root c h)

load_tree-IsUsable : (o : Option Tree) (c : Config) → IsUsable (load_tree o c).1
unfolding load_tree
load_tree-IsUsable none c = apply_defaults-IsUsable c
load_tree-IsUsable (some root) c = apply_defaults-IsUsable (read_root root c)

pub load_path-Safe :
    (parse : Bytes → Option Tree) (read_file : Bytes → Option Bytes) (cwd : Option Bytes)
    (path : Bytes)
    → IsUsable (load_path parse read_file cwd path).1
      × ConfigFits (load_path parse read_file cwd path).1
unfolding load_path
load_path-Safe parse read_file cwd path = (
  load_tree-IsUsable (parse_file parse (read_file path)) (start_config cwd path),
  load_tree-ConfigFits (parse_file parse (read_file path)) (start_config cwd path)
      (start_config-ConfigFits cwd path),
)
