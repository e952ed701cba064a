-- ===== src/Config/Defaults/Usable.antt =====
-- What the defaults give, and which configurations they leave as they are.
use tiniclaw.Base.{
  ℕ, codes, ◌<◌, ◌^◌, ◌≡◌, refl, sym, ap, ◌∙◌, ◌≢◌, ◌↔◌, true, [], ◌∷◌, Bytes, clip, arith,
}
use mathlib.Core.Path.{subst}
use tiniclaw.Config.{Config}
use tiniclaw.Config.Defaults.{
  text_or, number_or, double_or_default, gateway_defaults, memory_defaults, agent_defaults,
  reliability_defaults, heartbeat_defaults, autonomy_defaults, security_defaults, copy_aliases,
  fill_defaults, apply_defaults, seven_tenths, three_tenths,
}

-- Not +0 and not -0.
abbrev pub NonZero : ℕ → Type 0
NonZero w = (w ≢ 0) × (w ≢ 2 ^ 63)

text_or_ne : (d s : Bytes) → d ≢ [] → text_or d s ≢ []
unfolding text_or
text_or_ne d [] h = h
text_or_ne d (c ∷ s) h = λ e. cc

pub text_or_keep : (d s : Bytes) → s ≢ [] → text_or d s ≡ s
unfolding text_or
text_or_keep d [] h = absurd (h refl)
text_or_keep d (c ∷ s) h = refl

number_or_pos : (d n : ℕ) → 0 < d → 0 < number_or d n
unfolding number_or
number_or_pos d n h = ground arith

pub number_or_keep : (d n : ℕ) → 0 < n → number_or d n ≡ n
unfolding number_or
number_or_keep d n h = ground arith

double_or_NonZero : (d w : ℕ) → NonZero d → NonZero (double_or_default d w)
unfolding double_or_default
double_or_NonZero d w h = ground arith

pub double_or_keep : (d w : ℕ) → NonZero w → double_or_default d w ≡ w
unfolding double_or_default
double_or_keep d w h = ground arith

-- Every name that has a default is there, every number that has one is not zero, the four flags that
-- the defaults set are set, and the flat names agree with the nested ones.
pub record IsUsable (c : Config) : Type 0 where
  pub has_default_provider : c.default_provider ≢ []
  pub has_default_model : c.default_model ≢ []
  pub has_gateway_host : c.gateway.host ≢ []
  pub has_memory_backend : c.memory.backend ≢ []
  pub has_autonomy_level : c.autonomy.level ≢ []
  pub has_security_sandbox_backend : c.security.sandbox_backend ≢ []
  pub pos_gateway_port : 0 < c.gateway.port
  pub pos_gateway_body_size_limit : 0 < c.gateway.body_size_limit
  pub pos_gateway_request_timeout_secs : 0 < c.gateway.request_timeout_secs
  pub pos_gateway_rate_limit_per_minute : 0 < c.gateway.rate_limit_per_minute
  pub pos_agent_max_tool_iterations : 0 < c.agent.max_tool_iterations
  pub pos_agent_max_history_messages : 0 < c.agent.max_history_messages
  pub pos_agent_compaction_keep_recent : 0 < c.agent.compaction_keep_recent
  pub pos_agent_compaction_max_summary_chars : 0 < c.agent.compaction_max_summary_chars
  pub pos_agent_compaction_max_source_chars : 0 < c.agent.compaction_max_source_chars
  pub pos_reliability_max_retries : 0 < c.reliability.max_retries
  pub pos_reliability_retry_delay_ms : 0 < c.reliability.retry_delay_ms
  pub pos_heartbeat_interval_minutes : 0 < c.heartbeat.interval_minutes
  pub pos_autonomy_max_actions_per_hour : 0 < c.autonomy.max_actions_per_hour
  pub set_default_temperature : NonZero c.default_temperature
  pub set_memory_vector_weight : NonZero c.memory.vector_weight
  pub set_memory_keyword_weight : NonZero c.memory.keyword_weight
  pub on_autonomy_workspace_only : c.autonomy.workspace_only ≡ true
  pub on_security_secrets_encrypt : c.security.secrets_encrypt ≡ true
  pub on_memory_auto_save : c.memory.auto_save ≡ true
  pub on_memory_hygiene_enabled : c.memory.hygiene_enabled ≡ true
  pub same_temperature : c.temperature ≡ c.default_temperature
  pub same_workspace_only : c.workspace_only ≡ c.autonomy.workspace_only
  pub same_max_actions_per_hour : c.max_actions_per_hour ≡ c.autonomy.max_actions_per_hour
  pub same_gateway_port : c.gateway_port ≡ c.gateway.port
  pub same_gateway_host : c.gateway_host ≡ clip 128 c.gateway.host
  pub same_memory_auto_save : c.memory_auto_save ≡ c.memory.auto_save
  pub same_heartbeat_enabled : c.heartbeat_enabled ≡ c.heartbeat.enabled
  pub same_heartbeat_interval_minutes : c.heartbeat_interval_minutes ≡ c.heartbeat.interval_minutes

pub apply_defaults-IsUsable : (c : Config) → IsUsable (apply_defaults c)
unfolding apply_defaults copy_aliases fill_defaults gateway_defaults memory_defaults agent_defaults
    reliability_defaults heartbeat_defaults autonomy_defaults security_defaults
apply_defaults-IsUsable c = record {
  has_default_provider = text_or_ne _ c.default_provider (λ e. cc);
  has_default_model = text_or_ne _ c.default_model (λ e. cc);
  has_gateway_host = text_or_ne _ c.gateway.host (λ e. cc);
  has_memory_backend = text_or_ne _ c.memory.backend (λ e. cc);
  has_autonomy_level = text_or_ne _ c.autonomy.level (λ e. cc);
  has_security_sandbox_backend = text_or_ne _ c.security.sandbox_backend (λ e. cc);
  pos_gateway_port = number_or_pos 3000 c.gateway.port (omega arith);
  pos_gateway_body_size_limit = number_or_pos 65536 c.gateway.body_size_limit (omega arith);
  pos_gateway_request_timeout_secs = number_or_pos 30 c.gateway.request_timeout_secs (omega arith);
  pos_gateway_rate_limit_per_minute =
      number_or_pos 60 c.gateway.rate_limit_per_minute (omega arith);
  pos_agent_max_tool_iterations = number_or_pos 25 c.agent.max_tool_iterations (omega arith);
  pos_agent_max_history_messages = number_or_pos 50 c.agent.max_history_messages (omega arith);
  pos_agent_compaction_keep_recent = number_or_pos 10 c.agent.compaction_keep_recent (omega arith);
  pos_agent_compaction_max_summary_chars =
      number_or_pos 4000 c.agent.compaction_max_summary_chars (omega arith);
  pos_agent_compaction_max_source_chars =
      number_or_pos 8000 c.agent.compaction_max_source_chars (omega arith);
  pos_reliability_max_retries = number_or_pos 3 c.reliability.max_retries (omega arith);
  pos_reliability_retry_delay_ms = number_or_pos 1000 c.reliability.retry_delay_ms (omega arith);
  pos_heartbeat_interval_minutes = number_or_pos 30 c.heartbeat.interval_minutes (omega arith);
  pos_autonomy_max_actions_per_hour =
      number_or_pos 20 c.autonomy.max_actions_per_hour (omega arith);
  set_default_temperature = double_or_NonZero seven_tenths c.default_temperature (omega arith);
  set_memory_vector_weight = double_or_NonZero seven_tenths c.memory.vector_weight (omega arith);
  set_memory_keyword_weight = double_or_NonZero three_tenths c.memory.keyword_weight (omega arith);
  on_autonomy_workspace_only = refl;
  on_security_secrets_encrypt = refl;
  on_memory_auto_save = refl;
  on_memory_hygiene_enabled = refl;
  same_temperature = refl;
  same_workspace_only = refl;
  same_max_actions_per_hour = refl;
  same_gateway_port = refl;
  same_gateway_host = refl;
  same_memory_auto_save = refl;
  same_heartbeat_enabled = refl;
  same_heartbeat_interval_minutes = refl;
}

apply_defaults_keep : (c : Config) → IsUsable c → apply_defaults c ≡ c
unfolding apply_defaults copy_aliases fill_defaults gateway_defaults memory_defaults agent_defaults
    reliability_defaults heartbeat_defaults autonomy_defaults security_defaults
apply_defaults_keep c u = λ i. record c {
  default_provider =
      (text_or_keep (codes "openrouter") c.default_provider u.has_default_provider) i;
  default_model =
      (text_or_keep (codes "anthropic/claude-sonnet-4") c.default_model u.has_default_model) i;
  default_temperature =
      (double_or_keep seven_tenths c.default_temperature u.set_default_temperature) i;
  gateway = record c.gateway {
    host = (text_or_keep (codes "127.0.0.1") c.gateway.host u.has_gateway_host) i;
    port = (number_or_keep 3000 c.gateway.port u.pos_gateway_port) i;
    body_size_limit =
        (number_or_keep 65536 c.gateway.body_size_limit u.pos_gateway_body_size_limit) i;
    request_timeout_secs =
        (number_or_keep 30 c.gateway.request_timeout_secs u.pos_gateway_request_timeout_secs) i;
    rate_limit_per_minute =
        (number_or_keep 60 c.gateway.rate_limit_per_minute u.pos_gateway_rate_limit_per_minute) i;
  };
  memory = record c.memory {
    backend = (text_or_keep (codes "sqlite") c.memory.backend u.has_memory_backend) i;
    vector_weight =
        (double_or_keep seven_tenths c.memory.vector_weight u.set_memory_vector_weight) i;
    keyword_weight =
        (double_or_keep three_tenths c.memory.keyword_weight u.set_memory_keyword_weight) i;
    auto_save = (sym u.on_memory_auto_save) i;
    hygiene_enabled = (sym u.on_memory_hygiene_enabled) i;
  };
  agent = record c.agent {
    max_tool_iterations =
        (number_or_keep 25 c.agent.max_tool_iterations u.pos_agent_max_tool_iterations) i;
    max_history_messages =
        (number_or_keep 50 c.agent.max_history_messages u.pos_agent_max_history_messages) i;
    compaction_keep_recent =
        (number_or_keep 10 c.agent.compaction_keep_recent u.pos_agent_compaction_keep_recent) i;
    compaction_max_summary_chars =
        (number_or_keep 4000 c.agent.compaction_max_summary_chars
            u.pos_agent_compaction_max_summary_chars)
          i;
    compaction_max_source_chars =
        (number_or_keep 8000 c.agent.compaction_max_source_chars
            u.pos_agent_compaction_max_source_chars)
          i;
  };
  reliability = record c.reliability {
    max_retries = (number_or_keep 3 c.reliability.max_retries u.pos_reliability_max_retries) i;
    retry_delay_ms =
        (number_or_keep 1000 c.reliability.retry_delay_ms u.pos_reliability_retry_delay_ms) i;
  };
  heartbeat = record c.heartbeat {
    interval_minutes =
        (number_or_keep 30 c.heartbeat.interval_minutes u.pos_heartbeat_interval_minutes) i;
  };
  autonomy = record c.autonomy {
    level = (text_or_keep (codes "standard") c.autonomy.level u.has_autonomy_level) i;
    max_actions_per_hour =
        (number_or_keep 20 c.autonomy.max_actions_per_hour u.pos_autonomy_max_actions_per_hour) i;
    workspace_only = (sym u.on_autonomy_workspace_only) i;
  };
  security = record c.security {
    sandbox_backend =
        (text_or_keep (codes "auto") c.security.sandbox_backend u.has_security_sandbox_backend) i;
    secrets_encrypt = (sym u.on_security_secrets_encrypt) i;
  };
  temperature =
      (double_or_keep seven_tenths c.default_temperature u.set_default_temperature
          ∙ sym u.same_temperature)
        i;
  workspace_only = (sym u.on_autonomy_workspace_only ∙ sym u.same_workspace_only) i;
  max_actions_per_hour =
      (number_or_keep 20 c.autonomy.max_actions_per_hour u.pos_autonomy_max_actions_per_hour
          ∙ sym u.same_max_actions_per_hour)
        i;
  gateway_port =
      (number_or_keep 3000 c.gateway.port u.pos_gateway_port ∙ sym u.same_gateway_port) i;
  gateway_host =
      (ap (λ (h : Bytes). clip 128 h)
            (text_or_keep (codes "127.0.0.1") c.gateway.host u.has_gateway_host)
          ∙ sym u.same_gateway_host)
        i;
  memory_auto_save = (sym u.on_memory_auto_save ∙ sym u.same_memory_auto_save) i;
  heartbeat_enabled = (sym u.same_heartbeat_enabled) i;
  heartbeat_interval_minutes =
      (number_or_keep 30 c.heartbeat.interval_minutes u.pos_heartbeat_interval_minutes
          ∙ sym u.same_heartbeat_interval_minutes)
        i;
}

-- The defaults leave a configuration as it is exactly if it is usable. What they give is usable, so
-- a second pass changes nothing.
pub apply_defaults_fixed :
    (c : Config)
    → ((apply_defaults c ≡ c) ↔ IsUsable c)
      × IsUsable (apply_defaults c)
      × (apply_defaults (apply_defaults c) ≡ apply_defaults c)
apply_defaults_fixed c =
    let usable : IsUsable (apply_defaults c) = apply_defaults-IsUsable c in
    (
      (λ e. subst IsUsable e usable, λ u. apply_defaults_keep c u),
      usable,
      apply_defaults_keep (apply_defaults c) usable,
    )
