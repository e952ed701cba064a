-- ===== src/Main/Wiring.antt =====
-- How `nc_agent_run` of src/agent/agent.c puts the agent together, for a run with `-m`: the provider
-- from the configuration, behind the agent's vtable. The tools and the memory are parameters; the
-- provider and the tools live in an arena that such a run does not reset.
pub mod Requests
use tiniclaw.Base.{Bool, Option, none, some, List, Bytes}
use tiniclaw.Config.{Config}
use tiniclaw.Config.Providers.{get_provider_key, get_provider_url}
use tiniclaw.Agent.{
  ToolCall, Tool, ChatRequest, ChatResponse, Provider, Agent, AgentConfig, agent_init,
}
use tiniclaw.Agent.Turn.{Outside, agent_turn}
use tiniclaw.Providers.{Response, Cjson, Curl, request_of, named}
use tiniclaw.Providers.Factory.{AnyProvider, provider_create, provider_chat, supports_tools}

-- The fields that `nc_agent_init` reads.
unfoldable pub agent_config : Config → AgentConfig
agent_config cfg = record {
  default_model = cfg.default_model;
  default_temperature = cfg.default_temperature;
  workspace_dir = cfg.workspace_dir;
  max_tool_iterations = cfg.agent.max_tool_iterations;
  max_history_messages = cfg.agent.max_history_messages;
  auto_save = cfg.memory.auto_save;
  max_tokens = cfg.max_tokens;
}

unfoldable pub session_provider : Config → AnyProvider
unfolding provider_create get_provider_key get_provider_url
session_provider cfg =
    provider_create (some cfg.default_provider)
      (get_provider_key cfg.providers cfg.default_provider)
      (get_provider_url cfg.providers cfg.default_provider)

-- `crash` stands for what the agent makes of a call whose name is NULL.
unfoldable pub response_or : ChatResponse → Option (List ToolCall) → Response → ChatResponse
response_or crash none r = crash
response_or crash (some calls) r = record {
  content = r.content;
  tool_calls = calls;
  ok = r.ok;
  error_msg = r.error_msg;
}

module _ {W : Type 0} (cj : Cjson) (curl : Curl W) (crash : ChatResponse) where
  unfoldable pub chat_with : AnyProvider → ChatRequest → W → Bool × ChatResponse × W
  unfolding provider_chat request_of named response_or
  chat_with p r w =
      let (ok, resp, w') = provider_chat cj curl p (request_of r) w in
      (ok, response_or crash (named resp.tool_calls) resp, w')

module _ {W J : Type 0} (cj : Cjson) (curl : Curl W) (crash : ChatResponse) where
  unfoldable pub session_agent :
      Config → List (Tool W J) → Option (Bytes → Bytes → W → W) → Agent W J
  unfolding agent_init agent_config session_provider chat_with supports_tools
  session_agent cfg tools memory =
      agent_init (agent_config cfg)
        (record {
          supports_tools = supports_tools (session_provider cfg);
          chat = chat_with cj curl crash (session_provider cfg);
        })
        tools memory

  -- The turn of a run with `-m`, and its answer.
  unfoldable pub run_message :
      Outside J
      → Config
      → List (Tool W J)
      → Option (Bytes → Bytes → W → W)
      → Bytes
      → W
      → Bytes × Agent W J × W
  unfolding session_agent agent_turn
  run_message o cfg tools memory msg w = agent_turn o (session_agent cfg tools memory) (some msg) w
