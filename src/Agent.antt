-- ===== src/Agent.antt =====
-- The agent of src/agent/agent.c, with the types of include/agent.h, include/provider.h and
-- include/tool.h. `W` is the state of the world outside, which the provider, the tools and the memory
-- read and change; `J` are the trees of cJSON. Memory for the conversation does not run out.
pub mod History
pub mod Prompt
pub mod Dispatch
pub mod Turn
mod Tests
use tiniclaw.Base.{
  ℕ, ◌*◌, ◌≤◌, Bool, true, false, ◌&&◌, Option, none, some, List, [], ◌∷◌, Bytes, codes, clip, ltb,
  leb, ◌==◌, if◌then◌else◌,
}

pub data Role : Type 0 where
  role_system : Role
  role_user : Role
  role_assistant : Role
  role_tool : Role

pub record OwnedMessage : Type 0 where
  pub role : Role
  pub content : Bytes

-- `none` is NULL.
pub record ToolCall : Type 0 where
  pub id : Option Bytes
  pub name : Bytes
  pub arguments : Option Bytes

pub record ToolResult : Type 0 where
  pub success : Bool
  pub output : Option Bytes
  pub error_msg : Option Bytes

-- The functions of a tool's vtable that the agent calls.
pub record Tool (W J : Type 0) : Type 0 where
  pub name : Bytes
  pub description : Bytes
  pub parameters_json : Bytes
  pub execute : Option J → W → ToolResult × W

pub record ToolSpec : Type 0 where
  pub name : Bytes
  pub description : Bytes
  pub parameters_json : Bytes

-- A double is its word. The fields that the agent leaves zero are left out.
pub record ChatRequest : Type 0 where
  pub model : Bytes
  pub temperature : ℕ
  pub max_tokens : ℕ
  pub messages : List OwnedMessage
  pub tools : List ToolSpec

pub record ChatResponse : Type 0 where
  pub content : Option Bytes
  pub tool_calls : List ToolCall
  pub ok : Bool
  pub error_msg : Option Bytes

-- The vtable of a provider: `chat` also says whether it returned 0.
pub record Provider (W : Type 0) : Type 0 where
  pub supports_tools : Bool
  pub chat : ChatRequest → W → Bool × ChatResponse × W

-- The fields that a turn does not read are left out. `memory` is `none` for a NULL pointer, and otherwise `nc_memory_store` of a key and a content in
-- the category of conversations. `history_cap` is the size of the history's array.
pub record Agent (W J : Type 0) : Type 0 where
  pub provider : Provider W
  pub tools : List (Tool W J)
  pub memory : Option (Bytes → Bytes → W → W)
  pub model_name : Bytes
  pub temperature : ℕ
  pub workspace_dir : Bytes
  pub max_tool_iterations : ℕ
  pub max_history_messages : ℕ
  pub auto_save : Bool
  pub max_tokens : ℕ
  pub history : List OwnedMessage
  pub history_cap : ℕ
  pub has_system_prompt : Bool

-- The fields of the configuration that `nc_agent_init` reads.
pub record AgentConfig : Type 0 where
  pub default_model : Bytes
  pub default_temperature : ℕ
  pub workspace_dir : Bytes
  pub max_tool_iterations : ℕ
  pub max_history_messages : ℕ
  pub auto_save : Bool
  pub max_tokens : ℕ

-- `d > 0` on the word of a double: above +0 and up to +infinity.
pub positive_double : ℕ → Bool
positive_double w = ltb 0 w && leb w 0x7FF0000000000000

-- The word of 0.7.
abbrev pub default_temperature_word : ℕ
default_temperature_word = 0x3FE6666666666666

pub or_default : ℕ → ℕ → ℕ
or_default d n = if n == 0 then d else n

pub model_or_default : Bytes → Bytes
model_or_default [] = codes "anthropic/claude-sonnet-4"
model_or_default (c ∷ s) = c ∷ s

unfoldable pub agent_init :
    {W J : Type 0}
    → AgentConfig
    → Provider W
    → List (Tool W J)
    → Option (Bytes → Bytes → W → W)
    → Agent W J
agent_init cfg provider tools memory = record {
  provider = provider;
  tools = tools;
  memory = memory;
  model_name = clip 128 (model_or_default cfg.default_model);
  temperature =
      if positive_double cfg.default_temperature
      then cfg.default_temperature
      else default_temperature_word;
  workspace_dir = clip 4096 cfg.workspace_dir;
  max_tool_iterations = or_default 25 cfg.max_tool_iterations;
  max_history_messages = or_default 50 cfg.max_history_messages;
  auto_save = cfg.auto_save;
  max_tokens = cfg.max_tokens;
  history = [];
  history_cap = 0;
  has_system_prompt = false;
}
