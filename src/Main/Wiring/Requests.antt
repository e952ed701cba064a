-- ===== src/Main/Wiring/Requests.antt =====
-- Which requests a run with `-m` makes to its provider.
use mathlib.Core.Path.{subst}
use tiniclaw.Base.{
  ℕ, ◌≤◌, ◌≡◌, sym, ap, Option, none, some, List, [], ◌∷◌, Bytes, length, All, arith,
}
use tiniclaw.Config.{Config}
use tiniclaw.Config.Providers.{get_provider_key, get_provider_url}
use tiniclaw.Agent.{Agent, Tool, ChatRequest, ChatResponse, or_default, agent_init}
use tiniclaw.Agent.Dispatch.Counted.{Quiet}
use tiniclaw.Agent.Turn.{Outside, agent_turn}
use tiniclaw.Agent.Turn.Calls.{Counts, QuietMemory, agent_turn-calls}
use tiniclaw.Agent.Turn.Keeps.{KeepsTool, KeepsMemory, Keeps, agent_turn-keeps}
use tiniclaw.Providers.{Cjson, Reply, request_of}
use tiniclaw.Providers.Factory.{provider_create, provider_chat}
use tiniclaw.Providers.Factory.Routes.{Log, logging, IsGuarded, GuardedLog, provider_chat-guarded}
use tiniclaw.Main.Wiring.{agent_config, session_provider, chat_with, session_agent, run_message}

-- A tool, or the memory, that makes no request to the provider.
abbrev pub LeavesLog : {V J : Type 0} → Tool (Log × V) J → Type 0
LeavesLog {V} {J} t = (args : Option J) (w : Log × V) → (t.execute args w).1.0 ≡ w.0

abbrev pub MemoryLeavesLog : {V : Type 0} → Option (Bytes → Bytes → Log × V → Log × V) → Type 0
MemoryLeavesLog {V} none = Unit
MemoryLeavesLog {V} (some store) =
    (key content : Bytes) (w : Log × V) → (store key content w).0 ≡ w.0

module _ {V : Type 0} where
  abbrev requests : Log × V → ℕ
  requests w = length w.0

  abbrev AllGuarded : Log × V → Type 0
  AllGuarded w = All IsGuarded w.0

  memory_quiet :
      (memory : Option (Bytes → Bytes → Log × V → Log × V))
      → MemoryLeavesLog memory
      → QuietMemory requests memory × KeepsMemory AllGuarded memory
  memory_quiet none h = (tt, tt)
  memory_quiet (some store) h = (
    (λ key content w. ap length (h key content w)),
    (λ key content w p. subst (All IsGuarded) (sym (h key content w)) p),
  )

  module _ (cj : Cjson) (reply : Bytes → V → Option Reply × V) (crash : ChatResponse) where
    chat_guarded :
        (cfg : Config)
        → get_provider_url cfg.providers cfg.default_provider ≡ none
        → (r : ChatRequest) (w : Log × V)
        → GuardedLog w.0 (chat_with cj (logging reply) crash (session_provider cfg) r w).2.0
    unfolding chat_with session_provider
    chat_guarded cfg no_url r w =
        let name = some cfg.default_provider in
        let key = get_provider_key cfg.providers cfg.default_provider in
        subst
          (λ url.
            GuardedLog w.0
              (provider_chat cj (logging reply) (provider_create name key url) (request_of r)
                w).2.0)
          (sym no_url) (provider_chat-guarded cj reply (request_of r) name key w.0 w.1)

module _ {V J : Type 0} where
  tools-Quiet : (tools : List (Tool (Log × V) J)) → All LeavesLog tools → All (Quiet requests) tools
  tools-Quiet [] h = tt
  tools-Quiet (t ∷ ts) (h, hs) = ((λ args w. ap length (h args w)), tools-Quiet ts hs)

  tools_keep :
      (tools : List (Tool (Log × V) J)) → All LeavesLog tools → All (KeepsTool AllGuarded) tools
  tools_keep [] h = tt
  tools_keep (t ∷ ts) (h, hs) =
      ((λ args w p. subst (All IsGuarded) (sym (h args w)) p), tools_keep ts hs)

  turn-IsGuarded :
      (o : Outside J) (a : Agent (Log × V) J) (input : Option Bytes) (v : V)
      → ((r : ChatRequest) (w : Log × V) → GuardedLog w.0 (a.provider.chat r w).2.0)
      → All LeavesLog a.tools
      → MemoryLeavesLog a.memory
      → (length (agent_turn o a input ([], v)).2.0 ≤ a.max_tool_iterations)
        × All IsGuarded (agent_turn o a input ([], v)).2.0
  turn-IsGuarded o a input v asked quiet silent =
      let memory = memory_quiet a.memory silent in
      let counts : Counts requests a.provider a.tools = record {
        chats = λ r w. omega (arith, ap length (asked r w).1);
        executes = tools-Quiet a.tools quiet;
      } in
      let keeps : Keeps AllGuarded a.provider a.tools = record {
        chats = λ r w p. subst (All IsGuarded) (sym (asked r w).1) ((asked r w).2, p);
        executes = tools_keep a.tools quiet;
      } in
      (
        omega (arith, agent_turn-calls o requests a input ([], v) counts memory.0),
        agent_turn-keeps AllGuarded o a input ([], v) keeps memory.1 tt,
      )

  module _ (cj : Cjson) (reply : Bytes → V → Option Reply × V) (crash : ChatResponse) where
    -- With a default provider whose URL the configuration does not override, and tools and a memory
    -- that make no request to it, a run with `-m` makes at most `max_tool_iterations` requests (25
    -- where that is 0), and each of them is over TLS, or else has no key in its headers.
    pub run_message-IsGuarded :
        (o : Outside J) (cfg : Config) (tools : List (Tool (Log × V) J))
        (memory : Option (Bytes → Bytes → Log × V → Log × V)) (msg : Bytes) (v : V)
        → get_provider_url cfg.providers cfg.default_provider ≡ none
        → All LeavesLog tools
        → MemoryLeavesLog memory
        → let log = (run_message cj (logging reply) crash o cfg tools memory msg ([], v)).2.0 in
          (length log ≤ or_default 25 cfg.agent.max_tool_iterations) × All IsGuarded log
    unfolding run_message session_agent agent_init agent_config
    run_message-IsGuarded o cfg tools memory msg v no_url quiet silent =
        turn-IsGuarded o (session_agent cj (logging reply) crash cfg tools memory) (some msg) v
          (chat_guarded cj reply crash cfg no_url) quiet silent
