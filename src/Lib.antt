-- ===== src/Lib.antt =====
-- tiniclaw, an agent runtime in C: its memory, text and security helpers, its configuration, its
-- scheduler, its providers and tools, its memories, its gateway and its agent.
--
-- Parts, and where they are modelled:
--   src/arena.c                      Arena: the bump allocator, on a buffer given as a list of bytes;
--                                    `alloc` is `nc_arena_alloc`, and so on.
--   src/util.c                       Util.Buf (`NcBuf`, and `CurlBuf` of src/providers/provider.c),
--                                    Util.Strings, Util.Hex, Util.Json.
--   src/security/pairing.c           Security.Pairing, Security.Policy (with src/net_security.c) and
--                                    Security.Rate.
--   src/security/secrets.c           Security.Secrets: the store, over a parameter for OpenSSL.
--   src/config.c, include/config.h   Config: the types; Config.Read the readers of one member,
--                                    Config.Defaults, Config.Providers, Config.Channels,
--                                    Config.Servers (MCP), Config.Load and Config.Save.
--   src/cron.c                       Cron: the types; Cron.Expr the schedule expressions, Cron.Store
--                                    the saved file, Cron.Load reading it, Cron.Jobs the operations,
--                                    Cron.Tick a round of the thread.
--   src/agent/agent.c                Agent: the types; Agent.History, Agent.Prompt, Agent.Dispatch
--                                    and Agent.Turn.
--   src/providers/                   Providers: what they share, with `nc_http_post_json`;
--                                    Providers.Openai, Providers.Anthropic and Providers.Ollama a
--                                    format each, Providers.Factory the choice by name.
--   src/gateway.c                    Gateway: the request and the state; Gateway.Parse the parser,
--                                    Gateway.Handle a connection.
--   src/mcp.c                        Mcp: the server; Mcp.Rpc an exchange, Mcp.Connect the handshake
--                                    and the list of tools, Mcp.Call a call and the wrapped tools.
--   src/memory/memory.c              Memory: the vtable and the empty store; Memory.Markdown.
--   src/memory/sqlite_mem.c          Memory.Sqlite: the table as a list of rows.
--   src/tools/memory_tools.c         Memory.Toolset.
--   src/tools/file_tools.c           Tools.File: the four tools over a disk of whole files;
--                                    Tools.File.Registry their vtables.
--   src/tools/shell.c                Tools.Shell: the policy check, the command line and the output.
--   src/tools/git.c                  Tools.Git.
--   src/tools/http_request.c         Tools.Http.
--   src/tools/misc_tools.c           Tools.Web: pages, searches and the small tools.
--   src/tools/tool.c                 Tools.Default: the list of tools that the agent gets.
--   src/main.c                       Main: the configuration with the environment's overrides, the
--                                    choice of a command, and the loop of `nc_agent_run`; Main.Wiring
--                                    its agent over the provider of the configuration.
-- Base holds what the parts share: tests and lists on the native numbers, C strings, signed 64-bit
-- numbers, bitwise operations and blocks of memory. Json holds JSON values as data, in the shape in
-- which the code reads and builds them through cJSON, a library outside the repository.
--
-- The program loads its configuration, overrides it from the environment and runs a command. The
-- agent's turn calls the provider and the tools in a loop, keeps the conversation in its history, and
-- stores what was said in the memory. The provider is made by the factory from a name and a key of
-- the configuration; it prints the conversation as JSON, posts it, and reads texts and tool calls out
-- of the answer. The pairing guard, the policy and the rate tracker are asked by the callers of the
-- agent, of which the gateway is one: it parses a request, asks the guard for the token, and gives the
-- message to the agent. The secret store keeps their keys. The buffers, the hex text and the JSON
-- literals are used by all of them, and the arena holds what lives as long as a turn. The tools of
-- Tools and Memory.Toolset are what a turn dispatches to; those of an MCP server are wrapped to look
-- the same.
--
-- State is passed explicitly: an operation takes the state and returns it with the C function's
-- answer, `none` for NULL or -1. What `malloc`, the files, the clock, the random bytes, the shell,
-- the processes, curl with the redirects it follows, OpenSSL and SQLite's search do is an argument; so is
-- what cJSON prints,
-- parses and makes of a number, and what the agent's provider and tools answer. A double is only
-- passed on and compared with zero, as the 64 bits that hold it, and cast by a parameter. A `size_t`
-- wraps at 2 ^ 64.
--
-- Fuel: the doubling loop of a buffer has fuel 64, since a capacity doubles at most 63 times before
-- it wraps; printing a 64-bit number has fuel for 20 digits, which is as long as it gets; the agent's
-- loop runs on its own bound, `max_tool_iterations`. Everything else recurs on its data.
--
-- Not modelled: sockets and the loop of `nc_gateway_run`, the transport of HTTP, starting and waiting
-- for processes, threads, and what is printed to the terminal (src/status.c, src/doctor.c,
-- src/onboard.c), which are input and output; the channels (src/channels) and the audit log; the
-- ranked search and the scores of the SQLite memory; the cron commands.
pub mod Agent
pub mod Arena
pub mod Base
pub mod Config
pub mod Cron
pub mod Gateway
pub mod Json
pub mod Main
pub mod Mcp
pub mod Memory
pub mod Providers
pub mod Security
pub mod Tools
pub mod Util
