-- ===== src/Main.antt =====
-- The program of src/main.c and `nc_agent_run` of src/agent/agent.c: the configuration with its
-- overrides from the environment, the commands and their arguments. The file system, the environment
-- and the user's record are parameters.
pub mod Overrides
pub mod Session
pub mod Wiring
mod Tests
use tiniclaw.Base.{
  ℕ, zero, suc, ◌%◌, ◌^◌, Bool, true, false, ◌&&◌, ◌||◌, Option, none, some, List, [], ◌∷◌, ◌++◌,
  Bytes, codes, clip, length, str_eq, ◌==◌, if◌then◌else◌,
}
use tiniclaw.Base.Int.{ℤ}
use tiniclaw.Json.{Tree}
use tiniclaw.Config.{Config, ChannelsConfig, ProviderEntry, zero_config}
use tiniclaw.Config.Read.{to_word}
use tiniclaw.Config.Defaults.{apply_defaults}
use tiniclaw.Config.Load.{load_path}

-- What the program finds outside: `getenv`, the home directory of the user's record, `getcwd`, which
-- files exist, what they hold, and the tree that cJSON makes of a text.
pub record Environment : Type 0 where
  pub getenv : Bytes → Option Bytes
  pub pw_dir : Option Bytes
  pub cwd : Option Bytes
  pub exists : Bytes → Bool
  pub read_file : Bytes → Option Bytes
  pub parse : Bytes → Option Tree

-- `nc_home_dir` and `nc_config_dir` of src/platform.c
unfoldable pub pw_home : Option Bytes → Bytes
pw_home none = codes "."
pw_home (some dir) = clip 4096 dir

unfoldable pub home_or : Option Bytes → Option Bytes → Bytes
unfolding pw_home
home_or none pw = pw_home pw
home_or (some []) pw = pw_home pw
home_or (some (c ∷ home)) pw = clip 4096 (c ∷ home)

unfoldable pub home_dir : Environment → Bytes
unfolding home_or
home_dir env = home_or (env.getenv (codes "HOME")) env.pw_dir

unfoldable pub config_dir : Environment → Bytes
unfolding home_dir
config_dir env = clip 4096 (home_dir env ++ codes "/.tiniclaw")

-- `nc_config_load`
unfoldable pub config_load : Environment → Config
unfolding config_dir load_path
config_load env =
    (load_path env.parse env.read_file env.cwd
      (clip 4096 (config_dir env ++ codes "/config.json"))).1

-- The configuration of the file; the file of the working directory only makes the program look for
-- the one of the home directory.
unfoldable pub file_config : Environment → Config
unfolding config_load home_dir apply_defaults
file_config env =
    if env.exists (clip 4096 (home_dir env ++ codes "/.tiniclaw/config.json"))
      || env.exists (codes "config.json")
    then config_load env
    else apply_defaults zero_config

unfoldable pub first_provider : Bytes → Bytes → Config → Config
first_provider name key c = record c {
  providers = record { name = clip 64 name; api_key = clip 512 key; base_url = [] } ∷ [];
  default_provider = elim c.default_provider [ [] ↦ name | x ∷ s ↦ x ∷ s ];
}

-- A key of the environment, where there is no provider.
unfoldable pub provider_key : Bytes → Option Bytes → List ProviderEntry → Config → Config
unfolding first_provider
provider_key name none ps c = c
provider_key name (some []) ps c = c
provider_key name (some (x ∷ key)) (p ∷ ps) c = c
provider_key name (some (x ∷ key)) [] c = first_provider name (x ∷ key) c

unfoldable pub with_key : Bytes → Option Bytes → Config → Config
unfolding provider_key
with_key name key c = provider_key name key c.providers c

unfoldable pub text_over : ℕ → Option Bytes → Bytes → Bytes
text_over n none old = old
text_over n (some []) old = old
text_over n (some (x ∷ s)) old = clip n (x ∷ s)

unfoldable pub with_names : Option Bytes → Option Bytes → Config → Config
unfolding text_over
with_names model provider c = record c {
  default_model = text_over 128 model c.default_model;
  default_provider = text_over 64 provider c.default_provider;
}

unfoldable pub load_config : Environment → Config
unfolding file_config with_key with_names
load_config env =
    with_names (env.getenv (codes "TINICLAW_MODEL")) (env.getenv (codes "TINICLAW_PROVIDER")) (
      with_key (codes "anthropic") (env.getenv (codes "ANTHROPIC_API_KEY"))
        (with_key (codes "openai") (env.getenv (codes "OPENAI_API_KEY")) (file_config env)))

-- The port of `cmd_gateway`: the last `--port` or `-p` with a word behind it, cut to 16 bits.
unfoldable pub port_args : (Bytes → ℤ) → List Bytes → ℕ → ℕ
unfolding to_word
port_args atoi [] port = port
port_args atoi (a ∷ []) port = port
port_args atoi (a ∷ b ∷ args) port =
    port_args atoi (b ∷ args)
      (if str_eq a (codes "--port") || str_eq a (codes "-p") then to_word 16 (atoi b) else port)

-- The channels that `cmd_channel` prints.
unfoldable pub listed_if : Bytes → Bytes → List Bytes
listed_if name [] = []
listed_if name (c ∷ token) = name ∷ []

unfoldable pub listed_channels : ChannelsConfig → List Bytes
unfolding listed_if
listed_channels c =
    listed_if (codes "telegram") c.telegram_bot_token
    ++ (listed_if (codes "discord") c.discord_bot_token
        ++ (listed_if (codes "slack") c.slack_bot_token
            ++ (listed_if (codes "matrix") c.matrix_access_token
                ++ (listed_if (codes "irc") c.irc.host
                    ++ (listed_if (codes "email") c.email_smtp_url
                        ++ ((if c.imessage_enabled then codes "imessage" ∷ [] else [])
                            ++ (codes "cli" ∷ [])))))))

pub data Command : Type 0 where
  usage : Command
  show_version : Command
  agent : Command
  gateway : Command
  status : Command
  onboard : Command
  doctor : Command
  cron : Command
  channel : Command
  models : Command
  unknown : Command

unfoldable pub named : Bytes → List (Bytes × Command) → Command
named cmd [] = unknown
named cmd ((name, c) ∷ cs) = let rest = named cmd cs in if str_eq cmd name then c else rest

-- The command, by the first argument; `daemon` runs the gateway.
unfoldable pub command_of : List Bytes → Command
unfolding named
command_of [] = usage
command_of (cmd ∷ args) = named cmd (
    (codes "help", usage)
    ∷ (codes "--help", usage)
    ∷ (codes "-h", usage)
    ∷ (codes "version", show_version)
    ∷ (codes "--version", show_version)
    ∷ (codes "-v", show_version)
    ∷ (codes "agent", agent)
    ∷ (codes "gateway", gateway)
    ∷ (codes "daemon", gateway)
    ∷ (codes "status", status)
    ∷ (codes "onboard", onboard)
    ∷ (codes "doctor", doctor)
    ∷ (codes "cron", cron)
    ∷ (codes "channel", channel)
    ∷ (codes "models", models)
    ∷ [])

-- The flags of `nc_agent_run`: the word behind the last `-m` or `--message`.
unfoldable pub is_message_flag : Bytes → Bool
is_message_flag a = str_eq a (codes "-m") || str_eq a (codes "--message")

unfoldable pub message_args : List Bytes → Option Bytes → Option Bytes
unfolding is_message_flag
message_args [] msg = msg
message_args (a ∷ []) msg = msg
message_args (a ∷ b ∷ args) msg =
    let taken = message_args args (some b) in
    let passed = message_args (b ∷ args) msg in if is_message_flag a then taken else passed

-- A line of `fgets` without its line feed.
unfoldable pub strip_newline : Bytes → Bytes
strip_newline [] = []
strip_newline (c ∷ []) = if c == 10 then [] else c ∷ []
strip_newline (c ∷ d ∷ s) = c ∷ strip_newline (d ∷ s)

unfoldable pub is_exit : Bytes → Bool
is_exit line = str_eq line (codes "exit") || str_eq line (codes "quit")

unfoldable pub is_empty : Bytes → Bool
is_empty [] = true
is_empty (c ∷ s) = false

-- The loop over the lines that are typed; a turn takes a line and the state of the session.
unfoldable pub repl : {S : Type 0} → (Bytes → S → S) → List Bytes → S → S
unfolding strip_newline is_exit is_empty
repl turn [] s = s
repl turn (l ∷ lines) s =
    let line = strip_newline l in
    let next = repl turn lines (if is_empty line then s else turn line s) in
    if is_exit line then s else next
