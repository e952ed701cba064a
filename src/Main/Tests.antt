-- ===== src/Main/Tests.antt =====
-- The program's start on concrete environments and arguments.
use tiniclaw.Base.Int.{pos}
use tiniclaw.Json.{Tree, object, array, text}
use tiniclaw.Config.{Config, zero_config}
use tiniclaw.Config.Providers.{get_provider_url, find_provider, url_of, nonempty}
use tiniclaw.Agent.{Tool, ChatResponse, or_default}
use tiniclaw.Agent.Turn.{Outside}
use tiniclaw.Providers.{Cjson, Reply}
use tiniclaw.Providers.Factory.Routes.{Log, logging, IsGuarded}
use tiniclaw.Main.Wiring.{run_message}
use tiniclaw.Main.Wiring.Requests.{run_message-IsGuarded}
use tiniclaw.Base.{
  Option, ℕ, ◌+◌, ◌≤◌, length, All, true, ◌≡◌, refl, false, none, some, List, [], ◌∷◌, Bytes, codes,
  str_eq, if◌then◌else◌,
}
use tiniclaw.Config.Defaults.Usable.{IsUsable}
use tiniclaw.Config.Load.Fits.{ConfigFits}
use tiniclaw.Main.{Environment, load_config, message_args, command_of, gateway, unknown, repl}
use tiniclaw.Main.Overrides.{load_config-IsSafe}

abbrev env : Environment
env = record {
  getenv = λ name. if str_eq name (codes "OPENAI_API_KEY") then some (codes "sk-1") else none;
  pw_dir = none;
  cwd = some (codes "/work");
  exists = λ path. false;
  read_file = λ path. none;
  parse = λ s. none;
}

load_config-IsSafe_example : IsUsable (load_config env) × ConfigFits (load_config env)
load_config-IsSafe_example = load_config-IsSafe env

abbrev typed : List Bytes
typed = codes "hello\n" ∷ codes "\n" ∷ codes "exit\n" ∷ codes "never\n" ∷ []

abbrev note : Bytes → List Bytes → List Bytes
note line log = line ∷ log

arguments :
    (command_of (codes "daemon" ∷ []) ≡ gateway)
    × (command_of (codes "cronn" ∷ []) ≡ unknown)
    × (message_args (codes "-m" ∷ codes "a" ∷ codes "--message" ∷ codes "-m" ∷ []) none
        ≡ some (codes "-m"))
    × (repl note typed [] ≡ codes "hello" ∷ [])
unfolding command_of message_args repl str_eq
arguments = (refl, refl, refl, refl)

-- A provider that asks for a tool each time, and a tool that only counts its calls.
abbrev asking : Tree
asking = object (
    (
      codes "choices",
      array (
          object (
            (
              codes "message",
              object (
                  (
                    codes "tool_calls",
                    array (
                        object (
                          (codes "function", object ((codes "name", text (codes "echo")) ∷ []))
                          ∷ [])
                        ∷ []),
                  )
                  ∷ []),
            )
            ∷ [])
          ∷ []),
    )
    ∷ [])

abbrev cjson : Cjson
cjson = record {
  to_double = λ n. n;
  valueint = pos;
  truncate = pos;
  parse = λ s. some asking;
  print = λ v. [];
}

abbrev replying : Bytes → ℕ → Option Reply × ℕ
replying body n = (some (record { ok = true; body = some (codes "{}") }), n)

abbrev echo : Tool (Log × ℕ) ℕ
echo = record {
  name = codes "echo";
  description = [];
  parameters_json = codes "{}";
  execute = λ args w.
      (record { success = true; output = some (codes "hi"); error_msg = none }, (w.0, w.1 + 1));
}

abbrev outside : Outside ℕ
outside = record { parse = λ s. none; room = 0; read_file = λ p. none; now = [] }

abbrev stopped : ChatResponse
stopped = record { content = none; tool_calls = []; ok = false; error_msg = none }

abbrev mistral : Config
mistral = record zero_config {
  default_provider = codes "mistral";
  providers = record { name = codes "mistral"; api_key = codes "k"; base_url = [] } ∷ [];
}

no_url : get_provider_url mistral.providers mistral.default_provider ≡ none
unfolding get_provider_url find_provider url_of nonempty str_eq
no_url = refl

run_message-IsGuarded_example :
    let log =
      (run_message cjson
        (logging replying)
        stopped
        outside
        mistral
        (echo ∷ [])
        none
        (codes "q")
        ([], 0)).2.0 in
    (length log ≤ or_default 25 0) × All IsGuarded log
run_message-IsGuarded_example =
    run_message-IsGuarded cjson replying stopped outside mistral (echo ∷ []) none (codes "q") 0
      no_url ((λ args w. refl), tt) tt
