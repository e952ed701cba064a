-- ===== src/Tools/Git.antt =====
-- The git tool of src/tools/git.c. `popen` is a parameter; the command lines that reach it are part of
-- the result. The arguments are a tree of cJSON.
pub mod Reading
pub mod Words
use tiniclaw.Base.{
  ℕ, Bool, true, false, ◌||◌, Option, none, some, List, [], ◌∷◌, ◌++◌, Bytes, codes, clip, str_eq,
  if◌then◌else◌,
}
use tiniclaw.Json.{Tree, get_in, as_text, as_items}
use tiniclaw.Agent.{ToolResult}
use tiniclaw.Tools.File.{result_ok, result_err}

abbrev pub safe_subcommands : List Bytes
safe_subcommands =
    codes "status"
    ∷ codes "log"
    ∷ codes "diff"
    ∷ codes "add"
    ∷ codes "commit"
    ∷ codes "push"
    ∷ codes "pull"
    ∷ codes "fetch"
    ∷ codes "branch"
    ∷ codes "checkout"
    ∷ codes "show"
    ∷ codes "stash"
    ∷ codes "tag"
    ∷ codes "remote"
    ∷ codes "describe"
    ∷ codes "shortlog"
    ∷ codes "blame"
    ∷ codes "grep"
    ∷ codes "ls-files"
    ∷ codes "rev-parse"
    ∷ codes "config"
    ∷ codes "init"
    ∷ codes "clone"
    ∷ []

unfoldable pub is_among : Bytes → List Bytes → Bool
is_among s [] = false
is_among s (x ∷ xs) = str_eq s x || is_among s xs

-- A quoted argument for each string of the array; a quote in it is not escaped.
unfoldable pub quoted : Bytes → Bytes
quoted s = codes " '" ++ (s ++ codes "'")

unfoldable pub quoted_arg : Option Bytes → Bytes
unfolding quoted
quoted_arg none = []
quoted_arg (some s) = quoted s

unfoldable pub quoted_args : Option (List Tree) → Bytes
unfolding quoted_arg as_text
quoted_args none = []
quoted_args (some []) = []
quoted_args (some (v ∷ vs)) = quoted_arg (as_text (some v)) ++ quoted_args (some vs)

unfoldable pub git_command : Bytes → Bytes → Option (List Tree) → Bytes
unfolding quoted_args
git_command dir sub args =
    codes "cd '" ++ (dir ++ (codes "' && git " ++ (sub ++ (quoted_args args ++ codes " 2>&1"))))

unfoldable pub joined : List Bytes → Bytes
joined [] = []
joined (s ∷ ss) = s ++ joined ss

-- The lines that come back from the process; `none` where `popen` fails.
unfoldable pub shown : Option (List Bytes) → ToolResult
unfolding result_ok result_err joined
shown none = result_err (codes "popen failed")
shown (some chunks) = result_ok (joined chunks)

unfoldable pub git_run :
    Bytes → (Bytes → Option (List Bytes)) → Option Tree → Option Bytes → ToolResult × List Bytes
unfolding shown git_command is_among result_err as_items get_in
git_run dir popen args none = (result_err (codes "missing 'subcommand'"), [])
git_run dir popen args (some sub) =
    let cmd : Bytes = git_command dir sub (as_items (get_in args (codes "args"))) in
    if is_among sub safe_subcommands
    then (shown (popen cmd), cmd ∷ [])
    else (result_err (codes "git subcommand not in allowlist"), [])

-- The result, with the command lines that were run.
unfoldable pub git_execute :
    Bytes → (Bytes → Option (List Bytes)) → Option Tree → ToolResult × List Bytes
unfolding git_run as_text get_in
git_execute dir popen args = git_run dir popen args (as_text (get_in args (codes "subcommand")))

-- The workspace's array; without a context it is empty.
unfoldable pub tool_git_init : Option Bytes → Bytes
tool_git_init none = []
tool_git_init (some dir) = clip 4096 dir
