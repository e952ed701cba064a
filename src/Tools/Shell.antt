-- ===== src/Tools/Shell.antt =====
-- The shell tool of src/tools/shell.c. `popen` is a parameter; the commands that reach it are part of
-- the result. cJSON is outside: the arguments are the string that the object has under a name.
pub mod Guard
mod Tests
use tiniclaw.Base.{
  ℕ, ◌+◌, ◌*◌, Bool, true, false, not, ◌&&◌, Option, none, some, List, [], ◌∷◌, ◌++◌, Bytes, codes,
  clip, c_string, length, leb, if◌then◌else◌,
}
use tiniclaw.Base.Int.{ℤ, pos, negsuc, is_zero}
use tiniclaw.Agent.{ToolResult}
use tiniclaw.Base.Print.{print_u64}
use tiniclaw.Security.Policy.{SecurityPolicy, CommandRisk, low, medium, high, classify_command}
use tiniclaw.Tools.File.{result_ok, result_err}

-- `SHELL_OUTPUT_CAP`
abbrev pub shell_output_cap : ℕ
shell_output_cap = 256 * 1024

-- What `popen` gives for a command line: the pieces that `fgets` reads, of at most 4095 bytes, and
-- the status of `pclose`; `none` when it fails, and `strerror` gives `error`.
pub record Popen : Type 0 where
  pub start : Bytes → Option (List Bytes × ℤ)
  pub error : Bytes

pub record ShellTool : Type 0 where
  pub workspace_dir : Bytes
  pub policy : Option SecurityPolicy

-- The workspace is `none` for a NULL one; a tool has no policy at first.
unfoldable pub tool_shell_init : Option Bytes → ShellTool
tool_shell_init none = record { workspace_dir = codes "."; policy = none }
tool_shell_init (some dir) = record { workspace_dir = clip 4096 dir; policy = none }

pub is_high : CommandRisk → Bool
is_high low = false
is_high medium = false
is_high high = true

pub is_blocked : Option SecurityPolicy → Bytes → Bool
is_blocked none cmd = false
is_blocked (some p) cmd = is_high (classify_command (some p) (some cmd))

pub or_workspace : Bytes → Option Bytes → Bytes
or_workspace dir none = dir
or_workspace dir (some cwd) = cwd

pub command_line : Bytes → Bytes → Bytes
command_line [] cmd = cmd ++ codes " 2>&1"
command_line (c ∷ cwd) cmd = codes "cd '" ++ (c ∷ cwd) ++ codes "' && " ++ cmd ++ codes " 2>&1"

-- The loop over the pieces, behind the output so far.
pub collect : Bytes → List Bytes → Bytes
collect out [] = out
collect out (piece ∷ pieces) =
    let longer = out ++ c_string piece in
    let rest = collect longer pieces in
    if leb shell_output_cap (length longer) then longer ++ codes "\n...[truncated]" else rest

pub print_int : ℤ → Bytes
print_int (pos n) = print_u64 n
print_int (negsuc n) = codes "-" ++ print_u64 (n + 1)

pub outcome : ℤ → Bytes → ToolResult
outcome status [] =
    if is_zero status
    then result_ok []
    else result_err (clip 64 (codes "Command exited with status " ++ print_int status))
outcome status (c ∷ out) = result_ok (c ∷ out)

pub finish_command : Bytes → Option (List Bytes × ℤ) → ToolResult
finish_command error none = result_err error
finish_command error (some (pieces, status)) = outcome status (collect [] pieces)

-- The result, and the command lines that were started.
pub run_command : Popen → ShellTool → Option Bytes → Option Bytes → ToolResult × List Bytes
run_command sh t cwd none = (result_err (codes "missing 'command'"), [])
run_command sh t cwd (some cmd) =
    if is_blocked t.policy cmd
    then (result_err (codes "Command blocked by security policy"), [])
    else (let line = command_line (or_workspace t.workspace_dir cwd) cmd in
        (finish_command sh.error (sh.start line), line ∷ []))

unfoldable pub shell_execute : Popen → ShellTool → (Bytes → Option Bytes) → ToolResult × List Bytes
shell_execute sh t args = run_command sh t (args (codes "cwd")) (args (codes "command"))
