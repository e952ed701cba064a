-- ===== src/Tools/Shell/Tests.antt =====
-- A shell that echoes, and the witnesses of the shell tool's theorems.
use tiniclaw.Base.{
  false, ◌≡◌, ◌⊎◌, Option, none, some, [], ◌∷◌, Bytes, codes, str_eq, if◌then◌else◌,
}
use tiniclaw.Base.Int.{pos}
use tiniclaw.Tools.Shell.{Popen, ShellTool, shell_execute, tool_shell_init}
use tiniclaw.Tools.Shell.Guard.{Blocks, StartsIn, LineIn, shell_execute-Started}

abbrev echo : Popen
echo = record { start = λ line. some (line ∷ [], pos 0); error = [] }

-- The tool as the program makes it.
abbrev tool : ShellTool
tool = tool_shell_init (some (codes "/ws"))

abbrev args : Bytes → Option Bytes
args name = if str_eq name (codes "command") then some (codes "ls") else none

shell_execute-Started_example :
    ((((args (codes "command") ≡ none)
          ⊎ ((cmd : Bytes) × (args (codes "command") ≡ some cmd) × Blocks tool.policy cmd))
        × ((shell_execute echo tool args).0.success ≡ false)
        × ((shell_execute echo tool args).1 ≡ []))
      ⊎ ((cmd : Bytes) × (args (codes "command") ≡ some cmd)
          × (¬ Blocks tool.policy cmd)
          × (dir : Bytes) × StartsIn tool (args (codes "cwd")) dir
          × (line : Bytes) × LineIn dir cmd line
          × ((shell_execute echo tool args).1 ≡ line ∷ [])))
    × ((dir : Option Bytes) (cmd : Bytes) → ¬ Blocks (tool_shell_init dir).policy cmd)
shell_execute-Started_example = shell_execute-Started echo tool args
