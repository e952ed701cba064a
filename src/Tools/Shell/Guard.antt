-- ===== src/Tools/Shell/Guard.antt =====
-- What the policy keeps from the shell, and how long an output gets.
use tiniclaw.Base.{
  clash, if_true, if_false, true, ◌↔◌, ◌+◌, ◌≤◌, ◌<◌, ◌≡◌, ◌≢◌, ◌∙◌, ◌⊎◌, inl, inr, refl, sym, ap,
  false, Option, none, some, List, [], ◌∷◌, ◌++◌, Bytes, codes, c_string, length, length-append,
  All, arith, leb, ◌==◌, Bool-cases,
}
use tiniclaw.Agent.{ToolResult}
use tiniclaw.Tools.File.{result_err}
use tiniclaw.Security.Policy.{SecurityPolicy, CommandRisk, low, medium, high, classify_command}
use tiniclaw.Tools.Shell.{
  Popen, ShellTool, shell_output_cap, is_high, is_blocked, or_workspace, command_line, collect,
  run_command, shell_execute, tool_shell_init,
}

-- The tool's policy, where it has one, classifies the text as of high risk.
abbrev pub Blocks : Option SecurityPolicy → Bytes → Type 0
Blocks none cmd = ⊥
Blocks (some p) cmd = classify_command (some p) (some cmd) ≡ high

-- The command line of a command in a directory; an empty one is the directory of the process.
abbrev pub LineIn : Bytes → Bytes → Bytes → Type 0
LineIn dir cmd line =
    ((dir ≡ []) × (line ≡ cmd ++ codes " 2>&1"))
    ⊎ ((dir ≢ []) × (line ≡ codes "cd '" ++ dir ++ codes "' && " ++ cmd ++ codes " 2>&1"))

-- The directory is the argument `cwd`, and the workspace where that is missing.
abbrev pub StartsIn : ShellTool → Option Bytes → Bytes → Type 0
StartsIn t none dir = dir ≡ t.workspace_dir
StartsIn t (some cwd) dir = dir ≡ cwd

high_is_high : (r : CommandRisk) → (is_high r ≡ true) ↔ (r ≡ high)
unfolding is_high
high_is_high low = (λ h. cc, λ e. cc)
high_is_high medium = (λ h. cc, λ e. cc)
high_is_high high = (λ h. refl, λ e. refl)

is_blocked-Blocks :
    (p : Option SecurityPolicy) (cmd : Bytes) → (is_blocked p cmd ≡ true) ↔ Blocks p cmd
unfolding is_blocked
is_blocked-Blocks none cmd = (λ h. cc, λ h. absurd h)
is_blocked-Blocks (some p) cmd = high_is_high (classify_command (some p) (some cmd))

command_line-LineIn : (dir cmd : Bytes) → LineIn dir cmd (command_line dir cmd)
unfolding command_line
command_line-LineIn [] cmd = inl (refl, refl)
command_line-LineIn (c ∷ dir) cmd = inr (λ e. cc, refl)

or_workspace-StartsIn :
    (t : ShellTool) (cwd : Option Bytes) → StartsIn t cwd (or_workspace t.workspace_dir cwd)
unfolding or_workspace
or_workspace-StartsIn t none = refl
or_workspace-StartsIn t (some cwd) = refl

-- A call without a command, or with one that the tool's policy classifies as of high risk, fails and
-- starts nothing. Any other call starts one command line: the command, with its errors in its output,
-- behind a `cd` to the argument `cwd` or else to the workspace, where that is not empty. A tool with
-- no policy, as `nc_tool_shell_init` makes it, blocks nothing.
pub shell_execute-Started :
    (sh : Popen) (t : ShellTool) (args : Bytes → Option Bytes)
    → ((((args (codes "command") ≡ none)
            ⊎ ((cmd : Bytes) × (args (codes "command") ≡ some cmd) × Blocks t.policy cmd))
          × ((shell_execute sh t args).0.success ≡ false)
          × ((shell_execute sh t args).1 ≡ []))
        ⊎ ((cmd : Bytes) × (args (codes "command") ≡ some cmd)
            × (¬ Blocks t.policy cmd)
            × (dir : Bytes) × StartsIn t (args (codes "cwd")) dir
            × (line : Bytes) × LineIn dir cmd line
            × ((shell_execute sh t args).1 ≡ line ∷ [])))
      × ((dir : Option Bytes) (cmd : Bytes) → ¬ Blocks (tool_shell_init dir).policy cmd)
unfolding shell_execute run_command result_err tool_shell_init
shell_execute-Started sh t args = (go (args (codes "command")) refl, never)
  where
    go :
        (o : Option Bytes)
        → args (codes "command") ≡ o
        → (((args (codes "command") ≡ none)
              ⊎ ((cmd : Bytes) × (args (codes "command") ≡ some cmd) × Blocks t.policy cmd))
            × ((run_command sh t (args (codes "cwd")) o).0.success ≡ false)
            × ((run_command sh t (args (codes "cwd")) o).1 ≡ []))
          ⊎ ((cmd : Bytes) × (args (codes "command") ≡ some cmd)
              × (¬ Blocks t.policy cmd)
              × (dir : Bytes) × StartsIn t (args (codes "cwd")) dir
              × (line : Bytes) × LineIn dir cmd line
              × ((run_command sh t (args (codes "cwd")) o).1 ≡ line ∷ []))
    go none e = inl (inl e, refl, refl)
    go (some cmd) e = elim (Bool-cases (is_blocked t.policy cmd)) [
      | inl blocked ↦ inl (
        inr (cmd, e, (is_blocked-Blocks t.policy cmd).0 blocked),
        ap (λ (r : ToolResult × List Bytes). r.0.success) (if_true _ _ _ blocked),
        ap (λ (r : ToolResult × List Bytes). r.1) (if_true _ _ _ blocked),
      )
      | inr passes ↦
          let dir : Bytes = or_workspace t.workspace_dir (args (codes "cwd")) in
          inr (
            cmd,
            e,
            λ b. clash (sym passes ∙ (is_blocked-Blocks t.policy cmd).1 b),
            dir,
            or_workspace-StartsIn t (args (codes "cwd")),
            command_line dir cmd,
            command_line-LineIn dir cmd,
            ap (λ (r : ToolResult × List Bytes). r.1) (if_false _ _ _ passes),
          )
    ]

    never : (dir : Option Bytes) (cmd : Bytes) → ¬ Blocks (tool_shell_init dir).policy cmd
    never none cmd h = h
    never (some dir) cmd h = h

length-c_string : (s : Bytes) → length (c_string s) ≤ length s
unfolding c_string
length-c_string [] = omega arith
length-c_string (c ∷ s) = elim (Bool-cases (c == 0)) [
  | inl e ↦ rw e (omega arith)
  | inr e ↦ rw e (omega (arith, length-c_string s))
]

-- However much a command prints, in pieces of at most 4095 bytes, what is collected stays below
-- 256 KB, one piece and the note that it was cut.
pub length-collect :
    (out : Bytes) (pieces : List Bytes)
    → All (λ s. length s ≤ 4095) pieces
    → length out < shell_output_cap
    → length (collect out pieces) < shell_output_cap + 4095 + 15
unfolding collect
length-collect out [] small h = omega arith
length-collect out (piece ∷ pieces) (one, small) h =
    let longer : Bytes = out ++ c_string piece in
    let size : length longer ≤ length out + 4095 =
      omega (arith, length-append out (c_string piece), length-c_string piece, one) in
    elim (Bool-cases (leb shell_output_cap (length longer))) [
      | inl full ↦ rw full (omega (arith, size, length-append longer (codes "\n...[truncated]")))
      | inr room ↦ rw room (length-collect longer pieces small (ground arith))
    ]
