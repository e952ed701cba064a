-- ===== src/Agent/Prompt.antt =====
-- `nc_agent_build_system_prompt` of src/agent/agent.c. The files and the clock are parameters; the
-- buffer that the text grows in does not run out of memory, the arena it is copied to may.
use tiniclaw.Base.{
  ℕ, suc, Option, none, some, List, [], ◌∷◌, ◌++◌, Bytes, codes, clip, length, leb, if◌then◌else◌,
}
use tiniclaw.Agent.{Tool}

abbrev pub identity_files : List Bytes
identity_files =
    codes "AGENTS.md"
    ∷ codes "SOUL.md"
    ∷ codes "TOOLS.md"
    ∷ codes "IDENTITY.md"
    ∷ codes "USER.md"
    ∷ codes "HEARTBEAT.md"
    ∷ codes "BOOTSTRAP.md"
    ∷ codes "MEMORY.md"
    ∷ []

pub identity_part : Bytes → Option Bytes → Bytes
identity_part name none = []
identity_part name (some content) = codes "### " ++ name ++ codes "\n\n" ++ content ++ codes "\n\n"

pub identity_parts : (Bytes → Option Bytes) → Bytes → List Bytes → Bytes
identity_parts read_file dir [] = []
identity_parts read_file dir (name ∷ names) =
    identity_part name (read_file (clip 4096 (dir ++ codes "/" ++ name)))
    ++ identity_parts read_file dir names

pub tool_lines : {W J : Type 0} → List (Tool W J) → Bytes
tool_lines [] = []
tool_lines (t ∷ ts) =
    codes "- **" ++ t.name ++ codes "**: " ++ t.description ++ codes "\n" ++ tool_lines ts

abbrev pub safety : Bytes
safety =
    codes "## Safety\n\n"
    ++ codes "- Do not exfiltrate private data.\n"
    ++ codes "- Do not run destructive commands without asking.\n"
    ++ codes "- Do not bypass oversight or approval mechanisms.\n"
    ++ codes "- Prefer trash over rm.\n"
    ++ codes "- When in doubt, ask before acting externally.\n\n"

pub prompt_text :
    {W J : Type 0} → (Bytes → Option Bytes) → Bytes → Bytes → List (Tool W J) → Bytes → Bytes
prompt_text read_file now dir tools model =
    codes "## Project Context\n\n"
    ++ codes "Working directory: `"
    ++ dir
    ++ codes "`\n\n"
    ++ identity_parts read_file dir identity_files
    ++ codes "## Tools\n\n"
    ++ tool_lines tools
    ++ codes "\n"
    ++ safety
    ++ codes "## Runtime\n\nOS: macOS | Model: "
    ++ model
    ++ codes " | Time: "
    ++ now
    ++ codes "\n\n"

-- `none` when the arena has no room for the text and its NUL.
pub build_system_prompt :
    {W J : Type 0}
    → ℕ
    → (Bytes → Option Bytes)
    → Bytes
    → Bytes
    → List (Tool W J)
    → Bytes
    → Option Bytes
build_system_prompt room read_file now dir tools model =
    let text = prompt_text read_file now dir tools model in
    if leb (suc (length text)) room then some text else none
