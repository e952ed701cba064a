-- ===== src/Tools/File/Registry.antt =====
-- The vtables of the file tools, as the agent sees them: src/tools/file_tools.c.
use tiniclaw.Base.{Option, none, some, [], Bytes, codes, ◌++◌, clip}
use tiniclaw.Agent.{Tool, ToolResult}
use tiniclaw.Tools.File.{
  Disk, Args, Step, file_read_execute, file_write_execute, file_edit_execute, file_append_execute,
}

-- A tool gets NULL when its arguments did not parse; no name is found in it then.
pub args_of : Option Args → Args
args_of none name = none
args_of (some args) name = args name

pub run : (Bytes → Args → Step) → Option Bytes → Option Args → Disk → ToolResult × Disk
run execute none args d = execute [] (args_of args) d
run execute (some dir) args d = execute (clip 4096 dir) (args_of args) d

-- The workspace is `none` for a NULL context.
unfoldable pub file_read_tool : Option Bytes → Tool Disk Args
file_read_tool workspace = record {
  name = codes "file_read";
  description = codes "Read a file from disk and return its contents.";
  parameters_json =
      codes "{\"type\":\"object\",\"properties\":{"
      ++ codes
          "\"path\":{\"type\":\"string\",\"description\":\"File path (relative to workspace or absolute)\"}"
      ++ codes "},\"required\":[\"path\"]}";
  execute = run file_read_execute workspace;
}

unfoldable pub file_write_tool : Option Bytes → Tool Disk Args
file_write_tool workspace = record {
  name = codes "file_write";
  description = codes "Write content to a file (creates or overwrites).";
  parameters_json =
      codes "{\"type\":\"object\",\"properties\":{"
      ++ codes "\"path\":{\"type\":\"string\"},"
      ++ codes "\"content\":{\"type\":\"string\",\"description\":\"Content to write\"}"
      ++ codes "},\"required\":[\"path\",\"content\"]}";
  execute = run file_write_execute workspace;
}

unfoldable pub file_edit_tool : Option Bytes → Tool Disk Args
file_edit_tool workspace = record {
  name = codes "file_edit";
  description = codes "Replace the first occurrence of old_string with new_string in a file.";
  parameters_json =
      codes "{\"type\":\"object\",\"properties\":{"
      ++ codes "\"path\":{\"type\":\"string\"},"
      ++ codes "\"old_string\":{\"type\":\"string\",\"description\":\"Text to replace\"},"
      ++ codes "\"new_string\":{\"type\":\"string\",\"description\":\"Replacement text\"}"
      ++ codes "},\"required\":[\"path\",\"old_string\",\"new_string\"]}";
  execute = run file_edit_execute workspace;
}

unfoldable pub file_append_tool : Option Bytes → Tool Disk Args
file_append_tool workspace = record {
  name = codes "file_append";
  description = codes "Append text to the end of a file.";
  parameters_json =
      codes "{\"type\":\"object\",\"properties\":{"
      ++ codes "\"path\":{\"type\":\"string\"},"
      ++ codes "\"content\":{\"type\":\"string\",\"description\":\"Text to append\"}"
      ++ codes "},\"required\":[\"path\",\"content\"]}";
  execute = run file_append_execute workspace;
}
