-- ===== src/Tools/File.antt =====
-- The file tools of src/tools/file_tools.c, over a disk of whole files. cJSON is outside: the
-- arguments are the string that the object has under a name, if it has one.
pub mod Registry
pub mod Reread
pub mod Edit
mod Tests
use tiniclaw.Base.{
  ℕ, zero, suc, ◌+◌, ◌*◌, Bool, true, false, Option, none, some, List, [], ◌∷◌, ◌++◌, Bytes, codes,
  clip, c_string, take, drop, length, str_eq, starts_with, ◌==◌, if◌then◌else◌,
}
use tiniclaw.Agent.{ToolResult}
use tiniclaw.Base.Print.{print_u64}

-- `FILE_READ_CAP`
abbrev pub file_read_cap : ℕ
file_read_cap = 512 * 1024

-- The files by their paths; which paths can be opened for reading and for writing; and the text that
-- `strerror` gives.
pub record Disk : Type 0 where
  pub files : List (Bytes × Bytes)
  pub readable : Bytes → Bool
  pub writable : Bytes → Bool
  pub error : Bytes

unfoldable pub find_file : Bytes → List (Bytes × Bytes) → Option Bytes
find_file path [] = none
find_file path ((p, content) ∷ fs) =
    let rest = find_file path fs in if str_eq p path then some content else rest

-- `nc_read_file`
unfoldable pub read_file : Disk → Bytes → Option Bytes
read_file d path = if d.readable path then find_file path d.files else none

-- `nc_write_file`; `none` when it fails.
unfoldable pub write_file : Disk → Bytes → Bytes → Option Disk
write_file d path content =
    if d.writable path then some (record d { files = (path, content) ∷ d.files }) else none

abbrev pub Args : Type 0
Args = Bytes → Option Bytes

unfoldable pub result_ok : Bytes → ToolResult
result_ok s = record { success = true; output = some s; error_msg = none }

unfoldable pub result_err : Bytes → ToolResult
result_err s = record { success = false; output = none; error_msg = some s }

-- The path is not looked at any further: `..` and absolute paths pass.
unfoldable pub resolve_path : Bytes → Bytes → Option Bytes
resolve_path dir [] = none
resolve_path dir (c ∷ path) =
    if c == b'/'
    then some (clip 4096 (c ∷ path))
    else some (clip 4096 (dir ++ codes "/" ++ c ∷ path))

-- A required string argument, or the message that it is missing; and the resolved path.
abbrev pub Step : Type 0
Step = Disk → ToolResult × Disk

unfoldable pub fail : Bytes → Step
fail msg d = (result_err msg, d)

unfoldable pub need : Bytes → Option Bytes → (Bytes → Step) → Step
need msg none k = fail msg
need msg (some s) k = k s

unfoldable pub read_at : Disk → Bytes → (Bytes → Step) → ToolResult × Disk
read_at d full k = need d.error (read_file d full) k d

unfoldable pub wrote : Bytes → Disk → Option Disk → ToolResult × Disk
wrote msg d none = (result_err d.error, d)
wrote msg d (some d') = (result_ok (clip 256 msg), d')

unfoldable pub file_read_execute : Bytes → Args → Step
file_read_execute dir args = need (codes "missing 'path'") (args (codes "path")) (λ path.
    need (codes "invalid path") (resolve_path dir path) (λ full d.
      read_at d full (λ content d. (result_ok (c_string (take file_read_cap content)), d))))

-- Creating the parent directory does not change the files.
unfoldable pub file_write_execute : Bytes → Args → Step
file_write_execute dir args = need (codes "missing 'path'") (args (codes "path")) (λ path.
    need (codes "missing 'content'") (args (codes "content")) (λ content.
      need (codes "invalid path") (resolve_path dir path) (λ full d.
        wrote (codes "Wrote " ++ print_u64 (length content) ++ codes " bytes to " ++ full) d
          (write_file d full content))))

-- `strstr`: where the first occurrence begins.
pub find_text : Bytes → Bytes → Option ℕ
find_text old [] = if starts_with old [] then some 0 else none
find_text old (c ∷ s) =
    let rest = find_text old s in
    if starts_with old (c ∷ s) then some 0 else elim rest [ none ↦ none | some n ↦ some (suc n) ]

-- The content with the occurrence at `n` replaced, written back.
unfoldable pub edit_at : Bytes → Bytes → Bytes → Bytes → Option ℕ → Step
edit_at full content old new none d = (result_err (codes "old_string not found in file"), d)
edit_at full content old new (some n) d =
    wrote (codes "Edited " ++ full) d
      (write_file d full (take n content ++ new ++ drop (n + length old) content))

unfoldable pub file_edit_execute : Bytes → Args → Step
file_edit_execute dir args = need (codes "missing 'path'") (args (codes "path")) (λ path.
    need (codes "missing 'old_string'") (args (codes "old_string")) (λ old.
      need (codes "missing 'new_string'") (args (codes "new_string")) (λ new.
        need (codes "invalid path") (resolve_path dir path) (λ full d.
          read_at d full
            (λ content. edit_at full content old new (find_text old (c_string content)))))))

-- What a file holds before text is appended: nothing, if there is none.
pub or_nothing : Option Bytes → Bytes
or_nothing none = []
or_nothing (some content) = content

unfoldable pub file_append_execute : Bytes → Args → Step
file_append_execute dir args = need (codes "missing 'path'") (args (codes "path")) (λ path.
    need (codes "missing 'content'") (args (codes "content")) (λ content.
      need (codes "invalid path") (resolve_path dir path) (λ full d.
        wrote (codes "Appended to " ++ full) d
          (write_file d full (or_nothing (find_file full d.files) ++ content)))))
