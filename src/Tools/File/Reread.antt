-- ===== src/Tools/File/Reread.antt =====
-- Reading after writing.
use tiniclaw.Base.{
  ◌≤◌, ◌≡◌, ◌∙◌, sym, ap, Bool, true, Option, none, some, List, ◌∷◌, ◌++◌, Bytes, codes, clip,
  c_string, c_string-text, take, length, take-all, str_eq_refl, IsText, if◌then◌else◌,
}
use tiniclaw.Agent.{ToolResult}
use tiniclaw.Base.Print.{print_u64}
use tiniclaw.Tools.File.{
  Disk, Args, file_read_cap, find_file, read_file, write_file, result_ok, resolve_path, need,
  read_at, wrote, file_read_execute, file_write_execute,
}

found_again :
    (path content : Bytes) (fs : List (Bytes × Bytes))
    → find_file path ((path, content) ∷ fs) ≡ some content
unfolding find_file
found_again path content fs =
    ap {B = Option Bytes} (λ (b : Bool). if b then some content else find_file path fs)
      (str_eq_refl path)

-- After a write to a path that can be written and read, the disk holds the content there.
write_read :
    (d : Disk) (full content : Bytes)
    → d.writable full ≡ true
    → d.readable full ≡ true
    → let d' = record d { files = (full, content) ∷ d.files } in
      (write_file d full content ≡ some d') × (read_file d' full ≡ some content)
unfolding write_file read_file
write_read d full content w r = (
  ap {B = Option Disk}
      (λ (b : Bool). if b then some (record d { files = (full, content) ∷ d.files }) else none) w,
  ap {B = Option Bytes}
        (λ (b : Bool). if b then find_file full ((full, content) ∷ d.files) else none) r
      ∙ found_again full content d.files,
)

-- A text of at most 512 KB that was written is read back by the same path, when the path is not
-- empty and the file can be written and read.
pub file_read-file_write :
    (dir path full content : Bytes) (args : Args) (d : Disk)
    → args (codes "path") ≡ some path
    → args (codes "content") ≡ some content
    → resolve_path dir path ≡ some full
    → IsText content
    → length content ≤ file_read_cap
    → d.writable full ≡ true
    → d.readable full ≡ true
    → let (written, d') = file_write_execute dir args d in
      (written.success ≡ true) × (file_read_execute dir args d' ≡ (result_ok content, d'))
unfolding file_read_execute file_write_execute need read_at wrote result_ok
file_read-file_write dir path full content args d has_path has_content at_full text small w r =
    let d' : Disk = record d { files = (full, content) ∷ d.files } in
    let io = write_read d full content w r in
    let after : file_write_execute dir args d ≡ (
      result_ok
          (clip 256 (codes "Wrote " ++ print_u64 (length content) ++ codes " bytes to " ++ full)),
      d',
    ) =
      rw (has_path, has_content, at_full)
        (ap (wrote (codes "Wrote " ++ print_u64 (length content) ++ codes " bytes to " ++ full) d)
          io.0) in
    let whole : c_string (take file_read_cap content) ≡ content =
      ap c_string (take-all file_read_cap content small) ∙ c_string-text content text in
    let again : file_read_execute dir args d' ≡ (result_ok content, d') =
      rw (has_path, at_full)
        (ap
            (λ (o : Option Bytes).
              need d.error o (λ content d. (result_ok (c_string (take file_read_cap content)), d))
                d')
            io.1
          ∙ ap {B = ToolResult × Disk} (λ (s : Bytes). (result_ok s, d')) whole) in
    (
      ap (λ (p : ToolResult × Disk). p.0.success) after,
      ap (λ (p : ToolResult × Disk). file_read_execute dir args p.1) after
          ∙ again
          ∙ ap {B = ToolResult × Disk} (λ (p : ToolResult × Disk). (result_ok content, p.1))
              (sym after),
    )
