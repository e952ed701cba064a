-- ===== src/Tools/File/Tests.antt =====
-- A disk with one file, and the witnesses of the file tools.
use tiniclaw.Base.{
  ℕ, ◌≡◌, ◌⊎◌, refl, true, none, some, [], ◌∷◌, ◌++◌, codes, str_eq, arith, if◌then◌else◌,
}
use tiniclaw.Tools.File.{
  Disk, Args, find_file, read_file, result_ok, result_err, resolve_path, file_read_execute,
  file_write_execute, file_edit_execute,
}
use tiniclaw.Tools.File.Reread.{file_read-file_write}
use tiniclaw.Tools.File.Edit.{Absent, FirstAt, file_edit_lem}

abbrev disk : Disk
disk = record {
  files = (codes "/ws/a", codes "abcb") ∷ [];
  readable = λ p. true;
  writable = λ p. true;
  error = codes "denied";
}

abbrev args : Args
args name =
    if str_eq name (codes "path")
    then some (codes "a")
    else if str_eq name (codes "content")
    then some (codes "new")
    else if str_eq name (codes "old_string")
    then some (codes "b")
    else if str_eq name (codes "new_string")
    then some (codes "xy")
    else none

has_path : args (codes "path") ≡ some (codes "a")
unfolding str_eq
has_path = refl

has_content : args (codes "content") ≡ some (codes "new")
unfolding str_eq
has_content = refl

has_old : args (codes "old_string") ≡ some (codes "b")
unfolding str_eq
has_old = refl

has_new : args (codes "new_string") ≡ some (codes "xy")
unfolding str_eq
has_new = refl

resolved : resolve_path (codes "/ws") (codes "a") ≡ some (codes "/ws/a")
unfolding resolve_path
resolved = refl

dots_pass :
    resolve_path (codes "/ws") (codes "../../etc/passwd") ≡ some (codes "/ws/../../etc/passwd")
unfolding resolve_path
dots_pass = refl

holds : read_file disk (codes "/ws/a") ≡ some (codes "abcb")
unfolding read_file find_file str_eq
holds = refl

file_read-file_write_example :
    let (written, d') = file_write_execute (codes "/ws") args disk in
    (written.success ≡ true)
    × (file_read_execute (codes "/ws") args d' ≡ (result_ok (codes "new"), d'))
file_read-file_write_example =
    file_read-file_write (codes "/ws") (codes "a") (codes "/ws/a") (codes "new") args disk has_path
      has_content resolved
      ((omega arith, omega arith), ((omega arith, omega arith), ((omega arith, omega arith), tt)))
      (omega arith) refl refl

file_edit_lem_example :
    (Absent (codes "b") (codes "abcb")
      × (file_edit_execute (codes "/ws") args disk
          ≡ (result_err (codes "old_string not found in file"), disk)))
    ⊎ ((n : ℕ) × (f : FirstAt (codes "b") (codes "abcb") n) × ((file_edit_execute
            (codes "/ws")
            args
            disk).0.success
          ≡ true)
        × ((file_edit_execute (codes "/ws") args disk).1 ≡ record disk {
          files = (codes "/ws/a", f.front ++ codes "xy" ++ f.back) ∷ disk.files;
        }))
file_edit_lem_example =
    file_edit_lem (codes "/ws") (codes "a") (codes "/ws/a") (codes "abcb") (codes "b") (codes "xy")
      args disk has_path has_old has_new resolved holds refl
      (
        (omega arith, omega arith),
        (
          (omega arith, omega arith),
          ((omega arith, omega arith), ((omega arith, omega arith), tt)),
        ),
      )
