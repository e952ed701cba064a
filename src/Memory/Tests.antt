-- ===== src/Memory/Tests.antt =====
-- The memories on concrete keys.
use tiniclaw.Base.{◌≡◌, refl, true, Option, none, some, List, [], ◌∷◌, codes}
use tiniclaw.Json.{Tree, text, object}
use tiniclaw.Base.{str_eq, c_string}
use tiniclaw.Memory.{core, Entry}
use tiniclaw.Memory.Markdown.{
  Folder, file_name, md_store, md_get, md_recall, found_entry, entry_of, find_file,
}
use tiniclaw.Memory.Markdown.Refines.{Op, store, run, replay, md_get-run}
use tiniclaw.Memory.Markdown.Search.{Recalled, md_recall-Recalled}
use tiniclaw.Memory.Sqlite.{Row, Database}

abbrev folder : Folder
folder = record { files = []; writable = λ name. true; listable = true }

-- The two keys name one file.
abbrev ops : List Op
ops = store (codes "a/b") (codes "one") core none ∷ store (codes "a_b") (codes "two") core none ∷ []

md_get-run_example :
    md_get (codes "a/b") (run ops folder)
    ≡ found_entry (codes "a/b") (replay ops (λ n. find_file n []) (file_name (codes "a/b")))
md_get-run_example = md_get-run ops folder (λ n. refl) tt (codes "a/b")

one_key : md_get (codes "a/b") (run ops folder) ≡ some (entry_of none (codes "a/b") (codes "two"))
unfolding md_get md_store run str_eq c_string
one_key = refl

md_recall-Recalled_example :
    ((md_recall (codes "t") 1 (run ops folder)).0 ≡ true)
    × Recalled (codes "t") 1 (run ops folder).files (md_recall (codes "t") 1 (run ops folder)).1
unfolding run md_store
md_recall-Recalled_example = md_recall-Recalled (codes "t") 1 (run ops folder) refl

abbrev row : Row
row = record {
  id = codes "00";
  key = codes "k";
  content = codes "old";
  category = codes "core";
  session_id = none;
  timestamp = codes "t0";
}

abbrev db : Database
db = record { rows = row ∷ []; next_ids = codes "01" ∷ []; now = codes "t1" }

abbrev old_entry : Entry
old_entry = record {
  id = some (codes "00");
  key = codes "k";
  content = codes "old";
  category = core;
  timestamp = some (codes "t0");
  session_id = none;
}

abbrev recall_args : Option Tree
recall_args = some (object ((codes "query", text (codes "x")) ∷ []))
