-- ===== src/Memory/Markdown.antt =====
-- The markdown back end of src/memory/memory.c, over the files of its directory: their names and
-- contents, in the order in which `readdir` gives them. A key with no `/` names a file of the
-- directory itself, since `safe_key` leaves no `/`.
pub mod Refines
pub mod Search
use tiniclaw.Base.{
  ℕ, zero, suc, ◌+◌, ◌-◌, Bool, true, false, ◌&&◌, ◌||◌, not, Option, none, some, List, [], ◌∷◌,
  ◌++◌, map, Bytes, codes, clip, take, drop, length, c_string, str_eq, leb, ◌==◌, if◌then◌else◌,
}
use tiniclaw.Tools.File.{find_text}
use tiniclaw.Memory.{Category, core, Entry, Memory}

-- Whether a file of the name can be opened for writing, and whether the directory can be listed.
pub record Folder : Type 0 where
  pub files : List (Bytes × Bytes)
  pub writable : Bytes → Bool
  pub listable : Bool

unfoldable pub underscores : Bytes → Bytes
underscores [] = []
underscores (c ∷ s) = (if c == b'/' then b'_' else c) ∷ underscores s

-- At most 255 bytes, with `_` for `/`.
unfoldable pub safe_key : Bytes → Bytes
unfolding underscores
safe_key key = underscores (clip 256 key)

unfoldable pub file_name : Bytes → Bytes
unfolding safe_key
file_name key = safe_key key ++ codes ".md"

-- `fopen(path, "w")` and what is written: the content takes the place of the file's, or the file is
-- new.
unfoldable pub put_file : Bytes → Bytes → List (Bytes × Bytes) → List (Bytes × Bytes)
put_file name content [] = (name, content) ∷ []
put_file name content ((n, c) ∷ fs) =
    let rest = put_file name content fs in
    if str_eq n name then (n, content) ∷ fs else (n, c) ∷ rest

unfoldable pub find_file : Bytes → List (Bytes × Bytes) → Option Bytes
find_file name [] = none
find_file name ((n, c) ∷ fs) =
    let rest = find_file name fs in if str_eq n name then some c else rest

unfoldable pub drop_file : Bytes → List (Bytes × Bytes) → List (Bytes × Bytes)
drop_file name [] = []
drop_file name ((n, c) ∷ fs) =
    let rest = drop_file name fs in if str_eq n name then fs else (n, c) ∷ rest

unfoldable pub front_matter : Option Bytes → Bytes
front_matter none = []
front_matter (some []) = []
front_matter (some (c ∷ sid)) = codes "<!-- session: " ++ (c ∷ sid) ++ codes " -->\n"

unfoldable pub md_store : Bytes → Bytes → Category → Option Bytes → Folder → Bool × Folder
unfolding file_name put_file front_matter
md_store key content cat sid d =
    if d.writable (file_name key)
    then (true, record d { files = put_file (file_name key) (front_matter sid ++ content) d.files })
    else (false, d)

unfoldable pub entry_of : Option Bytes → Bytes → Bytes → Entry
entry_of id key content = record {
  id = id;
  key = key;
  content = content;
  category = core;
  timestamp = none;
  session_id = none;
}

unfoldable pub found_entry : Bytes → Option Bytes → Option Entry
unfolding entry_of
found_entry key none = none
found_entry key (some content) = some (entry_of none key (c_string content))

unfoldable pub md_get : Bytes → Folder → Option Entry
unfolding file_name find_file found_entry
md_get key d = found_entry key (find_file (file_name key) d.files)

unfoldable pub has_file : Option Bytes → Bool
has_file none = false
has_file (some c) = true

unfoldable pub md_forget : Bytes → Folder → Bool × Folder
unfolding file_name drop_file has_file find_file
md_forget key d = (
  has_file (find_file (file_name key) d.files),
  record d { files = drop_file (file_name key) d.files },
)

-- A name of at least four bytes that ends in `.md`.
unfoldable pub is_md : Bytes → Bool
is_md name = leb 4 (length name) && str_eq (drop (length name - 3) name) (codes ".md")

unfoldable pub contains : Bytes → Bytes → Bool
contains query content = elim (find_text query content) [ none ↦ false | some at_byte ↦ true ]

-- `!query[0] || strstr(fcontent, query)`
unfoldable pub matches : Bytes → Bytes → Bool
unfolding contains
matches [] content = true
matches (c ∷ query) content = contains (c ∷ query) content

unfoldable pub recalled_entry : Bytes → Bytes → Entry
unfolding entry_of
recalled_entry name content =
    let key : Bytes = take 255 (take (length name - 3) name) in
    entry_of (some key) key (c_string content)

-- The loop over the directory: `room` is how many more entries fit.
unfoldable pub recall_loop : Bytes → ℕ → List (Bytes × Bytes) → List Entry
unfolding is_md matches recalled_entry
recall_loop query room [] = []
recall_loop query zero (f ∷ fs) = []
recall_loop query (suc room) ((name, content) ∷ fs) =
    let found = recalled_entry name content ∷ recall_loop query room fs in
    let missed = recall_loop query (suc room) fs in
    if is_md name && matches query (c_string content) then found else missed

unfoldable pub md_recall : Bytes → ℕ → Folder → Bool × List Entry
unfolding recall_loop
md_recall query limit d =
    if d.listable then (true, recall_loop query limit d.files) else (false, [])

unfoldable pub count_md : List (Bytes × Bytes) → ℕ
unfolding is_md
count_md [] = 0
count_md ((name, content) ∷ fs) = (if is_md name then 1 else 0) + count_md fs

unfoldable pub md_count : Folder → ℕ
unfolding count_md
md_count d = if d.listable then count_md d.files else 0

unfoldable pub markdown_memory : Memory Folder
unfolding md_store md_recall md_get md_forget md_count
markdown_memory = record {
  store = md_store;
  recall = md_recall;
  get = md_get;
  forget = md_forget;
  count = md_count;
}
