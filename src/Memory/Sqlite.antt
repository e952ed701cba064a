-- ===== src/Memory/Sqlite.antt =====
-- The SQLite back end of src/memory/sqlite_mem.c, over the rows of its table in the order of their
-- insertion. SQLite runs the statements: the full-text search is a parameter, and so is the random id.
pub mod Categories
use tiniclaw.Base.{
  ℕ, ◌+◌, Bool, true, false, Option, none, some, List, [], ◌∷◌, ◌++◌, map, Bytes, codes, take,
  length, str_eq, if◌then◌else◌,
}
use tiniclaw.Memory.{Category, core, daily, conversation, custom, Entry, Memory}

pub record Row : Type 0 where
  pub id : Bytes
  pub key : Bytes
  pub content : Bytes
  pub category : Bytes
  pub session_id : Option Bytes
  pub timestamp : Bytes

-- The table, with the ids that `nc_random_bytes` will give and the time.
pub record Database : Type 0 where
  pub rows : List Row
  pub next_ids : List Bytes
  pub now : Bytes

unfoldable pub category_text : Category → Bytes
category_text core = codes "core"
category_text daily = codes "daily"
category_text conversation = codes "conversation"
category_text (custom none) = codes "custom"
category_text (custom (some name)) = name

-- A name of one's own is not read back, but for `custom` itself.
unfoldable pub category_of : Bytes → Category
category_of s =
    if str_eq s (codes "core")
    then core
    else if str_eq s (codes "daily")
    then daily
    else if str_eq s (codes "conversation")
    then conversation
    else custom (if str_eq s (codes "custom") then some s else none)

-- `INSERT OR REPLACE`: a row of the same id goes.
unfoldable pub without_id : Bytes → List Row → List Row
without_id id [] = []
without_id id (r ∷ rs) = let rest = without_id id rs in if str_eq r.id id then rest else r ∷ rest

unfoldable pub insert_row : Row → List Row → List Row
unfolding without_id
insert_row r rs = without_id r.id rs ++ (r ∷ [])

unfoldable pub store_with :
    List Bytes → Bytes → Bytes → Category → Option Bytes → Database → Bool × Database
unfolding insert_row category_text
store_with [] key content cat sid db = (false, db)
store_with (id ∷ ids) key content cat sid db = (
  true,
  record db {
    rows =
        insert_row
          (record {
            id = id;
            key = key;
            content = content;
            category = category_text cat;
            session_id = sid;
            timestamp = db.now;
          })
          db.rows;
    next_ids = ids;
  },
)

unfoldable pub sqlite_store : Bytes → Bytes → Category → Option Bytes → Database → Bool × Database
unfolding store_with
sqlite_store key content cat sid db = store_with db.next_ids key content cat sid db

unfoldable pub entry_of_row : Row → Entry
unfolding category_of
entry_of_row r = record {
  id = some r.id;
  key = r.key;
  content = r.content;
  category = category_of r.category;
  timestamp = some r.timestamp;
  session_id = r.session_id;
}

-- `SELECT … WHERE key=? LIMIT 1`, on a table that is read in the order of insertion; the category and
-- the session are not filled in.
unfoldable pub sqlite_get_from : Bytes → List Row → Option Entry
sqlite_get_from key [] = none
sqlite_get_from key (r ∷ rs) =
    let rest = sqlite_get_from key rs in
    if str_eq r.key key
    then some (record {
      id = some r.id;
      key = r.key;
      content = r.content;
      category = core;
      timestamp = some r.timestamp;
      session_id = none;
    })
    else rest

-- `DELETE … WHERE key=?` succeeds also where no row has the key.
unfoldable pub without_key : Bytes → List Row → List Row
without_key key [] = []
without_key key (r ∷ rs) =
    let rest = without_key key rs in if str_eq r.key key then rest else r ∷ rest

unfoldable pub sqlite_forget : Bytes → Database → Bool × Database
unfolding without_key
sqlite_forget key db = (true, record db { rows = without_key key db.rows })

-- `search` is what the query's statement finds, the best first.
unfoldable pub sqlite_recall :
    (Bytes → List Row → List Row) → Bytes → ℕ → Database → Bool × List Entry
unfolding entry_of_row
sqlite_recall search query limit db = (true, map entry_of_row (take limit (search query db.rows)))

unfoldable pub sqlite_memory : (Bytes → List Row → List Row) → Memory Database
unfolding sqlite_store sqlite_recall sqlite_get_from sqlite_forget
sqlite_memory search = record {
  store = sqlite_store;
  recall = sqlite_recall search;
  get = λ key db. sqlite_get_from key db.rows;
  forget = sqlite_forget;
  count = λ db. length db.rows;
}
