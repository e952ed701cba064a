-- ===== src/Memory/Sqlite/Categories.antt =====
-- What the SQLite back end keeps of an entry.
use tiniclaw.Base.{
  ◌+◌, ◌≡◌, refl, sym, ap, ◌∙◌, ◌≢◌, false, Option, none, some, List, [], ◌∷◌, ◌++◌, Bytes, codes,
  length, length-append, str_eq, str_eq_iff, if_true, if_false, Bool-cases, inl, inr, All,
}
use tiniclaw.Memory.{Category, core, daily, conversation, custom, Entry}
use tiniclaw.Memory.Sqlite.{
  Row, Database, category_text, category_of, without_id, insert_row, store_with, sqlite_store,
  sqlite_get_from,
}

str_eq-ne : (a b : Bytes) → a ≢ b → str_eq a b ≡ false
str_eq-ne a b h = elim (Bool-cases (str_eq a b)) [
  | inl e ↦ absurd (h ((str_eq_iff a b).0 e))
  | inr e ↦ e
]

-- The three fixed categories come back from the table. A category of one's own comes back without its
-- name, where the name is none of the four words.
pub category_of-category_text :
    (name : Bytes)
    → name ≢ codes "core"
    → name ≢ codes "daily"
    → name ≢ codes "conversation"
    → name ≢ codes "custom"
    → (category_of (category_text core) ≡ core)
      × (category_of (category_text daily) ≡ daily)
      × (category_of (category_text conversation) ≡ conversation)
      × (category_of (category_text (custom (some name))) ≡ custom none)
unfolding category_of category_text str_eq
category_of-category_text name h1 h2 h3 h4 = (
  refl,
  refl,
  refl,
  rw
      (
        str_eq-ne name (codes "core") h1,
        str_eq-ne name (codes "daily") h2,
        str_eq-ne name (codes "conversation") h3,
        str_eq-ne name (codes "custom") h4,
      )
      refl,
)

-- No row has the id.
abbrev pub FreshId : Bytes → List Row → Type 0
FreshId id = All (λ r. str_eq r.id id ≡ false)

without-fresh : (id : Bytes) (rs : List Row) → FreshId id rs → without_id id rs ≡ rs
unfolding without_id
without-fresh id [] h = refl
without-fresh id (r ∷ rs) (h, hs) = rw h (ap (λ (l : List Row). r ∷ l) (without-fresh id rs hs))

get-snoc :
    (key : Bytes) (rs : List Row) (r : Row) (e : Entry)
    → sqlite_get_from key rs ≡ some e
    → sqlite_get_from key (rs ++ (r ∷ [])) ≡ some e
unfolding sqlite_get_from
get-snoc key [] r e h = cc
get-snoc key (q ∷ rs) r e h = elim (Bool-cases (str_eq q.key key)) [
  | inl hit ↦
      if_true _ _ _ hit ∙ (sym (if_true (str_eq q.key key) _ (sqlite_get_from key rs) hit) ∙ h)
  | inr miss ↦
      if_false _ _ _ miss ∙ get-snoc key rs r e (sym (if_false (str_eq q.key key) _ _ miss) ∙ h)
]

-- A key that is stored again keeps its old content: with an id that no row has, the table has one row
-- more, and getting the key gives what it gave before.
pub sqlite_store-again :
    (key content : Bytes) (cat : Category) (sid : Option Bytes) (db : Database) (id : Bytes)
    (ids : List Bytes) (e : Entry)
    → db.next_ids ≡ id ∷ ids
    → FreshId id db.rows
    → sqlite_get_from key db.rows ≡ some e
    → (sqlite_get_from key (sqlite_store key content cat sid db).1.rows ≡ some e)
      × (length (sqlite_store key content cat sid db).1.rows ≡ length db.rows + 1)
unfolding sqlite_store store_with insert_row
sqlite_store-again key content cat sid db id ids e next fresh held =
    let r : Row = record {
      id = id;
      key = key;
      content = content;
      category = category_text cat;
      session_id = sid;
      timestamp = db.now;
    } in
    let added : (sqlite_store key content cat sid db).1.rows ≡ db.rows ++ (r ∷ []) =
      ap (λ (l : List Bytes). (store_with l key content cat sid db).1.rows) next
      ∙ ap (λ (l : List Row). l ++ (r ∷ [])) (without-fresh id db.rows fresh) in
    (
      ap (sqlite_get_from key) added ∙ get-snoc key db.rows r e held,
      ap (λ (l : List Row). length l) added ∙ length-append db.rows (r ∷ []),
    )
