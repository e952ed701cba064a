-- ===== src/Memory.antt =====
-- The memories of include/memory.h: categories, entries and the vtable, with the back end that keeps
-- nothing. `W` is the state that a back end changes; the arena does not run out.
pub mod Markdown
pub mod Sqlite
pub mod Toolset
mod Tests
use tiniclaw.Base.{ℕ, Bool, true, false, Option, none, some, List, [], Bytes}

-- A category of one's own has a name, which may be NULL.
pub data Category : Type 0 where
  core : Category
  daily : Category
  conversation : Category
  custom : Option Bytes → Category

-- The score is left out; `none` is NULL.
pub record Entry : Type 0 where
  pub id : Option Bytes
  pub key : Bytes
  pub content : Bytes
  pub category : Category
  pub timestamp : Option Bytes
  pub session_id : Option Bytes

-- `true` is a returned 0. `get` gives `none` where it returns -1.
pub record Memory (W : Type 0) : Type 0 where
  pub store : Bytes → Bytes → Category → Option Bytes → W → Bool × W
  pub recall : Bytes → ℕ → W → Bool × List Entry
  pub get : Bytes → W → Option Entry
  pub forget : Bytes → W → Bool × W
  pub count : W → ℕ

unfoldable pub none_memory : {W : Type 0} → Memory W
none_memory = record {
  store = λ key content cat sid w. (true, w);
  recall = λ query limit w. (true, []);
  get = λ key w. none;
  forget = λ key w. (true, w);
  count = λ w. 0;
}
