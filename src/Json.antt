-- ===== src/Json.antt =====
-- JSON values as data, as the code gets and builds them through cJSON, which is outside the repository
-- and whose parser and printer are arguments everywhere: the types, and the reading of a value that the
-- code does with the calls named below. A number keeps the word of its `valuedouble` beside its `valueint`; a text is the
-- bytes before the NUL that ends its `valuestring`.
mod Nodes
unfoldable pub use Nodes.*
