-- ===== src/Tools/Git/Reading.antt =====
-- How the shell reads words in single quotes, and what it reads of the git tool's.
use tiniclaw.Base.{
  ℕ, zero, suc, ◌&&◌, ◌≡◌, refl, ap, ◌∙◌, false, Option, none, some, List, [], ◌∷◌, ◌++◌,
  append_assoc, Bytes, ◌==◌, if◌then◌else◌, if_false, All,
}
use tiniclaw.Tools.Git.{quoted}

unfoldable pub keep : ℕ → Option (Bytes × Bytes) → Option (Bytes × Bytes)
keep c none = none
keep c (some (word, rest)) = some (c ∷ word, rest)

-- The shell's reading of single quotes: what stands before the next quote, and what stands behind it.
unfoldable pub until_quote : Bytes → Option (Bytes × Bytes)
unfolding keep
until_quote [] = none
until_quote (c ∷ s) = let more = keep c (until_quote s) in if c == b'\'' then some ([], s) else more

-- A quoted word behind a space.
unfoldable pub read_word : Bytes → Option (Bytes × Bytes)
unfolding until_quote
read_word [] = none
read_word (c ∷ []) = none
read_word (c ∷ q ∷ s) = if c == 32 && q == b'\'' then until_quote s else none

unfoldable pub and_word : Bytes → Option (List Bytes × Bytes) → Option (List Bytes × Bytes)
and_word word none = none
and_word word (some (words, rest)) = some (word ∷ words, rest)

unfoldable pub then_words :
    (Bytes → Option (List Bytes × Bytes)) → Option (Bytes × Bytes) → Option (List Bytes × Bytes)
unfolding and_word
then_words f none = none
then_words f (some (word, rest)) = and_word word (f rest)

-- So many words, with what stands behind them.
unfoldable pub read_words : ℕ → Bytes → Option (List Bytes × Bytes)
unfolding read_word then_words
read_words zero s = some ([], s)
read_words (suc n) s = then_words (read_words n) (read_word s)

-- No quote in it.
abbrev pub Unquoted : Bytes → Type 0
Unquoted = All (λ c. (c == b'\'') ≡ false)

pub until_quote-quoted :
    (s rest : Bytes) → Unquoted s → until_quote (s ++ (b'\'' ∷ rest)) ≡ some (s, rest)
unfolding until_quote keep
until_quote-quoted [] rest h = refl
until_quote-quoted (c ∷ s) rest (hc, h) =
    if_false _ _ _ hc ∙ ap (keep c) (until_quote-quoted s rest h)

pub read_word-quoted : (s rest : Bytes) → Unquoted s → read_word (quoted s ++ rest) ≡ some (s, rest)
unfolding read_word quoted
read_word-quoted s rest h =
    ap until_quote (append_assoc s (b'\'' ∷ []) rest) ∙ until_quote-quoted s rest h
