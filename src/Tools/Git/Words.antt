-- ===== src/Tools/Git/Words.antt =====
-- What the shell reads of the command line that the git tool builds.
use tiniclaw.Base.{
  length, ◌≡◌, refl, ap, ◌∙◌, true, false, Option, none, some, List, [], ◌∷◌, ◌++◌, append_assoc,
  Bytes, codes, if_true, if_false, All, Bool-cases, ◌⊎◌, inl, inr, ◌↔◌, sym, clash, Option-cases,
  str_eq, str_eq_iff,
}
use tiniclaw.Json.{
  Tree, null, boolean, number, text, array_node, object_node, get_in, as_text, as_items,
}
use tiniclaw.Security.Policy.Commands.{In}
use tiniclaw.Tools.File.{result_err}
use tiniclaw.Agent.{ToolResult}
use tiniclaw.Tools.Git.{
  safe_subcommands, is_among, quoted, quoted_arg, quoted_args, git_command, git_run, git_execute,
}
use tiniclaw.Tools.Git.Reading.{
  read_word, and_word, then_words, read_words, Unquoted, until_quote-quoted, read_word-quoted,
}

-- The strings of the array of arguments; what is no string is left out, as is all of what is no array.
unfoldable pub strings : Option (List Tree) → List Bytes
strings none = []
strings (some []) = []
strings (some (text s ∷ vs)) = s ∷ strings (some vs)
strings (some (null ∷ vs)) = strings (some vs)
strings (some (boolean b ∷ vs)) = strings (some vs)
strings (some (number w n ∷ vs)) = strings (some vs)
strings (some (array_node a ∷ vs)) = strings (some vs)
strings (some (object_node o ∷ vs)) = strings (some vs)

read_words-quoted :
    (vs : List Tree) (rest : Bytes)
    → All Unquoted (strings (some vs))
    → read_words (length (strings (some vs))) (quoted_args (some vs) ++ rest)
      ≡ some (strings (some vs), rest)
unfolding read_words quoted_args quoted_arg as_text strings
read_words-quoted [] rest h = refl
read_words-quoted (null ∷ vs) rest h = read_words-quoted vs rest h
read_words-quoted (boolean b ∷ vs) rest h = read_words-quoted vs rest h
read_words-quoted (number w n ∷ vs) rest h = read_words-quoted vs rest h
read_words-quoted (array_node a ∷ vs) rest h = read_words-quoted vs rest h
read_words-quoted (object_node o ∷ vs) rest h = read_words-quoted vs rest h
read_words-quoted (text s ∷ vs) rest (h, hs) =
    let tail : Bytes = quoted_args (some vs) ++ rest in
    let word : read_word ((quoted s ++ quoted_args (some vs)) ++ rest) ≡ some (s, tail) =
      ap read_word (append_assoc (quoted s) (quoted_args (some vs)) rest)
      ∙ read_word-quoted s tail h in
    ap (then_words (read_words (length (strings (some vs))))) word
    ∙ ap (and_word s) (read_words-quoted vs rest hs)

read_words-strings :
    (o : Option (List Tree)) (rest : Bytes)
    → All Unquoted (strings o)
    → read_words (length (strings o)) (quoted_args o ++ rest) ≡ some (strings o, rest)
unfolding read_words quoted_args strings
read_words-strings none rest h = refl
read_words-strings (some vs) rest h = read_words-quoted vs rest h

is_among_iff : (s : Bytes) (xs : List Bytes) → (is_among s xs ≡ true) ↔ In s xs
unfolding is_among
is_among_iff s [] = (λ h. cc, λ h. absurd h)
is_among_iff s (x ∷ xs) = elim (Bool-cases (str_eq s x)) [
  | inl same ↦ rw same (λ h. inl ((str_eq_iff s x).0 same), λ h. refl)
  | inr other ↦ rw other (
    λ h. inr ((is_among_iff s xs).0 h),
    λ h. elim h [
      | inl e ↦ absurd (clash (sym other ∙ (str_eq_iff s x).1 e))
      | inr i ↦ (is_among_iff s xs).1 i
    ],
  )
]

-- The subcommand and the strings of the arguments that a call names.
abbrev pub subcommand : Option Tree → Option Bytes
subcommand args = as_text (get_in args (codes "subcommand"))

abbrev pub arguments : Option Tree → List Bytes
arguments args = strings (as_items (get_in args (codes "args")))

-- No subcommand of the list is named.
abbrev pub Refused : Option Tree → Type 0
Refused args = (sub : Bytes) → subcommand args ≡ some sub → ¬ In sub safe_subcommands

module _ (dir : Bytes) (popen : Bytes → Option (List Bytes)) (args : Option Tree) where
  runs_one :
      (((git_execute dir popen args).0.success ≡ false)
        × ((git_execute dir popen args).1 ≡ [])
        × Refused args)
      ⊎ ((sub : Bytes) × (subcommand args ≡ some sub)
          × In sub safe_subcommands
          × ((git_execute dir popen args).1
              ≡ git_command dir sub (as_items (get_in args (codes "args"))) ∷ []))
  unfolding git_execute git_run result_err
  runs_one = elim (Option-cases (subcommand args)) [
    | inl missing ↦ inl (
      ap (λ (o : Option Bytes). (git_run dir popen args o).0.success) missing,
      ap (λ (o : Option Bytes). (git_run dir popen args o).1) missing,
      λ sub has. absurd (cc (missing, has)),
    )
    | inr (sub, has) ↦ elim (Bool-cases (is_among sub safe_subcommands)) [
      | inr no_entry ↦ inl (
        ap (λ (o : Option Bytes). (git_run dir popen args o).0.success) has
            ∙ ap (λ (r : ToolResult × List Bytes). r.0.success) (if_false _ _ _ no_entry),
        ap (λ (o : Option Bytes). (git_run dir popen args o).1) has
            ∙ ap (λ (r : ToolResult × List Bytes). r.1) (if_false _ _ _ no_entry),
        λ other has' listed.
            let same : other ≡ sub = cc (has, has') in
            clash (
              sym no_entry
              ∙ ap (λ (x : Bytes). is_among x safe_subcommands) (sym same)
              ∙ (is_among_iff other safe_subcommands).1 listed),
      )
      | inl entry ↦ inr (
        sub,
        has,
        (is_among_iff sub safe_subcommands).0 entry,
        ap (λ (o : Option Bytes). (git_run dir popen args o).1) has
            ∙ ap (λ (r : ToolResult × List Bytes). r.1) (if_true _ _ _ entry),
      )
    ]
  ]

  -- Whatever the arguments are, a call that names no subcommand of the list fails and runs nothing,
  -- and any other runs one command line, `cd` to the directory in single quotes, `&& git`, and the
  -- subcommand before all else.
  pub git_execute-allowed :
      (((git_execute dir popen args).0.success ≡ false)
        × ((git_execute dir popen args).1 ≡ [])
        × Refused args)
      ⊎ ((sub : Bytes) × (subcommand args ≡ some sub)
          × In sub safe_subcommands
          × (line : Bytes) × ((git_execute dir popen args).1
              ≡ (codes "cd '" ++ (dir ++ (codes "' && git " ++ (sub ++ line)))) ∷ []))
  unfolding git_command
  git_execute-allowed = elim runs_one [
    | inl refused ↦ inl refused
    | inr (sub, has, listed, runs) ↦ inr (
      sub,
      has,
      listed,
      quoted_args (as_items (get_in args (codes "args"))) ++ codes " 2>&1",
      runs,
    )
  ]

  -- Where neither the workspace's directory nor a string among the arguments has a single quote in
  -- it, a call that does not name a subcommand of the list runs nothing, and any other runs one
  -- command line, of which the shell reads: `cd` and exactly the directory, `&& git` and the
  -- subcommand, and exactly the strings of the arguments, none where there are no arguments.
  pub git_execute-words :
      Unquoted dir
      → All Unquoted (arguments args)
      → (((git_execute dir popen args).1 ≡ []) × Refused args)
        ⊎ ((sub : Bytes) × (subcommand args ≡ some sub)
            × In sub safe_subcommands
            × (behind_cd : Bytes) × (line : Bytes) × ((git_execute dir popen args).1
                ≡ (codes "cd" ++ behind_cd) ∷ [])
            × (read_word behind_cd ≡ some (dir, codes " && git " ++ (sub ++ line)))
            × (read_words (length (arguments args)) line ≡ some (arguments args, codes " 2>&1")))
  unfolding git_command read_word
  git_execute-words plain_dir plain = elim runs_one [
    | inl (failed, nothing, refused) ↦ inl (nothing, refused)
    | inr (sub, has, listed, runs) ↦
        let words = as_items (get_in args (codes "args")) in
        let line : Bytes = quoted_args words ++ codes " 2>&1" in
        inr (
          sub,
          has,
          listed,
          codes " '" ++ (dir ++ (codes "' && git " ++ (sub ++ line))),
          line,
          runs,
          until_quote-quoted dir (codes " && git " ++ (sub ++ line)) plain_dir,
          read_words-strings words (codes " 2>&1") plain,
        )
  ]
