-- ===== src/Main/Session.antt =====
-- The interactive session of `nc_agent_run`.
use tiniclaw.Base.{◌≡◌, refl, List, [], ◌∷◌, Bytes, if◌then◌else◌, Bool-cases, inl, inr}
use tiniclaw.Main.{strip_newline, is_exit, is_empty, repl}

-- The lines that become turns: without their line feeds, up to the first `exit` or `quit`, the empty
-- ones left out.
unfoldable pub spoken : List Bytes → List Bytes
spoken [] = []
spoken (l ∷ lines) =
    let line = strip_newline l in
    let rest = spoken lines in
    if is_exit line then [] else if is_empty line then rest else line ∷ rest

unfoldable pub turns : {S : Type 0} → (Bytes → S → S) → List Bytes → S → S
turns turn [] s = s
turns turn (line ∷ lines) s = turns turn lines (turn line s)

-- The session is the turns on the spoken lines, one after the other.
pub repl-turns :
    {S : Type 0} (turn : Bytes → S → S) (lines : List Bytes) (s : S)
    → repl turn lines s ≡ turns turn (spoken lines) s
unfolding repl spoken turns
repl-turns turn [] s = refl
repl-turns turn (l ∷ lines) s = elim (Bool-cases (is_exit (strip_newline l))) [
  | inl e ↦ rw e refl
  | inr e ↦ rw e (elim (Bool-cases (is_empty (strip_newline l))) [
    | inl none_said ↦ rw none_said (repl-turns turn lines s)
    | inr something ↦ rw something (repl-turns turn lines (turn (strip_newline l) s))
  ])
]
