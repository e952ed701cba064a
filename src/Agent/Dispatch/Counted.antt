-- ===== src/Agent/Dispatch/Counted.antt =====
-- A quantity that no tool changes is not changed by a dispatch.
use tiniclaw.Base.{
  ℕ, ◌≡◌, ◌∙◌, refl, sym, ap, Option, none, some, List, [], ◌∷◌, Bytes, All, str_eq, Bool-cases,
  inl, inr,
}
use tiniclaw.Agent.{Tool, ToolCall}
use tiniclaw.Agent.Dispatch.{find_tool, run_call, dispatch_tools}

-- The tool leaves the quantity as it is.
abbrev pub Quiet : {W J : Type 0} → (W → ℕ) → Tool W J → Type 0
Quiet {W} {J} c t = (args : Option J) (w : W) → c (t.execute args w).1 ≡ c w

first_found : {A : Type 0} {x y : A} → ◌≡◌ {A = Option A} (some x) (some y) → x ≡ y
first_found e = cc

module _ {W J : Type 0} (c : W → ℕ) where
  find_tool-counted :
      (name : Bytes) (tools : List (Tool W J)) (t : Tool W J)
      → All (Quiet c) tools
      → find_tool name tools ≡ some t
      → (args : Option J) (w : W) → c (t.execute args w).1 ≡ c w
  unfolding find_tool
  find_tool-counted name [] t h e = absurd (cc)
  find_tool-counted name (u ∷ us) t (hu, h) e = elim (Bool-cases (str_eq u.name name)) [
    | inl same ↦
        let e' : u ≡ t = first_found (rw same at e) in
        λ args w. ap (λ (x : Tool W J). c (x.execute args w).1) (sym e') ∙ hu args w
    | inr other ↦ find_tool-counted name us t h (rw other at e)
  ]

  run_call-counted :
      (parse : Bytes → Option J) (call : ToolCall) (tools : List (Tool W J))
      (found : Option (Tool W J)) (w : W)
      → All (Quiet c) tools
      → find_tool call.name tools ≡ found
      → c (run_call parse call found w).1 ≡ c w
  unfolding run_call
  run_call-counted parse call tools none w h e = refl
  run_call-counted parse call tools (some t) w h e = find_tool-counted call.name tools t h e _ w

  pub dispatch_tools-counted :
      (parse : Bytes → Option J) (tools : List (Tool W J)) (calls : List ToolCall) (w : W)
      → All (Quiet c) tools
      → c (dispatch_tools parse tools calls w).1 ≡ c w
  unfolding dispatch_tools
  dispatch_tools-counted parse tools [] w h = refl
  dispatch_tools-counted parse tools (call ∷ calls) w h =
      dispatch_tools-counted parse tools calls (run_call parse call (find_tool call.name tools) w).1
        h
      ∙ run_call-counted parse call tools (find_tool call.name tools) w h refl
