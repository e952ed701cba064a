-- ===== src/Agent/Dispatch/Results.antt =====
-- A dispatch gives one result for every call, in the order of the calls.
use tiniclaw.Base.{
  ◌≡◌, ◌∙◌, refl, sym, ap, true, false, if_true, if_false, ◌≢◌, Option, none, some, List, [], ◌∷◌,
  ◌++◌, Bytes, codes, All, str_eq, str_eq_iff, Bool-cases, inl, inr, ◌⊎◌, clash,
}
use mathlib.Core.Path.{subst}
use tiniclaw.Agent.{Tool, ToolCall, ToolResult}
use tiniclaw.Agent.History.{or_empty}
use tiniclaw.Agent.Dispatch.{
  ToolCallResult, find_tool, or_text, shown, answer, run_call, dispatch_tools,
}

-- Where a tool stands in the list: the first one that has the name.
pub record FirstNamed {W J : Type 0} (name : Bytes) (tools : List (Tool W J)) (t : Tool W J)
    : Type 0 where
  pub front : List (Tool W J)
  pub back : List (Tool W J)
  pub whole : tools ≡ front ++ t ∷ back
  pub first : All (λ (u : Tool W J). u.name ≢ name) front
  pub named : t.name ≡ name

-- `s` is the text of `o`, or `d` where `o` is NULL.
abbrev pub TextOr : Bytes → Option Bytes → Bytes → Type 0
TextOr d none s = s ≡ d
TextOr d (some t) s = s ≡ t

-- What is told of a tool's result: its output after a success, its error after a failure.
abbrev pub Tells : ToolResult → ToolCallResult → Type 0
Tells result r =
    ((result.success ≡ true) × (r.success ≡ true) × TextOr [] result.output r.output)
    ⊎ ((result.success ≡ false)
        × (r.success ≡ false)
        × TextOr (codes "Tool error") result.error_msg r.output)

-- What the result of a call in the state `w` is: that of the first tool with the call's name, run on
-- the parsed arguments, `{}` where there are none, or a failure if no tool has the name.
abbrev pub Answers :
    {W J : Type 0}
    → (Bytes → Option J)
    → List (Tool W J)
    → ToolCall
    → W
    → ToolCallResult
    → W
    → Type 0
Answers {W} {J} parse tools call w r w' =
    ((t : Tool W J) × FirstNamed call.name tools t
      × (args : Bytes) × TextOr (codes "{}") call.arguments args
      × Tells (t.execute (parse args) w).0 r
      × (w' ≡ (t.execute (parse args) w).1))
    ⊎ (All (λ (u : Tool W J). u.name ≢ call.name) tools
        × (w' ≡ w)
        × (r.success ≡ false)
        × (r.output ≡ codes "Tool not found"))

-- One result for every call, each with the call's id and name, and each the answer in the state that
-- the calls before it left.
abbrev pub Dispatched :
    {W J : Type 0}
    → (Bytes → Option J)
    → List (Tool W J)
    → List ToolCall
    → W
    → List ToolCallResult
    → W
    → Type 0
Dispatched parse tools [] w [] w' = w' ≡ w
Dispatched parse tools [] w (r ∷ rs) w' = ⊥
Dispatched parse tools (call ∷ calls) w [] w' = ⊥
Dispatched {W} parse tools (call ∷ calls) w (r ∷ rs) w' =
    TextOr [] call.id r.tool_call_id
    × (r.tool_name ≡ call.name)
    × ((w1 : W) × Answers parse tools call w r w1 × Dispatched parse tools calls w1 rs w')

module _ {W J : Type 0} where
  abbrev Find : Bytes → List (Tool W J) → Option (Tool W J) → Type 0
  Find name tools none = All (λ (u : Tool W J). u.name ≢ name) tools
  Find name tools (some t) = FirstNamed name tools t

  here :
      (name : Bytes) (u : Tool W J) (us : List (Tool W J)) (found : Option (Tool W J))
      → u.name ≡ name
      → ◌≡◌ {A = Option (Tool W J)} (some u) found
      → Find name (u ∷ us) found
  here name u us none same e = absurd (cc)
  here name u us (some t) same e =
      let u_is : u ≡ t = cc in
      record {
        front = [];
        back = us;
        whole = ap (λ (x : Tool W J). x ∷ us) u_is;
        first = tt;
        named = ap (λ (x : Tool W J). x.name) (sym u_is) ∙ same;
      }

  further :
      (name : Bytes) (u : Tool W J) (us : List (Tool W J)) (found : Option (Tool W J))
      → u.name ≢ name
      → Find name us found
      → Find name (u ∷ us) found
  further name u us none other f = (other, f)
  further name u us (some t) other f = record {
    front = u ∷ f.front;
    back = f.back;
    whole = ap (λ (l : List (Tool W J)). u ∷ l) f.whole;
    first = (other, f.first);
    named = f.named;
  }

  find_tool_lem :
      (name : Bytes) (tools : List (Tool W J)) (found : Option (Tool W J))
      → find_tool name tools ≡ found
      → Find name tools found
  unfolding find_tool
  find_tool_lem name [] none e = tt
  find_tool_lem name [] (some t) e = absurd (cc)
  find_tool_lem name (u ∷ us) found e = elim (Bool-cases (str_eq u.name name)) [
    | inl same ↦ here name u us found ((str_eq_iff u.name name).0 same) (rw same at e)
    | inr other ↦
        further name u us found (λ q. clash (sym other ∙ (str_eq_iff u.name name).1 q))
          (find_tool_lem name us found (rw other at e))
  ]

or_text-TextOr : (d : Bytes) (o : Option Bytes) → TextOr d o (or_text d o)
unfolding or_text
or_text-TextOr d none = refl
or_text-TextOr d (some t) = refl

or_empty-TextOr : (o : Option Bytes) → TextOr [] o (or_empty o)
or_empty-TextOr none = refl
or_empty-TextOr (some t) = refl

answer-Tells : (call : ToolCall) (result : ToolResult) → Tells result (answer call result)
unfolding answer shown
answer-Tells call result = elim (Bool-cases result.success) [
  | inl ok ↦ inl (
    ok,
    ok,
    subst (TextOr [] result.output) (sym (if_true result.success _ _ ok))
        (or_empty-TextOr result.output),
  )
  | inr failed ↦ inr (
    failed,
    failed,
    subst (TextOr (codes "Tool error") result.error_msg) (sym (if_false result.success _ _ failed))
        (or_text-TextOr (codes "Tool error") result.error_msg),
  )
]

module _ {W J : Type 0} (parse : Bytes → Option J) where
  run_call_lem :
      (tools : List (Tool W J)) (call : ToolCall) (w : W) (found : Option (Tool W J))
      → find_tool call.name tools ≡ found
      → let (r, w1) = run_call parse call found w in
        TextOr [] call.id r.tool_call_id
        × (r.tool_name ≡ call.name)
        × Answers parse tools call w r w1
  unfolding run_call answer
  run_call_lem tools call w none e =
      (or_empty-TextOr call.id, refl, inr (find_tool_lem call.name tools none e, refl, refl, refl))
  run_call_lem tools call w (some t) e =
      let args : Bytes = or_text (codes "{}") call.arguments in
      (
        or_empty-TextOr call.id,
        refl,
        inl (
          t,
          find_tool_lem call.name tools (some t) e,
          args,
          or_text-TextOr (codes "{}") call.arguments,
          answer-Tells call (t.execute (parse args) w).0,
          refl,
        ),
      )

  -- Dispatching gives one result for every call, in order, with the call's id, empty for NULL, and
  -- name. The first tool with that name is run once, on the parsed arguments, those of `{}` for
  -- NULL, in the state that the earlier calls left, and the result is a success with the tool's
  -- output, empty for NULL, if the tool succeeded, and otherwise a failure with the tool's error, or
  -- `Tool error`. A call whose name no tool has is a failure, `Tool not found`, and changes nothing.
  pub dispatch_tools-Dispatched :
      (tools : List (Tool W J)) (calls : List ToolCall) (w : W)
      → let (rs, w') = dispatch_tools parse tools calls w in Dispatched parse tools calls w rs w'
  unfolding dispatch_tools
  dispatch_tools-Dispatched tools [] w = refl
  dispatch_tools-Dispatched tools (call ∷ calls) w =
      let found = find_tool call.name tools in
      let one = run_call_lem tools call w found refl in
      let w1 = (run_call parse call found w).1 in
      (one.0, one.1, (w1, one.2, dispatch_tools-Dispatched tools calls w1))
