-- ===== src/Providers/Openai/Answers.antt =====
-- What `parse_response` of src/providers/openai.c makes of a body.
use tiniclaw.Base.{
  ◌≡◌, refl, sym, ap, ◌∙◌, ◌↔◌, true, Option, none, some, List, [], ◌∷◌, map, codes, All,
  Option-cases, clash, inl, inr,
}
use tiniclaw.Json.{Tree, get_item, as_items}
use tiniclaw.Agent.{ToolCall}
use tiniclaw.Providers.{Call, named, failed_with}
use tiniclaw.Providers.Openai.{
  call_of, tool_call, parse_message, parse_choices, parse_error, parse_response,
}

-- A root that `parse_response` takes: no `error`, and a first choice with a message.
pub record IsAnswer (root : Tree) : Type 0 where
  pub no_error : get_item root (codes "error") ≡ none
  pub choice : Tree
  pub choices : List Tree
  pub has_choices : as_items (get_item root (codes "choices")) ≡ some (choice ∷ choices)
  pub message : Tree
  pub has_message : get_item choice (codes "message") ≡ some message

choices-IsAnswer :
    (root : Tree) (o : Option (List Tree))
    → get_item root (codes "error") ≡ none
    → as_items (get_item root (codes "choices")) ≡ o
    → (parse_choices root o).0 ≡ true
    → IsAnswer root
unfolding parse_choices failed_with
choices-IsAnswer root none e eq h = cc
choices-IsAnswer root (some []) e eq h = cc
choices-IsAnswer root (some (choice ∷ choices)) e eq h =
    elim (Option-cases (get_item choice (codes "message"))) [
      | inl missing ↦
          absurd (clash (sym (ap (λ (m : Option Tree). (parse_message root m).0) missing) ∙ h))
      | inr (message, found) ↦ record {
        no_error = e;
        choice = choice;
        choices = choices;
        has_choices = eq;
        message = message;
        has_message = found;
      }
    ]

error-IsAnswer :
    (root : Tree) (o : Option Tree)
    → get_item root (codes "error") ≡ o
    → (parse_error root o).0 ≡ true
    → IsAnswer root
unfolding parse_error failed_with
error-IsAnswer root none e h = choices-IsAnswer root _ e refl h
error-IsAnswer root (some error) e h = cc

answer_parses : (root : Tree) → IsAnswer root → (parse_response (some root)).0 ≡ true
unfolding parse_response parse_error parse_choices parse_message
answer_parses root a = rw (a.no_error, a.has_choices, a.has_message) refl

-- Parsing a root returns 0 exactly where it has no `error` and its first choice has a message.
pub parse_response_iff : (root : Tree) → ((parse_response (some root)).0 ≡ true) ↔ IsAnswer root
unfolding parse_response
parse_response_iff root =
    (λ h. error-IsAnswer root (get_item root (codes "error")) refl h, answer_parses root)

ok_choices :
    (root : Tree) (o : Option (List Tree)) → (parse_choices root o).1.ok ≡ (parse_choices root o).0
unfolding parse_choices parse_message failed_with
ok_choices root none = refl
ok_choices root (some []) = refl
ok_choices root (some (choice ∷ choices)) =
    elim (Option-cases (get_item choice (codes "message"))) [
      | inl missing ↦ rw missing refl
      | inr (message, found) ↦ rw found refl
    ]

ok_error : (root : Tree) (o : Option Tree) → (parse_error root o).1.ok ≡ (parse_error root o).0
unfolding parse_error failed_with
ok_error root none = ok_choices root _
ok_error root (some error) = refl

-- `ok` says the same as the code that is returned.
pub ok-parse_response : (o : Option Tree) → (parse_response o).1.ok ≡ (parse_response o).0
unfolding parse_response failed_with
ok-parse_response none = refl
ok-parse_response (some root) = ok_error root _

abbrev pub HasFunction : Tree → Type 0
HasFunction tc = (fn : Tree) × (get_item tc (codes "function") ≡ some fn)

named-missing :
    (tc : Tree) (cs : List Call)
    → get_item tc (codes "function") ≡ none
    → named (tool_call tc ∷ cs) ≡ none
unfolding named tool_call call_of
named-missing tc cs missing = rw missing refl

named-found :
    (tc fn : Tree) (cs : List Call) (calls : List ToolCall)
    → get_item tc (codes "function") ≡ some fn
    → named cs ≡ some calls
    → (more : List ToolCall) × (named (tool_call tc ∷ cs) ≡ some more)
unfolding named tool_call call_of
named-found tc fn cs calls found e = rw (found, e) (_, refl)

pub named-tail :
    (c : Call) (cs : List Call) (calls : List ToolCall)
    → named (c ∷ cs) ≡ some calls
    → (more : List ToolCall) × (named cs ≡ some more)
unfolding named
named-tail c cs calls h = elim (Option-cases (named cs)) [
  | inr more ↦ more
  | inl missing ↦ elim (Option-cases c.name) [
    | inl no_name ↦ cc (rw (no_name, named) at h)
    | inr (name, has_name) ↦ cc (rw (has_name, missing, named) at h)
  ]
]

-- The tool calls that the parser makes of the items all have a name, which the agent compares
-- without a test for NULL, exactly when every item has a `function`.
pub named-tool_calls :
    (vs : List Tree)
    → ((calls : List ToolCall) × (named (map tool_call vs) ≡ some calls)) ↔ All HasFunction vs
unfolding named
named-tool_calls [] = (λ h. tt, λ h. ([], refl))
named-tool_calls (tc ∷ vs) = elim (Option-cases (get_item tc (codes "function"))) [
  | inl missing ↦ (
    λ (calls, e). absurd (cc (named-missing tc (map tool_call vs) missing)),
    λ ((fn, found), hs). absurd (cc),
  )
  | inr (fn, found) ↦ (
    λ (calls, e). (
      (fn, found),
      (named-tool_calls vs).0 (named-tail (tool_call tc) (map tool_call vs) calls e),
    ),
    λ (h, hs).
        let (calls, e) = (named-tool_calls vs).1 hs in
        named-found tc fn (map tool_call vs) calls found e,
  )
]
