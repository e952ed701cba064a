-- ===== src/Providers/Anthropic/Answers.antt =====
-- What `parse_anthropic_response` makes of a body.
use tiniclaw.Base.{◌≡◌, refl, some, List, [], ◌∷◌, codes, Bool-cases, inl, inr}
use tiniclaw.Json.{Tree}
use tiniclaw.Agent.{ToolCall}
use tiniclaw.Providers.{Cjson, named}
use tiniclaw.Providers.Anthropic.{has_type, block_call, calls}

-- Every call has a name, so the agent can take it.
pub named-calls :
    (cj : Cjson) (bs : List Tree) → (cs : List ToolCall) × (named (calls cj bs) ≡ some cs)
unfolding calls named block_call
named-calls cj [] = ([], refl)
named-calls cj (b ∷ bs) = elim (Bool-cases (has_type (codes "tool_use") b)) [
  | inr e ↦ rw e (named-calls cj bs)
  | inl e ↦ let (cs, h) = named-calls cj bs in rw (e, h) (_, refl)
]
