-- ===== src/Gateway/Parse/Fields.antt =====
-- What the parser stores fits its arrays.
use tiniclaw.Base.{
  ℕ, ◌≤◌, ◌<◌, ◌≡◌, Option, none, some, [], ◌∷◌, Bytes, take, length, length-take, c_string, arith,
  leb, ltb, ◌==◌, Bool-cases, inl, inr,
}
use tiniclaw.Gateway.{GwRequest}
use tiniclaw.Gateway.Parse.{
  method_size, path_size, auth_size, body_max, split_at, cut_at, behind, blank_line, before,
  auth_value, body_of, with_headers, with_path, with_method, parse_request,
}

-- Every text leaves room for its NUL, and a body is not empty and below its limit.
abbrev pub BodyFits : Option Bytes → Type 0
BodyFits none = Unit
BodyFits (some b) = (0 < length b) × (length b < body_max)

pub record Fits (req : GwRequest) : Type 0 where
  pub method : length req.method < method_size
  pub path : length req.path < path_size
  pub auth : length req.auth < auth_size
  pub body : BodyFits req.body

length-cut_at : (c : ℕ) (s : Bytes) → length (cut_at c s) ≤ length s
unfolding cut_at
length-cut_at c [] = omega arith
length-cut_at c (x ∷ s) = elim (Bool-cases (x == c)) [
  | inl e ↦ rw e (omega arith)
  | inr e ↦ rw e (omega (arith, length-cut_at c s))
]

auth_value-Fits : (o : Option Bytes) → length (auth_value o) < auth_size
unfolding auth_value
auth_value-Fits none = omega arith
auth_value-Fits (some line) = omega (arith, length-take 511 (before (13 ∷ 10 ∷ []) line))

body_of-Fits : (rest : Bytes) → BodyFits (body_of rest)
unfolding body_of
body_of-Fits rest = elim (Bool-cases (length rest == 0)) [
  | inl e ↦ rw e tt
  | inr e ↦ elim (Bool-cases (ltb (length rest) body_max)) [
    | inl l ↦ rw (e, l) (ground arith, ground arith)
    | inr l ↦ rw (e, l) tt
  ]
]

absurd_answer : {x : GwRequest} → ◌≡◌ {A = Option GwRequest} none (some x) → ⊥
absurd_answer e = cc

some_eq : {x y : GwRequest} → ◌≡◌ {A = Option GwRequest} (some x) (some y) → x ≡ y
some_eq e = cc

with_headers-Fits :
    (buf text method path : Bytes) (o : Option Bytes) (req : GwRequest)
    → length method < method_size
    → with_headers buf text method path o ≡ some req
    → Fits req
unfolding with_headers
with_headers-Fits buf text method path none req small e = absurd (cc)
with_headers-Fits buf text method path (some tail) req small e = rw (← some_eq e) (record {
  method = small;
  path = omega (arith, length-cut_at b'?' (take 255 path), length-take 255 path);
  auth = auth_value-Fits _;
  body = body_of-Fits _;
})

with_path-Fits :
    (buf text method : Bytes) (o : Option (Bytes × Bytes)) (req : GwRequest)
    → length method < method_size
    → with_path buf text method o ≡ some req
    → Fits req
unfolding with_path
with_path-Fits buf text method none req small e = absurd (cc)
with_path-Fits buf text method (some (path, rest)) req small e =
    with_headers-Fits buf text method path (behind blank_line text) req small e

with_method-Fits :
    (buf text : Bytes) (o : Option (Bytes × Bytes)) (req : GwRequest)
    → with_method buf text o ≡ some req
    → Fits req
unfolding with_method
with_method-Fits buf text none req e = absurd (cc)
with_method-Fits buf text (some (method, rest)) req e =
    elim (Bool-cases (leb method_size (length method))) [
      | inl long ↦ absurd (absurd_answer (rw long at e))
      | inr short ↦
          with_path-Fits buf text method (split_at b' ' rest) req (ground arith) (rw short at e)
    ]

-- Whatever bytes arrive, the method, the path and the authorization of a request that parses fit
-- their arrays with a NUL, and its body is not empty and below 1 MB.
pub parse_request-Fits : (buf : Bytes) (req : GwRequest) → parse_request buf ≡ some req → Fits req
unfolding parse_request
parse_request-Fits buf req e =
    with_method-Fits buf (c_string buf) (split_at b' ' (c_string buf)) req e
