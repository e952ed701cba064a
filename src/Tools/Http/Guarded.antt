-- ===== src/Tools/Http/Guarded.antt =====
-- Which transfers the request tool sets up, and how much of a reply it keeps.
use tiniclaw.Base.{
  ℕ, ◌+◌, ◌≤◌, ◌≡◌, refl, ap, ◌∙◌, true, false, Option, none, some, List, [], ◌∷◌, ◌++◌, Bytes,
  codes, length, length-append, starts_with, str_eq, ltb, if_true, if_false, All, Bool-cases,
  Option-cases, ◌⊎◌, inl, inr, arith,
}
use tiniclaw.Json.{Tree, get_in, or_else}
use tiniclaw.Agent.{ToolResult}
use tiniclaw.Security.Policy.{url_is_http_insecure}
use tiniclaw.Tools.File.{result_err}
use tiniclaw.Memory.Toolset.{arg}
use tiniclaw.Tools.Http.{
  HttpRequest, Client, collect, method_of, sent_body, request_for, http_for, http_execute,
}

-- The pieces of a reply are at most `m` bytes long each. Then what is kept of it is less than the cap
-- and one more piece.
pub collect_bounds :
    (limit m : ℕ) (chunks : List Bytes) (kept : Bytes)
    → All (λ c. length c ≤ m) chunks
    → length kept ≤ limit + m
    → length (collect limit chunks kept) ≤ limit + m
unfolding collect
collect_bounds limit m [] kept h hk = hk
collect_bounds limit m (c ∷ chunks) kept (hc, h) hk = elim (Bool-cases (ltb (length kept) limit)) [
  | inl room ↦
      rw room (collect_bounds limit m chunks (kept ++ c) h (ground (arith, length-append kept c)))
  | inr full ↦ rw full (collect_bounds limit m chunks kept h hk)
]

-- The prefix that is refused.
abbrev pub IsPlain : Bytes → Type 0
IsPlain url = starts_with (codes "http://") url ≡ true

method_body :
    (print : Tree → Bytes) (method : Bytes) (body : Option Tree)
    → (sent_body print body ≡ none) ⊎ (str_eq (method_of method body) (codes "GET") ≡ false)
unfolding sent_body method_of str_eq
method_body print method none = inl refl
method_body print method (some body) = elim (Bool-cases (str_eq method (codes "GET"))) [
  | inl e ↦ inr (ap (λ (m : Bytes). str_eq m (codes "GET")) (if_true _ (codes "POST") method e))
  | inr e ↦
      inr (ap (λ (m : Bytes). str_eq m (codes "GET")) (if_false _ (codes "POST") method e) ∙ e)
]

-- Any call fails without a transfer, or sets up one, whose first URL is the argument's and does not begin
-- with `http://`, which has a body only with another method than GET, and for which libcurl is told to
-- follow the redirects of the replies.
pub http_execute-guarded :
    (print : Tree → Bytes) (client : Client) (args : Option Tree)
    → (((http_execute print client args).0.success ≡ false)
        × ((http_execute print client args).1 ≡ []))
      ⊎ ((r : HttpRequest) × ((http_execute print client args).1 ≡ r ∷ [])
          × (arg args (codes "url") ≡ some r.url)
          × (starts_with (codes "http://") r.url ≡ false)
          × (r.follow_location ≡ true)
          × ((r.body ≡ none) ⊎ (str_eq r.method (codes "GET") ≡ false)))
unfolding http_execute http_for url_is_http_insecure result_err
http_execute-guarded print client args = elim (Option-cases (arg args (codes "url"))) [
  | inl missing ↦ inl (
    ap (λ (o : Option Bytes). (http_for print client args o).0.success) missing,
    ap (λ (o : Option Bytes). (http_for print client args o).1) missing,
  )
  | inr (url, has_url) ↦ elim (Bool-cases (starts_with (codes "http://") url)) [
    | inl plain ↦ inl (
      ap (λ (o : Option Bytes). (http_for print client args o).0.success) has_url
          ∙ ap (λ (r : ToolResult × List HttpRequest). r.0.success) (if_true _ _ _ plain),
      ap (λ (o : Option Bytes). (http_for print client args o).1) has_url
          ∙ ap (λ (r : ToolResult × List HttpRequest). r.1) (if_true _ _ _ plain),
    )
    | inr tls ↦ inr (
      request_for print args url,
      ap (λ (o : Option Bytes). (http_for print client args o).1) has_url
          ∙ ap (λ (r : ToolResult × List HttpRequest). r.1) (if_false _ _ _ tls),
      has_url,
      tls,
      refl,
      method_body print (or_else (codes "GET") (arg args (codes "method")))
          (get_in args (codes "body")),
    )
  ]
]
