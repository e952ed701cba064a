-- ===== src/Gateway/Handle/Access.antt =====
-- Who reaches the agent, and what a connection answers.
use mathlib.Core.Path.{subst}
use tiniclaw.Base.{
  ℕ, ◌≡◌, ◌∙◌, ◌⊎◌, inl, inr, refl, sym, ap, Bool, true, false, ◌&&◌, Option, none, some, [], ◌∷◌,
  Bytes, codes, c_string, length, str_eq, str_eq_iff, if◌then◌else◌, Bool-cases, clash,
}
use tiniclaw.Security.Pairing.{PairingGuard, validate_token}
use tiniclaw.Security.Pairing.Tokens.{validate_token_iff}
use tiniclaw.Gateway.{GwRequest, Gateway}
use tiniclaw.Gateway.Parse.{parse_request}
use tiniclaw.Gateway.Handle.{
  Json, Response, Served, json_response, bearer_of, authed, or_text, replied, serve_pair, ask,
  serve_body, serve_webhook, metrics, route, serve_request, handle_conn,
}

-- The request carries the guard's token, behind the word "Bearer" or bare.
abbrev pub HasToken : PairingGuard → GwRequest → Type 0
HasToken g req = bearer_of req.auth ≡ g.bearer_token

both : (a b : Bool) → (a && b) ≡ true → (a ≡ true) × (b ≡ true)
both true b h = (refl, h)
both false b h = absurd (clash h)

-- What is said of a connection: it asked the agent nothing, or the request was a POST of /webhook
-- with the token; and it sent one response.
record Guarded {A : Type 0} (g : PairingGuard) (req : GwRequest) (s : Served A) : Type 0 where
  one : length s.responses ≡ 1
  access :
      (s.asked ≡ [])
      ⊎ ((req.path ≡ codes "/webhook")
          × (req.method ≡ codes "POST")
          × (g.paired ≡ true → HasToken g req))

module _ {A : Type 0} (json : Json) (turn : A → Bytes → Bytes × A) where
  replied-Guarded :
      (g : PairingGuard) (req : GwRequest) (gw : Gateway) (a : A) (r : Response)
      → Guarded g req (replied json turn gw a r)
  unfolding replied
  replied-Guarded g req gw a r = record { one = refl; access = inl refl }

  authed-HasToken :
      (g : PairingGuard) (req : GwRequest)
      → authed g req.auth ≡ true
      → g.paired ≡ true
      → HasToken g req
  unfolding authed
  authed-HasToken g req ok paired =
      ((validate_token_iff g (bearer_of req.auth)).0 (
        ap (λ (b : Bool). if b then validate_token g (some (bearer_of req.auth)) else true)
          (sym paired)
        ∙ ok)).1

  ask-Guarded :
      (g : PairingGuard) (req : GwRequest) (gw : Gateway) (a : A) (msg : Bytes) (b : Bool)
      → (req.path ≡ codes "/webhook")
        × (req.method ≡ codes "POST")
        × (g.paired ≡ true → HasToken g req)
      → Guarded g req (ask json turn gw a msg b)
  unfolding ask
  ask-Guarded g req gw a msg true h = record { one = refl; access = inr h }
  ask-Guarded g req gw a msg false h = replied-Guarded g req gw a _

  webhook-Guarded :
      (gw : Gateway) (a : A) (req : GwRequest) (ok : Bool) (body : Option Bytes)
      → req.path ≡ codes "/webhook"
      → req.method ≡ codes "POST"
      → authed gw.pairing req.auth ≡ ok
      → req.body ≡ body
      → Guarded gw.pairing req (serve_webhook json turn gw a req ok)
  unfolding serve_webhook serve_body
  webhook-Guarded gw a req false body path method e b = replied-Guarded gw.pairing req gw a _
  webhook-Guarded gw a req true none path method e b =
      subst (λ (o : Option Bytes). Guarded gw.pairing req (serve_body json turn gw a o)) (sym b)
        (replied-Guarded gw.pairing req gw a _)
  webhook-Guarded gw a req true (some text) path method e b =
      subst (λ (o : Option Bytes). Guarded gw.pairing req (serve_body json turn gw a o)) (sym b)
        (ask-Guarded gw.pairing req gw a _ gw.has_agent
          (path, method, authed-HasToken gw.pairing req e))

  route-Guarded :
      (gw : Gateway) (a : A) (req : GwRequest) → Guarded gw.pairing req (route json turn gw a req)
  unfolding route serve_pair
  route-Guarded gw a req = elim (Bool-cases (str_eq req.path (codes "/health"))) [
    | inl e ↦ rw e (replied-Guarded gw.pairing req gw a _)
    | inr n1 ↦ elim (Bool-cases (str_eq req.path (codes "/ready"))) [
      | inl e ↦ rw (n1, e) (replied-Guarded gw.pairing req gw a _)
      | inr n2 ↦
          elim (Bool-cases (str_eq req.path (codes "/pair") && str_eq req.method (codes "POST"))) [
            | inl e ↦ rw (n1, n2, e) (replied-Guarded gw.pairing req _ a _)
            | inr n3 ↦
                elim (Bool-cases
                  (str_eq req.path (codes "/webhook") && str_eq req.method (codes "POST"))) [
                    | inl e ↦
                        let (p, m) =
                          both (str_eq req.path (codes "/webhook"))
                            (str_eq req.method (codes "POST")) e in
                        rw (n1, n2, n3, e)
                          (webhook-Guarded gw a req (authed gw.pairing req.auth) req.body
                            ((str_eq_iff req.path (codes "/webhook")).0 p)
                            ((str_eq_iff req.method (codes "POST")).0 m) refl refl)
                    | inr n4 ↦ elim (Bool-cases (str_eq req.path (codes "/metrics"))) [
                      | inl e ↦ rw (n1, n2, n3, n4, e) (replied-Guarded gw.pairing req gw a _)
                      | inr n5 ↦ rw (n1, n2, n3, n4, n5) (replied-Guarded gw.pairing req gw a _)
                    ]
                  ]
          ]
    ]
  ]

  -- Every connection on which bytes arrive gets exactly one response, and it asks the agent only if
  -- the bytes parse as a POST of /webhook, which carries the bearer token if the guard is paired.
  pub handle_conn-access :
      (gw : Gateway) (a : A) (c : ℕ) (buf : Bytes)
      → let s = handle_conn json turn gw a (c ∷ buf) in
        (length s.responses ≡ 1)
        × ((s.asked ≡ [])
            ⊎ ((req : GwRequest) × (parse_request (c ∷ buf) ≡ some req)
                × (req.path ≡ codes "/webhook")
                × (req.method ≡ codes "POST")
                × (gw.pairing.paired ≡ true → HasToken gw.pairing req)))
  unfolding handle_conn serve_request replied
  handle_conn-access gw a c buf = go (parse_request (c ∷ buf)) refl
    where
      go :
          (o : Option GwRequest)
          → parse_request (c ∷ buf) ≡ o
          → (length (serve_request json turn gw a o).responses ≡ 1)
            × (((serve_request json turn gw a o).asked ≡ [])
                ⊎ ((req : GwRequest) × (parse_request (c ∷ buf) ≡ some req)
                    × (req.path ≡ codes "/webhook")
                    × (req.method ≡ codes "POST")
                    × (gw.pairing.paired ≡ true → HasToken gw.pairing req)))
      go none e = (refl, inl refl)
      go (some req) e =
          let g = route-Guarded gw a req in
          (g.one, elim g.access [ inl n ↦ inl n | inr (p, m, t) ↦ inr (req, e, p, m, t) ])

  allowed-authed :
      (g : PairingGuard) (req : GwRequest)
      → (g.paired ≡ false) ⊎ ((g.paired ≡ true) × HasToken g req)
      → authed g req.auth ≡ true
  unfolding authed
  allowed-authed g req (inl open_) =
      ap (λ (b : Bool). if b then validate_token g (some (bearer_of req.auth)) else true) open_
  allowed-authed g req (inr (paired, token)) =
      ap (λ (b : Bool). if b then validate_token g (some (bearer_of req.auth)) else true) paired
      ∙ (validate_token_iff g (bearer_of req.auth)).1 (paired, token)

  route-webhook :
      (gw : Gateway) (a : A) (req : GwRequest)
      → req.path ≡ codes "/webhook"
      → req.method ≡ codes "POST"
      → route json turn gw a req ≡ serve_webhook json turn gw a req (authed gw.pairing req.auth)
  unfolding route str_eq
  route-webhook gw a req path method =
      let test : Bytes → Bytes → Served A = λ p m.
        if str_eq p (codes "/health")
        then replied json turn gw a (json_response 200 (codes "{\"ok\":true}"))
        else if str_eq p (codes "/ready")
        then replied json turn gw a (json_response 200 (json.print_ready gw.has_agent))
        else if str_eq p (codes "/pair") && str_eq m (codes "POST")
        then serve_pair json turn gw a req.body
        else if str_eq p (codes "/webhook") && str_eq m (codes "POST")
        then serve_webhook json turn gw a req (authed gw.pairing req.auth)
        else if str_eq p (codes "/metrics")
        then replied json turn gw a
            (record { code = 200; content_type = codes "text/plain"; body = metrics json turn })
        else replied json turn gw a (json_response 404 (codes "{\"error\":\"not found\"}")) in
      ap (λ (p : Bytes). test p req.method) path ∙ ap (test (codes "/webhook")) method

  webhook-body :
      (gw : Gateway) (a : A) (text : Bytes) (req : GwRequest)
      → req.body ≡ some text
      → gw.has_agent ≡ true
      → serve_webhook json turn gw a req true
        ≡ ask json turn gw a
            (or_text (c_string text) (json.string_member (c_string text) (codes "message")))
            true
  unfolding serve_webhook serve_body
  webhook-body gw a text req body has =
      ap (serve_body json turn gw a) body
      ∙ ap
          (ask json turn gw a
            (or_text (c_string text) (json.string_member (c_string text) (codes "message"))))
          has

  answer_of :
      (gw : Gateway) (a : A) (msg : Bytes)
      → let s = ask json turn gw a msg true in
        (s.asked ≡ msg ∷ [])
        × (s.responses
            ≡ json_response 200 (json.print_member (codes "response") (turn a msg).0) ∷ [])
        × (s.agent ≡ (turn a msg).1)
  unfolding ask
  answer_of gw a msg = (refl, refl, refl)

  -- A POST of /webhook with a body is given to the agent, if there is one, when the guard is not
  -- paired or the request carries the token: the agent gets the message of the body, or the whole
  -- body, and its answer is the response. So an unpaired gateway serves any client.
  pub webhook_asks :
      (gw : Gateway) (a : A) (c : ℕ) (buf text : Bytes) (req : GwRequest)
      → parse_request (c ∷ buf) ≡ some req
      → req.path ≡ codes "/webhook"
      → req.method ≡ codes "POST"
      → req.body ≡ some text
      → gw.has_agent ≡ true
      → (gw.pairing.paired ≡ false) ⊎ ((gw.pairing.paired ≡ true) × HasToken gw.pairing req)
      → let msg = or_text (c_string text) (json.string_member (c_string text) (codes "message")) in
        let s = handle_conn json turn gw a (c ∷ buf) in
        (s.asked ≡ msg ∷ [])
        × (s.responses
            ≡ json_response 200 (json.print_member (codes "response") (turn a msg).0) ∷ [])
        × (s.agent ≡ (turn a msg).1)
  unfolding handle_conn serve_request
  webhook_asks gw a c buf text req parsed path method body has allowed =
      let served : Served A =
        ask json turn gw a
          (or_text (c_string text) (json.string_member (c_string text) (codes "message"))) true in
      let whole : handle_conn json turn gw a (c ∷ buf) ≡ served =
        ap (serve_request json turn gw a) parsed
        ∙ route-webhook gw a req path method
        ∙ ap (serve_webhook json turn gw a req) (allowed-authed gw.pairing req allowed)
        ∙ webhook-body gw a text req body has in
      rw whole (
        answer_of gw a
          (or_text (c_string text) (json.string_member (c_string text) (codes "message"))))
