-- ===== src/Gateway/Handle.antt =====
-- `handle_conn` of src/gateway.c: from the bytes received to the response and the gateway. A call of
-- the agent is recorded, with the message it gets. cJSON is the parameter `Json`.
pub mod Access
use tiniclaw.Base.{
  ℕ, ◌-◌, Bool, true, false, ◌&&◌, Option, none, some, List, [], ◌∷◌, ◌++◌, Bytes, codes, clip,
  length, ◌==◌, c_string, str_eq, drop, if◌then◌else◌,
}
use tiniclaw.Base.Int.{ℤ, is_zero}
use tiniclaw.Util.Strings.{strncasecmp}
use tiniclaw.Base.Print.{print_u64}
use tiniclaw.Security.Pairing.{PairingGuard, pairing_try, validate_token}
use tiniclaw.Gateway.{GwRequest, Gateway}
use tiniclaw.Gateway.Parse.{parse_request}

-- `string_member`: the string that the object in a text has under a name, if the text parses and it
-- has one. `print_member` prints the object of one string; `print_ready` prints the object of the
-- readiness probe, with or without an agent.
pub record Json : Type 0 where
  pub string_member : Bytes → Bytes → Option Bytes
  pub print_member : Bytes → Bytes → Bytes
  pub print_ready : Bool → Bytes

-- What `gw_send` sends: the code, the content type and the body.
pub record Response : Type 0 where
  pub code : ℕ
  pub content_type : Bytes
  pub body : Bytes

pub status_text : ℕ → Bytes
status_text code =
    if code == 200
    then codes "OK"
    else if code == 201
    then codes "Created"
    else if code == 400
    then codes "Bad Request"
    else if code == 401
    then codes "Unauthorized"
    else if code == 403
    then codes "Forbidden"
    else if code == 404
    then codes "Not Found"
    else if code == 429
    then codes "Too Many Requests"
    else codes "Internal Server Error"

-- The bytes on the wire: the head, of at most 511 bytes, and the body.
unfoldable pub response_bytes : Response → Bytes
response_bytes r =
    clip 512 (
      codes "HTTP/1.1 "
      ++ print_u64 r.code
      ++ codes " "
      ++ status_text r.code
      ++ codes "\r\n"
      ++ codes "Content-Type: "
      ++ r.content_type
      ++ codes "\r\n"
      ++ codes "Content-Length: "
      ++ print_u64 (length r.body)
      ++ codes "\r\n"
      ++ codes "Connection: close\r\n\r\n")
    ++ r.body

pub json_response : ℕ → Bytes → Response
json_response code body = record {
  code = code;
  content_type = codes "application/json";
  body = body;
}

-- What a connection does: the responses sent, the messages that the agent was given, the gateway and
-- the agent's state behind it.
pub record Served (A : Type 0) : Type 0 where
  pub responses : List Response
  pub asked : List Bytes
  pub gateway : Gateway
  pub agent : A

-- `strncasecmp(bearer, "Bearer ", 7) == 0` skips the word.
unfoldable pub bearer_of : Bytes → Bytes
bearer_of auth = if is_zero (strncasecmp auth (codes "Bearer ") 7) then drop 7 auth else auth

unfoldable pub authed : PairingGuard → Bytes → Bool
authed g auth = if g.paired then validate_token g (some (bearer_of auth)) else true

pub or_text : Bytes → Option Bytes → Bytes
or_text d none = d
or_text d (some s) = s

pub otp_of : Json → Option Bytes → Option Bytes
otp_of json none = none
otp_of json (some text) = json.string_member (c_string text) (codes "otp")

module _ {A : Type 0} (json : Json) (turn : A → Bytes → Bytes × A) where
  pub replied : Gateway → A → Response → Served A
  replied gw a r = record { responses = r ∷ []; asked = []; gateway = gw; agent = a }

  pub serve_pair : Gateway → A → Option Bytes → Served A
  serve_pair gw a body =
      let (paired, g) = pairing_try gw.pairing (some (or_text [] (otp_of json body))) in
      replied (record gw { pairing = g }) a
        (if paired
          then json_response 200 (json.print_member (codes "token") g.bearer_token)
          else json_response 403 (codes "{\"error\":\"invalid OTP\"}"))

  pub ask : Gateway → A → Bytes → Bool → Served A
  ask gw a msg true =
      let (answer, a') = turn a msg in
      record {
        responses = json_response 200 (json.print_member (codes "response") answer) ∷ [];
        asked = msg ∷ [];
        gateway = gw;
        agent = a';
      }
  ask gw a msg false =
      replied gw a
        (json_response 200 (json.print_member (codes "response") (codes "(no agent configured)")))

  pub serve_body : Gateway → A → Option Bytes → Served A
  serve_body gw a none = replied gw a (json_response 400 (codes "{\"error\":\"empty body\"}"))
  serve_body gw a (some body) =
      let text = c_string body in
      ask gw a (or_text text (json.string_member text (codes "message"))) gw.has_agent

  pub serve_webhook : Gateway → A → GwRequest → Bool → Served A
  serve_webhook gw a req true = serve_body gw a req.body
  serve_webhook gw a req false =
      replied gw a (json_response 401 (codes "{\"error\":\"unauthorized\"}"))

  abbrev pub metrics : Bytes
  metrics = codes "# HELP tiniclaw_up Gateway liveness\n" ++ codes "tiniclaw_up 1\n"

  -- The route; the path `/pair` or `/webhook` with another method is not found.
  unfoldable pub route : Gateway → A → GwRequest → Served A
  route gw a req =
      if str_eq req.path (codes "/health")
      then replied gw a (json_response 200 (codes "{\"ok\":true}"))
      else if str_eq req.path (codes "/ready")
      then replied gw a (json_response 200 (json.print_ready gw.has_agent))
      else if str_eq req.path (codes "/pair") && str_eq req.method (codes "POST")
      then serve_pair gw a req.body
      else if str_eq req.path (codes "/webhook") && str_eq req.method (codes "POST")
      then serve_webhook gw a req (authed gw.pairing req.auth)
      else if str_eq req.path (codes "/metrics")
      then replied gw a (record { code = 200; content_type = codes "text/plain"; body = metrics })
      else replied gw a (json_response 404 (codes "{\"error\":\"not found\"}"))

  pub serve_request : Gateway → A → Option GwRequest → Served A
  serve_request gw a none = replied gw a (json_response 400 (codes "{\"error\":\"bad request\"}"))
  serve_request gw a (some req) = route gw a req

  -- What `recv` gave; nothing, if it failed or the connection was closed.
  unfoldable pub handle_conn : Gateway → A → Bytes → Served A
  handle_conn gw a [] = record { responses = []; asked = []; gateway = gw; agent = a }
  handle_conn gw a (c ∷ buf) = serve_request gw a (parse_request (c ∷ buf))
