-- ===== src/Gateway/Tests.antt =====
-- Requests as bytes, and the witnesses of the gateway's theorems.
use tiniclaw.Base.{
  ℕ, suc, ◌≡◌, ◌⊎◌, inr, refl, true, none, some, [], ◌∷◌, Bytes, codes, c_string, length,
  starts_with,
}
use tiniclaw.Base.Int.{negsuc}
use tiniclaw.Security.Pairing.{PairingGuard}
use tiniclaw.Util.Strings.{tolower, strncasecmp}
use tiniclaw.Gateway.{GwRequest, Gateway}
use tiniclaw.Gateway.Parse.{
  parse_request, with_method, with_path, with_headers, split_at, cut_at, behind, behind_case,
  starts_with_case, before, auth_value, body_of,
}
use tiniclaw.Gateway.Parse.Fields.{Fits, parse_request-Fits}
use tiniclaw.Gateway.Handle.{Json, json_response, bearer_of, or_text, handle_conn}
use tiniclaw.Gateway.Handle.Access.{HasToken, handle_conn-access, webhook_asks}

abbrev guard : PairingGuard
guard = record { pairing_code = codes "004711"; bearer_token = codes "0a0b"; paired = true }

abbrev gateway : Gateway
gateway = record {
  has_agent = true;
  pairing = guard;
  port = 7007;
  server_fd = negsuc 0;
  running = true;
}

abbrev no_json : Json
no_json = record {
  string_member = λ text name. none;
  print_member = λ name value. value;
  print_ready = λ b. [];
}

-- An agent that counts its turns.
abbrev turn : ℕ → Bytes → Bytes × ℕ
turn n msg = (codes "ok", suc n)

abbrev sent : Bytes
sent = codes "OST /webhook?x HTTP/1.1\r\nAuthorization: Bearer 0a0b\r\n\r\nhi"

abbrev parsed : GwRequest
parsed = record {
  method = codes "POST";
  path = codes "/webhook";
  auth = codes "Bearer 0a0b";
  body = some (codes "hi");
}

parses : parse_request (b'P' ∷ sent) ≡ some parsed
unfolding parse_request with_method with_path with_headers split_at cut_at behind behind_case
    starts_with_case before auth_value body_of c_string starts_with tolower
parses = refl

parse_request-Fits_example : Fits parsed
parse_request-Fits_example = parse_request-Fits (b'P' ∷ sent) parsed parses

handle_conn-access_example :
    let s = handle_conn no_json turn gateway 0 (b'P' ∷ sent) in
    (length s.responses ≡ 1)
    × ((s.asked ≡ [])
        ⊎ ((req : GwRequest) × (parse_request (b'P' ∷ sent) ≡ some req)
            × (req.path ≡ codes "/webhook")
            × (req.method ≡ codes "POST")
            × (true ≡ true → HasToken guard req)))
handle_conn-access_example = handle_conn-access no_json turn gateway 0 b'P' sent

has_token : HasToken guard parsed
unfolding bearer_of strncasecmp tolower
has_token = refl

webhook_asks_example :
    let s = handle_conn no_json turn gateway 0 (b'P' ∷ sent) in
    (s.asked ≡ or_text (c_string (codes "hi")) none ∷ [])
    × (s.responses ≡ json_response 200 (codes "ok") ∷ [])
    × (s.agent ≡ 1)
webhook_asks_example =
    webhook_asks no_json turn gateway 0 b'P' sent (codes "hi") parsed parses refl refl refl refl
      (inr (refl, has_token))
