-- ===== src/Tools/Http.antt =====
-- The request tool of src/tools/http_request.c. libcurl and the printer of cJSON are parameters.
pub mod Guarded
use tiniclaw.Base.{
  ℕ, ◌+◌, ◌*◌, Bool, true, false, Option, none, some, List, [], ◌∷◌, ◌++◌, Bytes, codes, clip,
  c_string, length, str_eq, ltb, if◌then◌else◌,
}
use tiniclaw.Base.Print.{print_u64}
use tiniclaw.Json.{
  Tree, Object, null, boolean, number, text, array_node, object_node, members, get_in, as_text,
  as_members, or_else,
}
use tiniclaw.Agent.{ToolResult}
use tiniclaw.Security.Policy.{url_is_http_insecure}
use tiniclaw.Tools.File.{result_ok, result_err}
use tiniclaw.Memory.Toolset.{arg}

-- `HTTP_RESP_CAP`
abbrev pub http_resp_cap : ℕ
http_resp_cap = 1024 * 1024

-- What is set up for one `curl_easy_perform`. With `follow_location` libcurl follows the redirects of
-- the replies by itself, with further requests, to the URLs that the replies name.
pub record HttpRequest : Type 0 where
  pub url : Bytes
  pub follow_location : Bool
  pub timeout_secs : ℕ
  pub method : Bytes
  pub headers : List Bytes
  pub body : Option Bytes

-- How a transfer ends, with its redirects: with the text of its error, or with the status and the pieces that came in.
pub data Transfer : Type 0 where
  broken : Bytes → Transfer
  replied : ℕ → List Bytes → Transfer

-- libcurl: `none` where `curl_easy_init` fails.
abbrev pub Client : Type 0
Client = HttpRequest → Option Transfer

-- `write_cb`: a piece is kept while less than the cap is there.
unfoldable pub collect : ℕ → List Bytes → Bytes → Bytes
collect limit [] kept = kept
collect limit (chunk ∷ chunks) kept =
    collect limit chunks (if ltb (length kept) limit then kept ++ chunk else kept)

unfoldable pub content_type : Option Object → List Bytes
content_type none = []
content_type (some ms) = codes "Content-Type: application/json" ∷ []

unfoldable pub header_of : Bytes → Option Bytes → List Bytes
header_of name none = []
header_of name (some value) = clip 1024 (name ++ (codes ": " ++ value)) ∷ []

unfoldable pub user_headers : Option Object → List Bytes
unfolding header_of as_text
user_headers none = []
user_headers (some []) = []
user_headers (some ((name, v) ∷ ms)) = header_of name (as_text (some v)) ++ user_headers (some ms)

-- A string is sent as it is, and any other tree printed.
unfoldable pub body_text : (Tree → Bytes) → Tree → Bytes
body_text print (text s) = s
body_text print null = print null
body_text print (boolean b) = print (boolean b)
body_text print (number w n) = print (number w n)
body_text print (array_node vs) = print (array_node vs)
body_text print (object_node ms) = print (object_node ms)

-- A GET with a body becomes a POST.
unfoldable pub method_of : Bytes → Option Tree → Bytes
method_of method none = method
method_of method (some body) = if str_eq method (codes "GET") then codes "POST" else method

unfoldable pub sent_body : (Tree → Bytes) → Option Tree → Option Bytes
unfolding body_text
sent_body print none = none
sent_body print (some body) = some (body_text print body)

unfoldable pub show_transfer : Option Transfer → ToolResult
unfolding result_ok result_err collect
show_transfer none = result_err (codes "curl init failed")
show_transfer (some (broken error)) = result_err error
show_transfer (some (replied code chunks)) = result_ok (
    codes "HTTP " ++ (print_u64 code ++ (codes "\n" ++ c_string (collect http_resp_cap chunks []))))

unfoldable pub request_for : (Tree → Bytes) → Option Tree → Bytes → HttpRequest
unfolding arg get_in or_else as_members method_of content_type user_headers sent_body
request_for print args url = record {
  url = url;
  follow_location = true;
  timeout_secs = 30;
  method =
      method_of (or_else (codes "GET") (arg args (codes "method"))) (get_in args (codes "body"));
  headers =
      content_type (as_members (get_in args (codes "body")))
      ++ user_headers (as_members (get_in args (codes "headers")));
  body = sent_body print (get_in args (codes "body"));
}

-- The result, with the transfers that were set up.
unfoldable pub http_for :
    (Tree → Bytes) → Client → Option Tree → Option Bytes → ToolResult × List HttpRequest
unfolding result_err url_is_http_insecure show_transfer request_for
http_for print client args none = (result_err (codes "missing 'url'"), [])
http_for print client args (some url) =
    let r = request_for print args url in
    if url_is_http_insecure (some url)
    then (result_err (codes "HTTP (non-HTTPS) URLs are blocked"), [])
    else (show_transfer (client r), r ∷ [])

unfoldable pub http_execute : (Tree → Bytes) → Client → Option Tree → ToolResult × List HttpRequest
unfolding http_for arg
http_execute print client args = http_for print client args (arg args (codes "url"))
