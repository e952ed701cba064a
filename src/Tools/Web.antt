-- ===== src/Tools/Web.antt =====
-- The tools of src/tools/misc_tools.c. libcurl, its escaping and its error texts, `system` and the
-- parser of cJSON are parameters; the command lines that reach `system` are part of the results.
pub mod Fetched
use tiniclaw.Base.{
  ℕ, zero, suc, ◌+◌, ◌*◌, Bool, true, false, Option, none, some, List, [], ◌∷◌, ◌++◌, Bytes, codes,
  clip, c_string, length, set, starts_with, ltb, ◌==◌, if◌then◌else◌,
}
use tiniclaw.Json.{Tree, get_item, get_in, as_text, as_items, or_else}
use tiniclaw.Agent.{ToolResult}
use tiniclaw.Tools.File.{result_ok, result_err}
use tiniclaw.Tools.Http.{HttpRequest, Transfer, broken, replied, Client}
use tiniclaw.Tools.Git.{joined}
use tiniclaw.Memory.Toolset.{arg}

-- `system`: the status of a command line.
unfoldable pub opened : (Bytes → ℕ) → Option Bytes → ToolResult × List Bytes
unfolding result_ok result_err
opened system none = (result_err (codes "missing 'url'"), [])
opened system (some url) =
    let cmd : Bytes = clip 4096 (codes "open '" ++ (url ++ codes "' 2>&1")) in
    if system cmd == 0
    then (result_ok (clip 256 (codes "Opened " ++ url)), cmd ∷ [])
    else (result_err (codes "Failed to open URL"), cmd ∷ [])

unfoldable pub browser_open_execute : (Bytes → ℕ) → Option Tree → ToolResult × List Bytes
unfolding opened arg
browser_open_execute system args = opened system (arg args (codes "url"))

unfoldable pub spawned : Option Bytes → ToolResult × List Bytes
unfolding result_ok result_err
spawned none = (result_err (codes "missing 'command'"), [])
spawned (some cmd) =
    (result_ok (clip 256 (codes "Spawned: " ++ cmd)), clip 4096 (cmd ++ codes " &") ∷ [])

-- The status is not looked at.
unfoldable pub spawn_execute : Option Tree → ToolResult × List Bytes
unfolding spawned arg
spawn_execute args = spawned (arg args (codes "command"))

-- A tool that only answers with a text.
unfoldable pub answers : Bytes → Bytes → Option Bytes → ToolResult
unfolding result_ok result_err
answers missing prefix none = result_err missing
answers missing prefix (some s) = result_ok (clip 512 (prefix ++ s))

unfoldable pub image_execute : Option Tree → ToolResult
unfolding answers arg
image_execute args =
    answers (codes "missing 'prompt'")
      (codes "Image generation requires an OpenAI API key configured as 'image_api_key'. Prompt: ")
      (arg args (codes "prompt"))

unfoldable pub delegate_execute : Option Tree → ToolResult
unfolding answers arg
delegate_execute args =
    answers (codes "missing 'task'") (codes "[delegate] Task queued for sub-agent: ")
      (arg args (codes "task"))

unfoldable pub cron_added : Option Bytes → Option Bytes → Option Bytes → ToolResult
unfolding result_ok result_err
cron_added none sched task = result_err (codes "missing 'name'")
cron_added (some name) none task = result_err (codes "missing 'schedule'")
cron_added (some name) (some sched) none = result_err (codes "missing 'task'")
cron_added (some name) (some sched) (some task) = result_ok (
    clip 512 (
      codes "Cron job '"
      ++ (name ++ (codes "' scheduled at '" ++ (sched ++ (codes "': " ++ task))))))

-- No job is added anywhere.
unfoldable pub cron_add_execute : Option Tree → ToolResult
unfolding cron_added arg
cron_add_execute args =
    cron_added (arg args (codes "name")) (arg args (codes "schedule")) (arg args (codes "task"))

unfoldable pub cron_list_execute : Option Tree → ToolResult
unfolding result_ok
cron_list_execute args = result_ok (codes "(cron list: no jobs scheduled in this session)")

-- `WEB_FETCH_CAP`
abbrev pub web_fetch_cap : ℕ
web_fetch_cap = 512 * 1024

-- `resp.data[WEB_FETCH_CAP] = '\0'`, and the mark behind what came in.
unfoldable pub truncated : ℕ → Bytes → Bytes
truncated limit page =
    if ltb limit (length page) then set page limit 0 ++ codes "\n...[truncated]" else page

unfoldable pub fetched : Option Transfer → ToolResult
unfolding result_ok result_err joined truncated
fetched none = result_err (codes "curl init failed")
fetched (some (broken error)) = result_err error
fetched (some (replied code chunks)) =
    result_ok (c_string (truncated web_fetch_cap (joined chunks)))

-- A page's redirects are followed, and a search's are not.
abbrev pub get_request : Bool → ℕ → Bytes → HttpRequest
get_request follow_location timeout_secs url = record {
  url = url;
  follow_location = follow_location;
  timeout_secs = timeout_secs;
  method = codes "GET";
  headers = [];
  body = none;
}

unfoldable pub fetch : Client → Option Bytes → ToolResult × List HttpRequest
unfolding fetched result_err starts_with
fetch client none = (result_err (codes "missing 'url'"), [])
fetch client (some url) =
    if starts_with (codes "http://") url
    then (result_err (codes "HTTP (non-HTTPS) blocked"), [])
    else (let r : HttpRequest = get_request true 30 url in (fetched (client r), r ∷ []))

unfoldable pub web_fetch_execute : Client → Option Tree → ToolResult × List HttpRequest
unfolding fetch arg
web_fetch_execute client args = fetch client (arg args (codes "url"))

-- The search: a summary, and the texts of at most five topics.
unfoldable pub summary_of : Option Bytes → Bytes
summary_of none = []
summary_of (some []) = []
summary_of (some (c ∷ s)) = codes "Summary: " ++ ((c ∷ s) ++ codes "\n\n")

unfoldable pub topic_line : Option Bytes → Option Bytes
topic_line none = none
topic_line (some []) = none
topic_line (some (c ∷ s)) = some (codes "- " ++ ((c ∷ s) ++ codes "\n"))

unfoldable pub topics : ℕ → List Tree → Bytes
unfolding topic_line as_text get_item
topics zero ts = []
topics (suc room) [] = []
topics (suc room) (t ∷ ts) = elim (topic_line (as_text (get_item t (codes "Text")))) [
  | none ↦ topics (suc room) ts
  | some line ↦ line ++ topics room ts
]

unfoldable pub search_text : Option Tree → Bytes
unfolding summary_of topics as_text as_items get_in or_else
search_text json =
    summary_of (as_text (get_in json (codes "AbstractText")))
    ++ topics 5 (or_else [] (as_items (get_in json (codes "RelatedTopics"))))

unfoldable pub or_no_results : Bytes → Bytes → Bytes
or_no_results query [] = codes "No results for: " ++ query
or_no_results query (c ∷ s) = c ∷ s

unfoldable pub searched : (Bytes → Option Tree) → Bytes → Option Transfer → ToolResult
unfolding result_ok result_err joined search_text or_no_results
searched parse query none = result_err (codes "curl init failed")
searched parse query (some (broken error)) = result_err error
searched parse query (some (replied code chunks)) =
    result_ok (or_no_results query (search_text (parse (c_string (joined chunks)))))

unfoldable pub search_url : (Bytes → Bytes) → Bytes → Bytes
search_url escape query = clip 2048 (
    codes "https://api.duckduckgo.com/?q="
    ++ (escape query ++ codes "&format=json&no_html=1&skip_disambig=1"))

unfoldable pub search_with :
    (Bytes → Bytes) → (Bytes → Option Tree) → Client → Option Bytes → ToolResult × List HttpRequest
unfolding searched search_url result_err
search_with escape parse client none = (result_err (codes "missing 'query'"), [])
search_with escape parse client (some query) =
    let r : HttpRequest = get_request false 15 (search_url escape query) in
    (searched parse query (client r), r ∷ [])

unfoldable pub web_search_execute :
    (Bytes → Bytes) → (Bytes → Option Tree) → Client → Option Tree → ToolResult × List HttpRequest
unfolding search_with arg
web_search_execute escape parse client args =
    search_with escape parse client (arg args (codes "query"))
