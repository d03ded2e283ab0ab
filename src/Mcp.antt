-- ===== src/Mcp.antt =====
-- src/mcp.rs: the MCP tools. A search that the hub makes is noted with what it asks for.
pub mod Replies
use homeassistant_local_voic.Base.{
  ℕ, min, max, Bool, true, false, Option, none, some, List, [], ◌∷◌, ◌++◌, not, if◌then◌else◌,
}
use homeassistant_local_voic.Base.Text.{Text, codes, text_eq, text_mem, trim, is_empty}
use homeassistant_local_voic.Base.Result.{Result, ok, err}
use homeassistant_local_voic.Json
use homeassistant_local_voic.Json.{Value, Fields, at, get, as_str, as_u64, is_null, of_list}
use homeassistant_local_voic.Search.{Matchers, Results, with_year, format_results}

abbrev pub protocol_versions : List Text
protocol_versions = codes "2025-06-18" ∷ codes "2025-03-26" ∷ codes "2024-11-05" ∷ []

-- `backend` answers a query and a count; `none`: web search is off. The definition of the tool is its
-- fixed text, and the year and the date are the clock's.
pub record Tools : Type 0 where
  pub backend : Option (Text → ℕ → Result Results)
  pub matchers : Matchers
  pub web_search_definition : Value
  pub version : Text
  pub year : ℕ
  pub today : Text

-- A search: the query and the number of results.
abbrev pub Asked : Type 0
Asked = List (Text × ℕ)

abbrev pub text_content : Text → Value
text_content text = Json.arr (
    Json.cons
      (Json.obj (
        Json.field (codes "type") (Json.str (codes "text"))
          (Json.field (codes "text") (Json.str text) Json.end)))
      Json.nil)

abbrev pub tool_error : Text → Value
tool_error text = Json.obj (
    Json.field (codes "isError") (Json.bool true)
      (Json.field (codes "content") (text_content text) Json.end))

abbrev tool_list : Tools → List Value
tool_list t = elim t.backend [ none ↦ [] | some backend ↦ t.web_search_definition ∷ [] ]

abbrev pub count_of : Option ℕ → ℕ
count_of none = 3
count_of (some n) = min (max n 1) 5

abbrev pub text_or : Value → Text
text_or v = elim (as_str v) [ none ↦ [] | some t ↦ t ]

abbrev search_answer : Tools → ℕ → Result Results → Value
unfolding format_results
search_answer t count (ok results) = Json.obj (
    Json.field (codes "content") (text_content (format_results t.matchers results count t.today))
      Json.end)
search_answer t count (err e) = tool_error (codes "Search failed: " ++ e)

abbrev pub web_search : Tools → (Text → ℕ → Result Results) → Value → Value × Asked
unfolding search_answer trim with_year
web_search t search args =
    let query = trim (text_or (at args (codes "query"))) in
    let count = count_of (as_u64 (at args (codes "max_results"))) in
    let sent = with_year t.matchers query t.year in
    if is_empty query
    then (tool_error (codes "query is empty"), [])
    else (search_answer t count (search sent count), (sent, count) ∷ [])

abbrev pub unknown_tool : Text → Value × Asked
unknown_tool name = (tool_error (codes "Unknown tool " ++ name), [])

abbrev pub call_with : Tools → Text → Value → Option (Text → ℕ → Result Results) → Value × Asked
call_with t name args none = unknown_tool name
call_with t name args (some backend) =
    if text_eq name (codes "web_search") then web_search t backend args else unknown_tool name

unfoldable pub call_tool : Tools → Text → Value → Value × Asked
unfolding web_search text_eq
call_tool t name args = call_with t name args t.backend

abbrev chosen_version : Text → Text
unfolding text_eq
chosen_version asked = if text_mem asked protocol_versions then asked else codes "2025-06-18"

abbrev initialized : Tools → Value → Value
unfolding chosen_version
initialized t params = Json.obj (
    Json.field (codes "protocolVersion")
      (Json.str (chosen_version (text_or (at params (codes "protocolVersion")))))
      (Json.field (codes "capabilities")
        (Json.obj (
          Json.field (codes "tools")
            (Json.obj (Json.field (codes "listChanged") (Json.bool false) Json.end)) Json.end))
        (Json.field (codes "serverInfo")
          (Json.obj (
            Json.field (codes "name") (Json.str (codes "assistant-hub"))
              (Json.field (codes "version") (Json.str t.version) Json.end)))
          Json.end)))

abbrev framed : Value → Text → Value → Value
framed id key v = Json.obj (
    Json.field (codes "jsonrpc") (Json.str (codes "2.0"))
      (Json.field (codes "id") id (Json.field key v Json.end)))

abbrev pub succeeded : Value → Value → Value
succeeded id result = framed id (codes "result") result

abbrev pub not_found : Value → Text → Value
not_found id method = framed id (codes "error") (
    Json.obj (
      Json.field (codes "code") (Json.neg 32600)
        (Json.field (codes "message") (Json.str (codes "Method not found: " ++ method)) Json.end)))

-- The answer to a request, with the searches that it made.
unfoldable pub answer : Tools → Text → Value → Value → Value × Asked
unfolding call_tool initialized text_eq
answer t method id params =
    if text_eq method (codes "initialize")
    then (succeeded id (initialized t params), [])
    else if text_eq method (codes "ping")
    then (succeeded id (Json.obj Json.end), [])
    else if text_eq method (codes "tools/list")
    then (
      succeeded id
          (Json.obj (Json.field (codes "tools") (Json.arr (of_list (tool_list t))) Json.end)),
      [],
    )
    else if text_eq method (codes "tools/call")
    then (let (result, asked) =
          call_tool t (text_or (at params (codes "name"))) (at params (codes "arguments")) in
        (succeeded id result, asked))
    else (not_found id method, [])

-- The ID of a request; null is none.
abbrev pub id_of : Value → Option Value
id_of msg = elim (get msg (codes "id")) [
  | none ↦ none
  | some id ↦ if is_null id then none else some id
]

unfoldable pub handle : Tools → Value → Option (Value × Asked)
unfolding answer
handle t msg = elim (as_str (at msg (codes "method"))) [
  | none ↦ none
  | some method ↦ elim (id_of msg) [
    | none ↦ none
    | some id ↦ some (answer t method id (at msg (codes "params")))
  ]
]
