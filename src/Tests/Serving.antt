-- ===== src/Tests/Serving.antt =====
-- Runs of the MCP server and of the LLM proxy at concrete requests.
use homeassistant_local_voic.Base.{◌≡◌, refl, false, none, some, [], ◌∷◌}
use homeassistant_local_voic.Base.Text.{Text, codes, text_eq, strip_prefix}
use homeassistant_local_voic.Base.Result.{ok}
use homeassistant_local_voic.Json
use homeassistant_local_voic.Json.{Value, IsEncodable}
use homeassistant_local_voic.Search.{Matchers}
use homeassistant_local_voic.Mcp
use homeassistant_local_voic.Mcp.{Tools}
use homeassistant_local_voic.Mcp.Replies.{Handled, handle-Handled}
use homeassistant_local_voic.Server.{mcp}
use homeassistant_local_voic.Server.Batches.{Answers, body_ids, mcp-Answers}
use homeassistant_local_voic.Llm.Proxy.{
  LlmProxy, Request, Sent, Answer, answered, forward, backend_path,
}
use homeassistant_local_voic.Llm.Proxy.Guard.{Guarded, forward-Guarded}
use homeassistant_local_voic.Tests.Speaking.Codec.{codec}

abbrev matchers : Matchers
matchers = record {
  is_recent = λ query. false;
  years_in = λ query. [];
  replace_years = λ query year. query;
  host_of = λ url. none;
}

abbrev tools : Tools
tools = record {
  backend =
      some
        (λ query count. ok (record { answers = codes "Rain." ∷ []; infobox = none; results = [] }));
  matchers = matchers;
  web_search_definition = Json.null;
  version = codes "0.1.0";
  year = 2026;
  today = codes "2026-01-01";
}

abbrev search_call : Value
search_call = Json.obj (
    Json.field (codes "id") (Json.num 7) (
      Json.field (codes "method") (Json.str (codes "tools/call")) (
        Json.field (codes "params")
          (Json.obj (
            Json.field (codes "arguments")
              (Json.obj (Json.field (codes "query") (Json.str (codes "weather")) Json.end))
              (Json.field (codes "name") (Json.str (codes "web_search")) Json.end)))
          Json.end)))

abbrev notification : Value
notification =
    Json.obj (Json.field (codes "method") (Json.str (codes "notifications/initialized")) Json.end)

handle-Handled_example : Handled tools search_call (Mcp.handle tools search_call)
handle-Handled_example = handle-Handled tools search_call

abbrev batch : Value
batch = Json.arr (Json.cons notification (Json.cons search_call Json.nil))

batch_ids : body_ids batch ≡ Json.num 7 ∷ []
unfolding Json.get_field text_eq
batch_ids = refl

batch-IsEncodable : IsEncodable batch
unfolding Json.encodable Json.is_map Json.is_string
batch-IsEncodable = refl

mcp-Answers_example :
    Answers batch (mcp tools codec (codes "s1") (codes "POST") (codec.to_vec batch)).0
mcp-Answers_example =
    mcp-Answers tools codec (codes "s1") (codec.to_vec batch) batch
      (codec.from_slice_to_vec batch batch-IsEncodable)

abbrev proxy : LlmProxy
proxy = record { backend = codes "http://127.0.0.1:8081"; api_key = some (codes "secret") }

abbrev llama : Sent → Answer
llama sent = answered 200 ((codes "connection", codes "close") ∷ []) (codes "[]")

abbrev request : Text → Request
request key = record {
  method = codes "GET";
  path = codes "/llm/v1/models";
  query = none;
  headers =
      (codes "host", codes "hub")
      ∷ (codes "authorization", key)
      ∷ (codes "accept", codes "*/*")
      ∷ [];
  body = [];
}

model_path : backend_path (request []) ≡ codes "/v1/models"
unfolding backend_path strip_prefix
model_path = refl

forward-Guarded_example :
    Guarded proxy llama
      (request (codes "Bearer secret"))
      (forward proxy llama (request (codes "Bearer secret")))
forward-Guarded_example = forward-Guarded proxy llama (request (codes "Bearer secret"))
