-- ===== src/Server.antt =====
-- src/server.rs: the handlers of the main port. What the parts answer is given to them; headers that axum
-- adds by itself are left out.
pub mod Batches
use homeassistant_local_voic.Base.{
  ℕ, ltb, min, max, Bool, true, false, Option, none, some, List, [], ◌∷◌, ◌++◌, ◌==◌, ◌&&◌, not,
  is_some, if◌then◌else◌,
}
use homeassistant_local_voic.Base.Text.{Text, codes, text_eq, is_empty, trim}
use homeassistant_local_voic.Base.Result.{Result, ok, err}
use homeassistant_local_voic.Json
use homeassistant_local_voic.Json.{Value, Items, Fields, Serde, at, as_str, of_list, to_list}
use homeassistant_local_voic.Mcp
use homeassistant_local_voic.Mcp.{Tools, Asked}
use homeassistant_local_voic.Llm.Proxy.{LlmHealth, name_of}
use homeassistant_local_voic.Media.Sync

pub record Reply : Type 0 where
  pub status : ℕ
  pub headers : List (Text × Text)
  pub body : Option Value

abbrev pub plain : ℕ → Reply
plain status = record { status = status; headers = []; body = none }

abbrev pub json_reply : ℕ → Value → Reply
json_reply status v = record { status = status; headers = []; body = some v }

abbrev pub json_error : ℕ → Text → Text → Reply
json_error status error message = json_reply status (
    Json.obj (
      Json.field (codes "error") (Json.str error)
        (Json.field (codes "message") (Json.str message) Json.end)))

-- The replies to the messages that get one, in their order, and all searches.
abbrev pub with_reply : Option (Value × Asked) → List Value × Asked → List Value × Asked
with_reply none rest = rest
with_reply (some (r, asked)) (replies, more) = (r ∷ replies, asked ++ more)

unfoldable pub handle_each : Tools → List Value → List Value × Asked
handle_each t [] = ([], [])
handle_each t (m ∷ ms) = with_reply (Mcp.handle t m) (handle_each t ms)

abbrev pub is_array : Value → Bool
is_array (Json.arr xs) = true
is_array _ = false

abbrev pub messages_of : Value → List Value
messages_of (Json.arr xs) = to_list xs
messages_of v = v ∷ []

abbrev parse_error : Value
parse_error = Json.obj (
    Json.field (codes "jsonrpc") (Json.str (codes "2.0")) (
      Json.field (codes "id") Json.null (
        Json.field (codes "error")
          (Json.obj (
            Json.field (codes "code") (Json.neg 32699)
              (Json.field (codes "message") (Json.str (codes "Parse error")) Json.end)))
          Json.end)))

abbrev is_initialize : Value → Bool
unfolding text_eq
is_initialize message = elim (as_str (at message (codes "method"))) [
  | none ↦ false
  | some m ↦ text_eq m (codes "initialize")
]

-- `session` is a new UUID.
abbrev pub session_headers : Value → Text → List (Text × Text)
unfolding is_initialize
session_headers message session =
    if not (is_array message) && is_initialize message
    then (codes "Mcp-Session-Id", session) ∷ []
    else []

abbrev pub batch_body : Value → Value → List Value → Value
batch_body message first replies = if is_array message then Json.arr (of_list replies) else first

abbrev pub posted : Text → Value → List Value → Reply
unfolding session_headers
posted session message [] = record (plain 202) { headers = session_headers message session }
posted session message (r ∷ rs) = record (json_reply 200 (batch_body message r (r ∷ rs))) {
  headers = session_headers message session;
}

abbrev pub post_message : Tools → Text → Option Value → Reply × Asked
unfolding handle_each posted
post_message t session none = (json_reply 400 parse_error, [])
post_message t session (some message) =
    let handled = handle_each t (messages_of message) in
    (posted session message handled.0, handled.1)

unfoldable pub mcp : Tools → Serde → Text → Text → List ℕ → Reply × Asked
unfolding post_message text_eq
mcp t serde session method body =
    if text_eq method (codes "GET")
    then (record (plain 405) { headers = (codes "Allow", codes "POST, DELETE") ∷ [] }, [])
    else if text_eq method (codes "DELETE")
    then (plain 200, [])
    else if text_eq method (codes "POST")
    then post_message t session (serde.from_slice body)
    else (plain 405, [])

-- Which parts there are, and how they are.
pub record Parts : Type 0 where
  pub has_stt : Bool
  pub tts_healthy : Bool
  pub llm : Option LlmHealth
  pub web_search : Bool
  pub youtube : Bool
  pub jellyfin : Bool
  pub media : Option Sync.State

abbrev state_fields : Sync.State → Fields
state_fields Sync.loading_model =
    Json.field (codes "state") (Json.str (codes "loading_model")) Json.end
state_fields (Sync.indexing n total) =
    Json.field (codes "state") (Json.str (codes "indexing")) (
      Json.field (codes "done") (Json.num n) (Json.field (codes "total") (Json.num total) Json.end))
state_fields Sync.ready = Json.field (codes "state") (Json.str (codes "ready")) Json.end
state_fields (Sync.failed e) =
    Json.field (codes "state") (Json.str (codes "failed"))
      (Json.field (codes "error") (Json.str e) Json.end)

abbrev llm_text : Option LlmHealth → Text
llm_text none = codes "off"
llm_text (some h) = name_of h

abbrev media_value : Option Sync.State → Value
media_value none = Json.str (codes "off")
media_value (some s) = Json.obj (state_fields s)

unfoldable pub all_well : Parts → Bool
unfolding text_eq
all_well p = p.has_stt && (p.tts_healthy && not (text_eq (llm_text p.llm) (codes "unavailable")))

unfoldable pub health_reply : Parts → Reply
unfolding all_well
health_reply p = json_reply (if all_well p then 200 else 503) (
    Json.obj (
      Json.field (codes "status") (Json.str (if all_well p then codes "ok" else codes "degraded")) (
        Json.field (codes "stt") (Json.bool p.has_stt) (
          Json.field (codes "tts") (Json.bool p.tts_healthy) (
            Json.field (codes "llm") (Json.str (llm_text p.llm)) (
              Json.field (codes "web_search") (Json.bool p.web_search) (
                Json.field (codes "youtube") (Json.bool p.youtube) (
                  Json.field (codes "jellyfin") (Json.bool p.jellyfin)
                    (Json.field (codes "media_index") (media_value p.media) Json.end)))))))))

-- What a connection is served with: its first byte, if it came in time.
pub data Service : Type 0 where
  wyoming : Service
  http : Service
  dropped : Service

unfoldable pub serve_connection : Option ℕ → Service
serve_connection none = dropped
serve_connection (some first) = if first == b'{' then wyoming else http
