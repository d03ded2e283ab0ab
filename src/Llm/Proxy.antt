-- ===== src/Llm/Proxy.antt =====
-- src/llm/proxy.rs: what goes to llama-server and what comes back. A header is its name, in lower case as
-- the http crate keeps it, and its bytes; what was sent to the backend is kept beside the response.
pub mod Passing
pub mod Key
pub mod Guard
use homeassistant_local_voic.Base.{
  ℕ, ltb, leb, Bool, true, false, Option, none, some, List, [], ◌∷◌, ◌++◌, all, ◌==◌, ◌||◌, ◌&&◌,
  not, if◌then◌else◌,
}
use homeassistant_local_voic.Base.Text.{
  Text, codes, text_eq, text_mem, strip_prefix, trim, is_empty,
}
use homeassistant_local_voic.Json
use homeassistant_local_voic.Json.{Value}

abbrev pub hop_headers : List Text
hop_headers =
    codes "connection"
    ∷ codes "keep-alive"
    ∷ codes "proxy-connection"
    ∷ codes "transfer-encoding"
    ∷ codes "te"
    ∷ codes "trailer"
    ∷ codes "upgrade"
    ∷ codes "host"
    ∷ codes "content-length"
    ∷ []

abbrev pub authorization : Text
authorization = codes "authorization"

abbrev pub Headers : Type 0
Headers = List (Text × List ℕ)

pub record Request : Type 0 where
  pub method : Text
  pub path : Text
  pub query : Option Text
  pub headers : Headers
  pub body : List ℕ

pub record Sent : Type 0 where
  pub sent_method : Text
  pub url : Text
  pub sent_headers : Headers
  pub sent_body : Option (List ℕ)

-- A body of the proxy's own is a JSON value, one of the backend its bytes.
pub data Body : Type 0 where
  json : Value → Body
  bytes : List ℕ → Body

pub record Response : Type 0 where
  pub status : ℕ
  pub response_headers : Headers
  pub response_body : Body

-- What sending to the backend came to.
pub data Answer : Type 0 where
  answered : ℕ → Headers → List ℕ → Answer
  not_connected : Answer
  broken : Text → Answer

pub data Probe : Type 0 where
  probed : ℕ → Probe
  timed_out : Probe
  no_answer : Probe

pub data LlmHealth : Type 0 where
  healthy : LlmHealth
  busy : LlmHealth
  unavailable : LlmHealth

abbrev pub name_of : LlmHealth → Text
name_of healthy = codes "ok"
name_of busy = codes "busy"
name_of unavailable = codes "unavailable"

pub record LlmProxy : Type 0 where
  pub backend : Text
  pub api_key : Option Text

abbrev pub error_response : ℕ → Text → Text → Response
error_response status message error_type = record {
  status = status;
  response_headers = [];
  response_body = json (
      Json.obj (
        Json.field (codes "error")
          (Json.obj (
            Json.field (codes "message") (Json.str message)
              (Json.field (codes "type") (Json.str error_type) Json.end)))
          Json.end));
}

unfoldable pub keep_header : Text → Bool
unfolding text_eq
keep_header name = not (text_mem name hop_headers)

abbrev below : Option Text → Text → Text
below none path = path
below (some rest) path = rest

unfoldable pub backend_path : Request → Text
unfolding strip_prefix
backend_path req =
    let rest = below (strip_prefix (codes "/llm") req.path) req.path in
    let path = if is_empty rest then codes "/" else rest in
    elim req.query [ none ↦ path | some q ↦ path ++ (b'?' ∷ q) ]

-- `health`, with the requests that are in flight.
unfoldable pub health : Probe → ℕ → LlmHealth
health (probed status) in_flight = if leb 200 status && ltb status 300 then healthy else unavailable
health timed_out in_flight = if ltb 0 in_flight then busy else unavailable
health no_answer in_flight = unavailable

-- `HeaderMap::get`: the first value.
unfoldable pub header_value : Headers → Text → Option (List ℕ)
unfolding text_eq
header_value [] name = none
header_value ((n, v) ∷ rest) name = if text_eq n name then some v else header_value rest name

-- `HeaderValue::to_str`: visible ASCII and tabs.
abbrev to_str : List ℕ → Option Text
to_str v = if all (λ b. (leb 32 b && ltb b 127) || (b == 9)) v then some v else none

abbrev pub bearer : List ℕ → Option Text
unfolding strip_prefix
bearer v = elim (to_str v) [ none ↦ none | some t ↦ strip_prefix (codes "Bearer ") t ]

abbrev pub token : Headers → Option Text
unfolding bearer header_value
token headers = elim (header_value headers authorization) [ none ↦ none | some v ↦ bearer v ]

abbrev pub is_key : Text → Option Text → Bool
unfolding text_eq trim
is_key key none = false
is_key key (some given) = text_eq (trim given) key

unfoldable pub authorized : LlmProxy → Headers → Bool
unfolding is_key token
authorized p headers = elim p.api_key [ none ↦ true | some key ↦ is_key key (token headers) ]

unfoldable pub kept_headers : Headers → Headers
unfolding keep_header text_eq
kept_headers [] = []
kept_headers ((n, v) ∷ rest) =
    let more = kept_headers rest in
    if keep_header n && not (text_eq n authorization) then (n, v) ∷ more else more

unfoldable pub returned_headers : Headers → Headers
unfolding keep_header
returned_headers [] = []
returned_headers ((n, v) ∷ rest) =
    let more = returned_headers rest in if keep_header n then (n, v) ∷ more else more

-- `Method::from_bytes(..).unwrap_or(GET)` never fails on a method that was parsed.
unfoldable pub out_request : LlmProxy → Request → Sent
unfolding backend_path kept_headers text_eq
out_request p req = record {
  sent_method = req.method;
  url = p.backend ++ backend_path req;
  sent_headers = kept_headers req.headers;
  sent_body =
      if text_eq req.method (codes "GET") || text_eq req.method (codes "HEAD")
      then none
      else some req.body;
}

abbrev pub respond : Answer → Response
unfolding returned_headers
respond (answered status headers body) = record {
  status = status;
  response_headers = returned_headers headers;
  response_body = bytes body;
}
respond not_connected =
    error_response 503 (codes "llama-server is not ready yet") (codes "unavailable")
respond (broken e) = error_response 502 e (codes "upstream_error")

unfoldable pub forward : LlmProxy → (Sent → Answer) → Request → Response × Option Sent
unfolding authorized out_request respond
forward p backend req =
    let out = out_request p req in
    if not (authorized p req.headers)
    then (error_response 401 (codes "Invalid API Key") (codes "authentication_error"), none)
    else (respond (backend out), some out)
