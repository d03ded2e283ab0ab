-- ===== src/Llm/Proxy/Guard.antt =====
-- What the proxy lets through.
use homeassistant_local_voic.Base.{
  ◌≡◌, refl, ◌⊎◌, inl, inr, Option, none, some, [], ◌++◌, Bool-cases, not_both,
}
use homeassistant_local_voic.Base.Text.{codes}
use homeassistant_local_voic.Llm.Proxy.{
  Request, Sent, Response, Answer, answered, bytes, not_connected, broken, LlmProxy, error_response,
  backend_path, authorized, out_request, respond, forward,
}
use homeassistant_local_voic.Llm.Proxy.Passing.{
  IsEndToEnd, IsPassed, Selects, kept_headers-Selects, returned_headers-Selects,
}
use homeassistant_local_voic.Llm.Proxy.Key.{HasAccess, authorized-HasAccess}

-- What comes back for an answer of the backend.
abbrev pub Returned : Answer → Response → Type 0
Returned (answered status headers body) r =
    (r.status ≡ status)
    × Selects IsEndToEnd headers r.response_headers
    × (r.response_body ≡ bytes body)
Returned not_connected r = (r.status ≡ 503) × (r.response_headers ≡ [])
Returned (broken e) r = (r.status ≡ 502) × (r.response_headers ≡ [])

respond-Returned : (a : Answer) → Returned a (respond a)
unfolding respond
respond-Returned (answered status headers body) = (refl, returned_headers-Selects headers, refl)
respond-Returned not_connected = (refl, refl)
respond-Returned (broken e) = (refl, refl)

-- Nothing is sent and the answer is 401; or the request goes out and its answer comes back.
abbrev pub Guarded : LlmProxy → (Sent → Answer) → Request → Response × Option Sent → Type 0
Guarded p backend req r =
    (¬ HasAccess p req.headers
      × (r ≡ (error_response 401 (codes "Invalid API Key") (codes "authentication_error"), none)))
    ⊎ (HasAccess p req.headers
        × (sent : Sent) × (response : Response) × (r ≡ (response, some sent))
        × (sent.sent_method ≡ req.method)
        × (sent.url ≡ p.backend ++ backend_path req)
        × Selects IsPassed req.headers sent.sent_headers
        × Returned (backend sent) response)

-- Where a key is set, a request whose first Authorization header is not `Bearer ` and that key, white
-- space around the key aside and all in visible characters, sends
-- nothing to the backend and gets 401. Any other request is sent to its path below `/llm` with its own
-- headers, in their order, less those of the connection and Authorization; and what the backend answers
-- comes back with its headers less those of the connection, or as 503 or 502 if it does not answer.
pub forward-Guarded :
    (p : LlmProxy) (backend : Sent → Answer) (req : Request)
    → Guarded p backend req (forward p backend req)
unfolding forward out_request
forward-Guarded p backend req = elim (Bool-cases (authorized p req.headers)) [
  | inr closed ↦ inl (
    (λ access. not_both ((authorized-HasAccess p req.headers).1 access) closed),
    rw (forward, closed) refl,
  )
  | inl open_to ↦ inr (
    (authorized-HasAccess p req.headers).0 open_to,
    out_request p req,
    respond (backend (out_request p req)),
    rw (forward, open_to) refl,
    refl,
    refl,
    kept_headers-Selects req.headers,
    respond-Returned (backend (out_request p req)),
  )
]
