-- ===== src/Tests/Speaking.antt =====
-- Runs of the framing at concrete events, with a concrete codec.
use homeassistant_local_voic.Base.{
  ℕ, zero, suc, ◌≡◌, refl, Option, none, some, List, [], ◌∷◌, ◌++◌, arith, ◌<◌, ◌≤◌, ◌+◌, length,
}
use homeassistant_local_voic.Base.Text.{codes}
use homeassistant_local_voic.Base.Result.{ok}
use homeassistant_local_voic.Json
use homeassistant_local_voic.Wyoming.Protocol.{
  Event, payload_bytes, read_event, write_event, header_of, max_header, max_data, max_payload,
}
use homeassistant_local_voic.Wyoming.Protocol.RoundTrip.{Fits, read_event-write_event}
use homeassistant_local_voic.Wyoming.Protocol.Limits.{Takes, read_event-Takes}
pub mod Codec
use Codec.{codec, put, put_text, put_fields, put_items}

abbrev pub chunk : Event
chunk = record {
  kind = codes "audio-chunk";
  event_data = Json.field (codes "channels") (Json.num 1) (
      Json.field (codes "rate") (Json.num 16000)
        (Json.field (codes "width") (Json.num 2) Json.end));
  payload = some (1 ∷ 2 ∷ 3 ∷ []);
}

pub chunk-Fits : Fits codec chunk
unfolding codec header_of Json.insert Json.get_field Json.encodable Json.is_map Json.is_string put
    put_text put_fields put_items
chunk-Fits = record {
  header_fits = omega arith;
  data_fits = omega arith;
  kind_is_string = refl;
  data_is_encodable = refl;
  payload_fits = λ p h. ground arith;
}

read_event-write_event_example :
    read_event codec (write_event codec chunk ++ (9 ∷ [])) ≡ ok (some (chunk, 9 ∷ []))
read_event-write_event_example = read_event-write_event codec chunk (9 ∷ []) chunk-Fits

read_event-Takes_example :
    Takes (max_header + (max_data + max_payload)) (write_event codec chunk ++ (9 ∷ [])) (9 ∷ [])
    × (length (payload_bytes codec chunk.payload) ≤ max_payload)
read_event-Takes_example =
    read_event-Takes codec (write_event codec chunk ++ (9 ∷ [])) read_event-write_event_example
