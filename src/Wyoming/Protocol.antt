-- ===== src/Wyoming/Protocol.antt =====
-- src/wyoming/protocol.rs: the framing of events. A connection is the list of bytes that the peer
-- still sends before it closes.
pub mod RoundTrip
pub mod Limits
use homeassistant_local_voic.Base.{
  ℕ, zero, suc, ◌+◌, ◌*◌, Bool, true, false, Option, none, some, List, [], ◌∷◌, ◌++◌, ltb, ◌==◌,
  length, take, drop, if◌then◌else◌,
}
use homeassistant_local_voic.Base.Text.{Text, codes, is_empty}
use homeassistant_local_voic.Base.Result.{Result, ok, err, context, ◌>>=◌}
use homeassistant_local_voic.Json
use homeassistant_local_voic.Json.{
  Value, null, num, str, obj, Fields, end, field, Serde, get, at, as_str, as_u64, insert, extend,
  get_field,
}

abbrev pub version : Text
version = codes "1.10.2"

abbrev pub max_header : ℕ
max_header = 64 * 1024

abbrev pub max_data : ℕ
max_data = 1024 * 1024

abbrev pub max_payload : ℕ
max_payload = 16 * 1024 * 1024

pub record Event : Type 0 where
  pub kind : Text
  pub event_data : Fields
  pub payload : Option (List ℕ)

abbrev pub fields_of : Value → Fields
fields_of (obj m) = m
fields_of _ = end

-- `Event::new` and `with_payload`.
abbrev pub new_event : Text → Value → Event
new_event kind value = record { kind = kind; event_data = fields_of value; payload = none }

abbrev pub with_payload : Event → List ℕ → Event
with_payload e p = record e { payload = some p }

checked_length : Text → ℕ → Value → Result ℕ
checked_length key limit null = ok 0
checked_length key limit v = do
  n ← context (as_u64 v) (codes "bad " ++ key)
  if ltb limit n then err (key ++ codes " is larger than its limit") else ok n

-- The function `length` of protocol.rs.
unfoldable pub declared : Value → Text → ℕ → Result ℕ
unfolding checked_length
declared header key limit = elim (get header key) [
  | none ↦ ok 0
  | some v ↦ checked_length key limit v
]

-- `take(limit).read_until(b'\n')`: the bytes up to and with the first line feed, at most `limit`,
-- and the bytes behind them.
unfoldable pub read_until : ℕ → List ℕ → List ℕ × List ℕ
read_until zero bytes = ([], bytes)
read_until (suc limit) [] = ([], [])
read_until (suc limit) (b ∷ bytes) =
    let rest = read_until limit bytes in
    if b == b'\n' then (b ∷ [], bytes) else (b ∷ rest.0, rest.1)

-- `read_exact` of a buffer of `n` bytes.
unfoldable pub read_exact : ℕ → List ℕ → Result (List ℕ × List ℕ)
read_exact n bytes =
    if ltb (length bytes) n then err (codes "early eof") else ok (take n bytes, drop n bytes)

abbrev pub inline_data : Value → Fields
inline_data header = elim (get header (codes "data")) [ none ↦ end | some v ↦ fields_of v ]

module _ (serde : Serde) where
  open serde use {from_slice, to_vec}

  abbrev extended : Fields → Value → Fields
  extended m (obj extra) = extend m extra
  extended m _ = m

  read_extra : Value → ℕ → List ℕ → Result (Fields × List ℕ)
  read_extra header n bytes = do
    (buf, rest) ← read_exact n bytes
    extra ← context (from_slice buf) (codes "bad Wyoming data")
    ok (extended (inline_data header) extra, rest)

  read_data : Value → List ℕ → Result (Fields × List ℕ)
  read_data header bytes = do
    n ← declared header (codes "data_length") max_data
    if n == 0 then ok (inline_data header, bytes) else read_extra header n bytes

  read_bytes : ℕ → List ℕ → Result (Option (List ℕ) × List ℕ)
  read_bytes n bytes = do (buf, rest) ← read_exact n bytes; ok (some buf, rest)

  read_payload : Value → List ℕ → Result (Option (List ℕ) × List ℕ)
  read_payload header bytes = do
    n ← declared header (codes "payload_length") max_payload
    if n == 0 then ok (none, bytes) else read_bytes n bytes

  read_body : List ℕ → List ℕ → Result (Option (Event × List ℕ))
  read_body line bytes = do
    header ← context (from_slice line) (codes "bad Wyoming header")
    kind ← context (as_str (at header (codes "type"))) (codes "Wyoming header without type")
    (event_data, rest) ← read_data header bytes
    (payload, rest') ← read_payload header rest
    ok (some (record { kind = kind; event_data = event_data; payload = payload }, rest'))

  -- What follows the read of the header line; `none`: the peer closed the connection.
  unfoldable pub read_framed : List ℕ × List ℕ → Result (Option (Event × List ℕ))
  unfolding read_body read_data read_extra read_payload read_bytes read_exact declared
  read_framed (line, rest) =
      if is_empty line
      then ok none
      else if ltb max_header (length line)
      then err (codes "Wyoming header line too long")
      else read_body line rest

  unfoldable pub read_event : List ℕ → Result (Option (Event × List ℕ))
  read_event bytes = read_framed (read_until (max_header + 1) bytes)

  data_bytes : Event → List ℕ
  data_bytes e = if Json.is_empty e.event_data then [] else to_vec (obj e.event_data)

  with_data_length : Event → Fields → Fields
  with_data_length e h =
      if Json.is_empty e.event_data
      then h
      else insert h (codes "data_length") (num (length (to_vec (obj e.event_data))))

  with_payload_length : Option (List ℕ) → Fields → Fields
  with_payload_length none h = h
  with_payload_length (some p) h = insert h (codes "payload_length") (num (length p))

  unfoldable pub header_of : Event → Value
  unfolding with_data_length with_payload_length
  header_of e =
      let h = field (codes "type") (str e.kind) (field (codes "version") (str version) end) in
      obj (with_payload_length e.payload (with_data_length e h))

  unfoldable pub payload_bytes : Option (List ℕ) → List ℕ
  payload_bytes none = []
  payload_bytes (some p) = p

  -- The bytes that `write_event` writes.
  unfoldable pub write_event : Event → List ℕ
  unfolding header_of data_bytes payload_bytes
  write_event e = (to_vec (header_of e) ++ b'\n' ∷ []) ++ (data_bytes e ++ payload_bytes e.payload)
