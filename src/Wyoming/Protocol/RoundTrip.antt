-- ===== src/Wyoming/Protocol/RoundTrip.antt =====
-- What one side writes, the other side reads.
use mathlib.Core.List.{append_assoc}
use homeassistant_local_voic.Base.{
  ℕ, zero, suc, ◌+◌, ◌≤◌, ◌<◌, ◌≡◌, refl, ap, ◌∙◌, false, Option, none, some, List, [], ◌∷◌, ◌++◌,
  arith, length, ◌==◌, All, length-append, take-length_append, drop-length_append, true,
  and-eq_true,
}
use homeassistant_local_voic.Base.Text.{Text, codes}
use homeassistant_local_voic.Base.Result.{ok}
use homeassistant_local_voic.Json
use homeassistant_local_voic.Json.{
  Value, num, obj, Fields, end, field, Serde, IsEncodable, is_string, is_map,
}
use homeassistant_local_voic.Json.Maps.{extend-end}
use homeassistant_local_voic.Wyoming.Protocol.{
  Event, max_header, max_data, max_payload, declared, read_until, read_exact, read_extra,
  read_bytes, inline_data, read_data, read_payload, read_body, read_framed, read_event, write_event,
  header_of, data_bytes, payload_bytes,
}

-- A line with its line feed is read whole, if it fits.
read_until-line :
    (limit : ℕ) (line rest : List ℕ)
    → All (λ b. (b == b'\n') ≡ false) line
    → length line < limit
    → read_until limit ((line ++ b'\n' ∷ []) ++ rest) ≡ (line ++ b'\n' ∷ [], rest)
unfolding read_until
read_until-line zero line rest a h = elim h [ ]
read_until-line (suc limit) [] rest a h = refl
read_until-line (suc limit) (b ∷ line) rest a h =
    rw (a.0) (rw (read_until-line limit line rest a.1 (omega arith)))

read_exact-append : (buf rest : List ℕ) → read_exact (length buf) (buf ++ rest) ≡ ok (buf, rest)
unfolding read_exact
read_exact-append buf rest =
    rw (take-length_append buf rest, drop-length_append buf rest)
      (ground (arith, length-append buf rest))

ne_zero : (n : ℕ) → 0 < n → (n == 0) ≡ false
ne_zero n h = ground arith

module _ (serde : Serde) where
  open serde use {from_slice, to_vec, from_slice_to_vec, from_slice_line, one_line, not_empty}

  -- The event fits the limits of the reader, JSON holds its type and its data without loss, and its
  -- payload, if any, is not empty.
  pub record Fits (e : Event) : Type 0 where
    pub header_fits : length (to_vec (header_of serde e)) < max_header
    pub data_fits : length (to_vec (obj e.event_data)) ≤ max_data
    pub kind_is_string : is_string e.kind ≡ true
    pub data_is_encodable : IsEncodable (obj e.event_data)
    pub payload_fits : (p : List ℕ) → e.payload ≡ some p → (0 < length p) × (length p ≤ max_payload)

  abbrev event : Text → Fields → Option (List ℕ) → Event
  event kind fs payload = record { kind = kind; event_data = fs; payload = payload }

  declared-data :
      (kind : Text) (fs : Fields) (payload : Option (List ℕ))
      → length (to_vec (obj fs)) ≤ max_data
      → declared (header_of serde (event kind fs payload)) (codes "data_length") max_data
        ≡ ok (length (data_bytes serde (event kind fs payload)))
  unfolding declared header_of data_bytes Json.insert Json.get_field
  declared-data kind end none h = refl
  declared-data kind end (some p) h = refl
  declared-data kind (field k v fs) none h = ground arith
  declared-data kind (field k v fs) (some p) h = ground arith

  declared-payload :
      (kind : Text) (fs : Fields) (payload : Option (List ℕ))
      → ((p : List ℕ) → payload ≡ some p → (0 < length p) × (length p ≤ max_payload))
      → declared (header_of serde (event kind fs payload)) (codes "payload_length") max_payload
        ≡ ok (length (payload_bytes serde payload))
  unfolding declared header_of payload_bytes Json.insert Json.get_field
  declared-payload kind end none h = refl
  declared-payload kind end (some p) h = let fits = h p refl in ground arith
  declared-payload kind (field k v fs) none h = refl
  declared-payload kind (field k v fs) (some p) h = let fits = h p refl in ground arith

  inline_data-header :
      (kind : Text) (fs : Fields) (payload : Option (List ℕ))
      → inline_data (header_of serde (event kind fs payload)) ≡ end
  unfolding header_of Json.insert Json.get_field
  inline_data-header kind end none = refl
  inline_data-header kind end (some p) = refl
  inline_data-header kind (field k v fs) none = refl
  inline_data-header kind (field k v fs) (some p) = refl

  kind-header :
      (kind : Text) (fs : Fields) (payload : Option (List ℕ))
      → Json.as_str (Json.at (header_of serde (event kind fs payload)) (codes "type")) ≡ some kind
  unfolding header_of Json.insert Json.get_field
  kind-header kind end none = refl
  kind-header kind end (some p) = refl
  kind-header kind (field k v fs) none = refl
  kind-header kind (field k v fs) (some p) = refl

  header_of-IsEncodable :
      (kind : Text) (fs : Fields) (payload : Option (List ℕ))
      → Fits (event kind fs payload)
      → IsEncodable (header_of serde (event kind fs payload))
  unfolding header_of Json.insert Json.encodable Json.is_map is_string
  header_of-IsEncodable kind end none f = let text = f.kind_is_string in ground arith
  header_of-IsEncodable kind end (some p) f =
      let text = f.kind_is_string in let fits = f.payload_fits p refl in ground arith
  header_of-IsEncodable kind (field k v fs) none f =
      let text = f.kind_is_string in let fits = f.data_fits in ground arith
  header_of-IsEncodable kind (field k v fs) (some p) f =
      let text = f.kind_is_string in
      let sized = f.data_fits in let fits = f.payload_fits p refl in ground arith

  encodable-is_map : (fs : Fields) → IsEncodable (obj fs) → is_map fs ≡ true
  unfolding Json.encodable
  encodable-is_map fs h = (and-eq_true (is_map fs) _ h).0

  read_data-write :
      (kind : Text) (fs : Fields) (payload : Option (List ℕ)) (rest : List ℕ)
      → length (to_vec (obj fs)) ≤ max_data
      → IsEncodable (obj fs)
      → let e = event kind fs payload in
        read_data serde (header_of serde e) (data_bytes serde e ++ rest) ≡ ok (fs, rest)
  unfolding read_data read_extra
  read_data-write kind end payload rest h m =
      rw (declared-data kind end payload h)
        (unfold data_bytes in rw (inline_data-header kind end payload))
  read_data-write kind (field k v fs) payload rest h m =
      let all = field k v fs in
      rw (declared-data kind all payload h) (
        unfold data_bytes in
        rw (ne_zero (length (to_vec (obj all))) (not_empty (obj all) m)) (
          rw (read_exact-append (to_vec (obj all)) rest) (
            rw (from_slice_to_vec (obj all) m, inline_data-header kind all payload)
              (rw (extend-end all (encodable-is_map all m))))))

  read_payload-write :
      (kind : Text) (fs : Fields) (payload : Option (List ℕ)) (rest : List ℕ)
      → ((p : List ℕ) → payload ≡ some p → (0 < length p) × (length p ≤ max_payload))
      → read_payload serde
          (header_of serde (event kind fs payload))
          (payload_bytes serde payload ++ rest)
        ≡ ok (payload, rest)
  unfolding read_payload read_bytes
  read_payload-write kind fs none rest h =
      rw (declared-payload kind fs none h) (unfold payload_bytes in refl)
  read_payload-write kind fs (some p) rest h =
      let fits = h p refl in
      rw (declared-payload kind fs (some p) h)
        (unfold payload_bytes in rw (ne_zero (length p) fits.0) (rw (read_exact-append p rest)))

  read_body-write :
      (kind : Text) (fs : Fields) (payload : Option (List ℕ)) (rest : List ℕ)
      → Fits (event kind fs payload)
      → let e = event kind fs payload in
        read_body serde
          (to_vec (header_of serde e) ++ b'\n' ∷ [])
          (data_bytes serde e ++ (payload_bytes serde payload ++ rest))
        ≡ ok (some (e, rest))
  unfolding read_body
  read_body-write kind fs payload rest f =
      rw
        (from_slice_line (header_of serde (event kind fs payload))
          (header_of-IsEncodable kind fs payload f))
        (rw (kind-header kind fs payload) (
          rw
            (read_data-write kind fs payload (payload_bytes serde payload ++ rest) f.data_fits
              f.data_is_encodable)
            (rw (read_payload-write kind fs payload rest f.payload_fits))))

  read_framed-line :
      (line rest : List ℕ)
      → 0 < length line
      → length line ≤ max_header
      → read_framed serde (line, rest) ≡ read_body serde line rest
  unfolding read_framed
  read_framed-line [] rest n h = elim n [ ]
  read_framed-line (b ∷ line) rest n h = ground arith

  write_event-append :
      (e : Event) (rest : List ℕ)
      → write_event serde e ++ rest
        ≡ (to_vec (header_of serde e) ++ b'\n' ∷ [])
          ++ (data_bytes serde e ++ (payload_bytes serde e.payload ++ rest))
  unfolding write_event
  write_event-append e rest = simp append_assoc

  -- An event that fits the limits, and whose type and data JSON holds without loss, is read back from what
  -- was written, whatever follows it.
  pub read_event-write_event :
      (e : Event) (rest : List ℕ)
      → Fits e
      → read_event serde (write_event serde e ++ rest) ≡ ok (some (e, rest))
  unfolding read_event
  read_event-write_event e rest f =
      let line = to_vec (header_of serde e) in
      let behind = data_bytes serde e ++ (payload_bytes serde e.payload ++ rest) in
      let long = length-append line (b'\n' ∷ []) in
      ap (λ bytes. read_framed serde (read_until (max_header + 1) bytes))
        (write_event-append e rest)
      ∙ ap (read_framed serde) (
          read_until-line (max_header + 1) line behind
            (one_line (header_of serde e) (header_of-IsEncodable e.kind e.event_data e.payload f))
            (omega (arith, f.header_fits)))
      ∙ read_framed-line (line ++ b'\n' ∷ []) behind (omega (arith, long))
          (omega (arith, long, f.header_fits))
      ∙ read_body-write e.kind e.event_data e.payload rest f
