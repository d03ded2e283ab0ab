-- ===== src/Wyoming/Protocol/Limits.antt =====
-- How much of a connection one event may take.
use mathlib.Core.List.{append_assoc}
use homeassistant_local_voic.Base.{
  ℕ, zero, suc, ◌+◌, ◌≤◌, ◌≡◌, refl, sym, ap, ◌∙◌, Option, none, some, List, [], ◌∷◌, ◌++◌, arith,
  length, length-append, take, drop, length-take, take-append-drop, ltb, ◌==◌, Bool-cases,
  Option-cases, inl, inr,
}
use homeassistant_local_voic.Base.Text.{Text, codes}
use homeassistant_local_voic.Base.Result.{ok, context, >>=-eq-ok}
use homeassistant_local_voic.Json
use homeassistant_local_voic.Json.{Value, Fields, Serde}
use homeassistant_local_voic.Wyoming.Protocol.{
  Event, max_header, max_data, max_payload, declared, checked_length, read_until, read_exact,
  read_extra, read_data, read_bytes, read_payload, payload_bytes, read_body, read_framed,
  read_event,
}

-- `rest` is what is left of `bytes` after at most `limit` of them.
pub record Takes (limit : ℕ) (bytes rest : List ℕ) : Type 0 where
  pub used : List ℕ
  pub splits : bytes ≡ used ++ rest
  pub few : length used ≤ limit

Takes-none : (limit : ℕ) (bytes : List ℕ) → Takes limit bytes bytes
Takes-none limit bytes = record { used = []; splits = refl; few = omega arith }

Takes-then : (m n : ℕ) {a b c : List ℕ} → Takes m a b → Takes n b c → Takes (m + n) a c
Takes-then m n {a} {b} {c} s t = record {
  used = s.used ++ t.used;
  splits = s.splits ∙ ap (λ x. s.used ++ x) t.splits ∙ sym (append_assoc s.used t.used c);
  few = omega (arith, length-append s.used t.used, s.few, t.few);
}

read_until-split :
    (limit : ℕ) (bytes : List ℕ)
    → (bytes ≡ (read_until limit bytes).0 ++ (read_until limit bytes).1)
      × (length (read_until limit bytes).0 ≤ limit)
unfolding read_until
read_until-split zero bytes = (refl, omega arith)
read_until-split (suc limit) [] = (refl, omega arith)
read_until-split (suc limit) (b ∷ bytes) = let rest = read_until-split limit bytes in ground arith

checked_length-le :
    (key : Text) (limit : ℕ) (v : Value) (n : ℕ) → checked_length key limit v ≡ ok n → n ≤ limit
unfolding checked_length
checked_length-le key limit Json.null n h = ground arith
checked_length-le key limit _ n h = ground arith

declared-le :
    (header : Value) (key : Text) (limit n : ℕ) → declared header key limit ≡ ok n → n ≤ limit
unfolding declared
declared-le header key limit n h = elim (Option-cases (Json.get header key)) [
  | inl e ↦ (let zero_is : ok 0 ≡ ok n = rw (e, declared) at h in ground arith)
  | inr (v, e) ↦ checked_length-le key limit v n (rw (e, declared) at h)
]

read_exact-Takes :
    (n limit : ℕ) (bytes : List ℕ) {buf rest : List ℕ}
    → n ≤ limit
    → read_exact n bytes ≡ ok (buf, rest)
    → Takes limit bytes rest × (length buf ≤ limit)
unfolding read_exact
read_exact-Takes n limit bytes {buf} {rest} h e =
    let first : take n bytes ≡ buf = ground arith in
    let second : drop n bytes ≡ rest = ground arith in
    let short : length (take n bytes) ≤ limit = omega (arith, length-take n bytes) in
    (
      record {
        used = take n bytes;
        splits = rw (← second) (sym (take-append-drop n bytes));
        few = short;
      },
      rw (← first) short,
    )

module _ (serde : Serde) where
  read_extra-Takes :
      (header : Value) (n : ℕ) (bytes : List ℕ) {m : Fields} {rest : List ℕ}
      → n ≤ max_data
      → read_extra serde header n bytes ≡ ok (m, rest)
      → Takes max_data bytes rest
  unfolding read_extra
  read_extra-Takes header n bytes {m} {rest} h e =
      let ((buf, rest'), x, body) = >>=-eq-ok (read_exact n bytes) _ e in
      let (extra, y, last) =
        >>=-eq-ok (context (serde.from_slice buf) (codes "bad Wyoming data")) _ body in
      let same : rest' ≡ rest = ground arith in
      rw (← same) ((read_exact-Takes n max_data bytes h x).0)

  read_data-Takes :
      (header : Value) (bytes : List ℕ) {m : Fields} {rest : List ℕ}
      → read_data serde header bytes ≡ ok (m, rest)
      → Takes max_data bytes rest
  unfolding read_data
  read_data-Takes header bytes {m} {rest} e =
      let (n, d, body) = >>=-eq-ok (declared header (codes "data_length") max_data) _ e in
      elim (Bool-cases (n == 0)) [
        | inl none_left ↦
            (let same : bytes ≡ rest = ground arith in rw (← same) (Takes-none max_data bytes))
        | inr some_left ↦
            read_extra-Takes header n bytes (declared-le header _ max_data n d)
              (rw some_left at body)
      ]

  read_bytes-Takes :
      (n : ℕ) (bytes : List ℕ) {payload : Option (List ℕ)} {rest : List ℕ}
      → n ≤ max_payload
      → read_bytes serde n bytes ≡ ok (payload, rest)
      → Takes max_payload bytes rest × ((p : List ℕ) → payload ≡ some p → length p ≤ max_payload)
  unfolding read_bytes
  read_bytes-Takes n bytes {payload} {rest} h e =
      let ((buf, rest'), x, body) = >>=-eq-ok (read_exact n bytes) _ e in
      let same : rest' ≡ rest = ground arith in
      let whole : some buf ≡ payload = ground arith in
      let taken = read_exact-Takes n max_payload bytes h x in
      (rw (← same) taken.0, λ p q. let same' : buf ≡ p = ground arith in rw (← same') taken.1)

  read_payload-Takes :
      (header : Value) (bytes : List ℕ) {payload : Option (List ℕ)} {rest : List ℕ}
      → read_payload serde header bytes ≡ ok (payload, rest)
      → Takes max_payload bytes rest × ((p : List ℕ) → payload ≡ some p → length p ≤ max_payload)
  unfolding read_payload
  read_payload-Takes header bytes {payload} {rest} e =
      let (n, d, body) = >>=-eq-ok (declared header (codes "payload_length") max_payload) _ e in
      elim (Bool-cases (n == 0)) [
        | inl none_left ↦
            (let same : bytes ≡ rest = ground arith in
              (rw (← same) (Takes-none max_payload bytes), λ p q. absurd (ground arith)))
        | inr some_left ↦
            read_bytes-Takes n bytes (declared-le header _ max_payload n d) (rw some_left at body)
      ]

  read_body-Takes :
      (line bytes : List ℕ) {e : Event} {rest : List ℕ}
      → read_body serde line bytes ≡ ok (some (e, rest))
      → Takes (max_data + max_payload) bytes rest
        × ((p : List ℕ) → e.payload ≡ some p → length p ≤ max_payload)
  unfolding read_body
  read_body-Takes line bytes {e} {rest} h =
      let (header, _, h₁) = >>=-eq-ok (context (serde.from_slice line) _) _ h in
      let (kind, _, h₂) =
        >>=-eq-ok (context (Json.as_str (Json.at header (codes "type"))) _) _ h₁ in
      let ((m, mid), d, h₃) = >>=-eq-ok (read_data serde header bytes) _ h₂ in
      let ((payload, last), p, h₄) = >>=-eq-ok (read_payload serde header mid) _ h₃ in
      let end_is : last ≡ rest = ground arith in
      let payload_is : payload ≡ e.payload = ground arith in
      let taken = read_payload-Takes header mid p in
      (
        rw (← end_is) (Takes-then max_data max_payload (read_data-Takes header bytes d) taken.0),
        λ q r. taken.1 q (payload_is ∙ r),
      )

  read_framed-some :
      (line mid : List ℕ) {r : Event × List ℕ}
      → read_framed serde (line, mid) ≡ ok (some r)
      → (length line ≤ max_header) × (read_body serde line mid ≡ ok (some r))
  unfolding read_framed
  read_framed-some [] mid h = absurd (cc)
  read_framed-some (b ∷ line) mid h = elim (Bool-cases (ltb max_header (length (b ∷ line)))) [
    | inl long ↦ absurd (let bad = rw (long, read_framed) at h in cc)
    | inr fits ↦ (ground arith, rw (fits, read_framed) at h)
  ]

  framed-Takes :
      (x : List ℕ × List ℕ) {e : Event} {rest : List ℕ}
      → read_framed serde x ≡ ok (some (e, rest))
      → Takes (max_header + (max_data + max_payload)) (x.0 ++ x.1) rest
        × ((p : List ℕ) → e.payload ≡ some p → length p ≤ max_payload)
  framed-Takes (line, mid) h =
      let (short, body) = read_framed-some line mid h in
      let taken = read_body-Takes line mid body in
      (
        Takes-then max_header (max_data + max_payload)
            (record { used = line; splits = refl; few = short }) taken.0,
        taken.1,
      )

  payload_bytes-short :
      (payload : Option (List ℕ))
      → ((p : List ℕ) → payload ≡ some p → length p ≤ max_payload)
      → length (payload_bytes serde payload) ≤ max_payload
  unfolding payload_bytes
  payload_bytes-short none h = omega arith
  payload_bytes-short (some p) h = h p refl

  -- An event takes at most as many bytes from the connection as a header line of 64 KiB, 1 MiB of data
  -- and 16 MiB of payload have together, its payload has at most 16 MiB, and what is left of the
  -- connection is what stands behind these bytes.
  pub read_event-Takes :
      (bytes : List ℕ) {e : Event} {rest : List ℕ}
      → read_event serde bytes ≡ ok (some (e, rest))
      → Takes (max_header + (max_data + max_payload)) bytes rest
        × (length (payload_bytes serde e.payload) ≤ max_payload)
  unfolding read_event
  read_event-Takes bytes {e} h =
      let x = read_until (max_header + 1) bytes in
      let (whole, _) = read_until-split (max_header + 1) bytes in
      let taken = framed-Takes x h in
      (
        record { used = taken.0.used; splits = whole ∙ taken.0.splits; few = taken.0.few },
        payload_bytes-short e.payload taken.1,
      )
