-- ===== src/Wyoming/Server.antt =====
-- src/wyoming/mod.rs: one Wyoming connection. Each event comes with what the engines do then: whether the
-- lock of the GPU is free in time, what the speech engine hears, and what the voice engine answers. An
-- error is its text, as `{err:#}` prints it. The speech engine takes the samples as floats, which are
-- the samples here.
pub mod Utterance
pub mod Reply
pub mod Stream
use homeassistant_local_voic.Base.{
  ℕ, ◌+◌, ◌*◌, ◌%◌, ◌^◌, max, Bool, true, false, Option, none, some, List, [], ◌∷◌, ◌++◌, not,
  if◌then◌else◌,
}
use homeassistant_local_voic.Base.Text.{Text, codes, text_eq, is_empty}
use homeassistant_local_voic.Base.Int.{ℤ}
use homeassistant_local_voic.Base.Bytes.{chunks}
use homeassistant_local_voic.Base.Result.{Result, ok, err}
use homeassistant_local_voic.Json
use homeassistant_local_voic.Json.{Value, Fields, Serde, get_field, insert, as_str, as_u64, get}
use homeassistant_local_voic.Audio.{Format, stt_format, same_format, Float, to_mono_i16}
use homeassistant_local_voic.Audio.Wav.{parse_wav}
use homeassistant_local_voic.Gpu
use homeassistant_local_voic.Gpu.{Gpu, success, failure}
use homeassistant_local_voic.Wyoming.Protocol.{Event, new_event, with_payload, read_event}

abbrev pub chunk_samples : ℕ
chunk_samples = 4096

abbrev pub stt_rate : ℕ
stt_rate = 16000

abbrev get_u64 : Fields → Text → Option ℕ
get_u64 m k = elim (get_field m k) [ none ↦ none | some v ↦ as_u64 v ]

-- `map_or(fallback, |v| v as ..)`, a cast to the type with `size` values.
abbrev cast_or : ℕ → ℕ → Option ℕ → ℕ
cast_or size fallback none = fallback
cast_or size fallback (some v) = v % size

unfoldable pub format_of : Fields → Format → Format
format_of m fallback = record {
  rate = cast_or (2 ^ 32) fallback.rate (get_u64 m (codes "rate"));
  width = cast_or (2 ^ 16) fallback.width (get_u64 m (codes "width"));
  channels = cast_or (2 ^ 16) fallback.channels (get_u64 m (codes "channels"));
}

pub record Engines : Type 0 where
  pub gpu_free : Bool
  pub hears : List ℤ → Result Text
  pub speaks : Text → Option Text → Result (List ℕ)

-- The variables of `serve`, the state of the GPU and the events written so far, the oldest first.
pub record Session : Type 0 where
  pub format : Format
  pub segments : List (Format × List ℕ)
  pub gpu : Gpu
  pub written : List Event

-- The loop goes on, or the connection ends with an error.
pub data Flow : Type 0 where
  goes : Session → Flow
  ends : Session → Text → Flow

abbrev pub emit : Session → Event → Session
emit s e = record s { written = s.written ++ (e ∷ []) }

-- `audio.last_mut()`: the last segment grows if it has the format, else a new one follows.
unfoldable pub add_chunk : Format → List ℕ → List (Format × List ℕ) → List (Format × List ℕ)
add_chunk format bytes [] = (format, bytes) ∷ []
add_chunk format bytes ((f, buf) ∷ []) =
    if same_format f format then (f, buf ++ bytes) ∷ [] else (f, buf) ∷ (format, bytes) ∷ []
add_chunk format bytes (s ∷ t ∷ rest) = s ∷ add_chunk format bytes (t ∷ rest)

abbrev pub transcript : Text → Event
transcript text =
    new_event (codes "transcript") (Json.obj (Json.field (codes "text") (Json.str text) Json.end))

abbrev timestamped : Fields
timestamped = Json.field (codes "timestamp") Json.null Json.end

abbrev pub stopped : Event
stopped = new_event (codes "audio-stop") (Json.obj timestamped)

-- `audio_data` with its timestamp.
abbrev pub audio_data : Format → Fields
audio_data f =
    insert
      (Json.field (codes "rate") (Json.num f.rate) (
        Json.field (codes "width") (Json.num f.width)
          (Json.field (codes "channels") (Json.num f.channels) Json.end)))
      (codes "timestamp") Json.null

abbrev pub started : Format → Event
started f = new_event (codes "audio-start") (Json.obj (audio_data f))

abbrev pub sound : Format → List ℕ → Event
sound f piece = with_payload (new_event (codes "audio-chunk") (Json.obj (audio_data f))) piece

abbrev pub sounds : Format → List (List ℕ) → List Event
sounds f [] = []
sounds f (piece ∷ pieces) = sound f piece ∷ sounds f pieces

abbrev pub chunk_bytes : Format → ℕ
chunk_bytes f = max (chunk_samples * f.width * f.channels) 1

abbrev pub text_of : Fields → Text
text_of m = elim (get_field m (codes "text")) [
  | none ↦ []
  | some v ↦ elim (as_str v) [ none ↦ [] | some t ↦ t ]
]

abbrev str_at : Value → Text → Option Text
str_at v key = elim (get v key) [ none ↦ none | some w ↦ as_str w ]

abbrev pub voice_of : Fields → Option Text
voice_of m = elim (get_field m (codes "voice")) [
  | none ↦ none
  | some v ↦ elim (str_at v (codes "name")) [
    | none ↦ str_at v (codes "language")
    | some name ↦ some name
  ]
]

-- What a connection is given: the `info` answer, whether the speech model loaded, and std's and the
-- crates' parts: floats, Unicode's case table, and `speakable` of src/tts.rs, a list of regexes.
pub record Setup : Type 1 where
  pub info : Value
  pub has_stt : Bool
  pub float : Float
  pub to_lowercase : Text → Text
  pub speakable : Text → Text

module _ (setup : Setup) where
  open setup use {info, has_stt, float, to_lowercase, speakable}

  abbrev reported : Gpu.Speech → Gpu → Result (List ℕ) → Gpu
  reported engine gpu (ok wav) = success gpu engine
  reported engine gpu (err e) = failure to_lowercase gpu engine e

  abbrev heard : Gpu → Result Text → Gpu
  heard gpu (ok text) = success gpu Gpu.stt
  heard gpu (err e) = failure to_lowercase gpu Gpu.stt e

  abbrev gpu_busy : Text
  gpu_busy = codes "GPU busy (previous STT/TTS request still running)"

  unfoldable pub transcribe : Engines → Gpu → List ℤ → Gpu × Result Text
  transcribe engines gpu pcm =
      if not has_stt
      then (gpu, err (codes "STT is not available (the model failed to load, see the log)"))
      else if not engines.gpu_free
      then (gpu, err gpu_busy)
      else (heard gpu (engines.hears pcm), engines.hears pcm)

  unfoldable pub synthesize : Engines → Gpu → Text → Option Text → Gpu × Result (List ℕ)
  synthesize engines gpu text voice =
      if not engines.gpu_free
      then (gpu, err gpu_busy)
      else (reported Gpu.tts gpu (engines.speaks text voice), engines.speaks text voice)

  abbrev pub pcm_of : List (Format × List ℕ) → List ℤ
  pcm_of [] = []
  pcm_of ((f, raw) ∷ rest) = to_mono_i16 float raw f stt_rate ++ pcm_of rest

  abbrev pub answer_text : Session → Gpu × Result Text → Flow
  answer_text s (gpu, ok text) = goes (emit (record s { gpu = gpu }) (transcript text))
  answer_text s (gpu, err e) = ends (record s { gpu = gpu }) e

  unfoldable pub audio_stop : Engines → Session → Flow
  unfolding transcribe
  audio_stop engines s =
      let pcm = pcm_of s.segments in
      let taken : Session = record s { segments = [] } in
      if is_empty pcm
      then goes (emit taken (transcript []))
      else answer_text taken (transcribe engines taken.gpu pcm)

  abbrev pub write_sound : Session → Format × List ℕ → Flow
  write_sound s (f, pcm) = goes (record s {
    written = s.written ++ (started f ∷ sounds f (chunks (chunk_bytes f) pcm)) ++ (stopped ∷ []);
  })

  -- The fuel of `parse_wav` is always enough.
  abbrev write_parsed : Session → Option (Result (Format × List ℕ)) → Flow
  write_parsed s none = ends s (codes "stuck")
  write_parsed s (some (err e)) = ends s e
  write_parsed s (some (ok parsed)) = write_sound s parsed

  abbrev write_wav : Session → Gpu × Result (List ℕ) → Flow
  write_wav s (gpu, err e) = ends (record s { gpu = gpu }) e
  write_wav s (gpu, ok wav) = write_parsed (record s { gpu = gpu }) (parse_wav wav)

  unfoldable pub say : Engines → Session → Fields → Flow
  unfolding synthesize
  say engines s m =
      let text = speakable (text_of m) in
      if is_empty text
      then goes (emit s stopped)
      else write_wav s (synthesize engines s.gpu text (voice_of m))

  abbrev pub chunk : Session → Fields → Option (List ℕ) → Session
  chunk s m none = s
  chunk s m (some p) = record s { segments = add_chunk (format_of m s.format) p s.segments }

  -- The body of the loop of `serve`.
  unfoldable pub handle_event : Engines → Session → Event → Flow
  unfolding audio_stop say add_chunk format_of
  handle_event engines s e =
      if text_eq e.kind (codes "describe")
      then goes (emit s (new_event (codes "info") info))
      else if text_eq e.kind (codes "transcribe")
      then goes s
      else if text_eq e.kind (codes "audio-start")
      then goes (record s { format = format_of e.event_data stt_format; segments = [] })
      else if text_eq e.kind (codes "audio-chunk")
      then goes (chunk s e.event_data e.payload)
      else if text_eq e.kind (codes "audio-stop")
      then audio_stop engines s
      else if text_eq e.kind (codes "synthesize")
      then say engines s e.event_data
      else goes s

  -- The handler of events that were read, one answer of the engines for each.
  unfoldable pub handle_all : List (Event × Engines) → Session → Flow
  unfolding handle_event
  handle_all [] s = goes s
  handle_all ((e, engines) ∷ rest) s = elim (handle_event engines s e) [
    | ends s' error ↦ ends s' error
    | goes s' ↦ handle_all rest s'
  ]

  module _ (serde : Serde) where
    -- `serve` as far as the engines' answers go; a peer that closes ends it.
    unfoldable pub serve : List Engines → List ℕ → Session → Flow
    unfolding handle_event
    serve [] bytes s = goes s
    serve (engines ∷ rest) bytes s = elim (read_event serde bytes) [
      | err error ↦ ends s error
      | ok none ↦ goes s
      | ok (some (e, bytes')) ↦ elim (handle_event engines s e) [
        | ends s' error ↦ ends s' error
        | goes s' ↦ serve rest bytes' s'
      ]
    ]
