-- ===== src/Wyoming/Server/Utterance.antt =====
-- The audio between a start and a stop.
use homeassistant_local_voic.Base.{
  ℕ, ◌≡◌, refl, sym, ap, ◌∙◌, true, none, some, List, [], ◌∷◌, ◌++◌, arith, All, if◌then◌else◌,
}
use mathlib.Core.List.{append_assoc, append-nil}
use homeassistant_local_voic.Base.Text.{codes, text_eq, is_empty}
use homeassistant_local_voic.Json.{Fields}
use homeassistant_local_voic.Audio.{Format, stt_format, same_format, to_mono_i16}
use homeassistant_local_voic.Wyoming.Protocol.{Event}
use homeassistant_local_voic.Wyoming.Server.{
  stt_rate, format_of, Engines, Session, Flow, goes, ends, Setup, emit, transcript, add_chunk,
  transcribe, answer_text, audio_stop, handle_event, handle_all,
}

-- A chunk with its fields and its bytes, and the engines at that time.
abbrev pub Piece : Type 0
Piece = (Fields × List ℕ) × Engines

abbrev pub start_event : Fields → Event
start_event m = record { kind = codes "audio-start"; event_data = m; payload = none }

abbrev pub stop_event : Fields → Event
stop_event m = record { kind = codes "audio-stop"; event_data = m; payload = none }

abbrev pub chunk_events : List Piece → List (Event × Engines)
chunk_events [] = []
chunk_events (((m, p), engines) ∷ rest) =
    (record { kind = codes "audio-chunk"; event_data = m; payload = some p }, engines)
    ∷ chunk_events rest

abbrev pub bytes_of : List Piece → List ℕ
bytes_of [] = []
bytes_of (((m, p), engines) ∷ rest) = p ++ bytes_of rest

abbrev pub Keeps : Format → Piece → Type 0
Keeps f c = format_of c.0.0 f ≡ f

same_format_refl : (f : Format) → same_format f f ≡ true
same_format_refl f = ground arith

rest_of : (x : Flow) → elim x [ ends s e ↦ ends s e | goes s ↦ goes s ] ≡ x
rest_of (ends s e) = refl
rest_of (goes s) = refl

add_chunk-same :
    (m : Fields) (f : Format) (buf p : List ℕ)
    → format_of m f ≡ f
    → add_chunk (format_of m f) p ((f, buf) ∷ []) ≡ (f, buf ++ p) ∷ []
unfolding add_chunk
add_chunk-same m f buf p same =
    ap (λ g. add_chunk g p ((f, buf) ∷ [])) same ∙ rw (same_format_refl f) refl

module _ (setup : Setup) where
  -- The chunks of one format extend the segment.
  chunks-append :
      (f : Format) (cs : List Piece) (buf : List ℕ) (rest : List (Event × Engines)) (s : Session)
      → All (Keeps f) cs
      → handle_all setup
          (chunk_events cs ++ rest)
          (record s { format = f; segments = (f, buf) ∷ [] })
        ≡ handle_all setup rest (record s { format = f; segments = (f, buf ++ bytes_of cs) ∷ [] })
  unfolding handle_all handle_event add_chunk text_eq
  chunks-append f [] buf rest s h =
      ap (λ b. handle_all setup rest (record s { format = f; segments = (f, b) ∷ [] }))
        (sym (append-nil buf))
  chunks-append f (((m, p), engines) ∷ cs) buf rest s (same, h) =
      ap (λ x. handle_all setup (chunk_events cs ++ rest) (record s { format = f; segments = x }))
        (add_chunk-same m f buf p same)
      ∙ chunks-append f cs (buf ++ p) rest s h
      ∙ ap (λ b. handle_all setup rest (record s { format = f; segments = (f, b) ∷ [] }))
          (append_assoc buf p (bytes_of cs))

  -- The audio between an audio-start and an audio-stop, in one or more chunks whose fields keep the
  -- format of the start, is handled as one block: however it is cut into chunks, and whatever was
  -- received before, its conversion is transcribed, or answered with an empty text if it is empty.
  pub handle_all-transcribe :
      (m stop : Fields) (before after : Engines) (c : Piece) (cs : List Piece) (s : Session)
      → Keeps (format_of m stt_format) c × All (Keeps (format_of m stt_format)) cs
      → let f = format_of m stt_format in
        let pcm = to_mono_i16 setup.float (bytes_of (c ∷ cs)) f stt_rate in
        let taken : Session = record s { format = f; segments = [] } in
        handle_all setup
          ((start_event m, before) ∷ (chunk_events (c ∷ cs) ++ ((stop_event stop, after) ∷ [])))
          s
        ≡ (if is_empty pcm
            then goes (emit taken (transcript []))
            else answer_text setup taken (transcribe setup after s.gpu pcm))
  unfolding handle_all handle_event audio_stop add_chunk text_eq
  handle_all-transcribe m stop before after ((n, p), engines) cs s (same, h) =
      let f = format_of m stt_format in
      ap
        (λ g.
          handle_all setup (chunk_events cs ++ ((stop_event stop, after) ∷ []))
            (record s { format = f; segments = (g, p) ∷ [] }))
        same
      ∙ chunks-append f cs p ((stop_event stop, after) ∷ []) s h
      ∙ rest_of _
      ∙ rw (append-nil (to_mono_i16 setup.float (p ++ bytes_of cs) f stt_rate)) refl
