-- ===== src/Tests/Voice.antt =====
-- Runs of the audio formats and of the Wyoming server at concrete inputs, with floats that are integers.
use homeassistant_local_voic.Base.{
  ℕ, ◌+◌, ◌*◌, ◌≡◌, refl, true, some, List, [], ◌∷◌, ◌++◌, arith, if◌then◌else◌,
}
use homeassistant_local_voic.Base.Text.{codes, is_empty}
use homeassistant_local_voic.Base.Int.{ℤ, pos, negsuc, plus, negated, divided}
use homeassistant_local_voic.Base.Result.{ok}
use homeassistant_local_voic.Json
use homeassistant_local_voic.Json.{Fields}
use homeassistant_local_voic.Gpu.{new_gpu}
use homeassistant_local_voic.Audio.{Format, stt_format, Float, to_mono_i16}
use homeassistant_local_voic.Audio.Wav.{Output, sample_bytes, wav_bytes, parse_wav}
use homeassistant_local_voic.Audio.Wav.RoundTrip.{parse_wav-wav_bytes}
use homeassistant_local_voic.Audio.Wav.Ends.{parse_wav_ends}
use homeassistant_local_voic.Wyoming.Server.{
  stt_rate, format_of, Engines, Session, Setup, say, serve, handle_all, emit, goes, transcript,
  transcribe, answer_text, text_of, voice_of,
}
use homeassistant_local_voic.Wyoming.Server.Reply.{Reply, say-Reply}
use homeassistant_local_voic.Wyoming.Server.Stream.{sent, answers, serve-write_event}
use homeassistant_local_voic.Wyoming.Server.Utterance.{
  Piece, start_event, stop_event, chunk_events, bytes_of, handle_all-transcribe,
}
use homeassistant_local_voic.Tests.Speaking.{chunk, chunk-Fits}
use homeassistant_local_voic.Tests.Speaking.Codec.{codec}

abbrev samples : List ℤ
samples = pos 0 ∷ pos 1000 ∷ negsuc 999 ∷ pos 32767 ∷ []

abbrev wav : List ℕ
wav = wav_bytes samples 24000 1

parse_wav-wav_bytes_example :
    parse_wav wav
    ≡ some (ok (record { rate = 24000; width = 2; channels = 1 }, sample_bytes samples))
parse_wav-wav_bytes_example =
    parse_wav-wav_bytes samples 24000 1 (omega arith) (omega arith) (omega arith)

parse_wav_ends_example : (r : Output) × (parse_wav wav ≡ some r)
parse_wav_ends_example = parse_wav_ends wav

abbrev magnitude : ℤ → ℕ
magnitude (pos n) = n
magnitude (negsuc n) = n + 1

abbrev times : ℤ → ℤ → ℤ
times (pos m) (pos n) = pos (m * n)
times (pos m) (negsuc n) = negated (m * (n + 1))
times (negsuc m) (pos n) = negated ((m + 1) * n)
times (negsuc m) (negsuc n) = pos ((m + 1) * (n + 1))

abbrev opposite : ℤ → ℤ
opposite (pos n) = negated n
opposite (negsuc n) = pos (n + 1)

abbrev whole_numbers : Float
whole_numbers = record {
  F = ℤ;
  of_nat = pos;
  of_int = λ z. z;
  add = plus;
  sub = λ a b. plus a (opposite b);
  mul = times;
  div = λ a b. divided a (magnitude b);
  as_usize = λ z. elim z [ pos n ↦ n | negsuc n ↦ 0 ];
  round_as_i32 = λ z. z;
}

abbrev stereo : Format
stereo = record { rate = 32000; width = 1; channels = 2 }

abbrev stereo_bytes : List ℕ
stereo_bytes = 128 ∷ 130 ∷ 0 ∷ 255 ∷ 7 ∷ []

abbrev setup : Setup
setup = record {
  info = Json.null;
  has_stt = true;
  float = whole_numbers;
  to_lowercase = λ t. t;
  speakable = λ t. t;
}

abbrev engines : Engines
engines = record {
  gpu_free = true;
  hears = λ pcm. ok (codes "turn on the light");
  speaks = λ text voice. ok wav;
}

abbrev session : Session
session = record { format = stt_format; segments = []; gpu = new_gpu true true; written = [] }

abbrev request : Fields
request = Json.field (codes "text") (Json.str (codes "Hello")) Json.end

say-Reply_example :
    Reply setup engines session
      (setup.speakable (text_of request))
      (voice_of request)
      (say setup engines session request)
say-Reply_example = say-Reply setup engines session request

serve-write_event_example :
    serve setup codec
      (answers setup codec ((chunk, engines) ∷ []))
      (sent setup codec ((chunk, engines) ∷ []))
      session
    ≡ handle_all setup ((chunk, engines) ∷ []) session
serve-write_event_example =
    serve-write_event setup codec ((chunk, engines) ∷ []) session (chunk-Fits, tt)

kept : format_of Json.end (format_of Json.end stt_format) ≡ format_of Json.end stt_format
unfolding format_of Json.get_field
kept = refl

handle_all-transcribe_example :
    (let cs : List Piece =
        ((Json.end, 1 ∷ 2 ∷ []), engines) ∷ ((Json.end, 3 ∷ 4 ∷ []), engines) ∷ [] in
      let f = format_of Json.end stt_format in
      let pcm = to_mono_i16 whole_numbers (bytes_of cs) f stt_rate in
      let taken : Session = record session { format = f; segments = [] } in
      handle_all setup
        ((start_event Json.end, engines)
          ∷ (chunk_events cs ++ ((stop_event Json.end, engines) ∷ [])))
        session
      ≡ (if is_empty pcm
          then goes (emit taken (transcript []))
          else answer_text setup taken (transcribe setup engines session.gpu pcm)))
handle_all-transcribe_example =
    handle_all-transcribe setup Json.end Json.end engines engines ((Json.end, 1 ∷ 2 ∷ []), engines)
      (((Json.end, 3 ∷ 4 ∷ []), engines) ∷ []) session (kept, (kept, tt))
