-- ===== src/Wyoming/Server/Reply.antt =====
-- The answer to `synthesize`.
use homeassistant_local_voic.Base.{
  ℕ, ◌<◌, ◌≤◌, ◌≡◌, refl, sym, ap, ◌∙◌, true, false, Option, none, some, List, [], ◌∷◌, ◌++◌, arith,
  All, length, Bool-cases, inl, inr,
}
use homeassistant_local_voic.Base.Text.{Text, is_empty, concat}
use homeassistant_local_voic.Base.Bytes.{chunks, concat-chunks, chunks_small}
use homeassistant_local_voic.Base.Result.{Result, ok, err}
use homeassistant_local_voic.Json.{Fields}
use homeassistant_local_voic.Gpu
use homeassistant_local_voic.Gpu.{Gpu, success, failure}
use homeassistant_local_voic.Audio.{Format}
use homeassistant_local_voic.Audio.Wav.{Output, parse_wav}
use homeassistant_local_voic.Audio.Wav.Ends.{parse_wav_ends}
use homeassistant_local_voic.Wyoming.Server.{
  Engines, Session, Flow, goes, ends, Setup, emit, stopped, started, sounds, chunk_bytes, say,
  synthesize, text_of, voice_of, gpu_busy, reported, write_wav, write_parsed,
}

-- A piece holds at most 4096 frames, or one byte.
abbrev pub Small : Format → List ℕ → Type 0
Small f piece = (0 < length piece) × (length piece ≤ chunk_bytes f)

-- What the peer gets: nothing to say; or, for a text that is not empty, an error with nothing written, or
-- the sound of the WAV file in pieces between its start and its stop. The engine is asked only for such a
-- text and on a free GPU.
pub data Reply (setup : Setup) (engines : Engines) (s : Session) (text : Text) (voice : Option Text)
    : Flow → Type 0 where
  silent : is_empty text ≡ true → Reply setup engines s text voice (goes (emit s stopped))
  busy :
      is_empty text ≡ false
      → engines.gpu_free ≡ false
      → Reply setup engines s text voice (ends s (gpu_busy setup))
  failed :
      (e : Text)
      → is_empty text ≡ false
      → engines.gpu_free ≡ true
      → engines.speaks text voice ≡ err e
      → Reply setup engines s text voice
          (ends (record s { gpu = failure setup.to_lowercase s.gpu Gpu.tts e }) e)
  unreadable :
      (wav : List ℕ) (e : Text)
      → is_empty text ≡ false
      → engines.gpu_free ≡ true
      → engines.speaks text voice ≡ ok wav
      → parse_wav wav ≡ some (err e)
      → Reply setup engines s text voice (ends (record s { gpu = success s.gpu Gpu.tts }) e)
  spoken :
      (wav : List ℕ) (f : Format) (pieces : List (List ℕ))
      → is_empty text ≡ false
      → engines.gpu_free ≡ true
      → engines.speaks text voice ≡ ok wav
      → parse_wav wav ≡ some (ok (f, concat pieces))
      → All (Small f) pieces
      → Reply setup engines s text voice (
          goes (record s {
            gpu = success s.gpu Gpu.tts;
            written = s.written ++ (started f ∷ sounds f pieces) ++ (stopped ∷ []);
          }))

module _ (setup : Setup) (engines : Engines) (s : Session) (m : Fields) where
  abbrev spoken_text : Text
  spoken_text = setup.speakable (text_of m)

  parsed-Reply :
      (wav : List ℕ)
      → is_empty spoken_text ≡ false
      → engines.gpu_free ≡ true
      → engines.speaks spoken_text (voice_of m) ≡ ok wav
      → (o : Option Output) → parse_wav wav ≡ o
      → Reply setup engines s spoken_text
          (voice_of m)
          (write_parsed setup (record s { gpu = success s.gpu Gpu.tts }) o)
  parsed-Reply wav full free q none p =
      absurd (let (r, e) = parse_wav_ends wav in let bad = sym e ∙ p in cc)
  parsed-Reply wav full free q (some (err e)) p = unreadable wav e full free q p
  parsed-Reply wav full free q (some (ok (f, pcm))) p =
      let positive : 0 < chunk_bytes f = omega arith in
      spoken wav f (chunks (chunk_bytes f) pcm) full free q
        (p ∙ ap (λ x. some (ok (f, x))) (sym (concat-chunks (chunk_bytes f) pcm positive)))
        (chunks_small (chunk_bytes f) pcm positive)

  when_busy :
      engines.gpu_free ≡ false
      → synthesize setup engines s.gpu spoken_text (voice_of m) ≡ (s.gpu, err (gpu_busy setup))
  unfolding synthesize
  when_busy q = rw q refl

  when_free :
      engines.gpu_free ≡ true
      → synthesize setup engines s.gpu spoken_text (voice_of m) ≡ (
        reported setup Gpu.tts s.gpu (engines.speaks spoken_text (voice_of m)),
        engines.speaks spoken_text (voice_of m),
      )
  unfolding synthesize
  when_free q = rw q refl

  -- `synthesize` is answered in one of five ways: with a mere stop exactly for an empty text; for any
  -- other with an error and nothing written, where the GPU stays busy, or, on a free GPU, the engine fails
  -- or its WAV file is bad; else, on a free GPU, with a start, the sound of the WAV file, complete, in pieces of at most 4096 frames (of one byte, where a
  -- frame has none), and a stop. A success or failure of the engine is reported to the count of GPU
  -- faults.
  pub say-Reply : Reply setup engines s spoken_text (voice_of m) (say setup engines s m)
  unfolding say
  say-Reply = elim (Bool-cases (is_empty spoken_text)) [
    | inl nothing ↦ rw (say, nothing) (silent nothing)
    | inr something ↦ elim (Bool-cases engines.gpu_free) [
      | inr taken ↦ rw (say, something, when_busy taken) (busy something taken)
      | inl free ↦
          rw (say, something, when_free free)
            (go something free (engines.speaks spoken_text (voice_of m)) refl)
    ]
  ]
    where
      go :
          is_empty spoken_text ≡ false
          → engines.gpu_free ≡ true
          → (r : Result (List ℕ)) → engines.speaks spoken_text (voice_of m) ≡ r
          → Reply setup engines s spoken_text
              (voice_of m)
              (write_wav setup s (reported setup Gpu.tts s.gpu r, r))
      go full free (err e) q = failed e full free q
      go full free (ok wav) q = parsed-Reply wav full free q (parse_wav wav) refl
