-- ===== src/Audio/Wav/Ends.antt =====
-- The loop over the chunks ends.
use homeassistant_local_voic.Base.{
  ℕ, zero, suc, ◌+◌, ◌≡◌, refl, ◌<◌, ◌≤◌, List, Option, none, some, arith, length, Bool-cases, inl,
  inr,
}
use homeassistant_local_voic.Base.Text.{codes}
use homeassistant_local_voic.Base.Result.{err}
use homeassistant_local_voic.Audio.{Format}
use homeassistant_local_voic.Audio.Wav.{
  Output, Step, done, next, chunk_step, parse_from, parse_wav, is_riff,
}

-- A round that goes on is within the file and moves on by a chunk header at least.
chunk_step_moves :
    (bytes : List ℕ) (pos : ℕ) (format : Option Format) {pos' : ℕ} {format' : Option Format}
    → chunk_step bytes pos format ≡ next pos' format'
    → (pos + 8 ≤ length bytes) × (pos + 8 ≤ pos')
unfolding chunk_step
chunk_step_moves bytes pos format {pos'} {format'} h = ground arith

parse_from_ends :
    (fuel : ℕ) (bytes : List ℕ) (pos : ℕ) (format : Option Format)
    → 0 < fuel
    → length bytes < fuel + pos
    → (r : Output) × (parse_from fuel bytes pos format ≡ some r)
unfolding parse_from
parse_from_ends zero bytes pos format p h = absurd (omega arith)
parse_from_ends (suc fuel) bytes pos format p h =
    go (parse_from_ends fuel bytes) (chunk_step bytes pos format) refl
  where
    go :
        ((pos' : ℕ) (format' : Option Format)
          → 0 < fuel
          → length bytes < fuel + pos'
          → (r : Output) × (parse_from fuel bytes pos' format' ≡ some r))
        → (s : Step) → chunk_step bytes pos format ≡ s
        → (r : Output) × (parse_from (suc fuel) bytes pos format ≡ some r)
    go ih (done r) q = (r, rw (q, parse_from) refl)
    go ih (next pos' format') q =
        let (within, further) = chunk_step_moves bytes pos format q in
        let (r, e) = ih pos' format' (omega arith) (omega arith) in (r, rw (q, parse_from) e)

-- `parse_wav` ends on every input: no chunk sizes send it round for ever, and the length of the input
-- bounds its rounds.
pub parse_wav_ends : (bytes : List ℕ) → (r : Output) × (parse_wav bytes ≡ some r)
unfolding parse_wav
parse_wav_ends bytes = elim (Bool-cases (is_riff bytes)) [
  | inr other ↦ (err (codes "TTS response is not a RIFF/WAV file"), rw (other, parse_wav) refl)
  | inl riff ↦
      let long : 12 ≤ length bytes = ground arith in
      let (r, e) = parse_from_ends (length bytes) bytes 12 none (omega arith) (omega arith) in
      (r, rw (riff, parse_wav) e)
]
