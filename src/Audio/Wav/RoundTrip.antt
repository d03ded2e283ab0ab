-- ===== src/Audio/Wav/RoundTrip.antt =====
-- A WAV file of the hub's is read back.
use homeassistant_local_voic.Base.{
  ℕ, zero, suc, ◌+◌, ◌-◌, ◌*◌, ◌^◌, ◌≡◌, refl, ap, ◌∙◌, ◌<◌, ◌≤◌, true, false, List, [], ◌∷◌, ◌++◌,
  none, some, arith, length, take, take-whole, ltb,
}
use homeassistant_local_voic.Base.Text.{text_eq}
use homeassistant_local_voic.Base.Int.{ℤ}
use homeassistant_local_voic.Base.Bytes.{from_le-to_le_two, from_le-to_le_four}
use homeassistant_local_voic.Base.Result.{ok}
use homeassistant_local_voic.Audio.{Format}
use homeassistant_local_voic.Audio.Wav.{
  done, next, chunk_step, parse_from, parse_wav, is_riff, wav_bytes, wav_header, sample_bytes,
  data_end, u32_or_max,
}

pub length-sample_bytes : (pcm : List ℤ) → length (sample_bytes pcm) ≡ length pcm * 2
unfolding sample_bytes
length-sample_bytes [] = refl
length-sample_bytes (s ∷ pcm) = omega (arith, length-sample_bytes pcm)

module _ (n rate channels : ℕ) (body : List ℕ) (fits : n < 2 ^ 32 - 1) (is_body : length body ≡ n)
    (rate_fits : rate < 2 ^ 32) (channels_fit : channels < 2 ^ 16) where
  abbrev file : List ℕ
  file = wav_header n rate channels ++ body

  length-file : length file ≡ 44 + n
  unfolding wav_header
  length-file = omega (arith, is_body)

  roomy : (m : ℕ) → m < 45 → ltb (length file) m ≡ false
  roomy m h = ground (arith, length-file)

  riff : is_riff file ≡ true
  unfolding wav_header text_eq
  riff = rw (roomy 12 (omega arith)) refl

  first :
      chunk_step file 12 none
      ≡ next 36 (some (record { rate = rate; width = 2; channels = channels }))
  unfolding wav_header chunk_step text_eq
  first = rw (roomy 20 (omega arith)) (
      rw (roomy 36 (omega arith)) (
        rw (from_le-to_le_two channels channels_fit) (rw (from_le-to_le_four rate rate_fits) refl)))

  second : (format : Format) → chunk_step file 36 (some format) ≡ done (ok (format, body))
  unfolding wav_header chunk_step text_eq
  second format =
      let whole : data_end 44 n file - 44 ≡ length body = ground (arith, length-file, is_body) in
      rw (roomy 44 (omega arith)) (
        rw (from_le-to_le_four n (omega arith)) (
          ap (λ k. done (ok (format, take k body))) whole
          ∙ ap (λ x. done (ok (format, x))) (take-whole body)))

  abbrev format : Format
  format = record { rate = rate; width = 2; channels = channels }

  from_start : (fuel : ℕ) → 2 ≤ fuel → parse_from fuel file 12 none ≡ some (ok (format, body))
  unfolding parse_from
  from_start (suc (suc fuel)) h = rw (first, parse_from) (rw (second format, parse_from) refl)
  from_start zero h = absurd (omega arith)
  from_start (suc zero) h = absurd (omega arith)

  parse_wav-file : parse_wav file ≡ some (ok (format, body))
  unfolding parse_wav
  parse_wav-file = rw (riff, parse_wav) (from_start (length file) (omega (arith, length-file)))

-- `parse_wav` reads back what `wav_bytes` wrote, the format and the bytes of the samples, as long as the
-- sizes fit their fields.
pub parse_wav-wav_bytes :
    (pcm : List ℤ) (rate channels : ℕ)
    → length pcm * 2 < 2 ^ 32 - 1
    → rate < 2 ^ 32
    → channels < 2 ^ 16
    → parse_wav (wav_bytes pcm rate channels)
      ≡ some (ok (record { rate = rate; width = 2; channels = channels }, sample_bytes pcm))
unfolding wav_bytes
parse_wav-wav_bytes pcm rate channels fits rate_fits channels_fit =
    let same : u32_or_max (length pcm * 2) ≡ length pcm * 2 = omega arith in
    rw same (
      parse_wav-file (length pcm * 2) rate channels (sample_bytes pcm) fits
        (length-sample_bytes pcm) rate_fits channels_fit)
