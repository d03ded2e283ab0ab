-- ===== src/Audio/Mono.antt =====
-- The samples of `to_mono_i16`.
use homeassistant_local_voic.Base.{
  ℕ, zero, suc, ◌+◌, ◌*◌, ◌/◌, ◌≡◌, refl, ap, ◌∙◌, false, List, [], ◌∷◌, arith, All, map, length,
  length-map, Bool-cases, inl, inr, ltb, ◌==◌, ◌||◌, if◌then◌else◌, ◌≤◌,
}
use homeassistant_local_voic.Base.Text.{is_empty}
use homeassistant_local_voic.Base.Int.{
  ℤ, divided, clamp16, IsI16, clamp16-IsI16, clamp16-same, signed16, signed16-pattern16, pattern16,
  pattern16_lt, plus-zero, divided-one,
}
use homeassistant_local_voic.Base.Bytes.{
  from_le, to_le, from_le-to_le_two, chunks_exact, pieces_exact,
}
use homeassistant_local_voic.Audio.{
  Format, stt_format, Float, to_mono_i16, mono_of, mix_frame, decode_sample, rounds, interpolated,
}
use homeassistant_local_voic.Audio.Wav.{sample_bytes}
use homeassistant_local_voic.Audio.Wav.RoundTrip.{length-sample_bytes}

-- The two bytes of a sample, as a frame of one channel.
mix-sample : (s : ℤ) → IsI16 s → mix_frame 2 1 (to_le 2 (pattern16 s)) ≡ s
unfolding decode_sample chunks_exact pieces_exact
mix-sample s h =
    ap (λ z. divided z 1)
      (plus-zero (signed16 (from_le (to_le 2 (pattern16 s))))
        ∙ ap signed16 (from_le-to_le_two (pattern16 s) (pattern16_lt s))
        ∙ signed16-pattern16 s h)
    ∙ divided-one s

pieces-samples :
    (fuel : ℕ) (pcm : List ℤ)
    → length pcm ≤ fuel
    → All IsI16 pcm
    → map (mix_frame 2 1) (pieces_exact fuel 2 (sample_bytes pcm)) ≡ pcm
unfolding pieces_exact sample_bytes
pieces-samples zero [] h a = refl
pieces-samples zero (s ∷ pcm) h a = absurd (omega arith)
pieces-samples (suc fuel) [] h a = refl
pieces-samples (suc fuel) (s ∷ pcm) h (is16, a) =
    let roomy : ltb (suc (suc (length (sample_bytes pcm)))) 2 ≡ false = ground arith in
    rw roomy (
      ap (λ z. z ∷ map (mix_frame 2 1) (pieces_exact fuel 2 (sample_bytes pcm))) (mix-sample s is16)
      ∙ ap (λ zs. s ∷ zs) (pieces-samples fuel pcm (omega arith) a))

map-clamp16 : (pcm : List ℤ) → All IsI16 pcm → map clamp16 pcm ≡ pcm
map-clamp16 [] a = refl
map-clamp16 (s ∷ pcm) (h, a) = rw (clamp16-same s h) (ap (λ zs. s ∷ zs) (map-clamp16 pcm a))

clamped : (xs : List ℤ) → All IsI16 (map clamp16 xs)
clamped [] = tt
clamped (x ∷ xs) = (clamp16-IsI16 x, clamped xs)

module _ (float : Float) where
  -- Sound in the format of the speech engine goes through unchanged.
  pub to_mono_i16-sample_bytes :
      (pcm : List ℤ)
      → All IsI16 pcm
      → to_mono_i16 float (sample_bytes pcm) stt_format stt_format.rate ≡ pcm
  unfolding to_mono_i16 mono_of chunks_exact
  to_mono_i16-sample_bytes pcm a =
      ap (map clamp16)
        (pieces-samples (length (sample_bytes pcm)) pcm (omega (arith, length-sample_bytes pcm)) a)
      ∙ map-clamp16 pcm a

  rounds-IsI16 :
      (mono : List ℤ) (from rate i n : ℕ)
      → All IsI16 (rounds float (interpolated float mono from rate) i n)
        × (length (rounds float (interpolated float mono from rate) i n) ≡ n)
  unfolding interpolated
  rounds-IsI16 mono from rate i zero = (tt, refl)
  rounds-IsI16 mono from rate i (suc n) =
      let (small, long) = rounds-IsI16 mono from rate (i + 1) n in
      ((clamp16-IsI16 _, small), ap suc long)

  -- Every sample of `to_mono_i16` is one of 16 bits, whatever the floats do; there is one for each frame
  -- of the source, or their number times the quotient of the rates, rounded down.
  pub to_mono_i16_bounds :
      (bytes : List ℕ) (from : Format) (rate : ℕ)
      → let n = length (mono_of bytes from) in
        All IsI16 (to_mono_i16 float bytes from rate)
        × (length (to_mono_i16 float bytes from rate) ≡ (
            if (from.rate == rate) || ((from.rate == 0) || is_empty (mono_of bytes from))
            then n
            else n * rate / from.rate))
  unfolding to_mono_i16
  to_mono_i16_bounds bytes from rate =
      let mono = mono_of bytes from in
      elim (Bool-cases ((from.rate == rate) || ((from.rate == 0) || is_empty mono))) [
        | inl copied ↦ rw (to_mono_i16, copied) (clamped mono, length-map clamp16 mono)
        | inr resampled ↦
            rw (to_mono_i16, resampled)
              (rounds-IsI16 mono from.rate rate 0 (length mono * rate / from.rate))
      ]
