-- ===== src/Audio.antt =====
-- src/audio.rs: PCM samples and WAV files. A sample is its value; floats are an interface, with the
-- operations that the resampling calls.
pub mod Wav
pub mod Mono
use homeassistant_local_voic.Base.{
  ℕ, zero, suc, ◌+◌, ◌-◌, ◌*◌, ◌/◌, ◌%◌, min, max, Bool, List, [], ◌∷◌, ◌++◌, Option, none, some,
  map, length, get_elem?, ltb, ◌==◌, ◌||◌, ◌&&◌, if◌then◌else◌, unwrap_or,
}
use homeassistant_local_voic.Base.Text.{is_empty}
use homeassistant_local_voic.Base.Int.{
  ℤ, pos, negsuc, plus, divided, high_half, centred, times_256, signed16, signed32, clamp16,
}
use homeassistant_local_voic.Base.Bytes.{from_le, chunks_exact}

pub record Format : Type 0 where
  pub rate : ℕ
  pub width : ℕ
  pub channels : ℕ

abbrev pub same_format : Format → Format → Bool
same_format f g = (f.rate == g.rate) && ((f.width == g.width) && (f.channels == g.channels))

abbrev pub stt_format : Format
stt_format = record { rate = 16000; width = 2; channels = 1 }

unfoldable pub decode_sample : List ℕ → ℤ
decode_sample (a ∷ []) = times_256 (centred a)
decode_sample (a ∷ b ∷ []) = signed16 (from_le (a ∷ b ∷ []))
decode_sample (a ∷ b ∷ c ∷ []) = high_half (signed32 (from_le (0 ∷ a ∷ b ∷ c ∷ [])))
decode_sample (a ∷ b ∷ c ∷ d ∷ []) = high_half (signed32 (from_le (a ∷ b ∷ c ∷ d ∷ [])))
decode_sample _ = pos 0

abbrev sum_from : ℤ → List ℤ → ℤ
sum_from s [] = s
sum_from s (x ∷ xs) = sum_from (plus s x) xs

abbrev pub mix_frame : ℕ → ℕ → List ℕ → ℤ
mix_frame width channels f =
    divided (sum_from (pos 0) (map decode_sample (chunks_exact width f))) channels

unfoldable pub mono_of : List ℕ → Format → List ℤ
unfolding decode_sample chunks_exact
mono_of bytes from =
    let width = max from.width 1 in
    let channels = max from.channels 1 in
    map (mix_frame width channels) (chunks_exact (width * channels) bytes)

-- The operations of `f64` that `to_mono_i16` uses: conversions, the four operations, `as usize` and
-- `round() as i32`.
pub record Float : Type 1 where
  pub F : Type 0
  pub of_nat : ℕ → F
  pub of_int : ℤ → F
  pub add : F → F → F
  pub sub : F → F → F
  pub mul : F → F → F
  pub div : F → F → F
  pub as_usize : F → ℕ
  pub round_as_i32 : F → ℤ

module _ (float : Float) where
  open float use {of_nat, of_int, add, sub, mul, div, as_usize, round_as_i32}

  -- The sample at `i`, or the last one.
  sample_at : List ℤ → ℕ → ℤ
  sample_at mono i = unwrap_or (get_elem? mono (min i (length mono - 1))) (pos 0)

  interpolated : List ℤ → ℕ → ℕ → ℕ → ℤ
  interpolated mono from rate i =
      let place = mul (of_nat i) (div (of_nat from) (of_nat rate)) in
      let idx = as_usize place in
      let frac = sub place (of_nat idx) in
      let a = of_int (sample_at mono idx) in
      let b = of_int (sample_at mono (idx + 1)) in
      clamp16 (round_as_i32 (add a (mul (sub b a) frac)))

  -- `(i..i + n).map(f)`.
  abbrev pub rounds : (ℕ → ℤ) → ℕ → ℕ → List ℤ
  rounds f i zero = []
  rounds f i (suc n) = f i ∷ rounds f (i + 1) n

  unfoldable pub to_mono_i16 : List ℕ → Format → ℕ → List ℤ
  unfolding mono_of interpolated sample_at
  to_mono_i16 bytes from rate =
      let mono = mono_of bytes from in
      if (from.rate == rate) || ((from.rate == 0) || is_empty mono)
      then map clamp16 mono
      else rounds (interpolated mono from.rate rate) 0 (length mono * rate / from.rate)
