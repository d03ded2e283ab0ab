-- ===== src/Audio/Wav.antt =====
-- WAV files. A sum of `u32`s wraps around; positions in a file are `usize` and do not.
pub mod RoundTrip
pub mod Ends
use homeassistant_local_voic.Base.{
  ℕ, zero, suc, ◌+◌, ◌-◌, ◌*◌, ◌/◌, ◌%◌, ◌^◌, min, Bool, true, false, List, [], ◌∷◌, ◌++◌, Option,
  none, some, length, take, drop, ltb, ◌==◌, ◌||◌, not, if◌then◌else◌,
}
use homeassistant_local_voic.Base.Text.{Text, codes, text_eq}
use homeassistant_local_voic.Base.Int.{ℤ, pattern16}
use homeassistant_local_voic.Base.Bytes.{to_le, from_le}
use homeassistant_local_voic.Base.Result.{Result, ok, err}
use homeassistant_local_voic.Audio.{Format}

abbrev u32 : ℕ → ℕ
u32 n = n % 2 ^ 32

abbrev u16 : ℕ → ℕ
u16 n = n % 2 ^ 16

-- `u32::try_from(..).unwrap_or(u32::MAX)`.
abbrev u32_or_max : ℕ → ℕ
u32_or_max n = min n (2 ^ 32 - 1)

unfoldable pub sample_bytes : List ℤ → List ℕ
sample_bytes [] = []
sample_bytes (s ∷ pcm) = to_le 2 (pattern16 s) ++ sample_bytes pcm

unfoldable pub wav_header : ℕ → ℕ → ℕ → List ℕ
wav_header data_len rate channels =
    codes "RIFF"
    ++ (to_le 4 (u32 (36 + data_len))
        ++ (codes "WAVEfmt "
            ++ (to_le 4 16
                ++ (to_le 2 1
                    ++ (to_le 2 channels
                        ++ (to_le 4 rate
                            ++ (to_le 4 (u32 (u32 (rate * channels) * 2))
                                ++ (to_le 2 (u16 (channels * 2))
                                    ++ (to_le 2 16 ++ (codes "data" ++ to_le 4 data_len))))))))))

unfoldable pub wav_bytes : List ℤ → ℕ → ℕ → List ℕ
unfolding wav_header sample_bytes
wav_bytes pcm rate channels =
    wav_header (u32_or_max (length pcm * 2)) rate channels ++ sample_bytes pcm

-- `&data[pos..pos + n]`, within the list.
abbrev pub at_pos : ℕ → ℕ → List ℕ → List ℕ
at_pos pos n bytes = take n (drop pos bytes)

abbrev pub format_at : ℕ → List ℕ → Format
format_at body bytes = record {
  channels = from_le (at_pos (body + 2) 2 bytes);
  rate = from_le (at_pos (body + 4) 4 bytes);
  width = from_le (at_pos (body + 14) 2 bytes) / 8;
}

abbrev pub Output : Type 0
Output = Result (Format × List ℕ)

-- One round of the loop: the result, or the next position and format.
pub data Step : Type 0 where
  done : Output → Step
  next : ℕ → Option Format → Step

abbrev data_end : ℕ → ℕ → List ℕ → ℕ
data_end body size bytes =
    if (size == 0) || (size == 2 ^ 32 - 1) then length bytes else min (body + size) (length bytes)

abbrev data_chunk : ℕ → ℕ → List ℕ → Option Format → Output
data_chunk body size bytes none = err (codes "WAV data before fmt")
data_chunk body size bytes (some fmt) =
    ok (fmt, at_pos body (data_end body size bytes - body) bytes)

unfoldable pub chunk_step : List ℕ → ℕ → Option Format → Step
chunk_step bytes pos format =
    let id = at_pos pos 4 bytes in
    let size = from_le (at_pos (pos + 4) 4 bytes) in
    let body = pos + 8 in
    let behind = body + size + size % 2 in
    if ltb (length bytes) (pos + 8)
    then done (err (codes "WAV without data chunk"))
    else if text_eq id (codes "fmt ")
    then (if ltb (length bytes) (body + 16)
        then done (err (codes "WAV fmt chunk truncated"))
        else next behind (some (format_at body bytes)))
    else if text_eq id (codes "data")
    then done (data_chunk body size bytes format)
    else next behind format

-- The loop, with at most `fuel` rounds; `none`: they were too few.
unfoldable pub parse_from : ℕ → List ℕ → ℕ → Option Format → Option Output
unfolding chunk_step
parse_from zero bytes pos format = none
parse_from (suc fuel) bytes pos format = elim (chunk_step bytes pos format) [
  | done r ↦ some r
  | next pos' format' ↦ parse_from fuel bytes pos' format'
]

abbrev pub is_riff : List ℕ → Bool
is_riff bytes = not (
    ltb (length bytes) 12
    || (not (text_eq (take 4 bytes) (codes "RIFF"))
        || not (text_eq (at_pos 8 4 bytes) (codes "WAVE"))))

unfoldable pub parse_wav : List ℕ → Option Output
unfolding parse_from
parse_wav bytes =
    if not (is_riff bytes)
    then some (err (codes "TTS response is not a RIFF/WAV file"))
    else parse_from (length bytes) bytes 12 none
