-- ===== src/Tests/Sayings.antt =====
-- Runs of the speech engine.
use homeassistant_local_voic.Base.{
  ◌≡◌, refl, true, false, none, some, List, [], ◌∷◌, ◌==◌, ◌&&◌, leb, ◌+◌, All, arith,
  if◌then◌else◌,
}
use homeassistant_local_voic.Base.Result.{ok}
use homeassistant_local_voic.Base.Text.{
  Text, codes, trim, trim_start_matches, trim_end_matches, lines, join, starts_with,
}
use homeassistant_local_voic.Gpu.{Gpu, new_gpu}
use homeassistant_local_voic.Tts.{
  Patterns, answered, ends_mark, trim_markup, finished, sentences, replace_from, speak_degrees,
  speakable,
}
use homeassistant_local_voic.Tts.Faults.{LowersFront, reports, reports-received}
use homeassistant_local_voic.Tts.Spoken.{degree_sign, speakable-marks}

abbrev lower_ascii : Text → Text
lower_ascii [] = []
lower_ascii (c ∷ cs) = (if leb 65 c && leb c 90 then c + 32 else c) ∷ lower_ascii cs

lower_ascii-LowersFront : LowersFront lower_ascii
lower_ascii-LowersFront rest = refl

abbrev speaking : Gpu
speaking = new_gpu true true

reports-received_example :
    (reports lower_ascii speaking (
      answered 500 (ok []) none
      ∷ answered 500 (ok []) (some (codes "out of memory"))
      ∷ answered 500 (ok []) (some [])
      ∷ [])).lost
    ≡ true
reports-received_example =
    reports-received lower_ascii speaking none (some (codes "out of memory")) (some []) (ok [])
      (ok []) (ok []) lower_ascii-LowersFront refl (ground arith)

abbrev plain : Patterns
plain = record {
  drop_code = λ t. t;
  open_links = λ t. t;
  drop_emphasis = [];
  drop_prefix = λ t. t;
  join_spaces = λ t. t;
}

abbrev forecast : Text
forecast = codes "Today it is 12°C.\n* rain in the evening"

spoken_forecast : speakable plain forecast ≡ codes "Today it is 12 degrees. rain in the evening."
unfolding speakable sentences lines join speak_degrees trim trim_markup finished ends_mark
    replace_from starts_with trim_start_matches trim_end_matches
spoken_forecast = refl

speakable-marks_example :
    (ss : List Text) × All (λ l. ends_mark l ≡ true) ss
    × (speakable plain forecast ≡ trim (speak_degrees (join (codes " ") ss)))
    × All (λ c. (c == degree_sign) ≡ false) (speakable plain forecast)
speakable-marks_example = speakable-marks plain forecast (λ t h. h)
