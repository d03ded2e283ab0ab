-- ===== src/Tts.antt =====
-- src/tts.rs: the request to the speech engine, the spec of its process, and `speakable`, with the regular
-- expressions as parameters.
pub mod Spoken
pub mod Faults
use homeassistant_local_voic.Base.{
  ℕ, zero, suc, ◌-◌, Bool, true, false, Option, none, some, List, [], ◌∷◌, ◌++◌, not, ◌&&◌, ◌||◌,
  leb, ◌==◌, any, take, length, unwrap_or, if◌then◌else◌,
}
use mathlib.Core.List.{reverse}
use homeassistant_local_voic.Base.Result.{Result, ok, err, ◌>>=◌}
use homeassistant_local_voic.Base.Text.{
  Text, codes, trim, trim_start_matches, trim_end_matches, lines, join, is_empty, to_string,
  starts_with,
}
use homeassistant_local_voic.Json.{Value, obj, str, num, bool, arr, field, end, cons, nil}
use homeassistant_local_voic.Supervisor.{Health, ChildSpec}
use homeassistant_local_voic.Config.Env.Settings.{TtsConfig, backend_name}

pub record AudioCpp : Type 0 where
  pub base : Text
  pub model_id : Text
  pub default_voice : Text

abbrev pub local_url : ℕ → Text
local_url port = codes "http://127.0.0.1:" ++ to_string port

unfoldable pub new_audio_cpp : TtsConfig → AudioCpp
new_audio_cpp cfg = record {
  base = local_url cfg.internal_port;
  model_id = cfg.model_id;
  default_voice = cfg.voice_id;
}

-- No answer, or a status with the body; `none` is a body that cannot be read to its end.
pub data Reply : Type 0 where
  unreachable : Text → Reply
  answered : ℕ → Result (List ℕ) → Option Text → Reply

abbrev pub is_success : ℕ → Bool
is_success status = leb 200 status && leb status 299

abbrev pub speech_body : AudioCpp → Text → Option Text → Value
speech_body engine text voice = obj (
    field (codes "model") (str engine.model_id) (
      field (codes "input") (str text)
        (field (codes "voice") (str (unwrap_or voice engine.default_voice)) end)))

unfoldable pub http_error : ℕ → Text → Text
http_error status body = codes "HTTP error " ++ (to_string status ++ (codes ": " ++ take 200 body))

-- The answer to the request: sound, or an error.
unfoldable pub received : Reply → Result (List ℕ)
unfolding http_error
received (unreachable message) = err message
received (answered status bytes text) =
    if is_success status then bytes else err (http_error status (unwrap_or text []))

unfoldable pub synthesize : AudioCpp → (Text → Value → Reply) → Text → Option Text → Result (List ℕ)
unfolding received
synthesize engine post text voice =
    received (post (engine.base ++ codes "/v1/audio/speech") (speech_body engine text voice))

abbrev pub answers_well : Reply → Bool
answers_well (unreachable message) = false
answers_well (answered status bytes text) = is_success status

unfoldable pub healthy : AudioCpp → (Text → Reply) → Bool
healthy engine get = answers_well (get (engine.base ++ codes "/health"))

abbrev language_options : TtsConfig → Value
language_options cfg = obj (field (codes "language") (str cfg.language) end)

-- The configuration file of audiocpp_server.
unfoldable pub server_config : TtsConfig → Value
unfolding backend_name
server_config cfg = obj (
    field (codes "host") (str (codes "127.0.0.1")) (
      field (codes "port") (num cfg.internal_port) (
        field (codes "backend") (str (backend_name cfg.backend)) (
          field (codes "device") (num cfg.vk_device) (
            field (codes "threads") (num (unwrap_or cfg.threads 2)) (
              field (codes "lazy_load") (bool true)
                (field (codes "models") (arr (cons (model) nil)) end)))))))
  where
    model : Value
    model = obj (
        field (codes "id") (str cfg.model_id) (
          field (codes "family") (str (codes "pocket_tts")) (
            field (codes "path") (str cfg.dir) (
              field (codes "task") (str (codes "tts")) (
                field (codes "mode") (str (codes "offline")) (
                  field (codes "load_options") (language_options cfg) (
                    field (codes "session_options") (language_options cfg) (
                      field (codes "default_voice_preset")
                        (obj (field (codes "voice_id") (str cfg.voice_id) end)) end))))))))

-- `write` is what writing the configuration to `path` gives.
unfoldable pub child_spec : TtsConfig → Text → (Text → Value → Result (Unit {0})) → Result ChildSpec
unfolding server_config
child_spec cfg path write = write path (server_config cfg) >>= λ _. ok (record {
  name = codes "audiocpp";
  program = cfg.server_bin;
  args = codes "--config" ∷ path ∷ [];
  env = [];
  env_remove = [];
  health = some (record {
    url = local_url cfg.internal_port ++ codes "/health";
    start_grace = 120_000;
    interval = 30_000;
    timeout = 10_000;
    failures = 4;
  });
  restart_when_healthy = false;
})

-- CODE_BLOCK, LINK, the four of EMPHASIS, LINE_PREFIX and SPACES, each with its replacement.
pub record Patterns : Type 0 where
  pub drop_code : Text → Text
  pub open_links : Text → Text
  pub drop_emphasis : List (Text → Text)
  pub drop_prefix : Text → Text
  pub join_spaces : Text → Text

abbrev pub apply_all : List (Text → Text) → Text → Text
apply_all [] text = text
apply_all (f ∷ fs) text = apply_all fs (f text)

abbrev pub is_markup : ℕ → Bool
is_markup c = any (λ m. m == c) (codes " *_`#|")

abbrev pub is_mark : ℕ → Bool
is_mark c = any (λ m. m == c) (codes ".!?:;,")

unfoldable pub trim_markup : Text → Text
unfolding trim_start_matches trim_end_matches
trim_markup line = trim_end_matches is_markup (trim_start_matches is_markup line)

abbrev pub starts_mark : Text → Bool
starts_mark [] = false
starts_mark (c ∷ cs) = is_mark c

-- `line.ends_with(['.', '!', '?', ':', ';', ','])`.
unfoldable pub ends_mark : Text → Bool
ends_mark line = starts_mark (reverse line)

unfoldable pub finished : Text → Text
unfolding ends_mark
finished line = if ends_mark line then line else line ++ codes "."

unfoldable pub sentences : (Text → Text) → List Text → List Text
unfolding trim_markup finished
sentences drop_prefix [] = []
sentences drop_prefix (l ∷ ls) =
    let rest = sentences drop_prefix ls in
    let line = trim_markup (drop_prefix l) in if is_empty line then rest else finished line ∷ rest

-- `str::replace`; `skip` is what is left of the match.
unfoldable pub replace_from : ℕ → Text → Text → Text → Text
unfolding starts_with
replace_from skip part by [] = []
replace_from (suc skip) part by (c ∷ cs) = replace_from skip part by cs
replace_from zero part by (c ∷ cs) =
    let matched = by ++ replace_from (length part - 1) part by cs in
    let rest = c ∷ replace_from zero part by cs in
    if starts_with (c ∷ cs) part then matched else rest

abbrev pub degrees : Text
degrees = codes " degrees"

unfoldable pub speak_degrees : Text → Text
unfolding replace_from
speak_degrees text = replace_from 0 (codes "°") degrees (replace_from 0 (codes "°C") degrees text)

unfoldable pub speakable : Patterns → Text → Text
unfolding sentences lines join speak_degrees trim
speakable p text =
    let plain = apply_all p.drop_emphasis (p.open_links (p.drop_code text)) in
    trim (p.join_spaces (speak_degrees (join (codes " ") (sentences p.drop_prefix (lines plain)))))
