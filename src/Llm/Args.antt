-- ===== src/Llm/Args.antt =====
-- src/llm/mod.rs, llamacpp.rs and ik.rs: the command lines of the two engines.
use homeassistant_local_voic.Base.{
  ℕ, Bool, true, false, not, ◌&&◌, Option, none, some, List, [], ◌∷◌, ◌++◌, ltb, ◌==◌, all, any,
  if◌then◌else◌,
}
use homeassistant_local_voic.Base.Text.{
  Text, codes, is_ascii_digit, is_empty, lines, split, split_once_at, split_whitespace, text_eq,
  to_string, trim_start,
}
use homeassistant_local_voic.Config.{
  Family, ling3, minicpm5, lfm3, qwen35, granite4, Ctx, k32, k64, k128, k256, LlmConfig, LlmSource,
  file, hf_repo,
}

preset_of : Family → Bool → List Text
preset_of minicpm5 true =
    codes "--temp" ∷ codes "0.9" ∷ codes "--top-p" ∷ codes "0.95" ∷ codes "--min-p" ∷ codes "0" ∷ []
preset_of minicpm5 false =
    codes "--temp" ∷ codes "0.7" ∷ codes "--top-p" ∷ codes "0.95" ∷ codes "--min-p" ∷ codes "0" ∷ []
preset_of lfm3 _ =
    codes "--temp"
    ∷ codes "0.1"
    ∷ codes "--top-k"
    ∷ codes "50"
    ∷ codes "--repeat-penalty"
    ∷ codes "1.1"
    ∷ []
preset_of qwen35 true =
    codes "--temp"
    ∷ codes "1.0"
    ∷ codes "--top-p"
    ∷ codes "0.95"
    ∷ codes "--top-k"
    ∷ codes "20"
    ∷ codes "--min-p"
    ∷ codes "0"
    ∷ codes "--presence-penalty"
    ∷ codes "1.5"
    ∷ []
preset_of qwen35 false =
    codes "--temp"
    ∷ codes "0.7"
    ∷ codes "--top-p"
    ∷ codes "0.8"
    ∷ codes "--top-k"
    ∷ codes "20"
    ∷ codes "--min-p"
    ∷ codes "0"
    ∷ codes "--presence-penalty"
    ∷ codes "1.5"
    ∷ []
preset_of ling3 _ =
    codes "--temp"
    ∷ codes "1.0"
    ∷ codes "--top-p"
    ∷ codes "0.95"
    ∷ codes "--top-k"
    ∷ codes "20"
    ∷ []
preset_of granite4 _ = codes "--temp" ∷ codes "0.0" ∷ []

unfoldable pub preset : LlmConfig → List Text
unfolding preset_of
preset cfg = preset_of cfg.family cfg.reasoning

ctx_of : Ctx → Family → List Text
ctx_of k32 _ = codes "-c" ∷ codes "32768" ∷ []
ctx_of k64 _ = codes "-c" ∷ codes "65536" ∷ []
ctx_of k128 _ = codes "-c" ∷ codes "131072" ∷ []
ctx_of k256 ling3 =
    codes "-c"
    ∷ codes "262144"
    ∷ codes "--rope-scaling"
    ∷ codes "yarn"
    ∷ codes "--rope-scale"
    ∷ codes "2"
    ∷ codes "--yarn-orig-ctx"
    ∷ codes "131072"
    ∷ []
ctx_of k256 _ = codes "-c" ∷ codes "262144" ∷ []

unfoldable pub ctx_args : LlmConfig → List Text
unfolding ctx_of
ctx_args cfg = ctx_of cfg.ctx cfg.family

-- What follows the last slash.
last_piece : List Text → Text
last_piece [] = []
last_piece (w ∷ []) = w
last_piece (w ∷ v ∷ ws) = last_piece (v ∷ ws)

-- `str::to_lowercase` is std's Unicode table.
unfoldable pub cache_key : (Text → Text) → Text → Text
unfolding last_piece split
cache_key to_lowercase repo =
    let want = to_lowercase repo in
    if any (λ c. c == b':') (last_piece (split (λ c. c == b'/') want))
    then want
    else want ++ codes ":q4_k_m"

abbrev first_eq : (Text → Text) → List Text → Text → Bool
first_eq to_lowercase [] key = false
first_eq to_lowercase (w ∷ ws) key = text_eq (to_lowercase w) key

-- One line of the output, like "  1. org/repo:q4_k_m".
cache_line : (Text → Text) → Text → Text → Bool
cache_line to_lowercase key line = elim (split_once_at (codes ". ") (trim_start line)) [
  | none ↦ false
  | some (num, rest) ↦
      all is_ascii_digit num
      && not (is_empty num)
      && first_eq to_lowercase (split_whitespace rest) key
]

unfoldable pub cache_list_contains : (Text → Text) → Text → Text → Bool
unfolding cache_line lines split_once_at trim_start split_whitespace is_ascii_digit text_eq
cache_list_contains to_lowercase output key = any (cache_line to_lowercase key) (lines output)

reasoning_args : LlmConfig → List Text
reasoning_args cfg =
    if cfg.reasoning
    then codes "--reasoning" ∷ codes "on" ∷ codes "--reasoning-budget" ∷ cfg.reasoning_budget ∷ []
    else codes "--reasoning" ∷ codes "off" ∷ []

limit_args : Text → LlmConfig → List Text
limit_args option cfg = if ltb 0 cfg.max_tokens then option ∷ to_string cfg.max_tokens ∷ [] else []

slot_args : LlmConfig → Bool → List Text
slot_args cfg slot_cache = if slot_cache then codes "--slot-save-path" ∷ cfg.slot_dir ∷ [] else []

template_args : Option Text → List Text
template_args none = []
template_args (some t) = codes "--chat-template-file" ∷ t ∷ []

source_args : LlmSource → Bool → List Text
source_args (file path) offline = codes "-m" ∷ path ∷ []
source_args (hf_repo repo) offline =
    codes "-hf" ∷ repo ∷ codes "--no-mmproj" ∷ (if offline then codes "--offline" ∷ [] else [])

-- All arguments but the extra ones, which come last.
pub server_args_before : LlmConfig → Bool → Bool → Option Text → List Text
server_args_before cfg slot_cache offline template =
    source_args cfg.source offline
    ++ (codes "--alias"
        ∷ cfg.model_name
        ∷ codes "--host"
        ∷ codes "127.0.0.1"
        ∷ codes "--port"
        ∷ to_string cfg.internal_port
        ∷ codes "--no-ui"
        ∷ codes "--device"
        ∷ cfg.device
        ∷ codes "-ngl"
        ∷ cfg.gpu_layers
        ∷ [])
    ++ ctx_args cfg
    ++ (codes "--jinja" ∷ [])
    ++ reasoning_args cfg
    ++ limit_args (codes "--n-predict") cfg
    ++ slot_args cfg slot_cache
    ++ preset cfg
    ++ template_args template

unfoldable pub server_args : LlmConfig → Bool → Bool → Option Text → List Text
unfolding server_args_before source_args reasoning_args limit_args slot_args template_args ctx_args
    preset to_string
server_args cfg slot_cache offline template =
    server_args_before cfg slot_cache offline template ++ cfg.extra_args

pub ik_args_before : LlmConfig → Text → Bool → Option Text → ℕ → List Text
ik_args_before cfg model slot_cache template threads =
    (codes "-m"
      ∷ model
      ∷ codes "--alias"
      ∷ cfg.model_name
      ∷ codes "--host"
      ∷ codes "127.0.0.1"
      ∷ codes "--port"
      ∷ to_string cfg.internal_port
      ∷ codes "--webui"
      ∷ codes "none"
      ∷ codes "--log-disable"
      ∷ codes "-t"
      ∷ to_string threads
      ∷ [])
    ++ ctx_args cfg
    ++ (codes "--jinja" ∷ [])
    ++ reasoning_args cfg
    ++ limit_args (codes "-n") cfg
    ++ slot_args cfg slot_cache
    ++ preset cfg
    ++ (codes "--ctx-checkpoints-tolerance" ∷ codes "64" ∷ [])
    ++ template_args template

unfoldable pub ik_args : LlmConfig → Text → Bool → Option Text → ℕ → List Text
unfolding ik_args_before reasoning_args limit_args slot_args template_args ctx_args preset to_string
ik_args cfg model slot_cache template threads =
    ik_args_before cfg model slot_cache template threads ++ cfg.extra_args
