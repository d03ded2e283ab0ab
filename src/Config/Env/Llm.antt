-- ===== src/Config/Env/Llm.antt =====
-- src/config.rs: the LLM variables.
use homeassistant_local_voic.Base.{
  ◌^◌, Bool, true, false, Option, none, some, List, [], ◌∷◌, ◌++◌, not, ◌&&◌, ◌==◌, unwrap_or,
  if◌then◌else◌,
}
use homeassistant_local_voic.Base.Result.{Result, ok, err, context, ◌>>=◌}
use homeassistant_local_voic.Base.Text.{Text, codes, text_eq, split, split_once, split_whitespace}
use homeassistant_local_voic.Config.{
  Family, LlmSource, LlmConfig, Ctx, family_parse, detect, default_reasoning_budget, ctx_parse,
  choice_parse,
}
use homeassistant_local_voic.Config.Env.{
  Env, var, var_or, on_off, parse_num, parse_unsigned, join_path, strip_suffix,
}

abbrev pub last_piece : List Text → Text → Text
last_piece [] default = default
last_piece (p ∷ ps) default = last_piece ps p

abbrev without_suffix : Text → Text → Text
unfolding strip_suffix
without_suffix s suffix = unwrap_or (strip_suffix s suffix) s

abbrev name_of_parts : Text → Option (Text × Text) → Text
unfolding without_suffix
name_of_parts repo none = without_suffix repo (codes "-GGUF")
name_of_parts repo (some (name, tag)) = without_suffix name (codes "-GGUF") ++ (codes "-" ++ tag)

unfoldable pub model_name_from_repo : Text → Text
unfolding split split_once name_of_parts
model_name_from_repo repo =
    let last = last_piece (split (λ c. c == b'/') repo) repo in
    name_of_parts last (split_once b':' last)

-- The model, its name unless one is set, and the text that tells its family.
pub record Chosen : Type 0 where
  pub source : LlmSource
  pub default_name : Text
  pub detect_from : Text

unfoldable pub source_of : Text → Option Text → Option Text → Result (Option Chosen)
unfolding join_path without_suffix model_name_from_repo
source_of llm_dir (some file) (some repo) =
    err (codes "set LLM_MODEL_FILENAME or LLM_HF_REPO, not both")
source_of llm_dir none none = ok none
source_of llm_dir (some file) none = ok (
    some (record {
      source = LlmSource.file (join_path llm_dir file);
      default_name = without_suffix file (codes ".gguf");
      detect_from = file;
    }))
source_of llm_dir none (some repo) = ok (
    some (record {
      source = LlmSource.hf_repo repo;
      default_name = model_name_from_repo repo;
      detect_from = repo;
    }))

module _ (to_lowercase : Text → Text) where
  unfoldable pub family_of : Option Text → Text → Result Family
  unfolding family_parse detect
  family_of (some f) detect_from = family_parse f
  family_of none detect_from =
      context (detect to_lowercase detect_from)
        (codes "set LLM_FAMILY (ling3, minicpm5, lfm3, qwen35 or granite4) for " ++ detect_from)

abbrev pub is_256k : Ctx → Bool
is_256k Ctx.k256 = true
is_256k _ = false

abbrev pub takes_256k : Family → Bool
takes_256k Family.ling3 = true
takes_256k Family.lfm3 = true
takes_256k _ = false

abbrev pub is_granite4 : Family → Bool
is_granite4 Family.granite4 = true
is_granite4 _ = false

unfoldable pub checked_ctx : Ctx → Family → Result Ctx
checked_ctx ctx family =
    if is_256k ctx && not (takes_256k family)
    then err
        (codes "LLM_CTX=256k is only supported for LLM_FAMILY=ling3 or lfm3 (others: max 128k)")
    else ok ctx

unfoldable pub reasoning_of : Text → Family → Result Bool
unfolding text_eq
reasoning_of value family =
    if text_eq value (codes "on")
    then ok (not (is_granite4 family))
    else if text_eq value (codes "off")
    then ok false
    else err (codes "unknown LLM_REASONING=" ++ (value ++ codes " (expected on or off)"))

abbrev pub words_of : Option Text → List Text
unfolding split_whitespace
words_of none = []
words_of (some a) = split_whitespace a

module _ (to_lowercase : Text → Text) (env : Env) where
  abbrev llm_dir : Text
  unfolding var_or
  llm_dir = var_or env (codes "LLM_DIR") (codes "/models/llm")

  unfoldable pub config_of : Chosen → Result (Option LlmConfig)
  unfolding var var_or on_off parse_num parse_unsigned family_of checked_ctx reasoning_of words_of
      choice_parse ctx_parse default_reasoning_budget join_path
  config_of chosen = do
    family ← family_of to_lowercase (var env (codes "LLM_FAMILY")) chosen.detect_from
    parsed ← ctx_parse (var_or env (codes "LLM_CTX") (codes "64k"))
    ctx ← checked_ctx parsed family
    reasoning ← reasoning_of (var_or env (codes "LLM_REASONING") (codes "on")) family
    engine ← choice_parse (var_or env (codes "LLM_ENGINE") (codes "auto"))
    max_tokens ← parse_num (parse_unsigned (2 ^ 32)) env (codes "LLM_MAX_TOKENS") 1024
    slot_cache ← on_off env (codes "LLM_SLOT_CACHE") true
    template_fix ← on_off env (codes "LLM_TEMPLATE_FIX") true
    ok (
        some (record {
          server_bin = var_or env (codes "LLAMA_SERVER") (codes "/opt/llama.cpp/llama-server");
          ik_bin = var_or env (codes "IK_LLAMA_SERVER") (codes "/opt/ik_llama.cpp/llama-server");
          engine = engine;
          source = chosen.source;
          model_name = unwrap_or (var env (codes "LLM_MODEL_NAME")) chosen.default_name;
          family = family;
          device = var_or env (codes "LLM_DEVICE") (codes "none");
          gpu_layers = var_or env (codes "LLM_GPU_LAYERS") (codes "auto");
          ctx = ctx;
          reasoning = reasoning;
          reasoning_budget =
              unwrap_or (var env (codes "LLM_REASONING_BUDGET")) (default_reasoning_budget family);
          max_tokens = max_tokens;
          api_key = var env (codes "LLM_API_KEY");
          extra_args = words_of (var env (codes "LLM_EXTRA_ARGS"));
          slot_cache = slot_cache;
          template_fix = template_fix;
          internal_port = 8081;
          hf_cache_dir = join_path (llm_dir) (codes "hf");
          slot_dir = join_path (llm_dir) (codes "slots");
        }))

  unfoldable pub config_from : Option Chosen → Result (Option LlmConfig)
  unfolding config_of
  config_from none = ok none
  config_from (some chosen) = config_of chosen

  unfoldable pub llm_from_env : Result (Option LlmConfig)
  unfolding var source_of config_from llm_dir
  llm_from_env =
      source_of llm_dir (var env (codes "LLM_MODEL_FILENAME")) (var env (codes "LLM_HF_REPO"))
      >>= config_from
