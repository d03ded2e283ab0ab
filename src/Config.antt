-- ===== src/Config.antt =====
-- src/config.rs: the values of the LLM settings and the names of the saved prompt caches.
pub mod Names
pub mod Env
use homeassistant_local_voic.Base.{
  ℕ, Bool, ◌||◌, Option, none, some, List, [], ◌∷◌, ◌++◌, map, ◌==◌, if◌then◌else◌,
}
use homeassistant_local_voic.Base.Text.{Text, codes, text_eq, contains, is_ascii_alphanumeric}
use homeassistant_local_voic.Base.Result.{Result, ok, err}

pub data Family : Type 0 where
  ling3 minicpm5 lfm3 qwen35 granite4 : Family

unfoldable pub family_parse : Text → Result Family
unfolding text_eq
family_parse value =
    if text_eq value (codes "ling3")
    then ok ling3
    else if text_eq value (codes "minicpm5")
    then ok minicpm5
    else if text_eq value (codes "lfm3")
    then ok lfm3
    else if text_eq value (codes "qwen35")
    then ok qwen35
    else if text_eq value (codes "granite4")
    then ok granite4
    else err (
        codes "unknown LLM_FAMILY="
        ++ (value ++ codes " (expected ling3, minicpm5, lfm3, qwen35 or granite4)"))

unfoldable pub default_reasoning_budget : Family → Text
default_reasoning_budget ling3 = codes "128"
default_reasoning_budget minicpm5 = codes "128"
default_reasoning_budget lfm3 = codes "128"
default_reasoning_budget qwen35 = codes "512"
default_reasoning_budget granite4 = codes "512"

-- `str::to_lowercase` is std's Unicode table.
unfoldable pub detect : (Text → Text) → Text → Option Family
unfolding contains
detect to_lowercase s =
    let name = to_lowercase s in
    if contains name (codes "ling-3")
    then some ling3
    else if contains name (codes "minicpm5")
    then some minicpm5
    else if contains name (codes "lfm3-")
    then some lfm3
    else if contains name (codes "qwen3.5") || contains name (codes "qwen3_5")
    then some qwen35
    else if contains name (codes "granite-4")
    then some granite4
    else none

pub data EngineChoice : Type 0 where
  auto llama_cpp ik : EngineChoice

-- The derived `==`.
abbrev pub choice_eq : EngineChoice → EngineChoice → Bool
choice_eq auto auto = Bool.true
choice_eq llama_cpp llama_cpp = Bool.true
choice_eq ik ik = Bool.true
choice_eq _ _ = Bool.false

unfoldable pub choice_parse : Text → Result EngineChoice
unfolding text_eq
choice_parse value =
    if text_eq value (codes "auto")
    then ok auto
    else if text_eq value (codes "llamacpp")
    then ok llama_cpp
    else if text_eq value (codes "ik")
    then ok ik
    else err (codes "unknown LLM_ENGINE=" ++ (value ++ codes " (expected auto, llamacpp or ik)"))

pub data Ctx : Type 0 where
  k32 k64 k128 k256 : Ctx

unfoldable pub ctx_parse : Text → Result Ctx
unfolding text_eq
ctx_parse value =
    if text_eq value (codes "32k")
    then ok k32
    else if text_eq value (codes "64k")
    then ok k64
    else if text_eq value (codes "128k")
    then ok k128
    else if text_eq value (codes "256k")
    then ok k256
    else err (codes "unknown LLM_CTX=" ++ (value ++ codes " (expected 32k, 64k, 128k or 256k)"))

unfoldable pub label : Ctx → Text
label k32 = codes "32k"
label k64 = codes "64k"
label k128 = codes "128k"
label k256 = codes "256k"

pub data LlmSource : Type 0 where
  file hf_repo : Text → LlmSource

-- Paths are texts.
pub record LlmConfig : Type 0 where
  pub server_bin : Text
  pub ik_bin : Text
  pub engine : EngineChoice
  pub source : LlmSource
  pub model_name : Text
  pub family : Family
  pub device : Text
  pub gpu_layers : Text
  pub ctx : Ctx
  pub reasoning : Bool
  pub reasoning_budget : Text
  pub max_tokens : ℕ
  pub api_key : Option Text
  pub extra_args : List Text
  pub slot_cache : Bool
  pub template_fix : Bool
  pub internal_port : ℕ
  pub hf_cache_dir : Text
  pub slot_dir : Text

pub data EngineKind : Type 0 where
  llama_cpp ik : EngineKind

abbrev pub kind_eq : EngineKind → EngineKind → Bool
kind_eq EngineKind.llama_cpp EngineKind.llama_cpp = Bool.true
kind_eq EngineKind.ik EngineKind.ik = Bool.true
kind_eq _ _ = Bool.false

abbrev pub tag : EngineKind → Text
tag EngineKind.llama_cpp = []
tag EngineKind.ik = codes "-ik"

unfoldable pub is_name_char : ℕ → Bool
unfolding is_ascii_alphanumeric
is_name_char c = is_ascii_alphanumeric c || (c == b'.' || c == b'_' || c == b'-')

unfoldable pub slot_file_for : LlmConfig → EngineKind → Text
unfolding label is_name_char
slot_file_for cfg engine =
    map (λ c. if is_name_char c then c else b'_')
      (cfg.model_name ++ (codes "-" ++ (label cfg.ctx ++ (tag engine ++ codes ".slot"))))

unfoldable pub slot_file : LlmConfig → Text
unfolding slot_file_for
slot_file cfg = slot_file_for cfg EngineKind.llama_cpp
