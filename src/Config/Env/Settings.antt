-- ===== src/Config/Env/Settings.antt =====
-- src/config.rs: the other variables, and Config::from_env. std's parsers of addresses and of floats, the
-- default of the gate and the number of processors are parameters.
mod Ensured
pub mod Valid
use homeassistant_local_voic.Base.{
  ℕ, ◌^◌, Bool, true, false, Option, none, some, List, [], ◌∷◌, ◌++◌, not, ◌&&◌, ◌||◌, ◌==◌, leb,
  min, map, unwrap_or, is_some, if◌then◌else◌,
}
use homeassistant_local_voic.Base.Result.{Result, ok, err, context, ◌>>=◌}
use homeassistant_local_voic.Base.Int.{ℤ, pos}
use homeassistant_local_voic.Base.Text.{
  Text, codes, text_eq, split, trim, filter_nonempty, to_string,
}
use homeassistant_local_voic.Config.{LlmConfig}
use homeassistant_local_voic.Config.Env.{
  Env, var, var_or, on_off, or_invalid, parse_num, parse_unsigned, parse_i32, join_path,
}
use homeassistant_local_voic.Config.Env.Llm.{llm_from_env}
use homeassistant_local_voic.Youtube.Search.Client.{YoutubeConfig}

pub data TtsBackend : Type 0 where
  auto vulkan cpu : TtsBackend

unfoldable pub backend_parse : Text → Result TtsBackend
unfolding text_eq
backend_parse value =
    if text_eq value (codes "auto")
    then ok TtsBackend.auto
    else if text_eq value (codes "vulkan")
    then ok TtsBackend.vulkan
    else if text_eq value (codes "cpu")
    then ok TtsBackend.cpu
    else err (codes "unknown TTS_BACKEND=" ++ (value ++ codes " (expected auto, vulkan or cpu)"))

unfoldable pub backend_name : TtsBackend → Text
backend_name TtsBackend.vulkan = codes "vulkan"
backend_name TtsBackend.auto = codes "vulkan"
backend_name TtsBackend.cpu = codes "cpu"

pub record SttConfig : Type 0 where
  pub lib : Text
  pub model : Text
  pub model_name : Text
  pub device : Option Text
  pub debug_dir : Option Text

pub record TtsConfig : Type 0 where
  pub server_bin : Text
  pub dir : Text
  pub model_filename : Text
  pub model_id : Text
  pub language : Text
  pub voice_id : Text
  pub languages_bcp : List Text
  pub backend : TtsBackend
  pub vk_device : ℕ
  pub threads : Option ℕ
  pub internal_port : ℕ

pub record SearchConfig : Type 0 where
  pub language : Text
  pub python_paths : List Text
  pub settings_path : Text

pub record JellyfinConfig : Type 0 where
  pub url : Text
  pub api_key : Text
  pub user : Text

pub record Gate (F : Type 0) : Type 0 where
  pub min_score : F
  pub min_margin : F

pub record MediaConfig (F : Type 0) : Type 0 where
  pub lib_llama : Text
  pub model : Text
  pub model_url : Text
  pub dims : ℕ
  pub threads : ℤ
  pub dir : Text
  pub episodes : Bool
  pub gate : Gate F

pub record Config (F A : Type 0) : Type 0 where
  pub bind : A
  pub port : ℕ
  pub llama_server : Text
  pub stt : SttConfig
  pub tts : TtsConfig
  pub llm : Option LlmConfig
  pub search : Option SearchConfig
  pub youtube : Option YoutubeConfig
  pub jellyfin : Option JellyfinConfig
  pub media : Option (MediaConfig F)

module _ (env : Env) where
  unfoldable pub stt_from_env : SttConfig
  unfolding var var_or join_path
  stt_from_env = record {
    lib = var_or env (codes "STT_LIB") (codes "/usr/lib/libparakeet.so");
    model =
        join_path (var_or env (codes "STT_DIR") (codes "/models/stt"))
          (var_or env (codes "STT_MODEL_FILENAME") (codes "parakeet-ctc-0.6b-q8_0.gguf"));
    model_name = var_or env (codes "STT_MODEL_NAME") (codes "parakeet-ctc-0.6b");
    device = var env (codes "PARAKEET_DEVICE");
    debug_dir = var env (codes "STT_DEBUG_DIR");
  }

  abbrev pub some_of : Result ℕ → Result (Option ℕ)
  some_of (ok n) = ok (some n)
  some_of (err message) = err message

  abbrev pub threads_of : Option Text → Result (Option ℕ)
  unfolding parse_unsigned
  threads_of none = ok none
  threads_of (some v) = some_of (or_invalid (codes "TTS_THREADS") v (parse_unsigned (2 ^ 32) v))

  unfoldable pub tts_from_env : Result TtsConfig
  unfolding var var_or parse_num parse_unsigned threads_of backend_parse split trim
  tts_from_env = do
    backend ← backend_parse (var_or env (codes "TTS_BACKEND") (codes "auto"))
    vk_device ← parse_num (parse_unsigned (2 ^ 32)) env (codes "VK_DEVICE") 0
    threads ← threads_of (var env (codes "TTS_THREADS"))
    ok (record {
      server_bin = var_or env (codes "AUDIOCPP_SERVER") (codes "/usr/local/bin/audiocpp_server");
      dir = var_or env (codes "TTS_DIR") (codes "/models/pocket-tts");
      model_filename =
          var_or env (codes "TTS_MODEL_FILENAME") (codes "pocket-tts-english-q8_0.gguf");
      model_id = var_or env (codes "TTS_MODEL_ID") (codes "pocket-tts");
      language = var_or env (codes "TTS_LANGUAGE") (codes "english");
      voice_id = var_or env (codes "TTS_VOICE_ID") (codes "alba");
      languages_bcp =
          filter_nonempty (
            map trim
              (split (λ c. c == b',') (var_or env (codes "TTS_LANGUAGES_BCP") (codes "en"))));
      backend = backend;
      vk_device = vk_device;
      threads = threads;
      internal_port = 8100;
    })

  -- `env::split_paths` cuts at every `:`. The language may be set to the empty text.
  unfoldable pub search_from_env : Result (Option SearchConfig)
  unfolding var_or on_off split
  search_from_env = do
    enabled ← on_off env (codes "SEARCH_ENABLED") false
    if not enabled
        then ok none
        else ok (
            some (record {
              language = unwrap_or (env (codes "SEARCH_LANGUAGE")) (codes "en");
              python_paths =
                  split (λ c. c == b':')
                    (var_or env (codes "SEARXNG_PYTHONPATH")
                      (codes "/opt/searxng/src:/opt/searxng/lib"));
              settings_path = codes "/tmp/searxng-settings.yml";
            }))

  abbrev pub jellyfin_of : Option Text → Option Text → Option Text → Result (Option JellyfinConfig)
  jellyfin_of none api_key user = ok none
  jellyfin_of (some url) none user = ok none
  jellyfin_of (some url) (some api_key) none =
      err (codes "set JELLYFIN_USER (the Jellyfin user whose next episodes count)")
  jellyfin_of (some url) (some api_key) (some user) =
      ok (some (record { url = url; api_key = api_key; user = user }))

  unfoldable pub jellyfin_from_env : Result (Option JellyfinConfig)
  unfolding var
  jellyfin_from_env =
      jellyfin_of (var env (codes "JELLYFIN_URL")) (var env (codes "JELLYFIN_API_KEY"))
        (var env (codes "JELLYFIN_USER"))

  unfoldable pub youtube_from_env : Result (Option YoutubeConfig)
  unfolding var_or on_off
  youtube_from_env = do
    enabled ← on_off env (codes "YOUTUBE_ENABLED") true
    if not enabled
        then ok none
        else ok (
            some (record {
              language = var_or env (codes "YOUTUBE_LANGUAGE") (codes "en");
              region = var_or env (codes "YOUTUBE_REGION") (codes "DE");
              client_version =
                  var_or env (codes "YOUTUBE_CLIENT_VERSION") (codes "2.20261030.00.00");
            }))

  module _ {F : Type 0} (parse_f32 : Text → Result F) (gate : Gate F) (processors : Option ℕ) where
    unfoldable pub checked_dims : ℕ → Result ℕ
    checked_dims dims =
        if leb 64 dims && leb dims 768
        then ok dims
        else err (codes "EMBED_DIMS=" ++ (to_string dims ++ codes " must be between 64 and 768"))

    unfoldable pub media_settings : Result (Option (MediaConfig F))
    unfolding var_or on_off parse_num parse_unsigned parse_i32 checked_dims
    media_settings = do
      parsed ← parse_num (parse_unsigned (2 ^ 64)) env (codes "EMBED_DIMS") 512
      dims ← checked_dims parsed
      threads ←
          parse_num parse_i32 env (codes "EMBED_THREADS") (pos (min (unwrap_or processors 2) 4))
      episodes ← on_off env (codes "MEDIA_INDEX_EPISODES") true
      min_score ← parse_num parse_f32 env (codes "MEDIA_MIN_SCORE") gate.min_score
      min_margin ← parse_num parse_f32 env (codes "MEDIA_MIN_MARGIN") gate.min_margin
      ok (
          some (record {
            lib_llama = var_or env (codes "LLAMA_LIB") (codes "/opt/llama.cpp/libllama.so");
            model =
                var_or env (codes "EMBED_MODEL")
                  (codes "/models/llm/embed/embeddinggemma-2-Q8_0.gguf");
            model_url = var_or env (codes "EMBED_MODEL_URL") (
                codes "https://huggingface.co/ggml-org/embeddinggemma-2-GGUF/resolve/main/"
                ++ codes "embeddinggemma-2-Q8_0.gguf");
            dims = dims;
            threads = threads;
            dir = var_or env (codes "MEDIA_INDEX_DIR") (codes "/models/llm/media-index");
            episodes = episodes;
            gate = record { min_score = min_score; min_margin = min_margin };
          }))

    unfoldable pub media_with : Bool → Option Text → Option Text → Result (Option (MediaConfig F))
    unfolding media_settings
    media_with enabled url api_key =
        if not enabled
        then ok none
        else if not (is_some url) || not (is_some api_key)
        then err (codes "MEDIA_INDEX=on needs JELLYFIN_URL and JELLYFIN_API_KEY")
        else media_settings

    unfoldable pub media_from_env : Result (Option (MediaConfig F))
    unfolding var on_off media_with
    media_from_env = do
      enabled ← on_off env (codes "MEDIA_INDEX") false
      media_with enabled (var env (codes "JELLYFIN_URL")) (var env (codes "JELLYFIN_API_KEY"))

    module _ {A : Type 0} (parse_ip : Text → Option A) (to_lowercase : Text → Text) where
      unfoldable pub from_env : Result (Config F A)
      unfolding var_or parse_num parse_unsigned stt_from_env tts_from_env llm_from_env
          search_from_env youtube_from_env jellyfin_from_env media_from_env
      from_env = do
        bind ←
            context (parse_ip (var_or env (codes "BIND_ADDRESS") (codes "0.0.0.0")))
              (codes "invalid BIND_ADDRESS")
        port ← parse_num (parse_unsigned (2 ^ 16)) env (codes "PORT") 10300
        tts ← tts_from_env
        llm ← llm_from_env to_lowercase env
        search ← search_from_env
        youtube ← youtube_from_env
        jellyfin ← jellyfin_from_env
        media ← media_from_env
        ok (record {
          bind = bind;
          port = port;
          llama_server = var_or env (codes "LLAMA_SERVER") (codes "/opt/llama.cpp/llama-server");
          stt = stt_from_env;
          tts = tts;
          llm = llm;
          search = search;
          youtube = youtube;
          jellyfin = jellyfin;
          media = media;
        })
