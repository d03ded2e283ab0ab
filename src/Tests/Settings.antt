-- ===== src/Tests/Settings.antt =====
-- Runs of the reading of the environment.
use homeassistant_local_voic.Base.{◌≡◌, refl, ℕ, none, some, List, [], ◌∷◌, if◌then◌else◌}
use homeassistant_local_voic.Base.Result.{Result, ok, err}
use homeassistant_local_voic.Base.Text.{Text, codes, text_eq, trim, split, split_once, strip_prefix}
use homeassistant_local_voic.Config.{family_parse, ctx_parse, choice_parse}
use homeassistant_local_voic.Config.Env.{
  Env, var, var_or, on_off, parse_num, parse_unsigned, parse_i32, join_path, digits_below,
  strip_suffix,
}
use homeassistant_local_voic.Config.Env.Llm.{
  source_of, family_of, checked_ctx, reasoning_of, config_of, config_from, llm_from_env,
  model_name_from_repo,
}
use homeassistant_local_voic.Config.Env.Settings.{
  Config, Gate, backend_parse, tts_from_env, search_from_env, jellyfin_from_env, youtube_from_env,
  media_settings, media_with, media_from_env, checked_dims, from_env,
}
use homeassistant_local_voic.Config.Env.Settings.Valid.{IsConfig, from_env-IsConfig}

abbrev set_to : List (Text × Text) → Env
unfolding text_eq
set_to [] name = none
set_to ((key, value) ∷ rest) name = if text_eq key name then some value else set_to rest name

abbrev home : Env
home = set_to (
    (codes "LLM_HF_REPO", codes "inclusionAI/Ling-3.0-tiny-GGUF:Q4_K_M")
    ∷ (codes "LLM_FAMILY", codes "ling3")
    ∷ (codes "LLM_CTX", codes " 256k ")
    ∷ (codes "MEDIA_INDEX", codes "on")
    ∷ (codes "JELLYFIN_URL", codes "http://tv")
    ∷ (codes "JELLYFIN_API_KEY", codes "k")
    ∷ (codes "JELLYFIN_USER", codes "me")
    ∷ [])

a_repo :
    model_name_from_repo (codes "inclusionAI/Ling-3.0-tiny-GGUF:Q4_K_M")
    ≡ codes "Ling-3.0-tiny-Q4_K_M"
unfolding model_name_from_repo split split_once strip_suffix strip_prefix
a_repo = refl

abbrev gate : Gate ℕ
gate = record { min_score = 62; min_margin = 5 }

abbrev read : Env → Result (Config ℕ Text)
read env = from_env env (parse_unsigned 100) gate (some 16) some (λ t. t)

abbrev IsOk {ℓ} : {A : Type ℓ} → Result A → Type 0
IsOk (err message) = ⊥
IsOk (ok a) = Unit

abbrev accepted {ℓ} : {A : Type ℓ} (r : Result A) → IsOk r → A
accepted (err message) h = absurd h
accepted (ok a) h = a

eq-accepted {ℓ} : {A : Type ℓ} (r : Result A) (h : IsOk r) → r ≡ ok (accepted r h)
eq-accepted (err message) h = absurd h
eq-accepted (ok a) h = refl

home_IsOk : IsOk (read home)
unfolding set_to from_env var var_or parse_num parse_unsigned digits_below trim text_eq tts_from_env
    backend_parse llm_from_env source_of join_path config_from config_of family_of family_parse
    ctx_parse checked_ctx reasoning_of choice_parse on_off search_from_env youtube_from_env
    jellyfin_from_env media_from_env media_with media_settings checked_dims parse_i32
home_IsOk = tt

from_env-IsConfig_example :
    IsConfig home (parse_unsigned 100) gate (some 16) some (λ t. t) (accepted (read home) home_IsOk)
from_env-IsConfig_example =
    from_env-IsConfig home (parse_unsigned 100) gate (some 16) some (λ t. t)
      (accepted (read home) home_IsOk) (eq-accepted (read home) home_IsOk)

port_too_large :
    read (set_to ((codes "PORT", codes "70000") ∷ []))
    ≡ err (codes "invalid PORT=70000: number too large to fit in target type")
unfolding set_to from_env var var_or parse_num parse_unsigned digits_below trim text_eq
port_too_large = refl
