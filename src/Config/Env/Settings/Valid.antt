-- ===== src/Config/Env/Settings/Valid.antt =====
-- src/config.rs: what every accepted environment gives.
use mathlib.Core.Path.{subst}
use homeassistant_local_voic.Base.{
  ℕ, ◌^◌, ◌<◌, ◌≤◌, ◌≡◌, refl, Bool, true, false, Option, none, some, not, ◌||◌, arith, min,
  unwrap_or, is_some,
}
use homeassistant_local_voic.Base.Result.{Result, ok, err, context}
use homeassistant_local_voic.Base.Text.{Text, codes}
use homeassistant_local_voic.Config.Env.{
  Env, on_off, var_or, var, parse_i32, parse_num, parse_unsigned,
}
use homeassistant_local_voic.Config.Env.Llm.{llm_from_env}
use homeassistant_local_voic.Base.Int.{pos}
use homeassistant_local_voic.Config.Env.Settings.{
  tts_from_env, threads_of, backend_parse, search_from_env, youtube_from_env, Config, MediaConfig,
  Gate, jellyfin_of, jellyfin_from_env, checked_dims, media_settings, media_with, media_from_env,
  from_env,
}
use homeassistant_local_voic.Config.Env.Settings.Ensured.{
  err-ne-ok, ok-injective, parse_num_lt, EachLlm, Ensures, Ensures-then, llm_from_env-IsLlm,
  implies,
}

jellyfin_of-set :
    (env : Env) (url key user : Option Text)
    → Ensures
        (λ j. is_some url ≡ true → is_some key ≡ true → is_some j ≡ true)
        (jellyfin_of env url key user)
jellyfin_of-set env none key user = λ a b. cc
jellyfin_of-set env (some url) none user = λ a b. cc
jellyfin_of-set env (some url) (some key) none = tt
jellyfin_of-set env (some url) (some key) (some user) = λ a b. refl

jellyfin_from_env-set :
    (env : Env)
    → Ensures
        (λ j.
          is_some (var env (codes "JELLYFIN_URL")) ≡ true
          → is_some (var env (codes "JELLYFIN_API_KEY")) ≡ true
          → is_some j ≡ true)
        (jellyfin_from_env env)
unfolding jellyfin_from_env
jellyfin_from_env-set env = jellyfin_of-set env _ _ _

ensured {ℓ} : {A : Type ℓ} (Q : A → Type 0) (r : Result A) {a : A} → Ensures Q r → r ≡ ok a → Q a
ensured Q (err message) h e = absurd (err-ne-ok e)
ensured Q (ok b) h e = subst Q (ok-injective e) h

tts-port : (env : Env) → Ensures (λ t. t.internal_port ≡ 8100) (tts_from_env env)
unfolding tts_from_env
tts-port env =
    Ensures-then _ (backend_parse (var_or env (codes "TTS_BACKEND") (codes "auto"))) _ λ backend p.
      Ensures-then _ (parse_num (parse_unsigned (2 ^ 32)) env (codes "VK_DEVICE") 0) _ λ device q.
        Ensures-then _ (threads_of env (var env (codes "TTS_THREADS"))) _ λ threads r. refl

module _ (env : Env) {F : Type 0} (parse_f32 : Text → Result F) (gate : Gate F)
    (processors : Option ℕ) where
  -- The dimensions of the vectors are in range.
  abbrev pub HasDims : Option (MediaConfig F) → Type 0
  HasDims none = Unit
  HasDims (some m) = (64 ≤ m.dims) × (m.dims ≤ 768)

  dims_range :
      (n : ℕ) {m : ℕ} → checked_dims env parse_f32 gate processors n ≡ ok m → (64 ≤ m) × (m ≤ 768)
  unfolding checked_dims
  dims_range n h = ground arith

  media_settings-HasDims : Ensures HasDims (media_settings env parse_f32 gate processors)
  unfolding media_settings
  media_settings-HasDims =
      Ensures-then HasDims (parse_num (parse_unsigned (2 ^ 64)) env (codes "EMBED_DIMS") 512) _
        λ parsed p1.
          Ensures-then HasDims (checked_dims env parse_f32 gate processors parsed) _ λ dims p2.
            Ensures-then HasDims
              (parse_num parse_i32 env (codes "EMBED_THREADS")
                (pos (min (unwrap_or processors 2) 4)))
              _
              λ threads p3.
                Ensures-then HasDims (on_off env (codes "MEDIA_INDEX_EPISODES") true) _
                  λ episodes p4.
                    Ensures-then HasDims
                      (parse_num parse_f32 env (codes "MEDIA_MIN_SCORE") gate.min_score) _
                      λ score p5.
                        Ensures-then HasDims
                          (parse_num parse_f32 env (codes "MEDIA_MIN_MARGIN") gate.min_margin) _
                          λ margin p6. dims_range parsed p2

  -- A media index comes with both variables of Jellyfin.
  abbrev NeedsJellyfin : Option Text → Option Text → Option (MediaConfig F) → Type 0
  NeedsJellyfin url key m =
      HasDims m × (is_some m ≡ true → (is_some url ≡ true) × (is_some key ≡ true))

  Ensures-mono {ℓ} :
      {A : Type ℓ} (P Q : A → Type 0) (r : Result A)
      → ((a : A) → P a → Q a)
      → Ensures P r
      → Ensures Q r
  Ensures-mono P Q (err message) h k = tt
  Ensures-mono P Q (ok a) h k = h a k

  media_with-NeedsJellyfin :
      (enabled : Bool) (url key : Option Text)
      → Ensures (NeedsJellyfin url key) (media_with env parse_f32 gate processors enabled url key)
  unfolding media_with
  media_with-NeedsJellyfin false url key = (tt, λ h. cc)
  media_with-NeedsJellyfin true none key = tt
  media_with-NeedsJellyfin true (some url) none = tt
  media_with-NeedsJellyfin true (some url) (some key) =
      Ensures-mono HasDims (NeedsJellyfin (some url) (some key)) _ (λ m d. (d, λ h. (refl, refl)))
        media_settings-HasDims

  media_from_env-NeedsJellyfin :
      Ensures
        (NeedsJellyfin (var env (codes "JELLYFIN_URL")) (var env (codes "JELLYFIN_API_KEY")))
        (media_from_env env parse_f32 gate processors)
  unfolding media_from_env
  media_from_env-NeedsJellyfin =
      Ensures-then _ (on_off env (codes "MEDIA_INDEX") false) _ λ enabled p.
        media_with-NeedsJellyfin enabled (var env (codes "JELLYFIN_URL"))
          (var env (codes "JELLYFIN_API_KEY"))

  module _ {A : Type 0} (parse_ip : Text → Option A) (to_lowercase : Text → Text) where
    pub record IsConfig (cfg : Config F A) : Type 0 where
      pub port_small : cfg.port < 2 ^ 16
      pub speech_port : cfg.tts.internal_port ≡ 8100
      pub language_model : EachLlm cfg.llm
      pub vectors : HasDims cfg.media
      pub library : (not (is_some cfg.media) || is_some cfg.jellyfin) ≡ true

    from_env-Ensures :
        Ensures IsConfig (from_env env parse_f32 gate processors parse_ip to_lowercase)
    unfolding from_env
    from_env-Ensures =
        Ensures-then IsConfig
          (context (parse_ip (var_or env (codes "BIND_ADDRESS") (codes "0.0.0.0")))
            (codes "invalid BIND_ADDRESS"))
          _
          λ bind p1.
            Ensures-then IsConfig (parse_num (parse_unsigned (2 ^ 16)) env (codes "PORT") 10300) _
              λ port p2. Ensures-then IsConfig (tts_from_env env) _ λ tts p3.
                Ensures-then IsConfig (llm_from_env to_lowercase env) _ λ llm p4.
                  Ensures-then IsConfig (search_from_env env) _ λ search p5.
                    Ensures-then IsConfig (youtube_from_env env) _ λ youtube p6.
                      Ensures-then IsConfig (jellyfin_from_env env) _ λ jellyfin p7.
                        Ensures-then IsConfig (media_from_env env parse_f32 gate processors) _
                          λ media p8.
                            let set = ensured _ _ (jellyfin_from_env-set env) p7 in
                            let needs = ensured _ _ media_from_env-NeedsJellyfin p8 in
                            record {
                              port_small =
                                  parse_num_lt (2 ^ 16) env (codes "PORT") 10300 (omega arith) p2;
                              speech_port = ensured _ _ (tts-port env) p3;
                              language_model = ensured _ _ (llm_from_env-IsLlm to_lowercase env) p4;
                              vectors = needs.0;
                              library =
                                  implies _ _ (λ h. let both = needs.1 h in set both.0 both.1);
                            }

    -- Every environment that is accepted gives a configuration that fits together: the media index
    -- comes with the settings of Jellyfin and vectors of 64 to 768 numbers, a context of 256k with a
    -- model family that takes it, granite4 never reasons, the server's port has 16 bits, and the
    -- engines of the LLM and of speech have the ports 8081 and 8100.
    pub from_env-IsConfig :
        (cfg : Config F A)
        → from_env env parse_f32 gate processors parse_ip to_lowercase ≡ ok cfg
        → IsConfig cfg
    from_env-IsConfig cfg accepted = ensured IsConfig _ from_env-Ensures accepted
