-- ===== src/Config/Env/Settings/Ensured.antt =====
-- src/config.rs: the numbers of the environment are in range, and the LLM settings fit together.
use mathlib.Core.Path.{subst}
use homeassistant_local_voic.Base.{
  ℕ, ◌+◌, ◌-◌, ◌*◌, ◌^◌, ◌<◌, ◌≡◌, refl, Bool, true, false, Option, none, some, [], ◌∷◌, not, ◌&&◌,
  ◌||◌, ◌==◌, ltb, ltb→lt, arith, Bool-cases, inl, inr,
}
use homeassistant_local_voic.Base.Result.{Result, ok, err, ◌>>=◌}
use homeassistant_local_voic.Base.Text.{Text, codes, text_eq, is_ascii_digit}
use homeassistant_local_voic.Config.{Ctx, LlmConfig, Family, ctx_parse, choice_parse}
use homeassistant_local_voic.Config.Env.{
  Env, on_off, var_or, var, or_invalid, parse_num, parse_num_of, parse_unsigned, parse_digits,
  digits_below, too_large,
}
use homeassistant_local_voic.Config.Env.Llm.{
  is_256k, takes_256k, is_granite4, Chosen, family_of, checked_ctx, reasoning_of, config_of,
  config_from, source_of, llm_from_env,
}

pub err-ne-ok {ℓ} :
    {A : Type ℓ} {message : Text} {a : A} → ◌≡◌ {A = Result A} (err message) (ok a) → ⊥
err-ne-ok h = cc

pub ok-injective {ℓ} : {A : Type ℓ} {a b : A} → ◌≡◌ {A = Result A} (ok a) (ok b) → a ≡ b
ok-injective h = cc

digits_below_lt :
    (far : Text) (limit n : ℕ) (s : Text) {m : ℕ}
    → n < limit
    → digits_below far limit n s ≡ ok m
    → m < limit
unfolding digits_below
digits_below_lt far limit n [] {m} h e = ground arith
digits_below_lt far limit n (c ∷ cs) {m} h e = elim (Bool-cases (is_ascii_digit c)) [
  | inr other ↦ absurd (err-ne-ok (rw other at e))
  | inl digit ↦ elim (Bool-cases (ltb (n * 10 + (c - b'0')) limit)) [
    | inr far_off ↦ absurd (err-ne-ok (rw (digit, far_off) at e))
    | inl near ↦
        digits_below_lt far limit (n * 10 + (c - b'0')) cs (ltb→lt _ _ near) (rw (digit, near) at e)
  ]
]

parse_digits_lt :
    (far : Text) (limit : ℕ) (s : Text) {m : ℕ}
    → 0 < limit
    → parse_digits far limit s ≡ ok m
    → m < limit
unfolding parse_digits
parse_digits_lt far limit [] h e = absurd (err-ne-ok e)
parse_digits_lt far limit (c ∷ cs) h e = digits_below_lt far limit 0 (c ∷ cs) h e

parse_unsigned_lt :
    (limit : ℕ) (s : Text) {m : ℕ} → 0 < limit → parse_unsigned limit s ≡ ok m → m < limit
unfolding parse_unsigned
parse_unsigned_lt limit [] h e = absurd (err-ne-ok e)
parse_unsigned_lt limit (c ∷ cs) h e = elim (Bool-cases (c == b'+')) [
  | inl plus ↦ parse_digits_lt too_large limit cs h (rw plus at e)
  | inr digit ↦ parse_digits_lt too_large limit (c ∷ cs) h (rw digit at e)
]

or_invalid-eq_ok {ℓ} :
    {A : Type ℓ} (name v : Text) (r : Result A) {a : A} → or_invalid name v r ≡ ok a → r ≡ ok a
or_invalid-eq_ok name v (ok b) h = h
or_invalid-eq_ok name v (err e) h = cc

pub parse_num_lt :
    (limit : ℕ) (env : Env) (name : Text) (default : ℕ) {m : ℕ}
    → default < limit
    → parse_num (parse_unsigned limit) env name default ≡ ok m
    → m < limit
unfolding parse_num
parse_num_lt limit env name default {m} h e = go (var env name) e
  where
    go : (o : Option Text) → parse_num_of (parse_unsigned limit) name default o ≡ ok m → m < limit
    go none k = ground arith
    go (some v) k =
        parse_unsigned_lt limit v (omega arith) (or_invalid-eq_ok name v (parse_unsigned limit v) k)

pub implies : (a b : Bool) → (a ≡ true → b ≡ true) → (not a || b) ≡ true
implies true b h = h refl
implies false b h = refl

excludes : (a b : Bool) → (a ≡ true → b ≡ false) → (a && b) ≡ false
excludes true b h = h refl
excludes false b h = refl

-- A context of 256k comes with a family that takes it, granite4 never reasons, and the port is
-- that of llama-server.
pub record IsLlm (cfg : LlmConfig) : Type 0 where
  pub long_context : (not (is_256k cfg.ctx) || takes_256k cfg.family) ≡ true
  pub no_reasoning : (is_granite4 cfg.family && cfg.reasoning) ≡ false
  pub few_tokens : cfg.max_tokens < 2 ^ 32
  pub own_port : cfg.internal_port ≡ 8081

abbrev pub EachLlm : Option LlmConfig → Type 0
EachLlm none = Unit
EachLlm (some cfg) = IsLlm cfg

or_not : (a b : Bool) → (a && not b) ≡ false → a ≡ true → b ≡ true
or_not a b h k = ground arith

checked_ctx-takes :
    (ctx : Ctx) (family : Family) {c : Ctx}
    → checked_ctx ctx family ≡ ok c
    → is_256k c ≡ true
    → takes_256k family ≡ true
unfolding checked_ctx
checked_ctx-takes ctx family {c} h k = elim (Bool-cases (is_256k ctx && not (takes_256k family))) [
  | inl refused ↦ absurd (err-ne-ok (rw refused at h))
  | inr allowed ↦
      let same : ok ctx ≡ ok c = rw allowed at h in
      let equal : c ≡ ctx = cc in
      let long : is_256k ctx ≡ true = subst (λ x. is_256k x ≡ true) equal k in
      or_not (is_256k ctx) (takes_256k family) allowed long
]

granite_off : (g : Bool) {b : Bool} → g ≡ true → ok (not g) ≡ ok b → b ≡ false
granite_off true h e = cc
granite_off false h e = cc

reasoning_of-granite4 :
    (value : Text) (family : Family) {b : Bool}
    → reasoning_of value family ≡ ok b
    → is_granite4 family ≡ true
    → b ≡ false
unfolding reasoning_of
reasoning_of-granite4 value family {b} h k = elim (Bool-cases (text_eq value (codes "on"))) [
  | inl on ↦ let e : ok (not (is_granite4 family)) ≡ ok b = rw on at h in granite_off _ k e
  | inr other ↦ elim (Bool-cases (text_eq value (codes "off"))) [
    | inl off ↦ let e : ok false ≡ ok b = rw (other, off) at h in cc
    | inr wrong ↦ absurd (err-ne-ok (rw (other, wrong) at h))
  ]
]

-- Every value that the chain may end in satisfies `Q`.
abbrev pub Ensures {ℓ} : {A : Type ℓ} → (A → Type 0) → Result A → Type 0
Ensures Q (err message) = Unit
Ensures Q (ok a) = Q a

pub Ensures-then {ℓ κ} :
    {A : Type ℓ} {B : Type κ} (Q : B → Type 0) (m : Result A) (f : A → Result B)
    → ((a : A) → m ≡ ok a → Ensures Q (f a))
    → Ensures Q (m >>= f)
Ensures-then Q (err message) f h = tt
Ensures-then Q (ok a) f h = h a refl

module _ (to_lowercase : Text → Text) (env : Env) where
  config_of-IsLlm : (chosen : Chosen) → Ensures EachLlm (config_of to_lowercase env chosen)
  unfolding config_of
  config_of-IsLlm chosen =
      Ensures-then EachLlm
        (family_of to_lowercase (var env (codes "LLM_FAMILY")) chosen.detect_from) _
        λ family p1.
          Ensures-then EachLlm (ctx_parse (var_or env (codes "LLM_CTX") (codes "64k"))) _
            λ parsed p2. Ensures-then EachLlm (checked_ctx parsed family) _ λ ctx p3.
              Ensures-then EachLlm
                (reasoning_of (var_or env (codes "LLM_REASONING") (codes "on")) family) _
                λ reasoning p4.
                  Ensures-then EachLlm
                    (choice_parse (var_or env (codes "LLM_ENGINE") (codes "auto"))) _
                    λ engine p5.
                      Ensures-then EachLlm
                        (parse_num (parse_unsigned (2 ^ 32)) env (codes "LLM_MAX_TOKENS") 1024) _
                        λ tokens p6.
                          Ensures-then EachLlm (on_off env (codes "LLM_SLOT_CACHE") true) _
                            λ slots p7.
                              Ensures-then EachLlm (on_off env (codes "LLM_TEMPLATE_FIX") true) _
                                λ fix p8. record {
                                  long_context = implies _ _ (checked_ctx-takes parsed family p3);
                                  no_reasoning = excludes _ _ (
                                      reasoning_of-granite4
                                        (var_or env (codes "LLM_REASONING") (codes "on")) family
                                        p4);
                                  few_tokens =
                                      parse_num_lt (2 ^ 32) env (codes "LLM_MAX_TOKENS") 1024
                                        (omega arith) p6;
                                  own_port = refl;
                                }

  config_from-IsLlm : (o : Option Chosen) → Ensures EachLlm (config_from to_lowercase env o)
  unfolding config_from
  config_from-IsLlm none = tt
  config_from-IsLlm (some chosen) = config_of-IsLlm chosen

  pub llm_from_env-IsLlm : Ensures EachLlm (llm_from_env to_lowercase env)
  unfolding llm_from_env
  llm_from_env-IsLlm =
      Ensures-then EachLlm
        (source_of (var_or env (codes "LLM_DIR") (codes "/models/llm"))
          (var env (codes "LLM_MODEL_FILENAME")) (var env (codes "LLM_HF_REPO")))
        _ λ o p. config_from-IsLlm o
