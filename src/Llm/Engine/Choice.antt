-- ===== src/Llm/Engine/Choice.antt =====
-- When ik_llama.cpp runs, and when a start only downloads the model.
use homeassistant_local_voic.Base.{
  true, false, Option, none, some, List, [], ◌∷◌, ◌≡◌, ◌≢◌, ◌↔◌, refl, arith,
}
use homeassistant_local_voic.Base.Text.{Text, codes, text_eq_iff, text_mem, is_empty}
use homeassistant_local_voic.Config.{EngineChoice, EngineKind}
use homeassistant_local_voic.Llm.Engine.{Facts, ik_architectures, decide}

-- The conditions of the module comment of engine.rs, in one record.
pub record Allowed (f : Facts) : Type 0 where
  pub not_forced : f.choice ≢ EngineChoice.llama_cpp
  pub on_cpu : f.device ≡ codes "none"
  pub binary : f.ik_binary ≡ true
  pub cpu : f.cpu_avx2_fma ≡ true
  pub not_banned : f.ik_banned ≡ false
  pub on_disk : f.model_on_disk ≡ true
  pub verified :
      f.choice ≡ EngineChoice.auto
      → (a : Text) × (f.architecture ≡ some a) × (text_mem a (ik_architectures f.family) ≡ true)

nonempty_of_mem : (a : Text) (xs : List Text) → text_mem a xs ≡ true → is_empty xs ≡ false
nonempty_of_mem a [] h = cc
nonempty_of_mem a (x ∷ xs) h = refl

only_then : (f : Facts) → Allowed f → (decide f).kind ≡ EngineKind.ik
unfolding decide
only_then f v = go f.choice refl
  where
    go : (c : EngineChoice) → f.choice ≡ c → (decide f).kind ≡ EngineKind.ik
    go EngineChoice.auto e =
        let (a, found, member) = v.verified e in
        ground (
          arith,
          text_eq_iff f.device (codes "none"),
          nonempty_of_mem a (ik_architectures f.family) member,
        )
    go EngineChoice.llama_cpp e = absurd (v.not_forced e)
    go EngineChoice.ik e = ground (arith, text_eq_iff f.device (codes "none"))

only_when : (f : Facts) → (decide f).kind ≡ EngineKind.ik → Allowed f
unfolding decide
only_when f e = record {
  not_forced = λ c. ground arith;
  on_cpu = ground (arith, text_eq_iff f.device (codes "none"));
  binary = ground arith;
  cpu = ground arith;
  not_banned = ground arith;
  on_disk = ground arith;
  verified = λ c. go f.architecture refl c;
}
  where
    go :
        (o : Option Text)
        → f.architecture ≡ o
        → f.choice ≡ EngineChoice.auto
        → (a : Text) × (f.architecture ≡ some a) × (text_mem a (ik_architectures f.family) ≡ true)
    go none q c = absurd (ground arith)
    go (some a) q c = (a, q, ground arith)

-- ik_llama.cpp runs exactly if the setting does not force llama.cpp, the model runs on the CPU, the
-- image has the program, the CPU has AVX2 and FMA, it is not banned, the model file is there, and,
-- where the hub chooses by itself, the architecture of the file is verified for its family.
pub decide-Allowed : (f : Facts) → ((decide f).kind ≡ EngineKind.ik) ↔ Allowed f
decide-Allowed f = (only_when f, only_then f)

pub decide-not_done : (f : Facts) → (decide f).download_first ≡ true → f.download_done ≡ false
unfolding decide
decide-not_done f e = ground arith

-- A download-first start runs llama.cpp, only without a model file and before a download-first run ended; the start after it
-- runs ik_llama.cpp, if the file is then there and its architecture `a` is verified for its family.
pub decide-download_first :
    (f : Facts) (a : Text)
    → (decide f).download_first ≡ true
    → text_mem a (ik_architectures f.family) ≡ true
    → ((decide f).kind ≡ EngineKind.llama_cpp)
      × (f.model_on_disk ≡ false)
      × (f.download_done ≡ false)
      × ((decide
            (record f { model_on_disk = true; download_done = true; architecture = some a })).kind
          ≡ EngineKind.ik)
unfolding decide
decide-download_first f a e m = (ground arith, ground arith, ground arith, go f.choice refl)
  where
    go :
        (c : EngineChoice)
        → f.choice ≡ c
        → (decide
            (record f { model_on_disk = true; download_done = true; architecture = some a })).kind
          ≡ EngineKind.ik
    go EngineChoice.auto q = ground arith
    go EngineChoice.llama_cpp q = ground arith
    go EngineChoice.ik q = ground arith
