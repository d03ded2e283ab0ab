-- ===== src/Llm/Engine.antt =====
-- src/llm/engine.rs: which program runs the model, and what the CPU is asked.
pub mod Choice
pub mod Ban
pub mod Threads
use homeassistant_local_voic.Base.{
  ℕ, suc, ◌+◌, min, max, Bool, true, false, not, ◌&&◌, ◌||◌, Option, none, some, List, [], ◌∷◌,
  ◌++◌, ◌==◌, leb, length, any, if◌then◌else◌,
}
use homeassistant_local_voic.Base.Text.{
  Text, codes, text_eq, text_mem, is_empty, lines, starts_with, split_once, split_whitespace, trim,
}
use homeassistant_local_voic.Config.{
  Family, ling3, minicpm5, lfm3, qwen35, granite4, EngineChoice, choice_eq, EngineKind, kind_eq,
}
use homeassistant_local_voic.Supervisor.{Ended, replaced, RunOutcome}

unfoldable pub ik_architectures : Family → List Text
ik_architectures ling3 = codes "bailingmoe3" ∷ []
ik_architectures minicpm5 = codes "llama" ∷ []
ik_architectures lfm3 = codes "lfm3" ∷ []
ik_architectures qwen35 = []
ik_architectures granite4 = []

pub record Facts : Type 0 where
  pub choice : EngineChoice
  pub device : Text
  pub family : Family
  pub architecture : Option Text
  pub model_on_disk : Bool
  pub download_done : Bool
  pub cpu_avx2_fma : Bool
  pub ik_binary : Bool
  pub ik_banned : Bool

pub record Decision : Type 0 where
  pub kind : EngineKind
  pub reason : Text
  pub download_first : Bool

abbrev pub llamacpp : Text → Decision
llamacpp reason = record { kind = EngineKind.llama_cpp; reason = reason; download_first = false }

abbrev pub wanted : Facts → Decision
wanted f = record {
  kind = EngineKind.ik;
  reason =
      if choice_eq f.choice EngineChoice.ik
      then codes "LLM_ENGINE=ik"
      else codes "the CPU runs the model and ik_llama.cpp reads the prompt faster";
  download_first = false;
}

-- The `match f.architecture` of the automatic choice, and the end of `decide`.
check_architecture : Facts → Option Text → Decision
check_architecture f (some a) =
    if text_mem a (ik_architectures f.family)
    then wanted f
    else llamacpp (codes "ik_llama.cpp is not verified for the architecture " ++ a)
check_architecture f none = llamacpp (codes "the architecture of the model file is unknown")

unfoldable pub decide : Facts → Decision
unfolding check_architecture
decide f =
    if choice_eq f.choice EngineChoice.llama_cpp
    then llamacpp (codes "LLM_ENGINE=llamacpp")
    else if not (text_eq f.device (codes "none"))
    then llamacpp (codes "the model runs on a GPU, and ik_llama.cpp runs on the CPU only")
    else if not f.ik_binary
    then llamacpp (codes "this image has no ik_llama.cpp")
    else if not f.cpu_avx2_fma
    then llamacpp (codes "the CPU lacks AVX2 or FMA, which ik_llama.cpp needs")
    else if f.ik_banned
    then llamacpp (codes "ik_llama.cpp failed to start twice")
    else if choice_eq f.choice EngineChoice.auto && is_empty (ik_architectures f.family)
    then llamacpp (codes "ik_llama.cpp is not verified for this model family")
    else if not f.model_on_disk
    then (if f.download_done
        then llamacpp (
            codes
              "the hub does not find the downloaded model file in the cache, give the quantization in LLM_HF_REPO (repo:tag) or a file in LLM_MODEL_FILENAME")
        else record {
          kind = EngineKind.llama_cpp;
          reason = (wanted f).reason ++ codes "; llama.cpp downloads the model first";
          download_first = true;
        })
    else if choice_eq f.choice EngineChoice.auto
    then check_architecture f f.architecture
    else wanted f

abbrev pub good_run : ℕ
good_run = 120_000

abbrev pub max_failures : ℕ
max_failures = 2

pub record Chooser : Type 0 where
  pub failures : ℕ
  pub banned : Bool

abbrev pub new_chooser : Chooser
new_chooser = record { failures = 0; banned = false }

-- The derived `==`, at the one ending that is asked for.
abbrev pub is_replaced : Ended → Bool
is_replaced replaced = true
is_replaced _ = false

abbrev pub is_ik : EngineKind → Bool
is_ik kind = kind_eq kind EngineKind.ik

note_outcome : Chooser → EngineKind → RunOutcome → Chooser
note_outcome c kind o =
    if not (is_ik kind) || is_replaced o.ended
    then c
    else if o.healthy && leb good_run o.ran
    then record c { failures = 0 }
    else record c {
      failures = c.failures + 1;
      banned = c.banned || leb max_failures (c.failures + 1);
    }

unfoldable pub note : Chooser → EngineKind → Option RunOutcome → Chooser
unfolding note_outcome
note c kind none = c
note c kind (some o) = note_outcome c kind o

-- The words of the first line that starts with "flags".
flags_of : List Text → Option (List Text)
flags_of [] = none
flags_of (l ∷ ls) = if starts_with l (codes "flags") then some (split_whitespace l) else flags_of ls

unfoldable pub has_avx2_fma : Text → Bool
unfolding flags_of text_eq lines starts_with split_whitespace
has_avx2_fma cpuinfo = elim (flags_of (lines cpuinfo)) [
  | none ↦ false
  | some ws ↦ text_mem (codes "avx2") ws && text_mem (codes "fma") ws
]

-- The variables of the loop of `physical_cores`.
pub record Cores : Type 0 where
  pub seen : List (Text × Text)
  pub pkg : Option Text
  pub core : Option Text

abbrev pub pair_mem : Text × Text → List (Text × Text) → Bool
pair_mem p [] = false
pair_mem (a, b) ((c, d) ∷ ps) = text_eq c a && text_eq d b || pair_mem (a, b) ps

abbrev set_insert : Text × Text → List (Text × Text) → List (Text × Text)
set_insert p ps = if pair_mem p ps then ps else p ∷ ps

-- A blank line ends a processor.
close_processor : Cores → Cores
close_processor s = record {
  seen = elim s.pkg [
    | none ↦ s.seen
    | some p ↦ elim s.core [ none ↦ s.seen | some c ↦ set_insert (p, c) s.seen ]
  ];
  pkg = none;
  core = none;
}

set_key : Cores → Text → Text → Cores
set_key s key value =
    if text_eq key (codes "physical id")
    then record s { pkg = some value }
    else if text_eq key (codes "core id")
    then record s { core = some value }
    else s

unfoldable pub core_line : Cores → Text → Cores
unfolding close_processor set_key
core_line s line = if is_empty (trim line) then close_processor s else elim (split_once b':' line) [
  | none ↦ s
  | some (key, value) ↦ set_key s (trim key) (trim value)
]

unfoldable pub core_lines : Cores → List Text → Cores
core_lines s [] = s
core_lines s (l ∷ ls) = core_lines (core_line s l) ls

abbrev pub no_cores : Cores
no_cores = record { seen = []; pkg = none; core = none }

unfoldable pub physical_cores : Text → Option ℕ
unfolding core_lines core_line lines trim split_once text_eq
physical_cores cpuinfo =
    let seen = (core_lines no_cores (lines cpuinfo ++ ([] ∷ []))).seen in
    if is_empty seen then none else some (length seen)

unfoldable pub ik_threads : Text → ℕ → ℕ
ik_threads cpuinfo logical =
    let wanted : ℕ = elim (physical_cores cpuinfo) [ none ↦ logical | some p ↦ min p logical ] in
    min (max wanted 1) 8
