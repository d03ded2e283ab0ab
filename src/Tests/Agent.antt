-- ===== src/Tests/Agent.antt =====
-- The choice of the engine and its specs on concrete machines.
use homeassistant_local_voic.Base.{
  ◌≤◌, ◌≡◌, ◌≢◌, ◌↔◌, refl, true, false, none, some, [], ◌∷◌, ◌++◌, All,
}
use homeassistant_local_voic.Base.Text.{Text, codes, text_eq, text_mem}
use homeassistant_local_voic.Base.Result.{ok}
use homeassistant_local_voic.Config.{
  LlmConfig, file, EngineChoice, EngineKind, ling3, k64, slot_file_for,
}
use homeassistant_local_voic.Config.Names.{Portable, slot_file_for_safe}
use homeassistant_local_voic.Supervisor.{exited, RunOutcome, Turn, supervisor_of, spawn_source}
use homeassistant_local_voic.Llm.Engine.{
  Facts, decide, new_chooser, physical_cores, has_avx2_fma, ik_architectures,
}
use homeassistant_local_voic.Llm.Engine.Choice.{Allowed, decide-Allowed}
use homeassistant_local_voic.Llm.Engine.Ban.{notes, notes-banned}
use homeassistant_local_voic.Llm.Template.{patch, patched, patch_for, count_matches, replace_first}
use homeassistant_local_voic.Llm.Template.Patch.{Replaced, patch-Replaced}
use homeassistant_local_voic.Llm.Specs.{Host, Machine, setup_on, next}
use homeassistant_local_voic.Llm.Specs.Downloads.{replacements, first_turn, replaced_once}

abbrev config : LlmConfig
config = record {
  server_bin = codes "/opt/llama.cpp/llama-server";
  ik_bin = codes "/opt/ik_llama.cpp/llama-server";
  engine = EngineChoice.auto;
  source = file (codes "/models/llm/Ling-3.0-tiny-Q4_K_M.gguf");
  model_name = codes "Ling-3.0/tiny";
  family = ling3;
  device = codes "none";
  gpu_layers = codes "auto";
  ctx = k64;
  reasoning = true;
  reasoning_budget = codes "512";
  max_tokens = 1024;
  api_key = none;
  extra_args = [];
  slot_cache = true;
  template_fix = true;
  internal_port = 8081;
  hf_cache_dir = codes "/models/llm/hf";
  slot_dir = codes "/models/llm/slots";
}

slot_file_for_safe_example :
    ((e : EngineKind)
      → All Portable (slot_file_for config e)
        × (front : Text) × (slot_file_for config e ≡ front ++ codes ".slot"))
    × (slot_file_for config EngineKind.ik ≢ slot_file_for config EngineKind.llama_cpp)
slot_file_for_safe_example = slot_file_for_safe config

slot_file_of_config : slot_file_for config EngineKind.ik ≡ codes "Ling-3.0_tiny-64k-ik.slot"
unfolding slot_file_for
slot_file_of_config = refl

abbrev fit : Facts
fit = record {
  choice = EngineChoice.auto;
  device = codes "none";
  family = ling3;
  architecture = some (codes "bailingmoe3");
  model_on_disk = true;
  download_done = false;
  cpu_avx2_fma = true;
  ik_binary = true;
  ik_banned = false;
}

decide-Allowed_example : ((decide fit).kind ≡ EngineKind.ik) ↔ Allowed fit
decide-Allowed_example = decide-Allowed fit

fit_runs_ik : (decide fit).kind ≡ EngineKind.ik
unfolding decide text_eq ik_architectures
fit_runs_ik = refl

abbrev absent : Facts
absent = record fit { model_on_disk = false; architecture = none }

absent_downloads : (decide absent).download_first ≡ true
unfolding decide text_eq ik_architectures
absent_downloads = refl

verified : text_mem (codes "bailingmoe3") (ik_architectures ling3) ≡ true
unfolding text_eq ik_architectures
verified = refl

abbrev crash : EngineKind × RunOutcome
crash = (EngineKind.ik, record { ended = exited; healthy = true; ran = 5_000 })

abbrev other : EngineKind × RunOutcome
other = (EngineKind.llama_cpp, record { ended = exited; healthy = false; ran = 5_000 })

notes-banned_example : (notes new_chooser (crash ∷ other ∷ crash ∷ [])).banned ≡ true
notes-banned_example = notes-banned (crash ∷ other ∷ crash ∷ [])

abbrev cpuinfo : Text
cpuinfo =
    codes
      "flags\t\t: fpu avx2 fma\nphysical id : 0\ncore id : 0\n\nphysical id : 0\ncore id : 1\n\nphysical id : 0\ncore id : 1\n"

cores_of_cpuinfo : physical_cores cpuinfo ≡ some 2
unfolding physical_cores
cores_of_cpuinfo = refl

flags_of_cpuinfo : has_avx2_fma cpuinfo ≡ true
unfolding has_avx2_fma
flags_of_cpuinfo = refl

abbrev template : Text
template = codes "{%- if a %}{%- if thinking_option == 'on' %}x{%- endif %}"

abbrev fixed_template : Text
fixed_template =
    codes
      "{%- if a %}{%- if thinking_option == 'on' and messages[-1].role == 'tool' %}\n        {{- '\\n<think></think>' }}\n    {%- elif thinking_option == 'on' %}x{%- endif %}"

template_is_patched : patch ling3 template ≡ patched fixed_template
unfolding patch patch_for count_matches replace_first
template_is_patched = refl

patch-Replaced_example :
    (find : Text) × (replace : Text) × (patch_for ling3 ≡ some (find, replace))
    × Replaced find replace template fixed_template 0
patch-Replaced_example = patch-Replaced ling3 template fixed_template template_is_patched

abbrev host : Host
host = record { cpuinfo = cpuinfo; logical = 4 }

-- A machine that never has a model file.
abbrev empty_machine : Machine
empty_machine = record {
  model = none;
  architecture = ok none;
  chat_template = ok none;
  ik_is_file = true;
  cached = false;
  template_path = codes "/tmp/t.jinja";
  template_written = true;
}

abbrev download_turn : Turn Machine
download_turn = record {
  seen = empty_machine;
  spawned = true;
  rounds = record { cancelled = false; ok = true; took = 5 } ∷ [];
  event = none;
  ran = 60_000;
  cancelled_in_delay = false;
}

replaced_once_example :
    replacements
      (supervisor_of (
        spawn_source next
          (first_turn (setup_on config host true))
          (download_turn ∷ download_turn ∷ []))).endings
    ≤ 1
replaced_once_example = replaced_once config host true (download_turn ∷ download_turn ∷ [])
