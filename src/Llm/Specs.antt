-- ===== src/Llm/Specs.antt =====
-- src/llm/specs.rs, with the specs of src/llm/mod.rs: the child process of each start.
pub mod Downloads
use homeassistant_local_voic.Base.{
  ℕ, Bool, true, false, ◌||◌, Option, none, some, List, [], ◌∷◌, ◌++◌, is_some, if◌then◌else◌,
}
use homeassistant_local_voic.Base.Text.{Text, codes, to_string}
use homeassistant_local_voic.Base.Result.{Result, ok, err}
use homeassistant_local_voic.Config.{LlmConfig, LlmSource, file, hf_repo, EngineKind, Family}
use homeassistant_local_voic.Supervisor.{Health, ChildSpec, Ended, RunOutcome}
use homeassistant_local_voic.Llm.Engine.{
  Facts, Decision, decide, Chooser, new_chooser, note, is_replaced, has_avx2_fma, ik_threads,
}
use homeassistant_local_voic.Llm.Args.{server_args, ik_args}
use homeassistant_local_voic.Llm.Template.{Outcome, not_needed, patched, no_match, patch}

pub record Host : Type 0 where
  pub cpuinfo : Text
  pub logical : ℕ

-- What a start reads from the machine: the model file that is found, its metadata, whether the
-- program of ik_llama.cpp is a file, whether llama.cpp lists the model as cached, and whether the
-- patched template could be written, with its path.
pub record Machine : Type 0 where
  pub model : Option Text
  pub architecture : Result (Option Text)
  pub chat_template : Result (Option Text)
  pub ik_is_file : Bool
  pub cached : Bool
  pub template_path : Text
  pub template_written : Bool

write_template : Machine → Outcome → Option Text
write_template m not_needed = none
write_template m (no_match n) = none
write_template m (patched t) = if m.template_written then some m.template_path else none

unfoldable pub patched_template : Family → Machine → Option Text
unfolding write_template
patched_template family m = elim m.chat_template [
  | ok (some original) ↦ write_template m (patch family original)
  | ok none ↦ none
  | err e ↦ none
]

unfoldable pub template_for : LlmConfig → Machine → Option Text → Option Text
unfolding patched_template
template_for cfg m none = none
template_for cfg m (some model) = if cfg.template_fix then patched_template cfg.family m else none

abbrev pub llamacpp_health_timeout : ℕ
llamacpp_health_timeout = 10_000

abbrev pub ik_health_timeout : ℕ
ik_health_timeout = 120_000

unfoldable pub health : LlmConfig → ℕ → Health
health cfg timeout = record {
  url = codes "http://127.0.0.1:" ++ (to_string cfg.internal_port ++ codes "/health");
  start_grace = 900_000;
  interval = 30_000;
  timeout = timeout;
  failures = 4;
}

source_env : LlmConfig → LlmSource → List (Text × Text)
source_env cfg (file path) = []
source_env cfg (hf_repo repo) = (codes "LLAMA_CACHE", cfg.hf_cache_dir) ∷ []

source_offline : LlmSource → Machine → Bool
source_offline (file path) m = false
source_offline (hf_repo repo) m = m.cached

unfoldable pub llamacpp_spec : LlmConfig → Machine → Bool → Bool → ChildSpec
unfolding source_env source_offline health
llamacpp_spec cfg m slot_cache restart_when_healthy = record {
  name = codes "llama-server";
  program = cfg.server_bin;
  args = server_args cfg slot_cache (source_offline cfg.source m) (template_for cfg m m.model);
  env = source_env cfg cfg.source;
  env_remove = codes "LLAMA_API_KEY" ∷ [];
  health = some (health cfg llamacpp_health_timeout);
  restart_when_healthy = restart_when_healthy;
}

unfoldable pub ik_spec : LlmConfig → Machine → Text → Bool → ℕ → ChildSpec
unfolding health
ik_spec cfg m model slot_cache threads = record {
  name = codes "llama-server";
  program = cfg.ik_bin;
  args = ik_args cfg model slot_cache (template_for cfg m (some model)) threads;
  env = [];
  env_remove = codes "LLAMA_API_KEY" ∷ [];
  health = some (health cfg ik_health_timeout);
  restart_when_healthy = false;
}

pub record LlmSpecs : Type 0 where
  pub cfg : LlmConfig
  pub host : Host
  pub chooser : Chooser
  pub active : EngineKind
  pub slots : Bool
  pub last : Option EngineKind
  pub download_done : Bool

-- The spec source of `setup_on`, where `slots_usable` gave `slots`.
unfoldable pub setup_on : LlmConfig → Host → Bool → LlmSpecs
setup_on cfg host slots = record {
  cfg = cfg;
  host = host;
  chooser = new_chooser;
  active = EngineKind.llama_cpp;
  slots = slots;
  last = none;
  download_done = false;
}

abbrev metadata : Machine → Option Text
metadata m = elim m.model [
  | none ↦ none
  | some model ↦ elim m.architecture [ ok a ↦ a | err e ↦ none ]
]

abbrev ended_replaced : Option RunOutcome → Bool
ended_replaced none = false
ended_replaced (some o) = is_replaced o.ended

-- The part of `plan` before the choice: what the last run says.
unfoldable pub note_last : LlmSpecs → Option RunOutcome → LlmSpecs
note_last s last = record s {
  chooser = elim s.last [ none ↦ s.chooser | some kind ↦ note s.chooser kind last ];
  download_done = s.download_done || ended_replaced last;
}

unfoldable pub facts : LlmSpecs → Machine → Facts
facts s m = record {
  choice = s.cfg.engine;
  device = s.cfg.device;
  family = s.cfg.family;
  architecture = metadata m;
  model_on_disk = is_some m.model;
  download_done = s.download_done;
  cpu_avx2_fma = has_avx2_fma s.host.cpuinfo;
  ik_binary = m.ik_is_file;
  ik_banned = s.chooser.banned;
}

spec_of : LlmSpecs → Machine → Decision → EngineKind → Option Text → ChildSpec
spec_of s m d EngineKind.ik (some model) =
    ik_spec s.cfg m model s.slots (ik_threads s.host.cpuinfo s.host.logical)
spec_of s m d _ _ = llamacpp_spec s.cfg m s.slots d.download_first

unfoldable pub plan : Machine → LlmSpecs → Option RunOutcome → LlmSpecs × (Decision × ChildSpec)
unfolding spec_of note_last facts
plan m s last =
    let s' = note_last s last in
    let d = decide (facts s' m) in
    (record s' { last = some d.kind; active = d.kind }, (d, spec_of s' m d d.kind m.model))

unfoldable pub next : Machine → LlmSpecs → Option RunOutcome → LlmSpecs × ChildSpec
unfolding plan
next m s last = let (s', (d, spec)) = plan m s last in (s', spec)
