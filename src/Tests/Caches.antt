-- ===== src/Tests/Caches.antt =====
-- Runs of the GPU fault count, the slot cache and the media index.
use homeassistant_local_voic.Base.{
  ℕ, ◌+◌, ◌-◌, ◌≡◌, refl, true, false, Option, none, some, List, [], ◌∷◌, arith, All, length, ◌*◌,
  ◌==◌, ◌&&◌, if◌then◌else◌,
}
use homeassistant_local_voic.Base.Text.{Text, codes, text_eq}
use homeassistant_local_voic.Base.Result.{ok}
use homeassistant_local_voic.Config.{EngineKind}
use homeassistant_local_voic.Gpu.{Speech}
use homeassistant_local_voic.Gpu.Faults
use homeassistant_local_voic.Gpu.Faults.{Report, after, ever_three, failure-lost}
use homeassistant_local_voic.Json
use homeassistant_local_voic.Json.{Value}
use homeassistant_local_voic.Llm.Slots.{Tick, Names, RestoreAnswer, run, pick_slot, slot_list}
use homeassistant_local_voic.Llm.Slots.Files.{Directory}
use homeassistant_local_voic.Llm.Slots.Choice.{Pick, pick_slot-Pick}
use homeassistant_local_voic.Llm.Slots.Once.{Justified, Under, restored_starts, run-Justified}
use homeassistant_local_voic.Media.Index
use homeassistant_local_voic.Media.Index.{
  Entry, Vector, Header, Disk, new_index, load, load_files, save, half_saved, from_le_bytes,
  collect, remove, position_of,
}
use homeassistant_local_voic.Media.Index.Rows.{rows, without}
use homeassistant_local_voic.Media.Index.Changes.{IsSound}
use homeassistant_local_voic.Media.Index.Map.{Upserted, upsert-Upserted}
use homeassistant_local_voic.Media.Index.Saved.{mixed, load-half_saved, load-save}
use homeassistant_local_voic.Media.Index.Sound.{remove-IsSound, load-IsSound}

abbrev lost_device : Report
lost_device = Faults.failed Speech.tts (codes "device lost")

abbrev reports : List Report
reports = lost_device ∷ lost_device ∷ Faults.succeeded Speech.stt ∷ lost_device ∷ []

failure-lost_example :
    (after (λ t. t) false true reports).lost ≡ ever_three (λ t. t) false true reports
failure-lost_example = failure-lost (λ t. t) false true reports

abbrev slot : ℕ → ℕ → Value
slot tokens task = Json.obj (
    Json.field (codes "id_task") (Json.num task)
      (Json.field (codes "n_prompt_tokens") (Json.num tokens) Json.end))

abbrev two_slots : Value
two_slots = Json.arr (Json.cons (slot 5000 7) (Json.cons (slot 300 9) Json.nil))

two_slots_list : slot_list (ok two_slots) ≡ ok (slot 5000 7 ∷ slot 300 9 ∷ [])
unfolding slot_list
two_slots_list = refl

pick_slot-Pick_example :
    (o : Option Value) × (pick_slot (ok two_slots) ≡ ok o)
    × Pick none (slot 5000 7 ∷ slot 300 9 ∷ []) o
pick_slot-Pick_example =
    pick_slot-Pick (ok two_slots) (slot 5000 7 ∷ slot 300 9 ∷ []) two_slots_list

abbrev names : Names
names = record { base_file = codes "m.slot"; ik_file = none }

abbrev tick : ℕ → Tick
tick n = record {
  starts = n;
  active = EngineKind.llama_cpp;
  healthy = true;
  slots = ok two_slots;
  save_call = λ dir. ok dir;
  restore_call = RestoreAnswer.restored;
  now = 10;
  later = 11;
}

abbrev disk_files : Directory
disk_files = (codes "m.slot", 1 ∷ []) ∷ []

run-Justified_example :
    All Justified (run names 300 disk_files (tick 2 ∷ tick 1 ∷ [])).world.sent
    × Under
        ((run names 300 disk_files (tick 2 ∷ tick 1 ∷ [])).restored_start + 1)
        (restored_starts (run names 300 disk_files (tick 2 ∷ tick 1 ∷ [])).world.sent)
run-Justified_example =
    run-Justified names 300 disk_files (tick 2 ∷ tick 1 ∷ []) (omega arith, (omega arith, tt))

abbrev film : Text → Entry
film id = record {
  id = id;
  kind = Index.movie;
  name = id;
  series_id = none;
  series_name = none;
  hash = 5;
}

abbrev print : Text
print = codes "fp"

abbrev header : Header
header = record { fingerprint = print; header_dims = 1; header_entries = film (codes "a") ∷ [] }

abbrev full_disk : Disk
full_disk = record { entries_json = some header; vectors_f32 = some (1 ∷ 0 ∷ 0 ∷ 0 ∷ []) }

abbrev pub loaded : Index.Index
loaded = record {
  dims = 1;
  entries = film (codes "a") ∷ [];
  vectors = 1 ∷ [];
  by_id = (codes "a", 0) ∷ [];
}

load_full : load full_disk print 1 ≡ some loaded
unfolding load load_files from_le_bytes collect text_eq
load_full = refl

load-IsSound_example : IsSound loaded × (loaded.dims ≡ 1)
load-IsSound_example = load-IsSound full_disk print 1 load_full

pub loaded-IsSound : IsSound loaded
loaded-IsSound = (load-IsSound full_disk print 1 load_full).0

upsert-Upserted_example : Upserted loaded (film (codes "b")) (7 ∷ [])
upsert-Upserted_example = upsert-Upserted loaded (film (codes "b")) (7 ∷ []) loaded-IsSound refl

remove-IsSound_example :
    (left : Index.Index) × (remove loaded (codes "a" ∷ [])
      ≡ some (left, length (rows loaded) - length (rows left)))
    × (rows left ≡ without (codes "a" ∷ []) (rows loaded))
    × IsSound left
remove-IsSound_example = remove-IsSound (codes "a" ∷ []) loaded loaded-IsSound

load-half_saved_example :
    load (half_saved loaded (save loaded print full_disk)) print loaded.dims ≡ (
      if length loaded.vectors == length loaded.entries * loaded.dims
      then some (mixed loaded loaded)
      else none)
load-half_saved_example = load-half_saved loaded loaded print full_disk (omega arith, tt)

load-save_example :
    load (save loaded print full_disk) print 1
    ≡ (if text_eq print print && (loaded.dims == 1) then some (mixed loaded loaded) else none)
load-save_example = load-save loaded print print 1 full_disk refl (omega arith, tt)
