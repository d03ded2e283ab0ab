-- ===== src/Llm/Slots.antt =====
-- src/llm/slots.rs: the prompt cache over restarts. What the engine and the clock answer in one round
-- of the loop is a `Tick`.
pub mod Files
pub mod Choice
pub mod Once
use homeassistant_local_voic.Base.{
  ℕ, ◌+◌, ◌-◌, ◌/◌, ◌^◌, Bool, true, false, Option, none, some, List, [], ◌∷◌, ◌++◌, not, ◌&&◌,
  ◌||◌, ltb, ◌==◌, length, any, unwrap_or, if◌then◌else◌,
}
use homeassistant_local_voic.Base.Text.{Text, codes}
use homeassistant_local_voic.Base.Int.{ℤ, pos, negsuc, less, equal, same_option}
use homeassistant_local_voic.Base.Result.{Result, ok, err, context, ◌>>=◌}
use homeassistant_local_voic.Json
use homeassistant_local_voic.Json.{Value, at, as_str, as_bool, as_array, to_list}
use homeassistant_local_voic.Config.{EngineKind}
use Files.{Directory, read_file, move_with_sidecars, remove_with_sidecars}

abbrev pub min_tokens : ℤ
min_tokens = pos 1024

unfoldable pub i64_end : ℕ
i64_end = 2 ^ 63

unfoldable pub as_i64 : Value → Option ℤ
as_i64 (Json.num n) = if ltb n i64_end then some (pos n) else none
as_i64 (Json.neg n) = some (negsuc n)
as_i64 _ = none

-- `state` of ik_llama.cpp: 0 is idle.
abbrev runs : Option ℤ → Bool
runs none = false
runs (some s) = not (equal s (pos 0))

unfoldable pub is_processing : Value → Bool
is_processing slot = elim (as_bool (at slot (codes "is_processing"))) [
  | none ↦ runs (as_i64 (at slot (codes "state")))
  | some b ↦ b
]

abbrev count_tokens : Text → ℤ
count_tokens p = let n = length p / 4 in if ltb n i64_end then pos n else pos (i64_end - 1)

abbrev prompt_size : Value → ℤ
prompt_size slot = elim (as_str (at slot (codes "prompt"))) [
  | none ↦ pos 0
  | some p ↦ count_tokens p
]

unfoldable pub prompt_tokens : Value → ℤ
prompt_tokens slot = unwrap_or (as_i64 (at slot (codes "n_prompt_tokens"))) (prompt_size slot)

unfoldable pub task_of : Value → ℤ
task_of slot = unwrap_or (as_i64 (at slot (codes "id_task"))) (negsuc 0)

abbrev pub is_newer : Value → Option Value → Bool
is_newer slot none = true
is_newer slot (some best) = less (task_of best) (task_of slot)

-- The loop of `pick_slot`.
unfoldable pub pick_from : Option Value → List Value → Option Value
pick_from best [] = best
pick_from best (slot ∷ slots) =
    let skipped = pick_from best slots in
    let taken = pick_from (some slot) slots in
    if is_processing slot
    then none
    else if less (prompt_tokens slot) min_tokens
    then skipped
    else if is_newer slot best
    then taken
    else skipped

unfoldable pub slot_list : Result Value → Result (List Value)
slot_list answer = do
  v ← answer
  slots ← context (as_array v) (codes "/slots is not a list")
  ok (to_list slots)

-- `answer` is the one of `/slots`.
unfoldable pub pick_slot : Result Value → Result (Option Value)
unfolding slot_list pick_from
pick_slot answer = do slots ← slot_list answer; ok (pick_from none slots)

unfoldable pub busy : Result Value → Result Bool
unfolding slot_list
busy answer = do slots ← slot_list answer; ok (any is_processing slots)

-- The names that stay over the whole run: `file`, and that of ik_llama.cpp.
pub record Names : Type 0 where
  pub base_file : Text
  pub ik_file : Option Text

pub data RestoreAnswer : Type 0 where
  restored : RestoreAnswer
  -- A request error that is neither a timeout nor a status: the engine went away.
  gone : RestoreAnswer
  failed : RestoreAnswer

-- What the machine answers in one round: the start counter, the active engine, `/health`, `/slots`, the
-- save and restore calls, and the clock, read twice.
pub record Tick : Type 0 where
  pub starts : ℕ
  pub active : EngineKind
  pub healthy : Bool
  pub slots : Result Value
  -- The directory as the engine's save leaves it.
  pub save_call : Directory → Result Directory
  pub restore_call : RestoreAnswer
  pub now : ℕ
  pub later : ℕ

pub data Act : Type 0 where
  restore_sent : Tick → Text → Act
  save_sent : Tick → Value → Text → Act

-- The state of the disk and the calls sent so far, the newest first.
pub record World : Type 0 where
  pub dir : Directory
  pub sent : List Act

unfoldable pub file_of : Names → EngineKind → Text
file_of names EngineKind.llama_cpp = names.base_file
file_of names EngineKind.ik = unwrap_or names.ik_file names.base_file

abbrev save_as : Tick → Text → Value → World → World × Result (Option ℤ)
save_as t file slot w =
    let asked = record w { sent = Act.save_sent t slot (file ++ codes ".tmp") ∷ w.sent } in
    elim (t.save_call w.dir) [
      | err e ↦ (asked, err e)
      | ok dir ↦
          let end = move_with_sidecars dir (file ++ codes ".tmp") file in
          (
            record asked { dir = end.0 },
            if end.1 then ok (as_i64 (at slot (codes "id_task"))) else err (codes "rename failed"),
          )
    ]

unfoldable pub save : Names → Tick → Value → World → World × Result (Option ℤ)
save names t slot w = elim (as_i64 (at slot (codes "id"))) [
  | none ↦ (w, err (codes "slot without id"))
  | some id ↦ save_as t (file_of names t.active) slot w
]

abbrev answered : RestoreAnswer → Text → World → World
answered restored file w = w
answered gone file w = w
answered failed file w = record w { dir = remove_with_sidecars w.dir file }

unfoldable pub restore : Names → Tick → World → World
restore names t w =
    let file = file_of names t.active in
    elim (read_file w.dir file) [
      | none ↦ w
      | some c ↦ answered t.restore_call file (record w { sent = Act.restore_sent t file ∷ w.sent })
    ]

unfoldable pub save_now : Names → Tick → World → World
unfolding save pick_slot
save_now names t w = if not t.healthy then w else elim (pick_slot t.slots) [
  | err e ↦ w
  | ok none ↦ w
  | ok (some slot) ↦ (save names t slot w).0
]

-- The variables of the loop of `run`, and the world.
pub record Loop : Type 0 where
  pub restored_start : ℕ
  pub last_task : Option ℤ
  pub next_save : ℕ
  pub world : World

abbrev settled : Tick → ℕ → World → Loop
settled t save_every w = record {
  restored_start = t.starts;
  last_task = none;
  next_save = t.later + save_every;
  world = w;
}

-- A round in which the engine started again.
unfoldable pub started : Names → ℕ → Tick → Loop → Loop
unfolding restore
started names save_every t s = if not t.healthy then s else elim (busy t.slots) [
  | err e ↦ s
  | ok true ↦ settled t save_every s.world
  | ok false ↦ settled t save_every (restore names t s.world)
]

abbrev saved : Loop → World × Result (Option ℤ) → Loop
saved s (w, ok task) = record s { last_task = task; world = w }
saved s (w, err e) = record s { world = w }

unfoldable pub periodic : Names → Tick → Loop → Loop
unfolding save
periodic names t s = elim (pick_slot t.slots) [
  | err e ↦ s
  | ok none ↦ s
  | ok (some slot) ↦
      if same_option (as_i64 (at slot (codes "id_task"))) s.last_task
      then s
      else saved s (save names t slot s.world)
]

unfoldable pub round : Names → ℕ → Tick → Loop → Loop
unfolding started periodic
round names save_every t s =
    if not (t.starts == s.restored_start)
    then started names save_every t s
    else if (t.starts == 0) || ltb t.now s.next_save
    then s
    else periodic names t (record s { next_save = t.later + save_every })

-- `run` after the rounds, the newest first; a cancelled token ends it. It starts at time 0.
unfoldable pub run : Names → ℕ → Directory → List Tick → Loop
unfolding round
run names save_every dir [] = record {
  restored_start = 0;
  last_task = none;
  next_save = save_every;
  world = record { dir = dir; sent = [] };
}
run names save_every dir (t ∷ ts) = round names save_every t (run names save_every dir ts)
