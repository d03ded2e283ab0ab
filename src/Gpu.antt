-- ===== src/Gpu.antt =====
-- src/gpu.rs: the count of the GPU faults of the speech engines. The lock and its timeout are
-- tokio's.
pub mod Faults
use homeassistant_local_voic.Base.{
  ℕ, ◌+◌, ◌%◌, Bool, Option, none, some, drop, all, ◌&&◌, true, false, List, [], ◌∷◌, any, leb, not,
  ◌||◌, if◌then◌else◌,
}
use homeassistant_local_voic.Base.Text.{
  Text, codes, contains, starts_with, split_once, trim, lines, is_ascii_digit,
}

abbrev fault_signs : List Text
fault_signs =
    codes "device lost"
    ∷ codes "devicelost"
    ∷ codes "context is lost"
    ∷ codes "http error 500"
    ∷ codes "timed out"
    ∷ codes "timeout"
    ∷ []

abbrev pub fault_threshold : ℕ
fault_threshold = 3

pub data Speech : Type 0 where
  stt : Speech
  tts : Speech

-- `lost` is whether the token is cancelled.
pub record Gpu : Type 0 where
  pub faults : ℕ
  pub lost : Bool
  pub stt_on_gpu : Bool
  pub tts_on_gpu : Bool

abbrev pub new_gpu : Bool → Bool → Gpu
new_gpu s t = record { faults = 0; lost = false; stt_on_gpu = s; tts_on_gpu = t }

abbrev pub on_gpu : Gpu → Speech → Bool
on_gpu g Speech.stt = g.stt_on_gpu
on_gpu g Speech.tts = g.tts_on_gpu

unfoldable pub success : Gpu → Speech → Gpu
success g engine = if not (on_gpu g engine) then g else record g { faults = 0 }

unfoldable pub is_fault_sign : Text → Bool
is_fault_sign text = any (contains text) fault_signs

-- A number as a `u32` keeps it.
unfoldable pub as_u32 : ℕ → ℕ
as_u32 n = n % 4294967296

-- `fetch_add` of an `AtomicU32` wraps around.
unfoldable pub count_fault : Gpu → Gpu
count_fault g =
    let count = as_u32 (g.faults + 1) in
    record g { faults = count; lost = g.lost || leb fault_threshold count }

-- `err` is the error with its causes, as `{err:#}` prints it; `to_lowercase` is the one of Unicode.
unfoldable pub failure : (Text → Text) → Gpu → Speech → Text → Gpu
unfolding is_fault_sign
failure to_lowercase g engine err =
    if not (on_gpu g engine) || not (is_fault_sign (to_lowercase err)) then g else count_fault g

abbrev is_vulkan : Text → Bool
is_vulkan name = starts_with name (codes "Vulkan") && all is_ascii_digit (drop 6 name)

abbrev device_name : Text → Option Text
device_name line = elim (split_once b':' (trim line)) [
  | none ↦ none
  | some (name, _) ↦ some (trim name)
]

device_names : List Text → List Text
device_names [] = []
device_names (line ∷ rest) =
    let names = device_names rest in
    elim (device_name line) [
      | none ↦ names
      | some name ↦ if is_vulkan name then name ∷ names else names
    ]

unfoldable pub parse_device_list : Text → List Text
unfolding device_names
parse_device_list output = device_names (lines output)
