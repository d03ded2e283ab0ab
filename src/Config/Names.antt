-- ===== src/Config/Names.antt =====
-- The settings are read back from their names, and the cache files stay apart.

use mathlib.Core.List.{append_assoc, map-append}
use homeassistant_local_voic.Base.{
  ℕ, ◌+◌, ◌≤◌, ◌⊎◌, ◌≡◌, ◌≢◌, refl, ap, ◌∙◌, [], ◌∷◌, ◌↔◌, ◌++◌, map, arith, length, length-append,
  length-map, All, if◌then◌else◌,
}
use homeassistant_local_voic.Base.Text.{
  Text, codes, text_eq_iff, is_ascii_alphanumeric, is_ascii_digit,
}
use homeassistant_local_voic.Base.Result.{ok}
use homeassistant_local_voic.Config.{
  Ctx, k32, k64, k128, k256, ctx_parse, label, LlmConfig, EngineKind, is_name_char, slot_file_for,
  tag,
}

ctx_parse_of_label : (c : Ctx) → ctx_parse (label c) ≡ ok c
unfolding ctx_parse label
ctx_parse_of_label k32 = refl
ctx_parse_of_label k64 = refl
ctx_parse_of_label k128 = refl
ctx_parse_of_label k256 = refl

label_of_parse : (value : Text) (c : Ctx) → ctx_parse value ≡ ok c → value ≡ label c
unfolding ctx_parse label
label_of_parse value c e = ground (
  arith,
  text_eq_iff value (codes "32k"),
  text_eq_iff value (codes "64k"),
  text_eq_iff value (codes "128k"),
  text_eq_iff value (codes "256k"),
)

-- `LLM_CTX` is accepted exactly if it is the label of a context size, which is then the one read.
pub ctx_parse-label : (value : Text) (c : Ctx) → (ctx_parse value ≡ ok c) ↔ (value ≡ label c)
ctx_parse-label value c = (label_of_parse value c, λ e. rw e (ctx_parse_of_label c))

-- A letter, a digit, a full stop, a low line or a hyphen: the portable characters of file names.
abbrev pub Portable : ℕ → Type 0
Portable c =
    ((b'a' ≤ c) × (c ≤ b'z'))
    ⊎ (((b'A' ≤ c) × (c ≤ b'Z'))
        ⊎ (((b'0' ≤ c) × (c ≤ b'9')) ⊎ ((c ≡ b'.') ⊎ ((c ≡ b'_') ⊎ (c ≡ b'-')))))

abbrev safe : ℕ → ℕ
safe c = if is_name_char c then c else b'_'

safe-Portable : (c : ℕ) → Portable (safe c)
unfolding is_name_char is_ascii_alphanumeric is_ascii_digit
safe-Portable c = ground arith

map-Portable : (s : Text) → All Portable (map safe s)
map-Portable [] = tt
map-Portable (c ∷ s) = (safe-Portable c, map-Portable s)

slot_file_for_ends :
    (cfg : LlmConfig) (e : EngineKind)
    → (front : Text) × (slot_file_for cfg e ≡ front ++ codes ".slot")
unfolding slot_file_for is_name_char
slot_file_for_ends cfg e =
    let front = cfg.model_name ++ (codes "-" ++ (label cfg.ctx ++ tag e)) in
    let whole : cfg.model_name ++ (codes "-" ++ (label cfg.ctx ++ (tag e ++ codes ".slot")))
        ≡ front ++ codes ".slot" =
      simp append_assoc in
    (map safe front, ap (map safe) whole ∙ map-append safe front (codes ".slot"))

length-slot_file_for :
    (cfg : LlmConfig) (e : EngineKind)
    → length (slot_file_for cfg e)
      ≡ length cfg.model_name + (1 + (length (label cfg.ctx) + (length (tag e) + 5)))
unfolding slot_file_for
length-slot_file_for cfg e =
    length-map _ _
    ∙ omega (
      arith,
      length-append cfg.model_name (codes "-" ++ (label cfg.ctx ++ (tag e ++ codes ".slot"))),
      length-append (codes "-") (label cfg.ctx ++ (tag e ++ codes ".slot")),
      length-append (label cfg.ctx) (tag e ++ codes ".slot"),
      length-append (tag e) (codes ".slot"),
    )

-- The file of a saved prompt cache has letters, digits, full stops, low lines and hyphens only, so no
-- separator of folders, and ends with `.slot`, so it is neither `.` nor `..`, whatever the name of the
-- model; and the two engines never share a file.
pub slot_file_for_safe :
    (cfg : LlmConfig)
    → ((e : EngineKind)
        → All Portable (slot_file_for cfg e)
          × (front : Text) × (slot_file_for cfg e ≡ front ++ codes ".slot"))
      × (slot_file_for cfg EngineKind.ik ≢ slot_file_for cfg EngineKind.llama_cpp)
slot_file_for_safe cfg = (
  (λ e.
      let (front, ends) = slot_file_for_ends cfg e in
      (unfold slot_file_for in map-Portable _, front, ends)),
  λ e. absurd (
      omega (
        arith,
        ap length e,
        length-slot_file_for cfg EngineKind.ik,
        length-slot_file_for cfg EngineKind.llama_cpp,
      )),
)
