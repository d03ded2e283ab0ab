-- ===== src/Llm/Template.antt =====
-- src/llm/template.rs: the fix of the chat templates.
pub mod Patch
use homeassistant_local_voic.Base.{
  ℕ, zero, suc, ◌+◌, ◌-◌, Bool, Option, none, some, List, [], ◌∷◌, ◌++◌, length, drop, ◌==◌,
  if◌then◌else◌,
}
use homeassistant_local_voic.Base.Text.{Text, codes, starts_with}
use homeassistant_local_voic.Config.{Family, ling3, minicpm5, lfm3, qwen35, granite4}

unfoldable pub patch_for : Family → Option (Text × Text)
patch_for ling3 = some (
  codes "{%- if thinking_option == 'on' %}",
  codes
      "{%- if thinking_option == 'on' and messages[-1].role == 'tool' %}\n        {{- '\\n<think></think>' }}\n    {%- elif thinking_option == 'on' %}",
)
patch_for lfm3 = some (
  codes "{%- if enable_thinking -%}\n        {{- \"<think>\" -}}",
  codes
      "{%- if enable_thinking and messages[-1].role == \"tool\" -%}\n        {{- \"<think></think>\" -}}\n    {%- elif enable_thinking -%}\n        {{- \"<think>\" -}}",
)
patch_for minicpm5 = some (
  codes "{%- elif enable_thinking is true %}",
  codes
      "{%- elif enable_thinking is true and messages[-1].role == 'tool' %}\n            {{- '<think>\\n\\n</think>\\n\\n' }}\n        {%- elif enable_thinking is true %}",
)
patch_for qwen35 = none
patch_for granite4 = none

pub data Outcome : Type 0 where
  not_needed : Outcome
  patched : Text → Outcome
  no_match : ℕ → Outcome

-- `str::matches` from left to right: the characters of a match are not part of the next one.
-- `skip` characters of the last match are still to pass.
unfoldable pub count_matches : Text → ℕ → Text → ℕ
unfolding starts_with
count_matches find skip [] = 0
count_matches find (suc skip) (c ∷ cs) = count_matches find skip cs
count_matches find zero (c ∷ cs) = elim (starts_with (c ∷ cs) find) [
  | Bool.true ↦ suc (count_matches find (length find - 1) cs)
  | Bool.false ↦ count_matches find zero cs
]

-- `str::replacen` with one replacement.
unfoldable pub replace_first : Text → Text → Text → Text
unfolding starts_with
replace_first find replace [] = []
replace_first find replace (c ∷ cs) =
    let rest = replace_first find replace cs in
    if starts_with (c ∷ cs) find then replace ++ drop (length find) (c ∷ cs) else c ∷ rest

apply : Text → Text → Text → Outcome
apply find replace template =
    let n = count_matches find 0 template in
    if n == 1 then patched (replace_first find replace template) else no_match n

unfoldable pub patch : Family → Text → Outcome
unfolding apply
patch family template = elim (patch_for family) [
  | none ↦ not_needed
  | some (find, replace) ↦ apply find replace template
]
