-- ===== src/Gpu/Faults.antt =====
-- The container restarts exactly after three GPU faults in a row.
use homeassistant_local_voic.Base.{
  ℕ, ◌+◌, ◌≡◌, ◌<◌, sym, refl, ap, ◌∙◌, Bool, true, false, List, [], ◌∷◌, leb, ◌||◌, ◌&&◌, arith,
  if◌then◌else◌, Bool-cases, inl, inr,
}
use homeassistant_local_voic.Base.Text.{Text}
use homeassistant_local_voic.Gpu.{
  Gpu, Speech, new_gpu, on_gpu, success, failure, is_fault_sign, fault_threshold, count_fault,
  as_u32,
}

as_u32-add : (n : ℕ) → as_u32 (as_u32 n + 1) ≡ as_u32 (n + 1)
unfolding as_u32
as_u32-add n = omega arith

as_u32-small : (n : ℕ) → n < 4 → as_u32 n ≡ n
unfolding as_u32
as_u32-small n h = omega arith

pub data Report : Type 0 where
  succeeded : Speech → Report
  failed : Speech → Text → Report

module _ (to_lowercase : Text → Text) (stt_on_gpu tts_on_gpu : Bool) where
  abbrev pub fresh : Gpu
  fresh = new_gpu stt_on_gpu tts_on_gpu

  abbrev step : Gpu → Report → Gpu
  step g (succeeded engine) = success g engine
  step g (failed engine err) = failure to_lowercase g engine err

  -- The state after the reports, the newest first.
  unfoldable pub after : List Report → Gpu
  after [] = fresh
  after (r ∷ rs) = step (after rs) r

  row_step : ℕ → Report → ℕ
  row_step row (succeeded engine) = if on_gpu fresh engine then 0 else row
  row_step row (failed engine err) =
      if on_gpu fresh engine && is_fault_sign (to_lowercase err) then row + 1 else row

  -- How many of the newest reports of the engines on the GPU are faults in a row. Other failures
  -- neither count nor end a row.
  unfoldable pub faults_in_row : List Report → ℕ
  unfolding row_step
  faults_in_row [] = 0
  faults_in_row (r ∷ rs) = row_step (faults_in_row rs) r

  -- Whether such a row had three faults at some time.
  unfoldable pub ever_three : List Report → Bool
  ever_three [] = false
  ever_three (r ∷ rs) = leb fault_threshold (faults_in_row (r ∷ rs)) || ever_three rs

  record Agrees (g : Gpu) (row : ℕ) (ever : Bool) : Type 0 where
    stt_same : g.stt_on_gpu ≡ stt_on_gpu
    tts_same : g.tts_on_gpu ≡ tts_on_gpu
    counted : g.faults ≡ as_u32 row
    lost_so_far : g.lost ≡ ever
    reached : leb fault_threshold row ≡ true → ever ≡ true

  module _ (g : Gpu) (row : ℕ) (ever : Bool) (a : Agrees g row ever) where
    on_gpu-same : (engine : Speech) → on_gpu g engine ≡ on_gpu fresh engine
    on_gpu-same Speech.stt = a.stt_same
    on_gpu-same Speech.tts = a.tts_same

    keep-Agrees : Agrees g row (leb fault_threshold row || ever)
    keep-Agrees = record {
      stt_same = a.stt_same;
      tts_same = a.tts_same;
      counted = a.counted;
      lost_so_far = ground (arith, a.lost_so_far, a.reached);
      reached = λ h. ground arith;
    }

    clear-Agrees : Agrees (record g { faults = 0 }) 0 (leb fault_threshold 0 || ever)
    clear-Agrees = record {
      stt_same = a.stt_same;
      tts_same = a.tts_same;
      counted = sym (as_u32-small 0 (omega arith));
      lost_so_far = a.lost_so_far;
      reached = λ h. ground arith;
    }

    count-Agrees : Agrees (count_fault g) (row + 1) (leb fault_threshold (row + 1) || ever)
    unfolding count_fault
    count-Agrees = record {
      stt_same = a.stt_same;
      tts_same = a.tts_same;
      counted = ap (λ n. as_u32 (n + 1)) a.counted ∙ as_u32-add row;
      lost_so_far =
          ap (λ n. g.lost || leb fault_threshold n)
            (ap (λ n. as_u32 (n + 1)) a.counted ∙ as_u32-add row)
          ∙ ground (arith, a.lost_so_far, a.reached, as_u32-small (row + 1));
      reached = λ h. ground arith;
    }

    step-Agrees :
        (r : Report)
        → Agrees (step g r) (row_step row r) (leb fault_threshold (row_step row r) || ever)
    unfolding row_step success failure
    step-Agrees (succeeded engine) = elim (Bool-cases (on_gpu fresh engine)) [
      | inl on ↦ rw (on_gpu-same engine, on) clear-Agrees
      | inr off ↦ rw (on_gpu-same engine, off) keep-Agrees
    ]
    step-Agrees (failed engine err) = elim (Bool-cases (on_gpu fresh engine)) [
      | inl on ↦ elim (Bool-cases (is_fault_sign (to_lowercase err))) [
        | inl sign ↦ rw (on_gpu-same engine, on, sign) count-Agrees
        | inr other ↦ rw (on_gpu-same engine, on, other) keep-Agrees
      ]
      | inr off ↦ rw (on_gpu-same engine, off) keep-Agrees
    ]

  after-Agrees : (rs : List Report) → Agrees (after rs) (faults_in_row rs) (ever_three rs)
  unfolding after faults_in_row ever_three
  after-Agrees [] = record {
    stt_same = refl;
    tts_same = refl;
    counted = sym (as_u32-small 0 (omega arith));
    lost_so_far = refl;
    reached = λ h. ground arith;
  }
  after-Agrees (r ∷ rs) =
      step-Agrees (after rs) (faults_in_row rs) (ever_three rs) (after-Agrees rs) r

  -- The token `lost` is cancelled exactly when the engines on the GPU have at some time reported three
  -- faults in a row, with no success of an engine on the GPU between them.
  pub failure-lost : (rs : List Report) → (after rs).lost ≡ ever_three rs
  failure-lost rs = (after-Agrees rs).lost_so_far
