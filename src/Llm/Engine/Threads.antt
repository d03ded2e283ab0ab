-- ===== src/Llm/Engine/Threads.antt =====
-- The number of threads of ik_llama.cpp.
use homeassistant_local_voic.Base.{ℕ, ◌≤◌, max, some, ◌≡◌, arith}
use homeassistant_local_voic.Base.Text.{Text}
use homeassistant_local_voic.Llm.Engine.{physical_cores, ik_threads}

-- The threads are between 1 and 8, never more than the CPUs of the process (at least 1), and never
-- more than the physical cores where /proc/cpuinfo lists them.
pub ik_threads_bounds :
    (cpuinfo : Text) (logical : ℕ)
    → (1 ≤ ik_threads cpuinfo logical)
      × (ik_threads cpuinfo logical ≤ 8)
      × (ik_threads cpuinfo logical ≤ max logical 1)
      × ((p : ℕ) → physical_cores cpuinfo ≡ some p → ik_threads cpuinfo logical ≤ max p 1)
unfolding ik_threads
ik_threads_bounds cpuinfo logical = ground arith
