-- ===== src/Llm/Specs/Downloads.antt =====
-- The supervisor with the specs of the LLM: how often a start only downloads the model.
use homeassistant_local_voic.Base.{
  ℕ, ◌+◌, ◌≤◌, ◌≡◌, refl, Bool, true, false, Option, none, some, List, [], ◌∷◌, arith,
  if◌then◌else◌,
}
use homeassistant_local_voic.Base.Text.{Text}
use homeassistant_local_voic.Config.{LlmConfig, EngineKind}
use homeassistant_local_voic.Supervisor.{
  Health, ChildSpec, Ended, exited, hung, replaced, spawn_failed, RunOutcome, Turn, Supervisor,
  Finish, ended, stopped, running, finish, turn, spawn_source, supervisor_of,
}
use homeassistant_local_voic.Supervisor.Restarts.{IsSound, finish-replaced, spawn_source_inv}
use homeassistant_local_voic.Llm.Engine.{Decision, decide, is_replaced}
use homeassistant_local_voic.Llm.Engine.Choice.{decide-not_done}
use homeassistant_local_voic.Llm.Specs.{
  Host, Machine, LlmSpecs, setup_on, next, note_last, facts, spec_of, llamacpp_spec, ik_spec,
  health,
}

abbrev pub replacements : List (ChildSpec × Ended) → ℕ
replacements [] = 0
replacements ((spec, e) ∷ es) = (if is_replaced e then 1 else 0) + replacements es

-- What both kinds of spec have: four missing answers, and a restart only as decided.
record Shape (d : Decision) (spec : ChildSpec) : Type 0 where
  failures : (h : Health) → spec.health ≡ some h → h.failures ≡ 4
  restart : spec.restart_when_healthy ≡ true → d.download_first ≡ true

spec_of-Shape :
    (s : LlmSpecs) (m : Machine) (d : Decision) (k : EngineKind) (o : Option Text)
    → Shape d (spec_of s m d k o)
unfolding spec_of llamacpp_spec ik_spec health
spec_of-Shape s m d EngineKind.ik (some model) = record {
  failures = λ h e. ground arith;
  restart = λ e. cc;
}
spec_of-Shape s m d EngineKind.ik none = record { failures = λ h e. ground arith; restart = λ e. e }
spec_of-Shape s m d EngineKind.llama_cpp o = record {
  failures = λ h e. ground arith;
  restart = λ e. e;
}

next-Shape :
    (m : Machine) (s : LlmSpecs) (l : Option RunOutcome)
    → Shape (decide (facts (note_last s l) m)) (next m s l).1
unfolding next
next-Shape m s l = spec_of-Shape (note_last s l) m _ _ m.model

next-IsSound : (m : Machine) (s : LlmSpecs) (l : Option RunOutcome) → IsSound (next m s l).1
next-IsSound m s l h e = let v = next-Shape m s l in omega (arith, v.failures h e)

-- A spec asks for a restart only before a run ended as `replaced`.
next-restart :
    (m : Machine) (s : LlmSpecs) (l : Option RunOutcome)
    → (next m s l).1.restart_when_healthy ≡ true
    → (note_last s l).download_done ≡ false
unfolding facts
next-restart m s l h =
    let v = next-Shape m s l in decide-not_done (facts (note_last s l) m) (v.restart h)

-- Either nothing was replaced so far, or one run was and the source knows or will be told.
record Once (s : Supervisor LlmSpecs) : Type 0 where
  few : replacements s.endings ≤ 1
  known : replacements s.endings ≡ 1 → (note_last s.source s.last).download_done ≡ true

turn-Once :
    (s : Supervisor LlmSpecs) (t : Turn Machine) → Once s → Once (supervisor_of (turn next s t))
unfolding next note_last turn
turn-Once s t v = go (finish (next t.seen s.source s.last).1 t) refl
  where
    go :
        (x : Finish)
        → finish (next t.seen s.source s.last).1 t ≡ x
        → Once (supervisor_of (turn next s t))
    go (ended replaced) q =
        let asked =
          finish-replaced (next t.seen s.source s.last).1 t (next-IsSound t.seen s.source s.last)
            q in
        rw (q, turn) (ground (arith, next-restart t.seen s.source s.last asked.0, v.known))
    go (ended exited) q = rw (q, turn) (ground (arith, v.known))
    go (ended hung) q = rw (q, turn) (ground (arith, v.known))
    go (ended spawn_failed) q = rw (q, turn) (ground (arith, v.known))
    go stopped q = rw (q, turn) (ground (arith, v.known))
    go running q = rw (q, turn) (ground (arith, v.known))

abbrev pub first_turn : LlmSpecs → Supervisor LlmSpecs
first_turn s = record { source = s; last = none; starts = 0; endings = [] }

-- Whatever the machine does, the supervisor replaces the LLM's child process at most once: a
-- model that is never found does not restart the engine forever.
pub replaced_once :
    (cfg : LlmConfig) (host : Host) (slots : Bool) (ts : List (Turn Machine))
    → replacements
        (supervisor_of (spawn_source next (first_turn (setup_on cfg host slots)) ts)).endings
      ≤ 1
replaced_once cfg host slots ts = all_turns.few
  where
    start : Supervisor LlmSpecs
    start = first_turn (setup_on cfg host slots)

    all_turns : Once (supervisor_of (spawn_source next start ts))
    all_turns =
        spawn_source_inv next Once turn-Once ts start
          (record { few = omega arith; known = λ e. absurd (omega arith) })
