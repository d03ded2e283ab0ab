-- ===== src/Tests/Supervising.antt =====
-- The watchdog, the restart loop and the crash report on concrete runs.
use homeassistant_local_voic.Base.{
  ℕ, ◌≤◌, ◌<◌, ◌≡◌, refl, ◌⊎◌, true, false, Option, none, some, List, [], ◌∷◌, map, arith,
}
use homeassistant_local_voic.Base.Text.{Text, codes, trim_end_matches, is_whitespace}
use homeassistant_local_voic.Supervisor.{
  Health, ChildSpec, replaced, RunOutcome, Watcher, new_watcher, Round, watch, watch_round, returns,
  Turn, Supervisor, turn, spawn_source, supervisor_of,
}
use homeassistant_local_voic.Supervisor.Verdict.{Inv, Silence, watch_hung}
use homeassistant_local_voic.Supervisor.Liveness.{IsHung, watch_mute, watch_falls_silent}
use homeassistant_local_voic.Supervisor.Restarts.{History, spawn_source-History}
use homeassistant_local_voic.Supervisor.Output.{cut, forward, forward_line, level, push, tail_lines}
use homeassistant_local_voic.Supervisor.Output.Tail.{kept, last, forward_tail}

-- A health check with no grace: two missing answers are a hang.
abbrev quick : Health
quick = record { url = codes "u"; start_grace = 0; interval = 100; timeout = 10; failures = 2 }

abbrev good : Round
good = record { cancelled = false; ok = true; took = 5 }

abbrev bad : Round
bad = record { cancelled = false; ok = false; took = 10 }

abbrev silent_watcher : Watcher
silent_watcher = record {
  state = record { healthy = true; replace = false };
  seen_healthy = true;
  failed = 2;
  fatal = true;
  elapsed = 435;
}

watch_two_bad :
    watch quick false new_watcher (good ∷ bad ∷ good ∷ bad ∷ bad ∷ [])
    ≡ returns (record silent_watcher { elapsed = 540 })
unfolding watch watch_round
watch_two_bad = refl

watch_hung_example :
    Silence quick (good ∷ bad ∷ good ∷ bad ∷ bad ∷ []) × ((true ≡ true) ⊎ (0 ≤ 540))
watch_hung_example =
    watch_hung quick false (good ∷ bad ∷ good ∷ bad ∷ bad ∷ [])
      (record silent_watcher { elapsed = 540 }) (omega arith) watch_two_bad refl refl

watch_mute_example : IsHung (watch quick false new_watcher (bad ∷ bad ∷ []))
watch_mute_example =
    watch_mute quick false (bad ∷ bad ∷ []) (omega arith) (omega arith)
      ((refl, refl), ((refl, refl), tt)) (omega arith)

abbrev healthy_watcher : Watcher
healthy_watcher = record silent_watcher { failed = 1; fatal = false }

healthy_watcher-Inv : Inv quick false healthy_watcher
healthy_watcher-Inv = ground arith

watch_falls_silent_example : IsHung (watch quick false healthy_watcher (bad ∷ bad ∷ []))
watch_falls_silent_example =
    watch_falls_silent quick false (bad ∷ bad ∷ []) healthy_watcher (omega arith)
      healthy_watcher-Inv refl ((refl, refl), ((refl, refl), tt)) (omega arith)

abbrev quick_spec : ChildSpec
quick_spec = record {
  name = codes "c";
  program = codes "p";
  args = [];
  env = [];
  env_remove = [];
  health = some quick;
  restart_when_healthy = true;
}

abbrev fixed : ℕ → ℕ → Option RunOutcome → ℕ × ChildSpec
fixed e s l = (s, quick_spec)

abbrev first : Supervisor ℕ
first = record { source = 0; last = none; starts = 0; endings = [] }

abbrev ready_turn : Turn ℕ
ready_turn = record {
  seen = 0;
  spawned = true;
  rounds = bad ∷ good ∷ [];
  event = none;
  ran = 300;
  cancelled_in_delay = false;
}

ready_is_replaced :
    (supervisor_of (turn fixed first ready_turn)).endings ≡ (quick_spec, replaced) ∷ []
unfolding turn watch watch_round
ready_is_replaced = refl

fixed-IsSound :
    (e s : ℕ) (l : Option RunOutcome) (h : Health) → quick_spec.health ≡ some h → 0 < h.failures
fixed-IsSound e s l h q = ground arith

spawn_source-History_example :
    History (supervisor_of (spawn_source fixed first (ready_turn ∷ ready_turn ∷ [])))
spawn_source-History_example =
    spawn_source-History fixed fixed-IsSound (ready_turn ∷ ready_turn ∷ []) first
      (record { told = tt; fits = tt })

abbrev output : List Text
output = codes "loading  " ∷ codes "" ∷ codes "error: boom" ∷ codes "done" ∷ []

output_lines : (forward (λ s. s) ([], []) output).0 ≡ codes "loading" ∷ codes "done" ∷ []
unfolding forward forward_line level push trim_end_matches is_whitespace
output_lines = refl

forward_tail_example :
    (forward (λ s. s) ([], []) output).0 ≡ last tail_lines (map cut (kept (λ s. s) output))
forward_tail_example = forward_tail (λ s. s) output
