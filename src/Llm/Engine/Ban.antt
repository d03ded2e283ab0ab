-- ===== src/Llm/Engine/Ban.antt =====
-- When ik_llama.cpp is given up.
use homeassistant_local_voic.Base.{
  ◌≤◌, Bool, true, false, not, ◌&&◌, ◌||◌, some, List, [], ◌∷◌, ◌≡◌, refl, arith, leb,
  if◌then◌else◌,
}
use homeassistant_local_voic.Config.{EngineKind}
use homeassistant_local_voic.Supervisor.{RunOutcome}
use homeassistant_local_voic.Llm.Engine.{Chooser, new_chooser, is_ik, is_replaced, good_run, note}

abbrev pub notes : Chooser → List (EngineKind × RunOutcome) → Chooser
notes c [] = c
notes c ((kind, o) ∷ es) = notes (note c kind (some o)) es

-- A run that says something of ik_llama.cpp, and one that says it failed: it never answered, or it
-- ended in less than two minutes.
abbrev pub counts : EngineKind × RunOutcome → Bool
counts (kind, o) = is_ik kind && not (is_replaced o.ended)

abbrev pub fails : EngineKind × RunOutcome → Bool
fails (kind, o) = counts (kind, o) && not (o.healthy && leb good_run o.ran)

-- The first run that counts is a failure.
abbrev pub next_fails : List (EngineKind × RunOutcome) → Bool
next_fails [] = false
next_fails (e ∷ es) = if counts e then fails e else next_fails es

-- Two failures, one behind the other among the runs that count.
abbrev pub fails_twice : List (EngineKind × RunOutcome) → Bool
fails_twice [] = false
fails_twice (e ∷ es) = fails e && next_fails es || fails_twice es

banned_stays :
    (es : List (EngineKind × RunOutcome)) (c : Chooser)
    → c.banned ≡ true
    → (notes c es).banned ≡ true
banned_stays [] c h = h
banned_stays ((kind, o) ∷ es) c h =
    banned_stays es (note c kind (some o)) (unfold note in ground arith)

notes-banned_from :
    (es : List (EngineKind × RunOutcome)) (c : Chooser)
    → c.banned ≡ false
    → c.failures ≤ 1
    → (notes c es).banned ≡ (leb 1 c.failures && next_fails es || fails_twice es)
unfolding note
notes-banned_from [] c b k = ground arith
notes-banned_from ((kind, o) ∷ es) c b k =
    ground
      (arith, notes-banned_from es (note c kind (some o)), banned_stays es (note c kind (some o)))

-- ik_llama.cpp is banned exactly if two of its runs in a row failed, runs of llama.cpp and replaced
-- runs left out of the row.
pub notes-banned :
    (es : List (EngineKind × RunOutcome)) → (notes new_chooser es).banned ≡ fails_twice es
notes-banned es = notes-banned_from es new_chooser refl (omega arith)
