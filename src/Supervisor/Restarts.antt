-- ===== src/Supervisor/Restarts.antt =====
-- What the restart loop keeps, whatever source of specs it runs.
use homeassistant_local_voic.Base.{
  ◌<◌, ◌≡◌, ◌≢◌, refl, ap, ◌∙◌, true, Option, none, some, List, [], ◌∷◌, arith, All,
}
use homeassistant_local_voic.Supervisor.{
  Health, ChildSpec, Ended, hung, replaced, RunOutcome, new_watcher, Round, Turn, Finish, ended,
  stopped, running, finish, watched, watcher_of, watch, Supervisor, Loop, again, halted, turn,
  spawn_source, supervisor_of,
}
use homeassistant_local_voic.Supervisor.Verdict.{End, watch-End, new_watcher-Inv}

-- The spec makes sense: its health check needs at least one missing answer.
abbrev pub IsSound : ChildSpec → Type 0
IsSound spec = (h : Health) → spec.health ≡ some h → 0 < h.failures

watched-End :
    (spec : ChildSpec) (rounds : List Round)
    → IsSound spec
    → End spec.restart_when_healthy (watched spec rounds)
watched-End spec rounds p = go spec.health p
  where
    go :
        (o : Option Health)
        → ((h : Health) → o ≡ some h → 0 < h.failures)
        → End spec.restart_when_healthy (elim o [
          | none ↦ new_watcher
          | some h ↦ watcher_of (watch h spec.restart_when_healthy new_watcher rounds)
        ])
    go none q = record { asked = λ e. cc; answered = λ e. cc; stopped = λ e. cc }
    go (some h) q =
        watch-End h spec.restart_when_healthy rounds new_watcher
          (new_watcher-Inv h spec.restart_when_healthy (q h refl))

-- A run ends as `replaced` only if its spec asked for that and the child answered.
pub finish-replaced {ℓ} :
    {E : Type ℓ} (spec : ChildSpec) (t : Turn E)
    → IsSound spec
    → finish spec t ≡ ended replaced
    → (spec.restart_when_healthy ≡ true)
      × (t.spawned ≡ true)
      × ((watched spec t.rounds).state.healthy ≡ true)
unfolding finish
finish-replaced spec t p e =
    let v = watched-End spec t.rounds p in ground (arith, v.asked, v.answered)

module _ {ℓ κ} {E : Type κ} {S : Type ℓ} (next : E → S → Option RunOutcome → S × ChildSpec) where
  -- What every turn keeps holds after any number of turns.
  pub spawn_source_inv {μ} :
      (P : Supervisor S → Type μ)
      → ((s : Supervisor S) (t : Turn E) → P s → P (supervisor_of (turn next s t)))
      → (ts : List (Turn E)) (s : Supervisor S) → P s
      → P (supervisor_of (spawn_source next s ts))
  unfolding spawn_source
  spawn_source_inv P keep [] s p = p
  spawn_source_inv P keep (t ∷ ts) s p = go (turn next s t) refl (spawn_source_inv P keep ts)
    where
      go :
          (x : Loop S)
          → turn next s t ≡ x
          → ((u : Supervisor S) → P u → P (supervisor_of (spawn_source next u ts)))
          → P (supervisor_of (spawn_source next s (t ∷ ts)))
      go (again u) q ih = rw (q, spawn_source) (ih u (rw q at (keep s t p)))
      go (halted u) q ih = rw (q, spawn_source) (rw q at (keep s t p))

-- What the loop knows of its past: the next spec is told the newest ending, and nothing ended as
-- `replaced` that did not ask for it, nor as `hung` without a health check.
abbrev Told : Option RunOutcome → List (ChildSpec × Ended) → Type 0
Told none [] = Unit
Told (some o) ((spec, e) ∷ rest) = o.ended ≡ e
Told _ _ = ⊥

abbrev Fits : ChildSpec × Ended → Type 0
Fits (spec, e) = (e ≡ replaced → spec.restart_when_healthy ≡ true) × (e ≡ hung → spec.health ≢ none)

pub record History {ℓ} {S : Type ℓ} (s : Supervisor S) : Type 0 where
  pub told : Told s.last s.endings
  pub fits : All Fits s.endings

finish-hung {ℓ} :
    {E : Type ℓ} (spec : ChildSpec) (t : Turn E) → finish spec t ≡ ended hung → spec.health ≢ none
unfolding finish
finish-hung spec t e n = ground arith

finish-Fits {ℓ} :
    {E : Type ℓ} (spec : ChildSpec) (t : Turn E) (e : Ended)
    → IsSound spec
    → finish spec t ≡ ended e
    → Fits (spec, e)
finish-Fits spec t e p q = (
  (λ r. (finish-replaced spec t p (q ∙ ap ended r)).0),
  (λ h. finish-hung spec t (q ∙ ap ended h)),
)

module _ {ℓ κ} {E : Type κ} {S : Type ℓ} (next : E → S → Option RunOutcome → S × ChildSpec)
    (sound : (e : E) (s : S) (l : Option RunOutcome) → IsSound (next e s l).1) where
  turn-History :
      (s : Supervisor S) (t : Turn E) → History s → History (supervisor_of (turn next s t))
  unfolding turn
  turn-History s t v = go (finish (next t.seen s.source s.last).1 t) refl
    where
      go :
          (x : Finish)
          → finish (next t.seen s.source s.last).1 t ≡ x
          → History (supervisor_of (turn next s t))
      go (ended e) q =
          rw (q, turn) (ground (arith, finish-Fits _ t e (sound t.seen s.source s.last) q))
      go stopped q = rw (q, turn) (record { told = v.told; fits = v.fits })
      go running q = rw (q, turn) (record { told = v.told; fits = v.fits })

  -- For a source of sound specs, however the machine plays: if it held before, then afterwards the newest
  -- ending is the one that the source will be told, every run that ended as replaced had a spec that asks
  -- for a restart when healthy, and every run that ended as hung had a health check.
  pub spawn_source-History :
      (ts : List (Turn E)) (s : Supervisor S)
      → History s
      → History (supervisor_of (spawn_source next s ts))
  spawn_source-History ts s v = spawn_source_inv next (λ u. History u) turn-History ts s v
