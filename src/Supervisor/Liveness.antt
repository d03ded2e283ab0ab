-- ===== src/Supervisor/Liveness.antt =====
-- A child that has stopped answering is found.
use homeassistant_local_voic.Base.{
  ℕ, ◌+◌, ◌-◌, ◌≤◌, ◌<◌, ◌≡◌, refl, Bool, true, false, List, [], ◌∷◌, arith, length, All,
  if◌then◌else◌,
}
use homeassistant_local_voic.Supervisor.{
  Health, Watcher, Round, Watching, keeps, returns, new_watcher, watch_round, watch,
}
use homeassistant_local_voic.Supervisor.Verdict.{
  Inv, watch_round-Inv, new_watcher-Inv, watch-keeps, watch-returns,
}

-- A round in which the hub runs on and the probe gets no answer.
abbrev pub IsMute : Round → Type 0
IsMute r = (r.cancelled ≡ false) × (r.ok ≡ false)

-- The rounds that the watchdog may still wait: each uses up a millisecond of the grace, or counts.
abbrev patience : Health → Watcher → ℕ
patience h w = (if w.seen_healthy then 0 else h.start_grace - w.elapsed) + (h.failures - w.failed)

abbrev Falls : Health → Watcher → Watching → Type 0
Falls h w (keeps u) = patience h u < patience h w
Falls h w (returns u) = (u.fatal ≡ true) × (u.state.replace ≡ false)

watch_round-Falls :
    (h : Health) (restart : Bool) (w : Watcher) (r : Round)
    → 0 < h.interval
    → Inv h restart w
    → IsMute r
    → Falls h w (watch_round h restart w r)
unfolding watch_round
watch_round-Falls h restart w r p v m = ground arith

-- The watchdog returns with `fatal` cancelled and no replacement asked.
abbrev pub IsHung : Watching → Type 0
IsHung x = (v : Watcher) × (x ≡ returns v) × (v.fatal ≡ true) × (v.state.replace ≡ false)

watch-IsHung :
    (h : Health) (restart : Bool) (rs : List Round) (w : Watcher)
    → 0 < h.interval
    → Inv h restart w
    → All IsMute rs
    → patience h w ≤ length rs
    → IsHung (watch h restart w rs)
unfolding watch
watch-IsHung h restart [] w p i a e = absurd (let b = i.below in omega arith)
watch-IsHung h restart (r ∷ rs) w p i a e =
    go (watch_round h restart w r) refl (watch-IsHung h restart rs)
  where
    go :
        (x : Watching)
        → watch_round h restart w r ≡ x
        → ((u : Watcher)
            → 0 < h.interval
            → Inv h restart u
            → All IsMute rs
            → patience h u ≤ length rs
            → IsHung (watch h restart u rs))
        → IsHung (watch h restart w (r ∷ rs))
    go (keeps u) q ih =
        let less : Falls h w (keeps u) = rw q at (watch_round-Falls h restart w r p i a.0) in
        rw (watch-keeps h restart w r rs q)
          (ih u p (rw q at (watch_round-Inv h restart w r i)) a.1 (omega arith))
    go (returns u) q ih =
        let last : Falls h w (returns u) = rw q at (watch_round-Falls h restart w r p i a.0) in
        (u, watch-returns h restart w r rs q, last.0, last.1)

-- A child that never answers is called hung after at most `start_grace` (in milliseconds) plus
-- `failures` probes, whatever the probes take.
pub watch_mute :
    (h : Health) (restart : Bool) (rs : List Round)
    → 0 < h.interval
    → 0 < h.failures
    → All IsMute rs
    → h.start_grace + h.failures ≤ length rs
    → IsHung (watch h restart new_watcher rs)
watch_mute h restart rs p f a e =
    watch-IsHung h restart rs new_watcher p (new_watcher-Inv h restart f) a (omega arith)

-- A child that answered before is called hung once `failures` probes in a row get no answer.
pub watch_falls_silent :
    (h : Health) (restart : Bool) (rs : List Round) (w : Watcher)
    → 0 < h.interval
    → Inv h restart w
    → w.seen_healthy ≡ true
    → All IsMute rs
    → h.failures ≤ length rs
    → IsHung (watch h restart w rs)
watch_falls_silent h restart rs w p i s a e = watch-IsHung h restart rs w p i a (ground arith)
