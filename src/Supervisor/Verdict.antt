-- ===== src/Supervisor/Verdict.antt =====
-- What a verdict of the watchdog says of the probes before it.
use mathlib.Core.List.{append_assoc}
use homeassistant_local_voic.Base.{
  suc, ◌≤◌, ◌<◌, ◌≡◌, refl, sym, ◌∙◌, ◌⊎◌, inl, inr, Bool, true, false, List, [], ◌∷◌, ◌++◌, arith,
  length, length-append, All, All-append,
}
use homeassistant_local_voic.Supervisor.{
  Health, Watcher, Round, Watching, keeps, returns, new_watcher, watch_round, watch, watcher_of,
}

abbrev Silent : List Round → Type 0
Silent = All (λ (r : Round). r.ok ≡ false)

-- The invariant of the loop between two rounds.
pub record Inv (h : Health) (restart : Bool) (w : Watcher) : Type 0 where
  pub seen : w.state.healthy ≡ w.seen_healthy
  pub below : w.failed < h.failures
  pub calm : w.fatal ≡ false
  pub kept : w.state.replace ≡ false
  pub not_yet : restart ≡ true → w.seen_healthy ≡ false
  pub counted : 0 < w.failed → (w.seen_healthy ≡ true) ⊎ (h.start_grace ≤ w.elapsed)

abbrev Keeps : Health → Bool → Watching → Type 0
Keeps h restart (keeps v) = Inv h restart v
Keeps h restart (returns v) = Unit

pub watch_round-Inv :
    (h : Health) (restart : Bool) (w : Watcher) (r : Round)
    → Inv h restart w
    → Keeps h restart (watch_round h restart w r)
unfolding watch_round
watch_round-Inv h restart w r v = ground (arith, v.counted, v.not_yet)

pub new_watcher-Inv : (h : Health) (restart : Bool) → 0 < h.failures → Inv h restart new_watcher
new_watcher-Inv h restart p = record {
  seen = refl;
  below = p;
  calm = refl;
  kept = refl;
  not_yet = λ _. refl;
  counted = λ z. absurd (omega arith);
}

-- What one round does to the count of missing answers.
abbrev Counts : Health → Watcher → Round → Watching → Type 0
Counts h w r (keeps v) = (v.failed ≡ 0) ⊎ ((r.ok ≡ false) × (v.failed ≡ suc w.failed))
Counts h w r (returns v) =
    v.fatal ≡ true
    → v.state.replace ≡ false
    → (r.ok ≡ false)
      × (h.failures ≡ suc w.failed)
      × ((v.state.healthy ≡ true) ⊎ (h.start_grace ≤ v.elapsed))

watch_round-Counts :
    (h : Health) (restart : Bool) (w : Watcher) (r : Round)
    → Inv h restart w
    → Counts h w r (watch_round h restart w r)
unfolding watch_round
watch_round-Counts h restart w r v = ground (arith, v.counted, v.not_yet)

-- `failures` probes in a row that got no answer, in a list of rounds.
pub record Silence (h : Health) (rs : List Round) : Type 0 where
  pub before : List Round
  pub silent : List Round
  pub after : List Round
  pub splits : rs ≡ before ++ (silent ++ after)
  pub enough : length silent ≡ h.failures
  pub unanswered : Silent silent

Silence-later : (h : Health) (xs rs : List Round) → Silence h rs → Silence h (xs ++ rs)
Silence-later h xs rs s = record {
  before = xs ++ s.before;
  silent = s.silent;
  after = s.after;
  splits = rw (s.splits) (sym (append_assoc xs s.before (s.silent ++ s.after)));
  enough = s.enough;
  unanswered = s.unanswered;
}

Silent-concat :
    (past : List Round) (r : Round) → Silent past → r.ok ≡ false → Silent (past ++ r ∷ [])
Silent-concat past r s e = All-append (λ (r : Round). r.ok ≡ false) past (r ∷ []) s (e, tt)

pub watch-keeps :
    (h : Health) (restart : Bool) (w : Watcher) (r : Round) (rs : List Round) {u : Watcher}
    → watch_round h restart w r ≡ keeps u
    → watch h restart w (r ∷ rs) ≡ watch h restart u rs
unfolding watch
watch-keeps h restart w r rs q = rw (q, watch)

pub watch-returns :
    (h : Health) (restart : Bool) (w : Watcher) (r : Round) (rs : List Round) {u : Watcher}
    → watch_round h restart w r ≡ returns u
    → watch h restart w (r ∷ rs) ≡ returns u
unfolding watch
watch-returns h restart w r rs q = rw (q, watch)

abbrev Verdict : Health → List Round → Watcher → Type 0
Verdict h rs v = Silence h rs × ((v.state.healthy ≡ true) ⊎ (h.start_grace ≤ v.elapsed))

-- One round in front of a verdict on the rest.
Verdict-cons :
    (h : Health) (restart : Bool) (r : Round) (rs past : List Round) (w v : Watcher) (x : Watching)
    → watch_round h restart w r ≡ x
    → Inv h restart w
    → Silent past
    → length past ≡ w.failed
    → v.fatal ≡ true
    → v.state.replace ≡ false
    → ((past' : List Round) (u : Watcher)
        → Inv h restart u
        → Silent past'
        → length past' ≡ u.failed
        → watch h restart u rs ≡ returns v
        → Verdict h (past' ++ rs) v)
    → watch h restart w (r ∷ rs) ≡ returns v
    → Verdict h (past ++ r ∷ rs) v
Verdict-cons h restart r rs past w v (returns u) q i s e f k ih run =
    let same : returns u ≡ returns v = sym (watch-returns h restart w r rs q) ∙ run in
    let (ok, last, late) = (rw q at (watch_round-Counts h restart w r i)) (cc) (cc) in
    (
      record {
        before = [];
        silent = past ++ r ∷ [];
        after = rs;
        splits = sym (append_assoc past (r ∷ []) rs);
        enough = omega (arith, length-append past (r ∷ []));
        unanswered = Silent-concat past r s ok;
      },
      ground arith,
    )
Verdict-cons h restart r rs past w v (keeps u) q i s e f k ih run =
    let next = sym (watch-keeps h restart w r rs q) ∙ run in
    let i' : Inv h restart u = rw q at (watch_round-Inv h restart w r i) in
    elim (let c : Counts h w r (keeps u) = rw q at (watch_round-Counts h restart w r i) in c) [
      | inl zero ↦
          let rest = ih [] u i' tt (sym zero) next in
          (
            rw (sym (append_assoc past (r ∷ []) rs)) (Silence-later h (past ++ r ∷ []) rs rest.0),
            rest.1,
          )
      | inr (ok, more) ↦ rw (sym (append_assoc past (r ∷ []) rs)) (
          ih (past ++ r ∷ []) u i' (Silent-concat past r s ok)
            (omega (arith, length-append past (r ∷ []))) next)
    ]

watch-Verdict :
    (h : Health) (restart : Bool) (rs past : List Round) (w v : Watcher)
    → Inv h restart w
    → Silent past
    → length past ≡ w.failed
    → v.fatal ≡ true
    → v.state.replace ≡ false
    → watch h restart w rs ≡ returns v
    → Verdict h (past ++ rs) v
unfolding watch
watch-Verdict h restart [] past w v i s e f k run = cc
watch-Verdict h restart (r ∷ rs) past w v i s e f k run =
    Verdict-cons h restart r rs past w v (watch_round h restart w r) refl i s e f k
      (λ past' u i' s' e' run'. watch-Verdict h restart rs past' u v i' s' e' f k run') run

-- The watchdog calls a child hung only after `failures` probes in a row without an answer, and
-- only if the child answered before or the start grace is over.
pub watch_hung :
    (h : Health) (restart : Bool) (rs : List Round) (v : Watcher)
    → 0 < h.failures
    → watch h restart new_watcher rs ≡ returns v
    → v.fatal ≡ true
    → v.state.replace ≡ false
    → Silence h rs × ((v.state.healthy ≡ true) ⊎ (h.start_grace ≤ v.elapsed))
watch_hung h restart rs v p run f k =
    watch-Verdict h restart rs [] new_watcher v (new_watcher-Inv h restart p) tt refl f k run

-- What holds of the watcher when the run of its child ends, at any round.
pub record End (restart : Bool) (v : Watcher) : Type 0 where
  pub asked : v.state.replace ≡ true → restart ≡ true
  pub answered : v.state.replace ≡ true → v.state.healthy ≡ true
  pub stopped : v.state.replace ≡ true → v.fatal ≡ true

watch_round-End :
    (h : Health) (restart : Bool) (w : Watcher) (r : Round)
    → Inv h restart w
    → End restart (watcher_of (watch_round h restart w r))
unfolding watch_round
watch_round-End h restart w r v = ground (arith, v.not_yet)

pub watch-End :
    (h : Health) (restart : Bool) (rs : List Round) (w : Watcher)
    → Inv h restart w
    → End restart (watcher_of (watch h restart w rs))
unfolding watch
watch-End h restart [] w i = ground arith
watch-End h restart (r ∷ rs) w i = go (watch_round h restart w r) refl (watch-End h restart rs)
  where
    go :
        (x : Watching)
        → watch_round h restart w r ≡ x
        → ((u : Watcher) → Inv h restart u → End restart (watcher_of (watch h restart u rs)))
        → End restart (watcher_of (watch h restart w (r ∷ rs)))
    go (keeps u) q ih =
        rw (watch-keeps h restart w r rs q) (ih u (rw q at (watch_round-Inv h restart w r i)))
    go (returns u) q ih =
        rw (watch-returns h restart w r rs q) (rw q at (watch_round-End h restart w r i))
