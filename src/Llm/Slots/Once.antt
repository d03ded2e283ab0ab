-- ===== src/Llm/Slots/Once.antt =====
-- When the cache is restored and saved.
use homeassistant_local_voic.Base.{
  ℕ, ◌+◌, ◌≡◌, refl, ◌≤◌, ◌<◌, inl, inr, Bool, true, false, Option, none, some, List, [], ◌∷◌,
  arith, All, Bool-cases, Option-cases, ◌⊎◌, ◌==◌, ltb, ◌||◌, ◌++◌,
}
use homeassistant_local_voic.Base.Text.{Text, codes}
use homeassistant_local_voic.Base.Int.{ℤ, same_option}
use homeassistant_local_voic.Base.Result.{Result, ok, err}
use homeassistant_local_voic.Json.{Value, at}
use homeassistant_local_voic.Llm.Slots.{
  Names, Tick, Act, World, Loop, RestoreAnswer, busy, pick_slot, save, restore, started, periodic,
  round, run, file_of, answered, settled, saved, as_i64, save_as,
}
use homeassistant_local_voic.Llm.Slots.Files.{Directory, read_file}

-- A restore is sent only while the engine is healthy and no slot runs a request; a save only for a slot
-- that `pick_slot` picked.
abbrev pub Justified : Act → Type 0
Justified (Act.restore_sent t file) = (t.healthy ≡ true) × (busy t.slots ≡ ok false)
Justified (Act.save_sent t slot file) = pick_slot t.slots ≡ ok (some slot)

-- The start counters of the restores, the newest first.
abbrev pub restored_starts : List Act → List ℕ
restored_starts [] = []
restored_starts (Act.restore_sent t file ∷ acts) = t.starts ∷ restored_starts acts
restored_starts (Act.save_sent t slot file ∷ acts) = restored_starts acts

-- Strictly decreasing, and below `bound`.
abbrev pub Under : ℕ → List ℕ → Type 0
Under bound [] = Unit
Under bound (n ∷ ns) = (n < bound) × Under n ns

Under-le : (m n : ℕ) (ns : List ℕ) → m ≤ n → Under m ns → Under n ns
Under-le m n [] h u = tt
Under-le m n (k ∷ ns) h (less, u) = (omega arith, u)

-- The start counter of the newest round, and that it never went back.
abbrev pub newest_start : List Tick → ℕ
newest_start [] = 0
newest_start (t ∷ ts) = t.starts

abbrev pub Rising : List Tick → Type 0
Rising [] = Unit
Rising (t ∷ ts) = (newest_start ts ≤ t.starts) × Rising ts

record Inv (start : ℕ) (sent : List Act) (newest : ℕ) : Type 0 where
  justified : All Justified sent
  once : Under (start + 1) (restored_starts sent)
  reached : start ≤ newest

module _ (names : Names) (t : Tick) where
  answered-sent : (a : RestoreAnswer) (file : Text) (w : World) → (answered a file w).sent ≡ w.sent
  answered-sent RestoreAnswer.restored file w = refl
  answered-sent RestoreAnswer.gone file w = refl
  answered-sent RestoreAnswer.failed file w = refl

  restore-sent :
      (w : World)
      → ((restore names t w).sent ≡ w.sent)
        ⊎ ((restore names t w).sent ≡ Act.restore_sent t (file_of names t.active) ∷ w.sent)
  unfolding restore
  restore-sent w = elim (Option-cases (read_file w.dir (file_of names t.active))) [
    | inl missing ↦ inl (rw (missing, restore) refl)
    | inr (c, there) ↦
        inr (rw (there, restore) (answered-sent t.restore_call (file_of names t.active) _))
  ]

  save_as-sent :
      (file : Text) (slot : Value) (w : World)
      → (f : Text) × ((save_as t file slot w).0.sent ≡ Act.save_sent t slot f ∷ w.sent)
  save_as-sent file slot w = go (t.save_call w.dir) refl
    where
      go :
          (r : Result Directory)
          → t.save_call w.dir ≡ r
          → (f : Text) × ((save_as t file slot w).0.sent ≡ Act.save_sent t slot f ∷ w.sent)
      go (err e) q = (file ++ codes ".tmp", rw (q, save_as) refl)
      go (ok dir) q = (file ++ codes ".tmp", rw (q, save_as) refl)

  save-sent :
      (slot : Value) (w : World)
      → ((save names t slot w).0.sent ≡ w.sent)
        ⊎ ((f : Text) × ((save names t slot w).0.sent ≡ Act.save_sent t slot f ∷ w.sent))
  unfolding save
  save-sent slot w = elim (Option-cases (as_i64 (at slot (codes "id")))) [
    | inl missing ↦ inl (rw (missing, save) refl)
    | inr (n, there) ↦ inr (rw (there, save) (save_as-sent (file_of names t.active) slot w))
  ]

  module _ (start n : ℕ) (sent : List Act) (v : Inv start sent n) (h : n ≤ t.starts) where
    later-Inv : Inv start sent t.starts
    later-Inv = record {
      justified = v.justified;
      once = v.once;
      reached = omega (arith, v.reached);
    }

    settled-Inv : Inv t.starts sent t.starts
    settled-Inv = record {
      justified = v.justified;
      once = Under-le (start + 1) (t.starts + 1) _ (omega (arith, v.reached)) v.once;
      reached = omega arith;
    }

    restored-Inv :
        (file : Text)
        → (t.starts == start) ≡ false
        → t.healthy ≡ true
        → busy t.slots ≡ ok false
        → Inv t.starts (Act.restore_sent t file ∷ sent) t.starts
    restored-Inv file new healthy idle = record {
      justified = ((healthy, idle), v.justified);
      once = (omega arith, Under-le (start + 1) t.starts _ (ground (arith, v.reached)) v.once);
      reached = omega arith;
    }

    saved-Inv :
        (slot : Value) (file : Text)
        → pick_slot t.slots ≡ ok (some slot)
        → Inv start (Act.save_sent t slot file ∷ sent) t.starts
    saved-Inv slot file picked = record {
      justified = (picked, v.justified);
      once = v.once;
      reached = omega (arith, v.reached);
    }

abbrev Holds : Loop → ℕ → Type 0
Holds s n = Inv s.restored_start s.world.sent n

module _ (names : Names) (save_every : ℕ) (t : Tick) where
  started-Inv :
      (s : Loop) (n : ℕ)
      → Holds s n
      → n ≤ t.starts
      → (t.starts == s.restored_start) ≡ false
      → Holds (started names save_every t s) t.starts
  unfolding started
  started-Inv s n v h new = elim (Bool-cases t.healthy) [
    | inr off ↦ rw (off, started) (later-Inv names t _ n _ v h)
    | inl healthy ↦ rw (healthy, started) (go healthy (busy t.slots) refl)
  ]
    where
      go :
          t.healthy ≡ true
          → (b : Result Bool) → busy t.slots ≡ b
          → Holds
              (elim b [
                | err e ↦ s
                | ok true ↦ settled t save_every s.world
                | ok false ↦ settled t save_every (restore names t s.world)
              ])
              t.starts
      go healthy (err e) q = later-Inv names t _ n _ v h
      go healthy (ok true) q = settled-Inv names t _ n _ v h
      go healthy (ok false) q = elim (restore-sent names t s.world) [
        | inl none_sent ↦ rw none_sent (settled-Inv names t _ n _ v h)
        | inr one_sent ↦ rw one_sent (restored-Inv names t _ n _ v h _ new healthy q)
      ]

  saved-any :
      (s : Loop) (n : ℕ) (x : World × Result (Option ℤ))
      → Inv s.restored_start x.0.sent n
      → Holds (saved s x) n
  saved-any s n (w, ok task) v = v
  saved-any s n (w, err e) v = v

  saved-Holds :
      (s : Loop) (n : ℕ) (slot : Value)
      → Holds s n
      → n ≤ t.starts
      → pick_slot t.slots ≡ ok (some slot)
      → Holds (saved s (save names t slot s.world)) t.starts
  saved-Holds s n slot v h picked =
      saved-any s t.starts (save names t slot s.world) (elim (save-sent names t slot s.world) [
        | inl none_sent ↦ rw none_sent (later-Inv names t _ n _ v h)
        | inr (f, one_sent) ↦ rw one_sent (saved-Inv names t _ n _ v h slot f picked)
      ])

  periodic-Inv : (s : Loop) (n : ℕ) → Holds s n → n ≤ t.starts → Holds (periodic names t s) t.starts
  unfolding periodic
  periodic-Inv s n v h = go (pick_slot t.slots) refl
    where
      go : (o : Result (Option Value)) → pick_slot t.slots ≡ o → Holds (periodic names t s) t.starts
      go (err e) q = rw (q, periodic) (later-Inv names t _ n _ v h)
      go (ok none) q = rw (q, periodic) (later-Inv names t _ n _ v h)
      go (ok (some slot)) q =
          elim (Bool-cases (same_option (as_i64 (at slot (codes "id_task"))) s.last_task)) [
            | inl same ↦ rw (q, periodic, same) (later-Inv names t _ n _ v h)
            | inr other ↦ rw (q, periodic, other) (saved-Holds s n slot v h q)
          ]

  round-Inv :
      (s : Loop) (n : ℕ) → Holds s n → n ≤ t.starts → Holds (round names save_every t s) t.starts
  unfolding round
  round-Inv s n v h = elim (Bool-cases (t.starts == s.restored_start)) [
    | inr new ↦ rw (new, round) (started-Inv s n v h new)
    | inl old ↦ elim (Bool-cases ((t.starts == 0) || ltb t.now s.next_save)) [
      | inl wait ↦ rw (old, round, wait) (later-Inv names t _ n _ v h)
      | inr due ↦
          rw (old, round, due) (periodic-Inv (record s { next_save = t.later + save_every }) n v h)
    ]
  ]

run-Inv :
    (names : Names) (save_every : ℕ) (dir : Directory) (ts : List Tick)
    → Rising ts
    → Holds (run names save_every dir ts) (newest_start ts)
unfolding run
run-Inv names save_every dir [] rising = record { justified = tt; once = tt; reached = omega arith }
run-Inv names save_every dir (t ∷ ts) (up, rising) =
    round-Inv names save_every t (run names save_every dir ts) (newest_start ts)
      (run-Inv names save_every dir ts rising) up

-- If the start counter never goes back, no start is restored twice: the starts of the restores increase
-- strictly. And over any such run, a restore is sent only while the engine is healthy and no slot runs
-- a request, and a save only for a slot that `pick_slot` picked.
pub run-Justified :
    (names : Names) (save_every : ℕ) (dir : Directory) (ts : List Tick)
    → Rising ts
    → let s = run names save_every dir ts in
      All Justified s.world.sent × Under (s.restored_start + 1) (restored_starts s.world.sent)
run-Justified names save_every dir ts rising =
    let v = run-Inv names save_every dir ts rising in (v.justified, v.once)
