-- ===== src/Supervisor.antt =====
-- src/supervisor.rs: the health watchdog of one child process and the loop that restarts it.
-- Durations are milliseconds. What the machine decides (answers, delays, exits) is an argument.
pub mod Verdict
pub mod Liveness
pub mod Restarts
pub mod Output
use homeassistant_local_voic.Base.Text.{Text}
use homeassistant_local_voic.Base.{
  ℕ, suc, ◌+◌, min, Bool, true, false, not, ◌&&◌, ◌||◌, Option, none, some, List, [], ◌∷◌, ltb, leb,
  if◌then◌else◌,
}

pub record Health : Type 0 where
  pub url : Text
  pub start_grace : ℕ
  pub interval : ℕ
  pub timeout : ℕ
  pub failures : ℕ

-- The shared counter `starts` is a field of the supervisor's state below.
pub record ChildSpec : Type 0 where
  pub name : Text
  pub program : Text
  pub args : List Text
  pub env : List (Text × Text)
  pub env_remove : List Text
  pub health : Option Health
  pub restart_when_healthy : Bool

pub data Ended : Type 0 where
  exited hung replaced spawn_failed : Ended

pub record RunOutcome : Type 0 where
  pub ended : Ended
  pub healthy : Bool
  pub ran : ℕ

pub record RunState : Type 0 where
  pub healthy : Bool
  pub replace : Bool

abbrev pub startup_poll : ℕ
startup_poll = 1000

-- The variables of `watch`, its token `fatal`, and the time since its start.
pub record Watcher : Type 0 where
  pub state : RunState
  pub seen_healthy : Bool
  pub failed : ℕ
  pub fatal : Bool
  pub elapsed : ℕ

abbrev pub new_watcher : Watcher
new_watcher = record {
  state = record { healthy = false; replace = false };
  seen_healthy = false;
  failed = 0;
  fatal = false;
  elapsed = 0;
}

-- One round as the machine plays it: `cancel` fires during the pause, the probe answers with a
-- 2xx status, and the time that the round takes beyond its pause.
pub record Round : Type 0 where
  pub cancelled : Bool
  pub ok : Bool
  pub took : ℕ

pub data Watching : Type 0 where
  keeps returns : Watcher → Watching

unfoldable pub pause : Health → Watcher → ℕ
pause h w =
    if w.seen_healthy || leb h.start_grace w.elapsed
    then h.interval
    else min h.interval startup_poll

-- The branch of a good answer.
answered : Bool → Watcher → Watching
answered restart w =
    if not w.seen_healthy
    then (if restart
        then returns (record w {
          state = record { healthy = true; replace = true };
          seen_healthy = true;
          fatal = true;
        })
        else keeps (record w {
          state = record { healthy = true; replace = w.state.replace };
          seen_healthy = true;
          failed = 0;
        }))
    else keeps (record w { failed = 0 })

-- The branch of a missing answer.
missed : Health → Watcher → Watching
missed h w =
    if not w.seen_healthy && ltb w.elapsed h.start_grace
    then keeps w
    else if leb h.failures (w.failed + 1)
    then returns (record w { failed = w.failed + 1; fatal = true })
    else keeps (record w { failed = w.failed + 1 })

-- The body of the loop of `watch`.
unfoldable pub watch_round : Health → Bool → Watcher → Round → Watching
unfolding pause answered missed
watch_round h restart w r =
    let w' : Watcher = record w { elapsed = w.elapsed + pause h w + r.took } in
    if r.cancelled
    then returns w
    else if w.fatal
    then returns w
    else if r.ok
    then answered restart w'
    else missed h w'

unfoldable pub watch : Health → Bool → Watcher → List Round → Watching
watch h restart w [] = keeps w
watch h restart w (r ∷ rs) = elim (watch_round h restart w r) [
  | returns v ↦ returns v
  | keeps v ↦ watch h restart v rs
]

abbrev pub watcher_of : Watching → Watcher
watcher_of (keeps w) = w
watcher_of (returns w) = w

-- What wins the `select!` of a run before the watchdog: the child exits, or the hub stops.
pub data Event : Type 0 where
  exits cancels : Event

-- One turn of the restart loop as the machine plays it. `event` is `none` where only the
-- watchdog can end the run.
pub record Turn {ℓ} (E : Type ℓ) : Type ℓ where
  pub seen : E
  pub spawned : Bool
  pub rounds : List Round
  pub event : Option Event
  pub ran : ℕ
  pub cancelled_in_delay : Bool

-- How the `match cmd.spawn()` leaves a turn: with an ending, by the return on `cancel`, or not
-- at all, because the child runs on.
pub data Finish : Type 0 where
  ended : Ended → Finish
  stopped running : Finish

-- The watcher runs only if the spec has a health check.
abbrev pub watched : ChildSpec → List Round → Watcher
watched spec rounds = elim spec.health [
  | none ↦ new_watcher
  | some h ↦ watcher_of (watch h spec.restart_when_healthy new_watcher rounds)
]

select : Option Event → Watcher → Finish
select (some exits) w = ended exited
select (some cancels) w = stopped
select none w = if w.fatal then ended (if w.state.replace then replaced else hung) else running

unfoldable pub finish {ℓ} : {E : Type ℓ} → ChildSpec → Turn E → Finish
unfolding select
finish spec t = if t.spawned then select t.event (watched spec t.rounds) else ended spawn_failed

-- The state of `spawn_source`, with the counter `starts` and the endings so far, newest first.
pub record Supervisor {ℓ} (S : Type ℓ) : Type ℓ where
  pub source : S
  pub last : Option RunOutcome
  pub starts : ℕ
  pub endings : List (ChildSpec × Ended)

pub data Loop {ℓ} (S : Type ℓ) : Type ℓ where
  again halted : Supervisor S → Loop S

-- `SpecSource`: `next` reads the machine, its own state and the outcome of the run before.
module _ {ℓ κ} {E : Type κ} {S : Type ℓ} (next : E → S → Option RunOutcome → S × ChildSpec) where
  -- One turn of the loop of `spawn_source`.
  unfoldable pub turn : Supervisor S → Turn E → Loop S
  unfolding finish
  turn s t =
      let (source', spec) = next t.seen s.source s.last in
      let started : Supervisor S = record s {
        source = source';
        starts = if t.spawned then s.starts + 1 else s.starts;
      } in
      let w : Watcher = watched spec t.rounds in
      elim (finish spec t) [
        | stopped ↦ halted started
        | running ↦ halted started
        | ended e ↦
            let s' : Supervisor S = record started {
              last =
                  some (record { ended = e; healthy = t.spawned && w.state.healthy; ran = t.ran });
              endings = (spec, e) ∷ s.endings;
            } in
            if t.cancelled_in_delay then halted s' else again s'
      ]

  unfoldable pub spawn_source : Supervisor S → List (Turn E) → Loop S
  spawn_source s [] = again s
  spawn_source s (t ∷ ts) = elim (turn s t) [
    | halted s' ↦ halted s'
    | again s' ↦ spawn_source s' ts
  ]

abbrev pub supervisor_of {ℓ} : {S : Type ℓ} → Loop S → Supervisor S
supervisor_of (again s) = s
supervisor_of (halted s) = s
