-- ===== src/Media/Run/Sound.antt =====
-- The index over every schedule.
use homeassistant_local_voic.Base.{Bool, true, false, List, [], ◌∷◌, ◌||◌, if◌then◌else◌}
use homeassistant_local_voic.Base.Text.{Text, is_empty}
use homeassistant_local_voic.Media.Docs.Updates.{no_changes}
use homeassistant_local_voic.Media.Index.Changes.{IsSound}
use homeassistant_local_voic.Media.Sync.{
  World, MediaIndex, Outcome, done, fails, panic, stuck, failed, full_sync, apply_changes,
}
use homeassistant_local_voic.Media.Sync.Safe.{Safe, full_sync-Safe, apply_changes-Safe}
use homeassistant_local_voic.Media.Run.{
  Wake, cancelled, closed, changes, reconnected, slept, Round, Running, Run, goes_on, returns,
  panics, loops, then_run, compared, updated, woken, run_round, run,
}

-- The index is sound, and nothing panicked.
abbrev pub StaysSound : Run → Type 0
StaysSound (goes_on r) = IsSound r.media.index
StaysSound (returns m) = IsSound m.index
StaysSound panics = ⊥
StaysSound loops = Unit

then_run-StaysSound :
    (x : Run) (next : Running → Run)
    → StaysSound x
    → ((r : Running) → IsSound r.media.index → StaysSound (next r))
    → StaysSound (then_run x next)
then_run-StaysSound (goes_on r) next s h = h r s
then_run-StaysSound (returns m) next s h = s
then_run-StaysSound panics next s h = s
then_run-StaysSound loops next s h = s

shown-IsSound :
    (b : Bool) (m : MediaIndex) (e : Text)
    → IsSound m.index
    → IsSound (if b then record m { state = failed e } else m).index
shown-IsSound true m e s = s
shown-IsSound false m e s = s

compared-StaysSound : (r : Running) (o : Outcome) → Safe o → StaysSound (compared r o)
compared-StaysSound r (done m) s = s
compared-StaysSound r (fails m e) s = shown-IsSound (is_empty m.index.entries) m e s
compared-StaysSound r panic s = s
compared-StaysSound r stuck s = tt

updated-StaysSound : (r : Running) (o : Outcome) → Safe o → StaysSound (updated r o)
updated-StaysSound r (done m) s = s
updated-StaysSound r (fails m e) s = s
updated-StaysSound r panic s = s
updated-StaysSound r stuck s = tt

either-StaysSound :
    (b : Bool) (x y : Run) → StaysSound x → StaysSound y → StaysSound (if b then x else y)
either-StaysSound true x y p q = p
either-StaysSound false x y p q = q

woken-StaysSound :
    (world : World) (r : Running) (w : Wake) → IsSound r.media.index → StaysSound (woken world r w)
woken-StaysSound world r cancelled s = s
woken-StaysSound world r closed s = s
woken-StaysSound world r (changes c) s = s
woken-StaysSound world r reconnected s = s
woken-StaysSound world r slept s = either-StaysSound (no_changes r.pending) _ _ s (
    updated-StaysSound r (apply_changes world r.pending r.media)
      (apply_changes-Safe world r.pending r.media s))

run_round-StaysSound :
    (round : Round) (r : Running) → IsSound r.media.index → StaysSound (run_round round r)
unfolding run_round
run_round-StaysSound round r s =
    then_run-StaysSound
      (if round.time_due || r.full_now
        then compared r (full_sync round.world round.fuel r.media)
        else goes_on r)
      _
      (either-StaysSound (round.time_due || r.full_now) _ _
        (compared-StaysSound r (full_sync round.world round.fuel r.media)
          (full_sync-Safe round.world round.fuel r.media s))
        s)
      (λ r' s'. woken-StaysSound round.world r' round.wake s')

-- Over every schedule of comparisons, change messages, reconnects and quiet times, and whatever Jellyfin,
-- the embedding thread and the disk answer, errors and vectors of a wrong size included, no round
-- indexes out of range and the index stays sound, up to a comparison that asks for more pages than its
-- fuel allows.
pub run-StaysSound :
    (rounds : List Round) (r : Running) → IsSound r.media.index → StaysSound (run rounds r)
unfolding run
run-StaysSound [] r s = s
run-StaysSound (round ∷ rounds) r s =
    then_run-StaysSound (run_round round r) (run rounds) (run_round-StaysSound round r s)
      (λ r' s'. run-StaysSound rounds r' s')
