-- ===== src/Media/Run.antt =====
-- src/media/mod.rs: the loop of `run` behind the loading of the model and of the saved index, over what
-- happens in each of its rounds.
pub mod Sound
use homeassistant_local_voic.Base.{
  ℕ, Bool, true, false, List, [], ◌∷◌, ◌++◌, ◌||◌, not, if◌then◌else◌,
}
use homeassistant_local_voic.Base.Text.{is_empty}
use homeassistant_local_voic.Media.Docs.Updates.{Changes, no_changes}
use homeassistant_local_voic.Media.Sync.{
  World, MediaIndex, Outcome, done, fails, panic, stuck, failed, full_sync, apply_changes,
}

-- What ends the `select!` of a round.
pub data Wake : Type 0 where
  cancelled : Wake
  closed : Wake
  changes : Changes → Wake
  reconnected : Wake
  slept : Wake

-- A round: whether the time of the next full comparison has come, what the machine answers, how many
-- requests a comparison may take, and what ends it.
pub record Round : Type 0 where
  pub time_due : Bool
  pub world : World
  pub fuel : ℕ
  pub wake : Wake

-- `full_now`: `next_full` was set to the present.
pub record Running : Type 0 where
  pub media : MediaIndex
  pub pending : Changes
  pub full_now : Bool

pub data Run : Type 0 where
  goes_on : Running → Run
  returns : MediaIndex → Run
  panics : Run
  loops : Run

abbrev pub nothing_pending : Changes
nothing_pending = record { changed = []; removed = [] }

abbrev pub then_run : Run → (Running → Run) → Run
then_run (goes_on r) next = next r
then_run (returns m) next = returns m
then_run panics next = panics
then_run loops next = loops

-- A failed comparison shows in the state only while the index is empty.
abbrev pub compared : Running → Outcome → Run
compared r (done m) = goes_on (record r { media = m; full_now = false })
compared r (fails m e) = goes_on (record r {
  media = if is_empty m.index.entries then record m { state = failed e } else m;
  full_now = false;
})
compared r panic = panics
compared r stuck = loops

-- The changes are taken; a failure is only logged.
abbrev pub updated : Running → Outcome → Run
updated r (done m) = goes_on (record r { media = m; pending = nothing_pending })
updated r (fails m e) = goes_on (record r { media = m; pending = nothing_pending })
updated r panic = panics
updated r stuck = loops

abbrev pub woken : World → Running → Wake → Run
woken world r cancelled = returns r.media
woken world r closed = returns r.media
woken world r (changes c) = goes_on (record r {
  pending = record {
    changed = r.pending.changed ++ c.changed;
    removed = r.pending.removed ++ c.removed;
  };
})
woken world r reconnected = goes_on (record r { full_now = true })
woken world r slept =
    if no_changes r.pending then goes_on r else updated r (apply_changes world r.pending r.media)

unfoldable pub run_round : Round → Running → Run
unfolding full_sync apply_changes
run_round round r =
    then_run
      (if round.time_due || r.full_now
        then compared r (full_sync round.world round.fuel r.media)
        else goes_on r)
      (λ r'. woken round.world r' round.wake)

unfoldable pub run : List Round → Running → Run
unfolding run_round
run [] r = goes_on r
run (round ∷ rounds) r = then_run (run_round round r) (run rounds)
