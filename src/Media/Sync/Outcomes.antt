-- ===== src/Media/Sync/Outcomes.antt =====
-- The state of the media index, what the machine answers, and how an operation ends.
use homeassistant_local_voic.Base.{ℕ, Bool, Option, List}
use homeassistant_local_voic.Base.Text.{Text}
use homeassistant_local_voic.Base.Result.{Result}
use homeassistant_local_voic.Json.{Value}
use homeassistant_local_voic.Media.Index.{Index, Vector, Disk}

-- How far writing the two files came: to the end, to neither rename, or to the first.
pub data Write : Type 0 where
  written : Write
  refused : Text → Write
  cut_short : Text → Write

-- `items_page_value` is the answer of `/Items` for the types, the fields, the start, the limit and the IDs.
pub record World : Type 0 where
  pub items_page_value : Text → Text → ℕ → ℕ → Option Text → Result Value
  pub embed : List Text → Result (List Vector)
  pub write : Index → Write
  pub now : ℕ

pub data State : Type 0 where
  loading_model : State
  indexing : ℕ → ℕ → State
  ready : State
  failed : Text → State

pub record MediaIndex : Type 0 where
  pub episodes : Bool
  pub fingerprint : Text
  pub index : Index
  pub disk : Disk
  pub loaded : Bool
  pub state : State
  pub last_full_sync : Option ℕ

pub data Outcome : Type 0 where
  done : MediaIndex → Outcome
  fails : MediaIndex → Text → Outcome
  panic : Outcome
  stuck : Outcome

-- The operator `?` between two steps.
abbrev pub then_do : Outcome → (MediaIndex → Outcome) → Outcome
then_do (done m) next = next m
then_do (fails m e) next = fails m e
then_do panic next = panic
then_do stuck next = stuck
