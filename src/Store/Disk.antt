-- ===== src/Store/Disk.antt =====
-- The files of one project, decoded, and the calls that read and write them. A call keeps what it
-- has written also when it then fails.
use spark_stage.Base.{String, List, Map, Result, ok, err}
use spark_stage.Domain.Script.{ScriptBundle}
use spark_stage.Domain.Project.{FilePath, JobJournal}
use spark_stage.Domain.Errors.{StateInvariantError}
use spark_stage.Domain.State.{ProjectState}
use spark_stage.Store.Errors.{StoreError, invariant}

-- `DecisionJournalPhase`.
pub data Phase : Type 0 where
  prepared committed : Phase

-- `DecisionJournalRecord`: a line of decisions.jsonl.
pub record DecisionJournalRecord : Type 0 where
  pub event_id : String
  pub kind : String
  pub subject_id : String
  pub command_id : String
  pub occurred_at : String
  pub phase : Phase

-- `BuildInput` and `BuildRecipe` of src/build.rs, with the fields that the store reads.
pub record BuildInput : Type 0 where
  pub shot_id : String
  pub take_id : String

pub record BuildRecipe : Type 0 where
  pub inputs : List BuildInput

-- `JournalEntry` of src/store/project/support.rs: a line of events.jsonl.
pub record JournalEntry : Type 0 where
  pub event_id : String
  pub kind : String
  pub subject_id : String
  pub command_id : String
  pub occurred_at : String

-- state.json, decisions.jsonl, events.jsonl, the jobs by id, the script bundles of the contract
-- versions by path, and the recipe files by path. A bundle or a recipe that cannot be read or decoded
-- is left out; each job file holds a job. `files` are the paths of the regular files that a build may have as its output.
pub record Disk : Type 0 where
  pub state : ProjectState
  pub decisions : List DecisionJournalRecord
  pub events : List JournalEntry
  pub jobs : Map JobJournal
  pub bundles : Map ScriptBundle
  pub recipes : Map BuildRecipe
  pub files : List FilePath

abbrev pub Action {ℓ} : Type ℓ → Type ℓ
Action A = Disk → Result StoreError A × Disk

abbrev pub and_then {ℓ κ} :
    {A : Type ℓ} {B : Type κ}
    → Result StoreError A × Disk
    → (A → Action B)
    → Result StoreError B × Disk
and_then (ok a, d) f = f a d
and_then (err e, d) f = (err e, d)

infixl 5 ◌>>=◌ ◌>>◌
abbrev pub ◌>>=◌ {ℓ κ} : {A : Type ℓ} {B : Type κ} → Action A → (A → Action B) → Action B
◌>>=◌ m f d = and_then (m d) f

abbrev pub ◌>>◌ {ℓ} : {B : Type ℓ} → Action (Unit {0}) → Action B → Action B
m >> k = m >>= λ _. k

abbrev pub pure {ℓ} : {A : Type ℓ} → A → Action A
pure a d = (ok a, d)

-- `?` on a result that touches no file.
abbrev pub lift {ℓ} : {A : Type ℓ} → Result StoreError A → Action A
lift r d = (r, d)

abbrev pub get : Action Disk
get d = (ok d, d)

abbrev pub put : Disk → Action (Unit {0})
put d' d = (ok tt, d')

-- `impl From<StateInvariantError> for StoreError`.
abbrev pub from_invariant {ℓ} : {A : Type ℓ} → Result StateInvariantError A → Result StoreError A
from_invariant (ok a) = ok a
from_invariant (err e) = err (invariant e)
