-- ===== src/Store/Decisions/Operations.antt =====
-- The operations on takes of src/store/project/decisions.rs, from reading the state to committing.
pub mod Sound
pub mod Atomic
pub mod Batch
pub mod After
pub mod Workflow
pub mod History
use spark_stage.Base.{ℕ, String, Bool, true, false, some, List, [], ◌∷◌, if◌then◌else◌}
use spark_stage.Domain.State.{ProjectState}
use spark_stage.Domain.Validate.{bump_revision}
use spark_stage.Store.Disk.{
  DecisionJournalRecord, Disk, Action, ◌>>=◌, ◌>>◌, pure, lift, get, from_invariant,
}
use spark_stage.Store.Journal.{prepare_decision, commit_decisions}
use spark_stage.Store.Save.{open_state, save_state, save_decided}
use spark_stage.Store.Decisions.Guards.{BatchTakeSelection}
use spark_stage.Store.Decisions.Changes.{
  pause_change, select_change, approve_change, reject_change, batch_change,
}

-- `set_project_paused`.
unfoldable pub set_project_paused :
    (ulid : String) (paused : Bool) (expected : ℕ) (command_id now : String) → Action ProjectState
unfolding open_state save_decided pause_change
set_project_paused ulid paused expected command_id now = do
  s ← open_state expected
  save_decided ulid (if paused then "project_paused" else "project_resumed") s.project_id
      (pause_change paused s) expected command_id now

unfoldable pub select_take :
    (ulid shot_id take_id : String) (expected : ℕ) (command_id now : String) → Action ProjectState
unfolding open_state save_decided select_change
select_take ulid shot_id take_id expected command_id now = do
  s ← open_state expected
  d ← get
  t ← lift (select_change d.recipes shot_id take_id s)
  save_decided ulid "take_selected" take_id t expected command_id now

unfoldable pub approve_take :
    (ulid shot_id take_id : String) (expected : ℕ) (command_id now : String) → Action ProjectState
unfolding open_state save_decided approve_change
approve_take ulid shot_id take_id expected command_id now = do
  s ← open_state expected
  d ← get
  t ← lift (approve_change d.recipes shot_id take_id s)
  save_decided ulid "take_approved" take_id t expected command_id now

unfoldable pub reject_take :
    (ulid shot_id take_id : String) (expected : ℕ) (command_id now : String) → Action ProjectState
unfolding open_state save_decided reject_change
reject_take ulid shot_id take_id expected command_id now = do
  s ← open_state expected
  d ← get
  t ← lift (reject_change d.recipes shot_id take_id s)
  save_decided ulid "take_rejected" take_id t expected command_id now

-- `prepare_decisions`: the ids are drawn one after the other from `ulids`.
unfoldable pub prepare_batch :
    (ulids : ℕ → String) (drawn : ℕ) (kind : String)
    → List BatchTakeSelection
    → (command_id now : String) → Action (List DecisionJournalRecord)
unfolding prepare_decision
prepare_batch ulids drawn kind [] command_id now = pure []
prepare_batch ulids drawn kind (x ∷ rest) command_id now = do
  first ← prepare_decision (ulids drawn) kind x.take_id command_id now
  later ← prepare_batch ulids (ℕ.suc drawn) kind rest command_id now
  pure (first ∷ later)

unfoldable pub review_takes_batch :
    (ulids : ℕ → String)
    → List BatchTakeSelection
    → (approve : Bool) (expected : ℕ) (command_id now : String) → Action ProjectState
unfolding open_state batch_change prepare_batch save_state commit_decisions
review_takes_batch ulids selections approve expected command_id now = do
  s ← open_state expected
  d ← get
  t ← lift (batch_change d.recipes selections approve s)
  u ← lift (from_invariant (bump_revision (record t { last_command_id = some command_id }) now))
  decisions ←
      prepare_batch ulids 0 (if approve then "take_approved_batch" else "take_selected_batch")
        selections command_id now
  save_state u expected
  commit_decisions decisions
  pure u
