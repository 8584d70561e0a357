-- ===== src/Store/Save.antt =====
-- Reading and writing state.json: `read_state`, `save_state` of src/store/project.rs, and the end that
-- every operation with a decision shares.
pub mod Laws
pub mod Decided
pub mod Crash
pub mod Revised
pub mod Ends
use Prim.Native.String.{◌++◌ as str_append}
use spark_stage.Base.{
  ℕ, String, ◌+◌, ◌==◌, ◌&&◌, leb, some, saturating_add, List, [], ◌∷◌, ◌++◌, if◌then◌else◌, Result,
  ok, err,
}
use mathlib.Core.List.{reverse}
use spark_stage.Domain.State.{ProjectState}
use spark_stage.Domain.Validate.{validate, bump_revision}
use spark_stage.Store.Errors.{StoreError, revision_conflict, invalid_history_limit}
use spark_stage.Store.Disk.{
  DecisionJournalRecord, JournalEntry, Disk, Action, ◌>>=◌, ◌>>◌, pure, lift, get, put,
  from_invariant,
}
use spark_stage.Store.Support.{ensure_revision}
use spark_stage.Store.Journal.{
  DecisionRecord, prepare_decision, commit_decisions, recover_decisions_for_state,
  committed_decisions, truncate,
}

-- `read_state`: the state is validated each time that it is read.
unfoldable pub read_state : Action ProjectState
read_state = do d ← get; lift (from_invariant (validate d.state)); pure d.state

unfoldable pub write_state : ProjectState → Action (Unit {0})
write_state s d = (ok tt, record d { state = s })

-- `save_state`. No cleanup plan is interrupted, so `recover_cleanup_plans_for_state` has no effect.
unfoldable pub save_state : ProjectState → ℕ → Action (Unit {0})
unfolding read_state write_state ensure_revision
save_state s expected = do
  current ← read_state
  recover_decisions_for_state current
  lift (ensure_revision current expected)
  lift (
      if s.revision == saturating_add expected 1
      then ok tt
      else err (revision_conflict (saturating_add expected 1) s.revision))
  lift (from_invariant (validate s))
  write_state s

-- `decision_history`: the newest decisions first.
unfoldable pub decision_history : (limit : ℕ) → Action (List DecisionRecord)
unfolding read_state recover_decisions_for_state committed_decisions
decision_history limit = do
  lift (if leb 1 limit && leb limit 1000 then ok tt else err (invalid_history_limit limit))
  s ← read_state
  recover_decisions_for_state s
  d ← get
  pure (truncate limit (reverse (committed_decisions d.decisions)))

-- `recover_decision_journal`.
unfoldable pub recover_decision_journal : Action (Unit {0})
unfolding read_state recover_decisions_for_state
recover_decision_journal = do s ← read_state; recover_decisions_for_state s

-- The first lines of an operation: the state, at the revision that the caller expects.
unfoldable pub open_state : ℕ → Action ProjectState
unfolding read_state ensure_revision
open_state expected = do s ← read_state; lift (ensure_revision s expected); pure s

-- The last lines of an operation that records one decision: the new revision, the decision prepared,
-- the state saved, the decision committed.
unfoldable pub save_decided :
    (ulid kind subject_id : String)
    → ProjectState
    → (expected : ℕ) → (command_id now : String) → Action ProjectState
unfolding save_state prepare_decision commit_decisions
save_decided ulid kind subject_id s expected command_id now = do
  t ← lift (from_invariant (bump_revision (record s { last_command_id = some command_id }) now))
  decision ← prepare_decision ulid kind subject_id command_id now
  save_state t expected
  commit_decisions (decision ∷ [])
  pure t

-- The same lines where the process stops after the state is written, before the last write.
unfoldable pub save_uncommitted :
    (ulid kind subject_id : String)
    → ProjectState
    → (expected : ℕ) → (command_id now : String) → Action (Unit {0})
unfolding save_state prepare_decision
save_uncommitted ulid kind subject_id s expected command_id now = do
  t ← lift (from_invariant (bump_revision (record s { last_command_id = some command_id }) now))
  _ ← prepare_decision ulid kind subject_id command_id now
  save_state t expected

-- `append_event`: a line of events.jsonl.
unfoldable pub append_event : (ulid kind subject_id command_id now : String) → Action (Unit {0})
append_event ulid kind subject_id command_id now d =
    let entry : JournalEntry = record {
      event_id = str_append "EVT-" ulid;
      kind = kind;
      subject_id = subject_id;
      command_id = command_id;
      occurred_at = now;
    } in
    (ok tt, record d { events = d.events ++ entry ∷ [] })

-- The last lines of an operation that records no decision: the new revision, and the state saved.
unfoldable pub save_revision :
    ProjectState → (expected : ℕ) → (command_id now : String) → Action ProjectState
unfolding save_state
save_revision s expected command_id now = do
  t ← lift (from_invariant (bump_revision (record s { last_command_id = some command_id }) now))
  save_state t expected
  pure t
