-- ===== src/Store/Decisions/Operations/History.antt =====
-- What `select_take` of src/store/project/decisions.rs leaves for its readers: the shot in the state,
-- and the decision in the history.
use Prim.Native.String.{◌++◌ as str_append}
use mathlib.Core.List.{reverse}
use spark_stage.Base.{ℕ, String, true, some, ◌∷◌, ◌≡◌, refl, ap, ◌+◌, leb, ◌&&◌, lookup, Result, ok}
use spark_stage.Domain.Project.{ShotStage, ShotRuntimeState}
use spark_stage.Domain.State.{ProjectState}
use spark_stage.Store.Errors.{StoreError}
use spark_stage.Store.Disk.{Disk}
use spark_stage.Store.Journal.{committed_decisions, truncate}
use spark_stage.Store.Save.{save_decided, decision_history}
use spark_stage.Store.Save.Laws.{open_state-ok}
use spark_stage.Store.Save.Crash.{IsFresh, save_decided-decision_history}
use spark_stage.Store.Decisions.Guards.Exact.{IsReviewable}
use spark_stage.Store.Decisions.Changes.{settle, select_shot}
use spark_stage.Store.Decisions.Operations.{select_take}
use spark_stage.Store.Decisions.Operations.Sound.{select-IsChange}
use spark_stage.Store.Decisions.Operations.After.{
  after, after-found, after-revision, select_change-ok,
}
use spark_stage.Store.Decisions.Operations.Workflow.{select_take-ok}

-- A call selected the take: the state that it answers with is on disk at the next revision, the shot
-- is in the stage of a selection of that take, and the history begins with the selection.
pub record Selects (limit : ℕ) (ulid shot_id take_id command_id now : String) (d : Disk)
    (outcome : Result StoreError ProjectState × Disk) : Type 0 where
  pub result : ProjectState
  pub succeeds : outcome.0 ≡ ok result
  pub written : outcome.1.state ≡ result
  pub next : result.revision ≡ d.state.revision + 1
  pub shot : ShotRuntimeState
  pub found : lookup shot_id result.shots ≡ some shot
  pub selected : shot.selected_candidate_take_id ≡ some take_id
  pub stage : shot.stage ≡ ShotStage.selected
  pub history : decision_history limit outcome.1 ≡ (
    ok (
        truncate limit (
          record {
            event_id = str_append "DEC-" ulid;
            kind = "take_selected";
            subject_id = take_id;
            command_id = command_id;
            occurred_at = now;
          }
          ∷ reverse (committed_decisions d.decisions))),
    outcome.1,
  )

module _ (ulid shot_id take_id command_id now : String) (d : Disk) (shot : ShotRuntimeState)
    (fresh : IsFresh ulid command_id d.state d)
    (r : IsReviewable d.state shot_id take_id shot) where
  abbrev settled : ProjectState
  settled = settle d.recipes shot_id take_id (select_shot take_id) d.state

  settled-IsFresh : IsFresh ulid command_id settled d
  settled-IsFresh =
      let changed = select_change-ok d.recipes shot_id take_id d.state shot r in
      record {
        valid = fresh.valid;
        quiet = fresh.quiet;
        coherent =
            (select-IsChange shot_id take_id).coherent d d.state settled fresh.coherent changed;
        revision = (select-IsChange shot_id take_id).steady d d.state settled changed;
        room = fresh.room;
        event = fresh.event;
        command = fresh.command;
        other = fresh.other;
      }

  select_take-saves :
      select_take ulid shot_id take_id d.state.revision command_id now d
      ≡ save_decided ulid "take_selected" take_id settled d.state.revision command_id now d
  unfolding select_take
  select_take-saves =
      rw (open_state-ok d fresh.valid)
        (rw (select_change-ok d.recipes shot_id take_id d.state shot r) refl)

  -- On a disk with a valid state below the last revision and nothing to recover, selecting a take
  -- that can be reviewed, under an event and a command that are new to the journal and a command
  -- that is not the last, succeeds: the state that it answers with is on disk at the next
  -- revision, the shot is in the stage of a selection of that take, and the history, read with a
  -- limit from 1 to 1000, is this selection and then the history before, newest first, cut at the
  -- limit.
  pub select_take-Selects :
      (limit : ℕ)
      → leb 1 limit && leb limit 1000 ≡ true
      → Selects limit ulid shot_id take_id command_id now d
          (select_take ulid shot_id take_id d.state.revision command_id now d)
  unfolding select_shot
  select_take-Selects limit bounds =
      let done =
        select_take-ok shot_id take_id d fresh.valid ulid command_id now shot fresh.room r in
      let history =
        save_decided-decision_history ulid "take_selected" take_id command_id now settled d
          settled-IsFresh limit bounds in
      record {
        result = after d.recipes shot_id take_id (select_shot take_id) d.state command_id now;
        succeeds = ap (λ p. p.0) done;
        written = ap (λ p. p.1.state) done;
        next =
            after-revision d.recipes shot_id take_id (select_shot take_id) d.state command_id now;
        shot = select_shot take_id shot;
        found =
            after-found d.recipes shot_id take_id (select_shot take_id) d.state command_id now shot
              r.open_shot.found;
        selected = refl;
        stage = refl;
        history = rw select_take-saves history;
      }
