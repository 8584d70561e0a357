-- ===== src/Store/Decisions/Changes.antt =====
-- What the decisions on takes do to the state, before the revision is changed.
use spark_stage.Base.{
  String, Bool, Option, none, some, List, [], ◌∷◌, ◌++◌, Map, ◌&&◌, ◌||◌, not, all, retain, map,
  contains, lookup, update, str_eq, is_text, Result, ok, ok_or, guard, ◌>>=◌, ◌>>◌, if◌then◌else◌,
}
use spark_stage.Domain.Project.{ShotStage, ApprovalKind, kind_eq, Approval, ShotRuntimeState}
use spark_stage.Domain.State.{ProjectState}
use spark_stage.Store.Errors.{StoreError, shot_not_found, take_not_selected}
use spark_stage.Store.Disk.{BuildRecipe}
use spark_stage.Store.Support.{is_empty}
use spark_stage.Store.Builds.{mark_builds_stale_for_decision}
use spark_stage.Store.Decisions.Guards.{
  BatchTakeSelection, ensure_reviewable, validate_review_batch,
}

-- The approvals that ask for a candidate of the shot.
unfoldable pub asks_for : String → Approval → Bool
asks_for shot_id a = kind_eq a.kind ApprovalKind.candidate_selection && is_text a.shot_id shot_id

-- `set_project_paused`.
unfoldable pub pause_change : Bool → ProjectState → ProjectState
pause_change paused s = record s { paused = paused }

unfoldable pub select_shot : String → ShotRuntimeState → ShotRuntimeState
select_shot take_id shot = record shot {
  selected_candidate_take_id = some take_id;
  audition_target_takes = none;
  stage = ShotStage.selected;
}

-- The shot is changed, its candidate approvals are gone, and builds from another take are stale.
unfoldable pub settle :
    Map BuildRecipe
    → (shot_id take_id : String) → (ShotRuntimeState → ShotRuntimeState)
    → ProjectState
    → ProjectState
unfolding asks_for
settle recipes shot_id take_id change s =
    let t = record s {
      shots = update shot_id change s.shots;
      pending_approvals = retain (λ a. not (asks_for shot_id a)) s.pending_approvals;
    } in
    mark_builds_stale_for_decision recipes t shot_id (some take_id)

-- `select_take`.
unfoldable pub select_change :
    Map BuildRecipe → (shot_id take_id : String) → ProjectState → Result StoreError ProjectState
unfolding select_shot settle
select_change recipes shot_id take_id s = ensure_reviewable s shot_id take_id >>= λ shot.
    ok (settle recipes shot_id take_id (select_shot take_id) s)

unfoldable pub approve_shot : String → ShotRuntimeState → ShotRuntimeState
approve_shot take_id shot = record shot {
  approved_take_id = some take_id;
  audition_target_takes = none;
  stage = ShotStage.approved;
}

-- `approve_take`.
unfoldable pub approve_change :
    Map BuildRecipe → (shot_id take_id : String) → ProjectState → Result StoreError ProjectState
unfolding approve_shot settle
approve_change recipes shot_id take_id s = do
  shot ← ensure_reviewable s shot_id take_id
  guard (is_text shot.selected_candidate_take_id take_id) (take_not_selected take_id)
  ok (settle recipes shot_id take_id (approve_shot take_id) s)

-- `if o.as_deref() == Some(take_id) { o = None }`.
abbrev pub forget : String → Option String → Option String
forget take_id o = if is_text o take_id then none else o

unfoldable pub reject_shot : String → ShotRuntimeState → ShotRuntimeState
reject_shot take_id shot =
    let rejected : List String = shot.rejected_take_ids ++ take_id ∷ [] in
    record shot {
      rejected_take_ids = rejected;
      selected_candidate_take_id = forget take_id shot.selected_candidate_take_id;
      approved_take_id = forget take_id shot.approved_take_id;
      audition_target_takes = none;
      stage =
          if all (contains rejected) shot.take_ids
          then ShotStage.pending
          else ShotStage.candidates_ready;
    }

unfoldable pub withdraw_take : (shot_id take_id : String) → Approval → Approval
unfolding asks_for
withdraw_take shot_id take_id a =
    if asks_for shot_id a
    then record a { take_ids = retain (λ id. not (str_eq id take_id)) a.take_ids }
    else a

abbrev pub selected_of : Option ShotRuntimeState → Option String
selected_of none = none
selected_of (some shot) = shot.selected_candidate_take_id

-- `reject_take`.
unfoldable pub reject_change :
    Map BuildRecipe → (shot_id take_id : String) → ProjectState → Result StoreError ProjectState
unfolding reject_shot withdraw_take asks_for
reject_change recipes shot_id take_id s = do
  shot ← ensure_reviewable s shot_id take_id
  let t = record s {
    shots = update shot_id (reject_shot take_id) s.shots;
    pending_approvals =
        retain (λ a. not (asks_for shot_id a) || not (is_empty a.take_ids))
          (map (withdraw_take shot_id take_id) s.pending_approvals);
  }
  ok (mark_builds_stale_for_decision recipes t shot_id (selected_of (lookup shot_id t.shots)))

-- One selection of `review_takes_batch`.
unfoldable pub batch_shot : Bool → String → ShotRuntimeState → ShotRuntimeState
batch_shot approve take_id shot = record shot {
  selected_candidate_take_id = some take_id;
  approved_take_id = if approve then some take_id else none;
  audition_target_takes = none;
  stage = if approve then ShotStage.approved else ShotStage.selected;
}

unfoldable pub batch_loop :
    Map BuildRecipe → Bool → List BatchTakeSelection → ProjectState → Result StoreError ProjectState
unfolding batch_shot settle
batch_loop recipes approve [] s = ok s
batch_loop recipes approve (selection ∷ rest) s =
    ok_or (lookup selection.shot_id s.shots) (shot_not_found selection.shot_id) >>= λ shot.
    batch_loop recipes approve rest
      (settle recipes selection.shot_id selection.take_id (batch_shot approve selection.take_id) s)

-- `review_takes_batch`.
unfoldable pub batch_change :
    Map BuildRecipe → List BatchTakeSelection → Bool → ProjectState → Result StoreError ProjectState
unfolding batch_loop
batch_change recipes selections approve s =
    validate_review_batch s selections approve >> batch_loop recipes approve selections s
