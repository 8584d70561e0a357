-- ===== src/Store/Decisions/Guards.antt =====
-- The guards that `select_take`, `approve_take` and `reject_take` begin with, and those of a batch.
pub mod Exact
use spark_stage.Base.{
  ℕ, String, Bool, true, false, Option, none, some, List, [], ◌∷◌, ◌&&◌, not, leb, length, contains,
  lookup, str_eq, is_some, concat, Result, ok, err, ok_or, guard, ◌>>=◌, ◌>>◌, if◌then◌else◌,
}
use spark_stage.Domain.Project.{ShotRuntimeState, TakeMetadata}
use spark_stage.Domain.State.{ProjectState}
use spark_stage.Store.Errors.{
  StoreError, shot_not_found, shot_busy, shot_already_approved, take_not_found, take_shot_mismatch,
  take_stale, take_unavailable, take_rejected, invalid_review_batch, review_warnings_not_accepted,
}

-- `if let Some(job_id) = &shot.active_job_id { return Err(ShotBusy) }`.
unfoldable pub ensure_idle : String → Option String → Result StoreError (Unit {0})
ensure_idle shot_id none = ok tt
ensure_idle shot_id (some job_id) = err (shot_busy shot_id job_id)

-- The take exists, belongs to the shot, is fresh, is listed by the shot and was not rejected.
unfoldable pub ensure_available :
    ProjectState → ShotRuntimeState → (shot_id take_id : String) → Result StoreError TakeMetadata
ensure_available s shot shot_id take_id = do
  take ← ok_or (lookup take_id s.takes) (take_not_found take_id)
  guard (str_eq take.shot_id shot_id) (take_shot_mismatch take_id shot_id)
  guard (not take.stale) (take_stale take_id)
  guard (contains shot.take_ids take_id) (take_unavailable take_id)
  guard (not (contains shot.rejected_take_ids take_id)) (take_rejected take_id)
  ok take

unfoldable pub ensure_undecided :
    ProjectState → (shot_id : String) → Result StoreError ShotRuntimeState
unfolding ensure_idle
ensure_undecided s shot_id = do
  shot ← ok_or (lookup shot_id s.shots) (shot_not_found shot_id)
  ensure_idle shot_id shot.active_job_id
  guard (not (is_some shot.approved_take_id)) (shot_already_approved shot_id)
  ok shot

unfoldable pub ensure_reviewable :
    ProjectState → (shot_id take_id : String) → Result StoreError ShotRuntimeState
unfolding ensure_undecided ensure_available
ensure_reviewable s shot_id take_id = do
  shot ← ensure_undecided s shot_id
  _take ← ensure_available s shot shot_id take_id
  ok shot

pub record BatchTakeSelection : Type 0 where
  pub shot_id : String
  pub take_id : String
  pub accept_warnings : Bool

abbrev pub is_nonempty {ℓ} : {A : Type ℓ} → List A → Bool
is_nonempty [] = false
is_nonempty (x ∷ xs) = true

abbrev pub appears_twice : String → StoreError
appears_twice shot_id =
    invalid_review_batch (concat ("shot `" ∷ shot_id ∷ "` appears more than once" ∷ []))

-- One round of the loop of `validate_review_batch`.
unfoldable pub check_selection :
    ProjectState → Bool → (seen : List String) → BatchTakeSelection → Result StoreError (Unit {0})
unfolding ensure_undecided ensure_available
check_selection s approve seen selection = do
  guard (not (contains seen selection.shot_id)) (appears_twice selection.shot_id)
  shot ← ensure_undecided s selection.shot_id
  take ← ensure_available s shot selection.shot_id selection.take_id
  guard (not (approve && is_nonempty take.warnings && not selection.accept_warnings))
      (review_warnings_not_accepted selection.take_id)

unfoldable pub check_selections :
    ProjectState
    → Bool
    → (seen : List String) → List BatchTakeSelection
    → Result StoreError (Unit {0})
unfolding check_selection
check_selections s approve seen [] = ok tt
check_selections s approve seen (selection ∷ rest) =
    check_selection s approve seen selection
    >> check_selections s approve (selection.shot_id ∷ seen) rest

unfoldable pub validate_review_batch :
    ProjectState → List BatchTakeSelection → Bool → Result StoreError (Unit {0})
unfolding check_selections
validate_review_batch s selections approve = do
  guard (is_nonempty selections) (invalid_review_batch "at least one selection is required")
  guard (leb (length selections) 1000) (invalid_review_batch "at most 1000 selections are allowed")
  check_selections s approve [] selections
