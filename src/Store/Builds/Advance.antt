-- ===== src/Store/Builds/Advance.antt =====
-- Each call on builds leaves a state that is at most one step of the life of a build away.
use spark_stage.Base.{
  ℕ, String, Bool, Option, some, ◌≡◌, refl, sym, subst, >>=-eq-ok, inl, inr, lookup, str_eq,
  if_cases,
}
use spark_stage.Domain.Project.{BuildRecord, FilePath}
use spark_stage.Domain.State.{ProjectState}
use spark_stage.Domain.Validate.Validity.{IsValid}
use spark_stage.Domain.Validate.Revision.{bumped}
use spark_stage.Store.Disk.{Disk, Action}
use spark_stage.Store.Save.{save_revision}
use spark_stage.Store.Save.Laws.{Result-cases, open_state_cases}
use spark_stage.Store.Save.Decided.{with_command}
use spark_stage.Store.Save.Ends.{
  left, decide-ends, revise-ends, revise_logged-ends, save_revision-ends, logged-ends,
}
use spark_stage.Store.Builds.Changes.{is_unowned, owned_build, backfill, run_change, review_subject}
use spark_stage.Store.Builds.Operations.{
  start_build, mark_running_found, mark_build_running, finish_build, approve_build_review,
}
use spark_stage.Store.Builds.Lifecycle.{BuildStep, rest}
use spark_stage.Store.Builds.Steps.{
  Progress, start_change-Progress, backfill-Progress, run_change-Progress, finish_change-Progress,
  review_change-Progress,
}
use spark_stage.Store.Builds.Atomic.{
  start-steady, finish-steady, review_id, review-IsChange, review-decides, owned_build_inverse,
}

-- The state is at most one step of a build away.
abbrev pub Advances : Disk → ProjectState → Type 0
Advances d t = BuildStep d.state.builds t.builds

pub unmoved : (d : Disk) → Advances d d.state
unmoved d = rest (λ j. refl)

-- A new revision moves no build.
pub bumped-Advances :
    (d : Disk) (t : ProjectState) (command_id now : String)
    → BuildStep d.state.builds t.builds
    → Advances d (bumped (with_command command_id t) now)
unfolding bumped
bumped-Advances d t command_id now h = h

pub start_build-Advances :
    (build : BuildRecord) (expected : ℕ) (command_id now : String) (d : Disk)
    → Advances d (left (start_build build expected command_id now d))
unfolding start_build
start_build-Advances build expected command_id now d =
    revise-ends (Advances d) _ command_id now expected d (unmoved d)
      (λ u e.
        bumped-Advances d u command_id now (start_change-Progress build command_id d.state u e).0)
      (start-steady build command_id)

pub finish_build-Advances :
    (ulid event_ulid id : String) (output_path : Option FilePath) (error : Option String)
    (stale : Bool) (expected : ℕ) (command_id now : String) (d : Disk)
    → Advances d
        (left (finish_build ulid event_ulid id output_path error stale expected command_id now d))
unfolding finish_build
finish_build-Advances ulid event_ulid id output_path error stale expected command_id now d =
    revise_logged-ends (Advances d) _ command_id now expected d (unmoved d)
      (λ u e.
        bumped-Advances d u command_id now
          (finish_change-Progress d.files ulid id output_path error stale now d.state u e).0)
      (finish-steady ulid id output_path error stale now) event_ulid "build_finished" id

pub approve_build_review-Advances :
    (ulid approval_id : String) (expected : ℕ) (command_id now : String) (d : Disk)
    → Advances d (left (approve_build_review ulid approval_id expected command_id now d))
approve_build_review-Advances ulid approval_id expected command_id now d =
    subst (λ r. Advances d (left r))
      (sym (review-decides ulid approval_id expected command_id now d))
      (decide-ends (Advances d) _ command_id now expected d (unmoved d)
        (λ u e.
          let ((approval, id), _, e₁) = >>=-eq-ok (review_subject approval_id d.state) _ e in
          bumped-Advances d u command_id now
            (review_change-Progress d.files approval_id approval id d.state u e₁).0)
        (review-IsChange approval_id) ulid "build_approved" (review_id approval_id))

mark_running_found-Advances :
    (ulid id : String) (b : BuildRecord) (command_id now : String) (d : Disk)
    → lookup id d.state.builds ≡ some b
    → IsValid d.state
    → Advances d (left (mark_running_found ulid id b d.state d.state.revision command_id now d))
unfolding mark_running_found
mark_running_found-Advances ulid id b command_id now d found valid =
    let advances = λ (m : Action ProjectState). Advances d (left (m d)) in
    let saves = λ (t : ProjectState) (p : Progress d.state t).
      save_revision-ends (Advances d) t command_id now d valid p.1 (unmoved d)
        (bumped-Advances d t command_id now p.0) in
    if_cases advances (str_eq b.status "running")
      (λ _.
        if_cases advances (is_unowned b)
          (λ _.
            saves (backfill b id command_id d.state)
              (backfill-Progress id d.state b found command_id))
          (λ _. unmoved d))
      (λ _. elim (Result-cases (run_change b id command_id d.state)) [
        | inr (e, refused) ↦ rw refused (unmoved d)
        | inl (t, changed) ↦ rw changed (
            logged-ends (Advances d) ulid "build_started" id command_id now
              (save_revision t d.state.revision command_id now) d
              (saves t (run_change-Progress id d.state b found command_id t changed)))
      ])

pub mark_build_running-Advances :
    (ulid id : String) (expected : ℕ) (command_id now : String) (d : Disk)
    → Advances d (left (mark_build_running ulid id expected command_id now d))
unfolding mark_build_running
mark_build_running-Advances ulid id expected command_id now d = elim (open_state_cases expected d) [
  | inr (e, failed) ↦ rw failed (unmoved d)
  | inl (valid, same, opened) ↦ elim (Result-cases (owned_build id command_id d.state)) [
    | inr (e, refused) ↦ rw opened (rw refused (unmoved d))
    | inl (b, there) ↦ rw opened (
        rw there (
          rw (← same) (
            mark_running_found-Advances ulid id b command_id now d
              (owned_build_inverse id command_id d.state b there).0 valid)))
  ]
]
