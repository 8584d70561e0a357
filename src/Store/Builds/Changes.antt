-- ===== src/Store/Builds/Changes.antt =====
-- What each operation on a build does to the state: src/store/project/builds.rs.
use Prim.Native.String.{◌++◌ as str_append, len}
use spark_stage.Base.{
  String, Bool, true, false, Option, none, some, List, [], ◌∷◌, ◌++◌, values, not, ◌&&◌, ◌||◌, ◌==◌,
  retain, find, contains, contains_key, lookup, update, insert, str_eq, is_some, is_text, concat,
  Result, ok, err, guard, ok_or, ◌>>=◌, ◌>>◌, if◌then◌else◌,
}
use spark_stage.Domain.Project.{
  ProjectStage, ProjectOutcome, QualityTarget, ApprovalKind, kind_eq, Approval, ShotRuntimeState,
  BuildRecord, FilePath,
}
use spark_stage.Domain.State.{ProjectState}
use spark_stage.Store.Errors.{StoreError, shot_busy, build_busy, invalid_job, approval_not_found}
use spark_stage.Store.Builds.{valid_project_relative_path, build_is_active, is_build_approval}

abbrev pub unwrap_or : String → Option String → String
unwrap_or default none = default
unwrap_or default (some s) = s

abbrev shot_is_free : Option ShotRuntimeState → Result StoreError (Unit {0})
shot_is_free none = ok tt
shot_is_free (some shot) = err (shot_busy shot.shot_id (unwrap_or "" shot.active_job_id))

abbrev build_is_free : Option BuildRecord → Result StoreError (Unit {0})
build_is_free none = ok tt
build_is_free (some build) = err (build_busy build.build_id)

-- No shot has a job, and no build is active.
unfoldable pub ensure_no_job : ProjectState → Result StoreError (Unit {0})
ensure_no_job s = shot_is_free (find (λ shot. is_some shot.active_job_id) (values s.shots))

unfoldable pub ensure_no_build : ProjectState → Result StoreError (Unit {0})
ensure_no_build s = build_is_free (find build_is_active (values s.builds))

abbrev pub is_new_build : BuildRecord → (command_id : String) → Bool
is_new_build build command_id = not (
    not (str_eq build.status "queued")
    || is_some build.output_path
    || not (str_eq build.command_id command_id))

-- `start_build`.
unfoldable pub start_change :
    BuildRecord → (command_id : String) → ProjectState → Result StoreError ProjectState
unfolding ensure_no_job ensure_no_build
start_change build command_id s = do
  ensure_no_job s
  guard (not (contains_key build.build_id s.builds))
      (invalid_job (concat ("build `" ∷ build.build_id ∷ "` already exists" ∷ [])))
  ensure_no_build s
  guard (is_new_build build command_id)
      (invalid_job "new build must be queued without an output and owned by the command")
  ok (record s {
    builds = insert build.build_id build s.builds;
    project_stage = ProjectStage.build;
  })

abbrev pub build_missing : String → StoreError
build_missing build_id = invalid_job (concat ("build `" ∷ build_id ∷ "` is missing" ∷ []))

abbrev pub is_unowned : BuildRecord → Bool
is_unowned build = len build.command_id == 0

unfoldable pub own_build : String → BuildRecord → BuildRecord
own_build command_id build = record build { command_id = command_id }

unfoldable pub run_build : BuildRecord → BuildRecord
run_build build = record build { status = "running" }

-- The build is there and belongs to the command, or to none yet.
unfoldable pub owned_build :
    (build_id command_id : String) → ProjectState → Result StoreError BuildRecord
owned_build build_id command_id s =
    ok_or (lookup build_id s.builds) (build_missing build_id) >>= λ build.
    guard (is_unowned build || str_eq build.command_id command_id)
      (invalid_job (concat ("build `" ∷ build_id ∷ "` is owned by a different command" ∷ [])))
    >> ok build

-- The command takes a build that belongs to none.
unfoldable pub backfill : BuildRecord → (build_id command_id : String) → ProjectState → ProjectState
unfolding own_build
backfill build build_id command_id s =
    if is_unowned build
    then record s { builds = update build_id (own_build command_id) s.builds }
    else s

-- `mark_build_running`, for a build that does not run yet.
unfoldable pub run_change :
    BuildRecord → (build_id command_id : String) → ProjectState → Result StoreError ProjectState
unfolding run_build backfill
run_change build build_id command_id s =
    let t = backfill build build_id command_id s in
    guard (str_eq build.status "queued") (
      invalid_job
        (concat ("build `" ∷ build_id ∷ "` cannot start from `" ∷ build.status ∷ "`" ∷ [])))
    >> ok (record t { builds = update build_id run_build t.builds })

unfoldable pub fail_build : (message : String) (stale : Bool) → BuildRecord → BuildRecord
fail_build message stale build = record build {
  status = "failed";
  warnings = build.warnings ++ message ∷ [];
  stale = stale;
}

unfoldable pub deliver_build : FilePath → BuildRecord → BuildRecord
deliver_build output build = record build {
  status = "needs_review";
  output_path = some output;
  stale = false;
}

abbrev pub review_kind : BuildRecord → ApprovalKind
review_kind build =
    if str_eq build.kind "final"
    then ApprovalKind.final_visual_review
    else ApprovalKind.build_review

-- The approvals that a new review of the build leaves in place.
unfoldable pub is_other_review : (build_id : String) → Approval → Bool
is_other_review build_id a = not (is_build_approval a.kind) || not (is_text a.subject_id build_id)

unfoldable pub review_approval : (ulid build_id now : String) → BuildRecord → Approval
review_approval ulid build_id now build = record {
  approval_id = str_append "APR-" ulid;
  kind = review_kind build;
  subject_id = some build_id;
  shot_id = none;
  take_ids = [];
  blocking = true;
  description = concat ("Review " ∷ build.kind ∷ " build " ∷ build_id ∷ []);
  created_at = now;
}

abbrev pub failed_state : (build_id message : String) (stale : Bool) → ProjectState → ProjectState
failed_state build_id message stale s = record s {
  builds = update build_id (fail_build message stale) s.builds;
  project_stage = ProjectStage.build;
}

abbrev pub delivered_state :
    (ulid build_id now : String) → BuildRecord → FilePath → ProjectState → ProjectState
delivered_state ulid build_id now build output s = record s {
  builds = update build_id (deliver_build output) s.builds;
  pending_approvals =
      retain (is_other_review build_id) s.pending_approvals
      ++ review_approval ulid build_id now build ∷ [];
  project_stage = ProjectStage.review;
  quality_target = QualityTarget.draft_cut;
}

abbrev pub no_output : StoreError
no_output = invalid_job "successful build has no output path"

abbrev pub unsafe_output : FilePath → StoreError
unsafe_output output =
    invalid_job (concat ("successful build has unsafe output path `" ∷ output ∷ "`" ∷ []))

abbrev pub missing_output : FilePath → StoreError
missing_output output =
    invalid_job (concat ("successful build output is missing at `" ∷ output ∷ "`" ∷ []))

unfoldable pub deliver_change :
    (files : List FilePath)
    → (ulid build_id now : String) → BuildRecord
    → Option FilePath
    → ProjectState
    → Result StoreError ProjectState
deliver_change files ulid build_id now build output_path s =
    ok_or output_path no_output >>= λ output.
    guard (valid_project_relative_path output) (unsafe_output output)
    >> guard (contains files output) (missing_output output)
    >> ok (delivered_state ulid build_id now build output s)

abbrev pub finish_with :
    (error : Option String)
    → (build_id : String) (stale : Bool) → ProjectState
    → Result StoreError ProjectState
    → Result StoreError ProjectState
finish_with none build_id stale s delivered = delivered
finish_with (some message) build_id stale s delivered = ok (failed_state build_id message stale s)

-- `finish_build`.
unfoldable pub finish_change :
    (files : List FilePath)
    → (ulid build_id : String)
    → (output_path : Option FilePath) (error : Option String) (stale : Bool) (now : String)
    → ProjectState
    → Result StoreError ProjectState
unfolding deliver_change
finish_change files ulid build_id output_path error stale now s =
    ok_or (lookup build_id s.builds) (build_missing build_id) >>= λ build.
    guard (build_is_active build)
      (invalid_job (concat ("build `" ∷ build_id ∷ "` is not active" ∷ [])))
    >> finish_with error build_id stale s
        (deliver_change files ulid build_id now build output_path s)

unfoldable pub approve_build : BuildRecord → BuildRecord
approve_build build = record build { status = "approved" }

-- The approval of the id, if it asks for the review of a build.
unfoldable pub is_review_of : (approval_id : String) → Approval → Bool
is_review_of approval_id a = str_eq a.approval_id approval_id && is_build_approval a.kind

abbrev pub not_awaiting : String → StoreError
not_awaiting build_id =
    invalid_job (concat ("build `" ∷ build_id ∷ "` is not awaiting review" ∷ []))

abbrev pub build_stale : String → StoreError
build_stale build_id =
    invalid_job (concat ("build `" ∷ build_id ∷ "` is stale and must be rebuilt" ∷ []))

abbrev pub no_artifact : String → StoreError
no_artifact build_id = invalid_job (concat ("build `" ∷ build_id ∷ "` has no review artifact" ∷ []))

abbrev pub no_file : String → StoreError
no_file build_id =
    invalid_job (concat ("build `" ∷ build_id ∷ "` review artifact is unavailable" ∷ []))

-- The build can be shown: it waits for its review, is not stale and has its artifact.
unfoldable pub check_artifact :
    (files : List FilePath) (build_id : String) → BuildRecord → Result StoreError (Unit {0})
check_artifact files build_id build = do
  guard (str_eq build.status "needs_review") (not_awaiting build_id)
  guard (not build.stale) (build_stale build_id)
  output ← ok_or build.output_path (no_artifact build_id)
  guard (not (not (valid_project_relative_path output) || not (contains files output)))
      (no_file build_id)

unfoldable pub approved_state :
    (approval_id build_id : String) → ApprovalKind → ProjectState → ProjectState
unfolding approve_build
approved_state approval_id build_id kind s =
    let final = kind_eq kind ApprovalKind.final_visual_review in
    record s {
      builds = update build_id approve_build s.builds;
      pending_approvals = retain (λ a. not (str_eq a.approval_id approval_id)) s.pending_approvals;
      project_stage = if final then ProjectStage.completed else ProjectStage.shooting;
      quality_target = if final then QualityTarget.playable else s.quality_target;
      project_outcome = if final then ProjectOutcome.done else ProjectOutcome.in_progress;
    }

-- `approve_build_review`: the build that the approval is about.
unfoldable pub review_subject :
    (approval_id : String) → ProjectState → Result StoreError (Approval × String)
unfolding is_review_of
review_subject approval_id s = do
  approval ←
      ok_or (find (is_review_of approval_id) s.pending_approvals) (approval_not_found approval_id)
  build_id ← ok_or approval.subject_id (approval_not_found approval_id)
  ok (approval, build_id)

unfoldable pub review_change :
    (files : List FilePath) (approval_id : String)
    → Approval × String
    → ProjectState
    → Result StoreError ProjectState
unfolding check_artifact approved_state
review_change files approval_id (approval, build_id) s =
    ok_or (lookup build_id s.builds) (build_missing build_id) >>= λ build.
    check_artifact files build_id build >> ok (approved_state approval_id build_id approval.kind s)
