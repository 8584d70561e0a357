-- ===== src/Examples/Project.antt =====
-- A project with one shot and two takes that wait for a selection, and its disk.
use spark_stage.Base.{
  String, true, false, none, some, [], ◌∷◌, refl, is_blank, any, contains, for_each, retain, lookup,
  all, contains_key, components, inner_components, is_absolute, is_normal, is_whitespace, split,
}
use spark_stage.Domain.Script.{Risk}
use spark_stage.Domain.Project.{
  ProjectStage, ProjectOutcome, WorkMode, QualityTarget, ApprovalKind, Approval, ShotStage,
  ShotRuntimeState, TakeMetadata,
}
use spark_stage.Domain.Budget.{BudgetOverrun, default_budget, validate_contract}
use spark_stage.Domain.State.{ProjectState}
use spark_stage.Domain.Validate.{
  validate, active_missing, outcome_mismatch, check_approval_ids, check_take, check_shot,
  check_shot_takes, check_decision, check_approved, check_candidate_approval, check_candidate,
  check_budget_approval, check_reference, check_rejected, reference_is_invalid,
}
use spark_stage.Domain.Validate.Validity.{IsValid}
use spark_stage.Domain.Validate.Exact.{validate_iff}
use spark_stage.Store.Disk.{Disk}
use spark_stage.Store.Decisions.Guards.{ensure_reviewable}
use spark_stage.Store.Decisions.Guards.Exact.{IsReviewable, ensure_reviewable_iff}

abbrev pub shot : ShotRuntimeState
shot = record {
  shot_id = "S01";
  title = "Opening";
  stage = ShotStage.candidates_ready;
  risk = Risk.low;
  active_job_id = none;
  audition_target_takes = none;
  selected_candidate_take_id = none;
  approved_take_id = none;
  take_ids = "T01" ∷ "T02" ∷ [];
  rejected_take_ids = [];
  fail_codes = [];
  stale = false;
}

abbrev pub take : String → TakeMetadata
take id = record {
  take_id = id;
  shot_id = "S01";
  job_id = "JOB-1";
  profile = "draft";
  status = "succeeded";
  media_path = "takes/one.mp4";
  input_hash = "a";
  adapter_fingerprint = "b";
  workflow_hash = "c";
  model_fingerprint = "d";
  seed = 7;
  elapsed_milliseconds = 1500;
  first_frame_path = none;
  last_frame_path = none;
  handoff_candidate_path = none;
  parent_take_id = none;
  promotion_strategy = none;
  hard_checks = [];
  warnings = [];
  stale = false;
}

abbrev pub selection : Approval
selection = record {
  approval_id = "APR-1";
  kind = ApprovalKind.candidate_selection;
  subject_id = none;
  shot_id = some "S01";
  take_ids = "T01" ∷ "T02" ∷ [];
  blocking = true;
  description = "Select a take";
  created_at = "t0";
}

abbrev pub reviewing : ProjectState
reviewing = record {
  schema_version = "1.0";
  revision = 4;
  project_id = "demo";
  title = "Demo";
  project_stage = ProjectStage.review;
  project_outcome = ProjectOutcome.needs_review;
  work_mode = WorkMode.director;
  quality_target = QualityTarget.playable;
  paused = false;
  last_command_id = some "CMD-1";
  active_contract_id = none;
  contracts = [];
  pending_approvals = selection ∷ [];
  shots = ("S01", shot) ∷ [];
  takes = ("T01", take "T01") ∷ ("T02", take "T02") ∷ [];
  builds = [];
  references = [];
  recent_failures = [];
  budget = default_budget;
  created_at = "t0";
  updated_at = "t0";
}

abbrev pub disk : Disk
disk = record {
  state = reviewing;
  decisions = [];
  events = [];
  jobs = [];
  bundles = [];
  recipes = [];
  files = "out/final.mp4" ∷ [];
}

-- The first take is selected.
abbrev pub selected : ProjectState
selected = record reviewing {
  project_outcome = ProjectOutcome.in_progress;
  pending_approvals = [];
  shots =
      ("S01", record shot { stage = ShotStage.selected; selected_candidate_take_id = some "T01" })
      ∷ [];
}

abbrev pub selected_disk : Disk
selected_disk = record disk { state = selected }

-- An overrun waits for its approval.
abbrev pub overrun : BudgetOverrun
overrun = record {
  approval_id = "APR-9";
  scope = "wall:1";
  shot_id = "S01";
  operation = "audition";
  dimensions = "wall:1" ∷ [];
  reasons = "too long" ∷ [];
  incremental_wall_seconds = 60;
  incremental_disk_bytes = 0;
  requested_at = "t0";
  approved_at = none;
}

abbrev pub overrun_pending : Approval
overrun_pending = record selection {
  approval_id = "APR-9";
  kind = ApprovalKind.budget_overrun;
  subject_id = some "APR-9";
  take_ids = [];
}

abbrev pub asking : ProjectState
asking = record reviewing {
  pending_approvals = overrun_pending ∷ [];
  budget = record default_budget { overruns = ("APR-9", overrun) ∷ [] };
}

abbrev pub asking_disk : Disk
asking_disk = record disk { state = asking }

pub reviewing-IsValid : IsValid reviewing
unfolding validate validate_contract is_blank active_missing outcome_mismatch any check_approval_ids
    contains for_each retain check_take check_shot check_shot_takes lookup check_decision
    check_approved check_candidate_approval check_candidate all contains_key components
    inner_components is_absolute is_normal is_whitespace split check_budget_approval check_reference
    check_rejected reference_is_invalid
reviewing-IsValid = (validate_iff reviewing).0 refl

pub selected-IsValid : IsValid selected
unfolding validate validate_contract is_blank active_missing outcome_mismatch any check_approval_ids
    contains for_each retain check_take check_shot check_shot_takes lookup check_decision
    check_approved check_candidate_approval check_candidate all contains_key components
    inner_components is_absolute is_normal is_whitespace split check_budget_approval check_reference
    check_rejected reference_is_invalid
selected-IsValid = (validate_iff selected).0 refl

pub asking-IsValid : IsValid asking
unfolding validate validate_contract is_blank active_missing outcome_mismatch any check_approval_ids
    contains for_each retain check_take check_shot check_shot_takes lookup check_decision
    check_approved check_candidate_approval check_candidate all contains_key components
    inner_components is_absolute is_normal is_whitespace split check_budget_approval check_reference
    check_rejected reference_is_invalid
asking-IsValid = (validate_iff asking).0 refl

pub first-IsReviewable : IsReviewable reviewing "S01" "T01" shot
unfolding ensure_reviewable lookup contains
first-IsReviewable = (ensure_reviewable_iff reviewing "S01" "T01" shot).0 refl

pub selected-IsReviewable :
    IsReviewable selected "S01" "T01"
      (record shot { stage = ShotStage.selected; selected_candidate_take_id = some "T01" })
unfolding ensure_reviewable lookup contains
selected-IsReviewable = (ensure_reviewable_iff selected "S01" "T01" _).0 refl
