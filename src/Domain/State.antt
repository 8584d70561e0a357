-- ===== src/Domain/State.antt =====
-- `ProjectState`: its fields, its first value and its derived outcome: src/domain/project.rs.
use spark_stage.Base.{ℕ, String, Bool, true, false, Option, none, List, [], Map, any, if◌then◌else◌}
use spark_stage.Domain.Project.{
  ProjectStage, ProjectOutcome, WorkMode, QualityTarget, ContractRecord, Approval, ShotRuntimeState,
  TakeMetadata, BuildRecord, ReferenceAsset, FailureRecord, project_schema_version,
}
use spark_stage.Domain.Budget.{ProjectBudget, default_budget}

pub record ProjectState : Type 0 where
  pub schema_version : String
  pub revision : ℕ
  pub project_id : String
  pub title : String
  pub project_stage : ProjectStage
  pub project_outcome : ProjectOutcome
  pub work_mode : WorkMode
  pub quality_target : QualityTarget
  pub paused : Bool
  pub last_command_id : Option String
  pub active_contract_id : Option String
  pub contracts : Map ContractRecord
  pub pending_approvals : List Approval
  pub shots : Map ShotRuntimeState
  pub takes : Map TakeMetadata
  pub builds : Map BuildRecord
  pub references : Map ReferenceAsset
  pub recent_failures : List FailureRecord
  pub budget : ProjectBudget
  pub created_at : String
  pub updated_at : String

-- `ProjectState::new`.
unfoldable pub new : String → String → String → ProjectState
new project_id title now = record {
  schema_version = project_schema_version;
  revision = 1;
  project_id = project_id;
  title = title;
  project_stage = ProjectStage.authoring;
  project_outcome = ProjectOutcome.in_progress;
  work_mode = WorkMode.director;
  quality_target = QualityTarget.playable;
  paused = false;
  last_command_id = none;
  active_contract_id = none;
  contracts = [];
  pending_approvals = [];
  shots = [];
  takes = [];
  builds = [];
  references = [];
  recent_failures = [];
  budget = default_budget;
  created_at = now;
  updated_at = now;
}

abbrev pub needs_review : ProjectOutcome → Bool
needs_review ProjectOutcome.needs_review = true
needs_review _ = false

-- `refresh_derived_outcome`, on the two fields that it reads.
unfoldable pub derived_outcome : List Approval → ProjectOutcome → ProjectOutcome
derived_outcome approvals outcome =
    if any (λ a. a.blocking) approvals
    then ProjectOutcome.needs_review
    else if needs_review outcome
    then ProjectOutcome.in_progress
    else outcome

unfoldable pub refresh_derived_outcome : ProjectState → ProjectState
unfolding derived_outcome
refresh_derived_outcome s = record s {
  project_outcome = derived_outcome s.pending_approvals s.project_outcome;
}
