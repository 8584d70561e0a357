-- ===== src/Domain/Budget.antt =====
-- The budget contract of a project and its validation: src/domain/project.rs.
use spark_stage.Base.{
  ℕ, String, Bool, false, Option, List, [], Map, ◌*◌, ◌||◌, ◌==◌, is_blank, Result, ok, err,
  if◌then◌else◌,
}
use spark_stage.Domain.Errors.{StateInvariantError, invalid_budget_contract}

pub data BudgetOverrunPolicy : Type 0 where
  stop deliver_current_draft : BudgetOverrunPolicy

pub record BudgetEstimateProfile : Type 0 where
  pub source : String
  pub audition_wall_seconds_per_video_second : ℕ
  pub final_wall_seconds_per_video_second : ℕ
  pub audition_bytes_per_video_second : ℕ
  pub final_bytes_per_video_second : ℕ

pub record BudgetContract : Type 0 where
  pub contract_revision : ℕ
  pub wall_clock_limit_seconds : ℕ
  pub max_audition_takes_per_shot : ℕ
  pub max_final_takes_per_shot : ℕ
  pub minimum_disk_free_bytes : ℕ
  pub allow_cloud_cost : Bool
  pub overrun_policy : BudgetOverrunPolicy
  pub estimate : BudgetEstimateProfile

pub record BudgetOverrun : Type 0 where
  pub approval_id : String
  pub scope : String
  pub shot_id : String
  pub operation : String
  pub dimensions : List String
  pub reasons : List String
  pub incremental_wall_seconds : ℕ
  pub incremental_disk_bytes : ℕ
  pub requested_at : String
  pub approved_at : Option String

pub record ProjectBudget : Type 0 where
  pub contract : BudgetContract
  pub overruns : Map BudgetOverrun

-- The `Default` implementations.
abbrev pub default_estimate : BudgetEstimateProfile
default_estimate = record {
  source = "unmeasured_default_v1";
  audition_wall_seconds_per_video_second = 30;
  final_wall_seconds_per_video_second = 120;
  audition_bytes_per_video_second = 4 * 1024 * 1024;
  final_bytes_per_video_second = 12 * 1024 * 1024;
}

abbrev pub default_contract : BudgetContract
default_contract = record {
  contract_revision = 1;
  wall_clock_limit_seconds = 4 * 60 * 60;
  max_audition_takes_per_shot = 3;
  max_final_takes_per_shot = 2;
  minimum_disk_free_bytes = 5 * 1024 * 1024 * 1024;
  allow_cloud_cost = false;
  overrun_policy = stop;
  estimate = default_estimate;
}

abbrev pub default_budget : ProjectBudget
default_budget = record { contract = default_contract; overruns = [] }

-- `BudgetContract::validate`.
unfoldable pub validate_contract : BudgetContract → Result StateInvariantError (Unit {0})
validate_contract c =
    if c.contract_revision == 0
      || c.wall_clock_limit_seconds == 0
      || c.max_audition_takes_per_shot == 0
      || c.max_final_takes_per_shot == 0
      || c.minimum_disk_free_bytes == 0
      || is_blank c.estimate.source
      || c.estimate.audition_wall_seconds_per_video_second == 0
      || c.estimate.final_wall_seconds_per_video_second == 0
      || c.estimate.audition_bytes_per_video_second == 0
      || c.estimate.final_bytes_per_video_second == 0
    then err invalid_budget_contract
    else ok tt
