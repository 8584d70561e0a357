-- ===== src/Domain/Errors.antt =====
-- `StateInvariantError` of src/domain/project.rs.
use spark_stage.Base.{String}

pub data StateInvariantError : Type 0 where
  unsupported_schema : String → StateInvariantError
  zero_revision revision_overflow invalid_budget_contract : StateInvariantError
  budget_approval_missing : String → StateInvariantError
  budget_approval_mismatch : String → StateInvariantError
  missing_active_contract outcome_approval_mismatch : StateInvariantError
  duplicate_approval : String → StateInvariantError
  shot_key_mismatch : (key shot_id : String) → StateInvariantError
  take_key_mismatch : (key take_id : String) → StateInvariantError
  reference_key_mismatch : (key reference_id : String) → StateInvariantError
  reference_invalid : String → StateInvariantError
  duplicate_shot_take : (shot_id take_id : String) → StateInvariantError
  shot_take_missing : (shot_id take_id : String) → StateInvariantError
  take_shot_mismatch : (take_id expected_shot_id actual_shot_id : String) → StateInvariantError
  rejected_take_unavailable : (shot_id take_id : String) → StateInvariantError
  decision_take_unavailable : (shot_id take_id kind : String) → StateInvariantError
  approved_take_not_selected : (shot_id take_id : String) → StateInvariantError
  candidate_approval_shot_missing : String → StateInvariantError
  candidate_approval_shot_unknown : (approval_id shot_id : String) → StateInvariantError
  candidate_approval_take_unavailable : (approval_id take_id : String) → StateInvariantError
