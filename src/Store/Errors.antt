-- ===== src/Store/Errors.antt =====
-- `StoreError` of src/store/mod.rs. An error of the system or of serde is kept as its text.
use spark_stage.Base.{ℕ, String}
use spark_stage.Domain.Errors.{StateInvariantError}

pub data StoreError : Type 0 where
  invalid_project_id : String → StoreError
  project_exists : String → StoreError
  project_not_found : String → StoreError
  project_id_mismatch : (project bundle : String) → StoreError
  io : (path source : String) → StoreError
  decode : (path source : String) → StoreError
  encode : String → StoreError
  revision_conflict : (expected actual : ℕ) → StoreError
  invariant : StateInvariantError → StoreError
  lock_busy : (path : String) → StoreError
  no_pending_script_approval : StoreError
  approval_not_found : String → StoreError
  contract_not_found : String → StoreError
  no_active_contract : StoreError
  shot_not_found : String → StoreError
  shot_busy : (shot_id job_id : String) → StoreError
  build_busy : (build_id : String) → StoreError
  invalid_job : String → StoreError
  job_not_cancellable : (job_id state : String) → StoreError
  take_not_found : String → StoreError
  take_shot_mismatch : (take_id shot_id : String) → StoreError
  take_stale : String → StoreError
  take_rejected : String → StoreError
  take_not_selected : String → StoreError
  shot_already_approved : String → StoreError
  take_unavailable : String → StoreError
  invalid_review_batch : String → StoreError
  review_warnings_not_accepted : String → StoreError
  invalid_history_limit : ℕ → StoreError
  cleanup_plan_not_found : String → StoreError
  invalid_cleanup_plan : String → StoreError
  cleanup_plan_stale : String → StoreError
  cleanup_path_conflict : String → StoreError
  reference_subject_not_found : (kind id : String) → StoreError
  reference_not_found : String → StoreError
  invalid_reference_source : String → StoreError
  reference_impact_confirmation_required : StoreError
  reference_integrity : String → StoreError
