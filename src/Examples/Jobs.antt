-- ===== src/Examples/Jobs.antt =====
-- A project with a script, and a job that is enqueued for its shot.
use spark_stage.Base.{
  false, none, some, [], ◌∷◌, ◌≡◌, refl, arith, ok, err, lookup, is_blank, any, contains, for_each,
  retain, update, insert, all, contains_key, components, inner_components, is_absolute, is_normal,
  is_whitespace, split, checked_add, saturating_add, is_ascii_digit, is_ascii_lowercase,
  is_ascii_alphanumeric,
}
use spark_stage.Domain.Script.{Operation}
use spark_stage.Domain.Project.{
  ContractRecord, ContractStatus, JobState, JobJournal, ShotRuntimeState,
}
use spark_stage.Domain.State.{ProjectState, refresh_derived_outcome, derived_outcome}
use spark_stage.Domain.Budget.{validate_contract}
use spark_stage.Domain.Validate.{
  bump_revision, validate, active_missing, outcome_mismatch, check_approval_ids, check_take,
  check_shot, check_shot_takes, check_decision, check_approved, check_candidate_approval,
  check_candidate, check_budget_approval, check_reference, check_rejected, reference_is_invalid,
}
use spark_stage.Store.Errors.{StoreError}
use spark_stage.Store.Disk.{Disk}
use spark_stage.Store.Support.{
  ensure_revision, validate_job, validate_job_id, is_job_id, is_new_job, strip_prefix,
  is_ulid_suffix,
}
use spark_stage.Store.Journal.{
  recover_decisions_for_state, pending_for, commit_decisions, latest_from,
}
use spark_stage.Store.Save.{open_state, read_state, save_state, write_state}
use spark_stage.Store.Save.Decided.{IsAtomic}
use spark_stage.Store.Decisions.Guards.{ensure_idle}
use spark_stage.Store.Jobs.Changes.{read_contract_bundle, queue_shot, enqueue_change}
use spark_stage.Store.Jobs.Operations.{
  read_job, write_job, save_or_remove, save_enqueued, enqueue_job_with_audition_target,
  cancel_queued_job,
}
use spark_stage.Store.Jobs.Queue.{
  enqueue_job-IsAtomic, enqueue_job-read_job, enqueue_job-exclusive, IsCancelled,
  enqueue_job-cancel_queued_job,
}
use spark_stage.Examples.Project.{disk, reviewing}
use spark_stage.Examples.Script.{bundle}

abbrev contract : ContractRecord
contract = record {
  contract_id = "CON-1";
  relative_path = "contracts/CON-1";
  bundle_hash = "h";
  status = ContractStatus.active;
  receipt = record {
    receipt_id = "RCP-1";
    contract_id = "CON-1";
    project_id = "demo";
    schema_version = "1.0";
    bundle_hash = "h";
    brief_hash = "b";
    command_id = "CMD-0";
    skill = "unspecified";
    agent_host = none;
    model = none;
    created_at = "t0";
  };
}

abbrev scripted : Disk
scripted = record disk {
  state = record reviewing {
    active_contract_id = some "CON-1";
    contracts = ("CON-1", contract) ∷ [];
  };
  bundles = ("contracts/CON-1", bundle) ∷ [];
}

abbrev job : JobJournal
job = record {
  schema_version = "1.0";
  job_id = "JOB-01J0000000000000000000000A";
  command_id = "CMD-2";
  project_id = "demo";
  contract_id = "CON-1";
  shot_id = "S01";
  reserved_take_id = "TAKE-01J0000000000000000000000A";
  operation = Operation.t2v;
  resolved_prompt = "A wide street";
  seed = 7;
  profile = "audition";
  input_hash = "a";
  adapter_fingerprint = "b";
  smoke_test = false;
  parent_take_id = none;
  promotion_strategy = none;
  state = JobState.queued;
  attempts = [];
}

enqueue_job-IsAtomic_example :
    IsAtomic scripted "CMD-2"
      (enqueue_job_with_audition_target job 4 "CMD-2" "t1" (some 2) scripted)
enqueue_job-IsAtomic_example =
    enqueue_job-IsAtomic job (some 2) "CMD-2" "t1" 4 scripted (omega arith)

enqueued :
    (t : ProjectState) × (d' : Disk) × (enqueue_job_with_audition_target job 4 "CMD-2" "t1"
        (some 2)
        scripted
      ≡ (ok t, d'))
unfolding enqueue_job_with_audition_target open_state read_state enqueue_change read_contract_bundle
    ensure_idle validate_job validate_job_id is_job_id is_new_job strip_prefix is_ulid_suffix
    is_ascii_digit is_ascii_lowercase is_ascii_alphanumeric save_enqueued write_job save_or_remove
    save_state insert queue_shot ensure_revision recover_decisions_for_state pending_for
    commit_decisions write_state bump_revision refresh_derived_outcome derived_outcome validate
    validate_contract is_blank active_missing outcome_mismatch any check_approval_ids contains
    for_each retain check_take check_shot check_shot_takes lookup update check_decision
    check_approved check_candidate_approval check_candidate all contains_key components
    inner_components is_absolute is_normal is_whitespace split check_budget_approval check_reference
    check_rejected reference_is_invalid checked_add saturating_add latest_from
enqueued = (_, _, refl)

enqueue_job-read_job_example : read_job job.job_id enqueued.1 ≡ (ok job, enqueued.1)
enqueue_job-read_job_example =
    enqueue_job-read_job job (some 2) "CMD-2" "t1" 4 scripted enqueued.1 enqueued.0 (omega arith)
      enqueued.2

-- Another job for the same shot.
abbrev other_job : JobJournal
other_job = record job { job_id = "JOB-01J0000000000000000000000B"; command_id = "CMD-3" }

enqueue_job-exclusive_example :
    (e : StoreError) × (enqueue_job_with_audition_target other_job 5 "CMD-3" "t2" none enqueued.1
      ≡ (err e, enqueued.1))
enqueue_job-exclusive_example =
    enqueue_job-exclusive job other_job (some 2) none "CMD-2" "t1" "CMD-3" "t2" 4 scripted
      enqueued.1 enqueued.0 (omega arith) enqueued.2 refl 5

enqueue_job-cancel_queued_job_example :
    (before : ShotRuntimeState) × (lookup "S01" scripted.state.shots ≡ some before)
    × (u : ProjectState) × (d″ : Disk) × (cancel_queued_job "U1" job.job_id
          enqueued.1.state.revision "CMD-3" "t2" enqueued.1
        ≡ (ok u, d″))
    × IsCancelled job before d″
enqueue_job-cancel_queued_job_example =
    enqueue_job-cancel_queued_job job (some 2) "CMD-2" "t1" 4 scripted enqueued.1 enqueued.0
      (omega arith) enqueued.2 "U1" "CMD-3" "t2"
