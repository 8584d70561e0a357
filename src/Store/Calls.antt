-- ===== src/Store/Calls.antt =====
-- Calls of fifteen operations of the store, one after the other: pausing and decisions
-- (src/store/project/decisions.rs), the budget (src/store/project/budget.rs), builds
-- (src/store/project/builds.rs) and jobs (src/store/project.rs). `apply_bundle`, `approve_script`, the
-- references, the cleanup plans and `save_state` called directly are not among them.
pub mod Takes
pub mod Others
pub mod Move
pub mod Jobs
pub mod Steps
pub mod Runs
use spark_stage.Base.{ℕ, String, Bool, Option, List, [], ◌∷◌}
use spark_stage.Domain.Project.{BuildRecord, JobJournal, FilePath}
use spark_stage.Domain.Budget.{BudgetContract}
use spark_stage.Store.Disk.{Disk}
use spark_stage.Store.Decisions.Guards.{BatchTakeSelection}
use spark_stage.Store.Decisions.Operations.{
  set_project_paused, select_take, approve_take, reject_take, review_takes_batch,
}
use spark_stage.Store.Budget.{
  OverrunRequest, request_budget_overrun, approve_budget_overrun, update_budget_contract,
}
use spark_stage.Store.Builds.Operations.{
  start_build, mark_build_running, finish_build, approve_build_review,
}
use spark_stage.Store.Jobs.Operations.{
  enqueue_job_with_audition_target, cancel_queued_job, cancel_running_job_after_interrupt,
}

-- A call with its arguments, but for the revision, the command and the time.
pub data Operation : Type 0 where
  pause : (ulid : String) (paused : Bool) → Operation
  select approve reject : (ulid shot_id take_id : String) → Operation
  review_batch : (ulids : ℕ → String) → List BatchTakeSelection → (approves : Bool) → Operation
  request_overrun : (ulid : String) → OverrunRequest → Operation
  approve_overrun : (ulid approval_id : String) → Operation
  update_contract : (ulid : String) → BudgetContract → Operation
  start : BuildRecord → Operation
  mark_running : (ulid build_id : String) → Operation
  finish :
      (ulid event_ulid build_id : String)
      → Option FilePath
      → (error : Option String) → (stale : Bool) → Operation
  approve_build : (ulid approval_id : String) → Operation
  enqueue : JobJournal → (target : Option ℕ) → Operation
  cancel_queued cancel_running : (ulid job_id : String) → Operation

pub record Call : Type 0 where
  pub operation : Operation
  pub expected : ℕ
  pub command_id : String
  pub now : String

-- The disk after a call, whether it succeeded or not.
unfoldable pub carry_out : Operation → (expected : ℕ) → (command_id now : String) → Disk → Disk
unfolding set_project_paused select_take approve_take reject_take review_takes_batch
    request_budget_overrun approve_budget_overrun update_budget_contract start_build
    mark_build_running finish_build approve_build_review enqueue_job_with_audition_target
    cancel_queued_job cancel_running_job_after_interrupt
carry_out (pause ulid paused) expected command_id now d =
    (set_project_paused ulid paused expected command_id now d).1
carry_out (select ulid shot_id take_id) expected command_id now d =
    (select_take ulid shot_id take_id expected command_id now d).1
carry_out (approve ulid shot_id take_id) expected command_id now d =
    (approve_take ulid shot_id take_id expected command_id now d).1
carry_out (reject ulid shot_id take_id) expected command_id now d =
    (reject_take ulid shot_id take_id expected command_id now d).1
carry_out (review_batch ulids selections approves) expected command_id now d =
    (review_takes_batch ulids selections approves expected command_id now d).1
carry_out (request_overrun ulid r) expected command_id now d =
    (request_budget_overrun ulid r expected command_id now d).1
carry_out (approve_overrun ulid approval_id) expected command_id now d =
    (approve_budget_overrun ulid approval_id expected command_id now d).1
carry_out (update_contract ulid contract) expected command_id now d =
    (update_budget_contract ulid contract expected command_id now d).1
carry_out (start build) expected command_id now d = (start_build build expected command_id now d).1
carry_out (mark_running ulid build_id) expected command_id now d =
    (mark_build_running ulid build_id expected command_id now d).1
carry_out (finish ulid event_ulid build_id output_path error stale) expected command_id now d =
    (finish_build ulid event_ulid build_id output_path error stale expected command_id now d).1
carry_out (approve_build ulid approval_id) expected command_id now d =
    (approve_build_review ulid approval_id expected command_id now d).1
carry_out (enqueue job target) expected command_id now d =
    (enqueue_job_with_audition_target job expected command_id now target d).1
carry_out (cancel_queued ulid job_id) expected command_id now d =
    (cancel_queued_job ulid job_id expected command_id now d).1
carry_out (cancel_running ulid job_id) expected command_id now d =
    (cancel_running_job_after_interrupt ulid job_id expected command_id now d).1

unfoldable pub run_calls : List Call → Disk → Disk
unfolding carry_out
run_calls [] d = d
run_calls (c ∷ calls) d = run_calls calls (carry_out c.operation c.expected c.command_id c.now d)
