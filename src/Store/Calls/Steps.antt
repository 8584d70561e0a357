-- ===== src/Store/Calls/Steps.antt =====
-- The operations of Store.Calls, each as a move of the state.
use spark_stage.Base.{ℕ, String}
use spark_stage.Store.Disk.{Disk}
use spark_stage.Store.Builds.Atomic.{
  start_build-IsAtomic, mark_build_running-IsAnswer, finish_build-IsAtomic,
  approve_build_review-IsAtomic,
}
use spark_stage.Store.Builds.Advance.{
  start_build-Advances, mark_build_running-Advances, finish_build-Advances,
  approve_build_review-Advances,
}
use spark_stage.Store.Budget.Changes.{
  approve_budget_overrun-IsAtomic, update_budget_contract-IsAtomic,
}
use spark_stage.Store.Budget.Requests.{request_budget_overrun-IsRequest}
use spark_stage.Store.Decisions.Operations.Atomic.{
  set_project_paused-IsAtomic, select_take-IsAtomic, approve_take-IsAtomic, reject_take-IsAtomic,
}
use spark_stage.Store.Decisions.Operations.Batch.{review_takes_batch-IsAtomic}
use spark_stage.Store.Calls.{
  Operation, carry_out, pause, select, approve, reject, review_batch, request_overrun,
  approve_overrun, update_contract, start, mark_running, finish, approve_build, enqueue,
  cancel_queued, cancel_running,
}
use spark_stage.Store.Calls.Takes.{
  pause-Advances, select_take-Advances, approve_take-Advances, reject_take-Advances,
  review_takes_batch-Advances,
}
use spark_stage.Store.Calls.Others.{
  approve_budget_overrun-Advances, update_budget_contract-Advances, request_budget_overrun-Advances,
}
use spark_stage.Store.Calls.Move.{Move, atomic-Move, answer-Move, request-Move}
use spark_stage.Store.Calls.Jobs.{enqueue-Move, cancel_queued-Move, cancel_running-Move}

-- Each of fifteen operations of the store (pausing, deciding on takes one by one or in a batch,
-- requesting and approving overruns, changing the budget contract, starting, running, finishing
-- and approving a build, and enqueueing and cancelling a job), with any arguments and from any
-- disk, leaves the state as it was, or saves a valid state of the next revision in which at most
-- one build has taken one step of its life. Approving a script, applying a bundle, references,
-- cleanup plans and saving a state directly are not among them.
pub carry_out-Move :
    (o : Operation) (expected : ℕ) (command_id now : String) (d : Disk)
    → Move d.state (carry_out o expected command_id now d).state
unfolding carry_out
carry_out-Move (pause ulid paused) expected command_id now d =
    atomic-Move d command_id _ (set_project_paused-IsAtomic ulid paused expected command_id now d)
      (pause-Advances expected command_id now d ulid paused)
carry_out-Move (select ulid shot_id take_id) expected command_id now d =
    atomic-Move d command_id _ (select_take-IsAtomic ulid shot_id take_id expected command_id now d)
      (select_take-Advances expected command_id now d ulid shot_id take_id)
carry_out-Move (approve ulid shot_id take_id) expected command_id now d =
    atomic-Move d command_id _
      (approve_take-IsAtomic ulid shot_id take_id expected command_id now d)
      (approve_take-Advances expected command_id now d ulid shot_id take_id)
carry_out-Move (reject ulid shot_id take_id) expected command_id now d =
    atomic-Move d command_id _ (reject_take-IsAtomic ulid shot_id take_id expected command_id now d)
      (reject_take-Advances expected command_id now d ulid shot_id take_id)
carry_out-Move (review_batch ulids selections approves) expected command_id now d =
    atomic-Move d command_id _
      (review_takes_batch-IsAtomic ulids selections approves expected command_id now d)
      (review_takes_batch-Advances expected command_id now d ulids selections approves)
carry_out-Move (request_overrun ulid r) expected command_id now d =
    request-Move d command_id _ (request_budget_overrun-IsRequest ulid r command_id now expected d)
      (request_budget_overrun-Advances ulid r command_id now d expected)
carry_out-Move (approve_overrun ulid approval_id) expected command_id now d =
    atomic-Move d command_id _
      (approve_budget_overrun-IsAtomic ulid approval_id expected command_id now d)
      (approve_budget_overrun-Advances expected command_id now d ulid approval_id)
carry_out-Move (update_contract ulid contract) expected command_id now d =
    atomic-Move d command_id _
      (update_budget_contract-IsAtomic ulid contract expected command_id now d)
      (update_budget_contract-Advances expected command_id now d ulid contract)
carry_out-Move (start build) expected command_id now d =
    atomic-Move d command_id _ (start_build-IsAtomic build expected command_id now d)
      (start_build-Advances build expected command_id now d)
carry_out-Move (mark_running ulid id) expected command_id now d =
    answer-Move d command_id _ (mark_build_running-IsAnswer ulid id expected command_id now d)
      (mark_build_running-Advances ulid id expected command_id now d)
carry_out-Move (finish ulid event_ulid id output_path error stale) expected command_id now d =
    atomic-Move d command_id _
      (finish_build-IsAtomic ulid event_ulid id output_path error stale expected command_id now d)
      (finish_build-Advances ulid event_ulid id output_path error stale expected command_id now d)
carry_out-Move (approve_build ulid approval_id) expected command_id now d =
    atomic-Move d command_id _
      (approve_build_review-IsAtomic ulid approval_id expected command_id now d)
      (approve_build_review-Advances ulid approval_id expected command_id now d)
carry_out-Move (enqueue job target) expected command_id now d =
    enqueue-Move job target command_id now d expected
carry_out-Move (cancel_queued ulid job_id) expected command_id now d =
    cancel_queued-Move ulid job_id expected command_id now d
carry_out-Move (cancel_running ulid job_id) expected command_id now d =
    cancel_running-Move ulid job_id expected command_id now d
