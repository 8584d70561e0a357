-- ===== src/Store/Jobs/Changes.antt =====
-- What the operations on jobs check, and what they do to a shot and to a job: src/store/project.rs.
use Prim.Native.String.{◌++◌ as str_append}
use spark_stage.Base.{
  get_last?, ℕ, String, Bool, true, false, Option, none, some, [], ◌∷◌, Map, not, ◌||◌, any,
  contains, lookup, contains_key, update, update_last, str_eq, is_some, is_text, concat, Result, ok,
  err, guard, ok_or, if◌then◌else◌, ◌>>=◌, ◌>>◌,
}
use spark_stage.Domain.Script.{ScriptBundle}
use spark_stage.Domain.Project.{
  JobState, AttemptState, AttemptJournal, JobJournal, PromotionStrategy, ShotStage,
  ShotRuntimeState,
}
use spark_stage.Domain.State.{ProjectState}
use spark_stage.Store.Errors.{
  StoreError, io, job_not_cancellable, contract_not_found, no_active_contract, shot_not_found,
  invalid_job,
}
use spark_stage.Store.Support.{is_queued, validate_job}
use spark_stage.Store.Decisions.Guards.{ensure_idle}

-- Paths are relative to the root; the text is the system's for a file that is not there.
abbrev pub file_missing : String → StoreError
file_missing path = io path "No such file or directory (os error 2)"

abbrev pub job_file : String → String
job_file job_id = concat ("jobs/" ∷ job_id ∷ ".json" ∷ [])

unfoldable pub read_contract_bundle :
    Map ScriptBundle → ProjectState → String → Result StoreError ScriptBundle
read_contract_bundle bundles s contract_id = do
  contract ← ok_or (lookup contract_id s.contracts) (contract_not_found contract_id)
  ok_or (lookup contract.relative_path bundles)
      (file_missing (str_append contract.relative_path "/script/bundle.json"))

abbrev pub promotion_parent_missing : String → StoreError
promotion_parent_missing id =
    invalid_job (concat ("promotion parent take `" ∷ id ∷ "` does not exist" ∷ []))

abbrev pub promotion_parent_unusable : String → StoreError
promotion_parent_unusable id =
    invalid_job (concat ("promotion parent take `" ∷ id ∷ "` is not the selected usable take" ∷ []))

-- The take that a promotion starts from is the selected one of the shot, and fresh.
unfoldable pub check_parent : JobJournal → ProjectState → String → Result StoreError (Unit {0})
check_parent job s parent_id = do
  parent ← ok_or (lookup parent_id s.takes) (promotion_parent_missing parent_id)
  shot ← ok_or (lookup job.shot_id s.shots) (shot_not_found job.shot_id)
  guard
      (not (
        parent.stale
        || not (str_eq parent.shot_id job.shot_id)
        || not (is_text shot.selected_candidate_take_id parent_id)))
      (promotion_parent_unusable parent_id)

abbrev pub check_promotion :
    JobJournal
    → ProjectState
    → Option String
    → Option PromotionStrategy
    → Result StoreError (Unit {0})
check_promotion job s (some parent_id) (some strategy) = check_parent job s parent_id
check_promotion job s none none = ok tt
check_promotion job s _ _ =
    err (invalid_job "promotion parent and strategy must either both be present or both be absent")

unfoldable pub queue_shot : String → Option ℕ → ShotRuntimeState → ShotRuntimeState
queue_shot job_id target shot = record shot {
  stage = ShotStage.queued;
  active_job_id = some job_id;
  audition_target_takes = target;
  fail_codes = [];
}

abbrev pub queued_state : JobJournal → Option ℕ → ProjectState → ProjectState
queued_state job target s = record s {
  shots = update job.shot_id (queue_shot job.job_id target) s.shots;
}

abbrev pub no_target : StoreError
no_target = invalid_job "audition target must be greater than zero"

abbrev pub other_contract : StoreError
other_contract = invalid_job "new job does not reference the active contract"

abbrev pub job_exists : String → StoreError
job_exists job_id = invalid_job (concat ("job `" ∷ job_id ∷ "` already exists" ∷ []))

-- The checks of an enqueued job, with the contract bundles and the jobs on disk.
unfoldable pub enqueue_change :
    Map ScriptBundle
    → Map JobJournal
    → JobJournal
    → (command_id : String) → Option ℕ
    → ProjectState
    → Result StoreError ProjectState
unfolding read_contract_bundle check_parent ensure_idle validate_job queue_shot
enqueue_change bundles jobs job command_id target s = do
  active ← ok_or s.active_contract_id no_active_contract
  guard (str_eq job.contract_id active) other_contract
  bundle ← read_contract_bundle bundles s active
  guard (any (λ shot. str_eq shot.id job.shot_id) bundle.shots) (shot_not_found job.shot_id)
  check_promotion job s job.parent_take_id job.promotion_strategy
  shot ← ok_or (lookup job.shot_id s.shots) (shot_not_found job.shot_id)
  ensure_idle job.shot_id shot.active_job_id
  validate_job job s.project_id command_id
  guard (not (contains_key job.job_id jobs)) (job_exists job.job_id)
  ok (queued_state job target s)

-- `format!("{:?}", state).to_ascii_lowercase()`.
abbrev pub job_state_text : JobState → String
job_state_text JobState.queued = "queued"
job_state_text JobState.active = "active"
job_state_text JobState.completed = "completed"
job_state_text JobState.blocked = "blocked"
job_state_text JobState.failed = "failed"
job_state_text JobState.cancelled = "cancelled"

abbrev pub not_active_job : (job_id shot_id : String) → StoreError
not_active_job job_id shot_id =
    invalid_job
      (concat ("job `" ∷ job_id ∷ "` is not the active job for shot `" ∷ shot_id ∷ "`" ∷ []))

-- A shot without a job waits for what its takes ask for.
unfoldable pub idle_stage : ShotRuntimeState → ShotStage
idle_stage shot =
    if is_some shot.selected_candidate_take_id
    then ShotStage.selected
    else if any (λ id. not (contains shot.rejected_take_ids id)) shot.take_ids
    then ShotStage.candidates_ready
    else ShotStage.pending

unfoldable pub release_shot : ShotRuntimeState → ShotRuntimeState
unfolding idle_stage
release_shot shot = record shot {
  active_job_id = none;
  audition_target_takes = none;
  stage = idle_stage shot;
}

abbrev pub released_state : (shot_id : String) → ProjectState → ProjectState
released_state shot_id s = record s { shots = update shot_id release_shot s.shots }

-- The shot runs this job.
unfoldable pub check_active_job :
    JobJournal → (job_id : String) → ProjectState → Result StoreError (Unit {0})
check_active_job job job_id s = do
  shot ← ok_or (lookup job.shot_id s.shots) (shot_not_found job.shot_id)
  guard (is_text shot.active_job_id job_id) (not_active_job job_id job.shot_id)

unfoldable pub cancel_job : JobJournal → JobJournal
cancel_job job = record job { state = JobState.cancelled }

abbrev pub is_active_state : JobState → Bool
is_active_state JobState.active = true
is_active_state _ = false

abbrev pub is_interruptible : AttemptState → Bool
is_interruptible AttemptState.submitted = true
is_interruptible AttemptState.running = true
is_interruptible _ = false

unfoldable pub check_attempt : (job_id : String) → AttemptJournal → Result StoreError (Unit {0})
check_attempt job_id attempt =
    guard (not (not (is_some attempt.backend_job_id) || not (is_interruptible attempt.state))) (
      invalid_job (
        concat
          ("running job `" ∷ job_id ∷ "` has not reached an interruptible backend state" ∷ [])))

unfoldable pub cancel_attempt : (now : String) → AttemptJournal → AttemptJournal
cancel_attempt now attempt = record attempt {
  state = AttemptState.cancelled;
  error_code = some "USER_CANCELLED";
  error_message = some "ComfyUI confirmed global interrupt";
  updated_at = now;
}

unfoldable pub interrupt_job : (now : String) → JobJournal → JobJournal
unfolding cancel_attempt
interrupt_job now job = record job {
  attempts = update_last (cancel_attempt now) job.attempts;
  state = JobState.cancelled;
}

-- The checks of `cancel_queued_job` on the job.
unfoldable pub check_queued_job :
    JobJournal → (job_id : String) → ProjectState → Result StoreError (Unit {0})
unfolding check_active_job
check_queued_job job job_id s = do
  guard (is_queued job.state) (job_not_cancellable job_id (job_state_text job.state))
  check_active_job job job_id s

abbrev pub no_attempt : String → StoreError
no_attempt job_id = invalid_job (concat ("running job `" ∷ job_id ∷ "` has no active attempt" ∷ []))

-- The checks of `cancel_running_job_after_interrupt` on the job.
unfoldable pub check_running_job :
    JobJournal → (job_id : String) → ProjectState → Result StoreError (Unit {0})
unfolding check_active_job check_attempt
check_running_job job job_id s = do
  guard (is_active_state job.state) (job_not_cancellable job_id (job_state_text job.state))
  check_active_job job job_id s
  attempt ← ok_or (get_last? job.attempts) (no_attempt job_id)
  check_attempt job_id attempt
