-- ===== src/Store/Jobs/Operations.antt =====
-- `enqueue_job`, `cancel_queued_job`, `cancel_running_job_after_interrupt` and `read_job` of
-- src/store/project.rs.
use spark_stage.Base.{
  ℕ, String, Bool, false, Option, none, some, [], ◌∷◌, Map, not, ◌==◌, lookup, insert, str_eq,
  Result, ok, err, guard, ok_or, if◌then◌else◌,
}
use spark_stage.Domain.Project.{JobJournal}
use spark_stage.Domain.State.{ProjectState}
use spark_stage.Domain.Validate.{bump_revision}
use spark_stage.Store.Errors.{StoreError}
use spark_stage.Store.Disk.{Disk, Action, ◌>>=◌, ◌>>◌, pure, lift, get, from_invariant}
use spark_stage.Store.Support.{validate_job_id}
use spark_stage.Store.Save.{open_state, save_state, save_revision, append_event}
use spark_stage.Store.Jobs.Changes.{
  check_queued_job, check_running_job, no_target, file_missing, job_file, enqueue_change,
  release_shot, released_state, cancel_job, interrupt_job,
}

unfoldable pub read_job : String → Action JobJournal
unfolding validate_job_id
read_job job_id = do
  lift (validate_job_id job_id)
  d ← get
  lift (ok_or (lookup job_id d.jobs) (file_missing (job_file job_id)))

unfoldable pub write_job : JobJournal → Action (Unit {0})
write_job job d = (ok tt, record d { jobs = insert job.job_id job d.jobs })

unfoldable pub save_job : JobJournal → Action (Unit {0})
unfolding validate_job_id write_job
save_job job = lift (validate_job_id job.job_id) >> write_job job

-- `fs::remove_file`.
unfoldable pub remove_key {ℓ} : {V : Type ℓ} → String → Map V → Map V
remove_key k [] = []
remove_key k ((j, v) ∷ m) = if str_eq k j then remove_key k m else (j, v) ∷ remove_key k m

unfoldable pub remove_job : String → Disk → Disk
unfolding remove_key
remove_job job_id d = record d { jobs = remove_key job_id d.jobs }

-- `if let Err(error) = … { undo; return Err(error) }`.
abbrev pub or_undo {ℓ} :
    {A : Type ℓ} → (Disk → Disk) → Result StoreError A × Disk → Result StoreError A × Disk
or_undo undo (ok a, d) = (ok a, d)
or_undo undo (err e, d) = (err e, undo d)

-- The state is saved, or the job file is removed again.
unfoldable pub save_or_remove : JobJournal → ProjectState → (expected : ℕ) → Action (Unit {0})
unfolding save_state remove_job
save_or_remove job t expected d = or_undo (remove_job job.job_id) (save_state t expected d)

-- The job is written before the state.
unfoldable pub save_enqueued :
    JobJournal → ProjectState → (expected : ℕ) → (command_id now : String) → Action ProjectState
unfolding write_job save_or_remove
save_enqueued job s expected command_id now = do
  write_job job
  t ← lift (from_invariant (bump_revision (record s { last_command_id = some command_id }) now))
  save_or_remove job t expected
  pure t

abbrev pub is_zero : Option ℕ → Bool
is_zero none = false
is_zero (some n) = n == 0

unfoldable pub enqueue_job_with_audition_target :
    JobJournal → (expected : ℕ) → (command_id now : String) → Option ℕ → Action ProjectState
unfolding open_state enqueue_change save_enqueued
enqueue_job_with_audition_target job expected command_id now target = do
  lift (guard (not (is_zero target)) no_target)
  s ← open_state expected
  d ← get
  t ← lift (enqueue_change d.bundles d.jobs job command_id target s)
  save_enqueued job t expected command_id now

unfoldable pub enqueue_job :
    JobJournal → (expected : ℕ) → (command_id now : String) → Action ProjectState
unfolding enqueue_job_with_audition_target
enqueue_job job expected command_id now =
    enqueue_job_with_audition_target job expected command_id now none

unfoldable pub cancel_queued_job :
    (ulid job_id : String) (expected : ℕ) (command_id now : String) → Action ProjectState
unfolding open_state read_job check_queued_job cancel_job save_job release_shot save_revision
    append_event
cancel_queued_job ulid job_id expected command_id now = do
  s ← open_state expected
  job ← read_job job_id
  lift (check_queued_job job job_id s)
  save_job (cancel_job job)
  t ← save_revision (released_state job.shot_id s) expected command_id now
  append_event ulid "job_cancelled" job_id command_id now
  pure t

unfoldable pub cancel_running_job_after_interrupt :
    (ulid job_id : String) (expected : ℕ) (command_id now : String) → Action ProjectState
unfolding open_state read_job check_running_job interrupt_job save_job release_shot save_revision
    append_event
cancel_running_job_after_interrupt ulid job_id expected command_id now = do
  s ← open_state expected
  job ← read_job job_id
  lift (check_running_job job job_id s)
  save_job (interrupt_job now job)
  t ← save_revision (released_state job.shot_id s) expected command_id now
  append_event ulid "running_job_interrupted" job_id command_id now
  pure t
