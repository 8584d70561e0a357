-- ===== src/Store/Calls/Jobs.antt =====
-- The calls on jobs save one valid revision at most, and move no build.
use spark_stage.Base.{
  ℕ, String, Option, ◌≡◌, ◌+◌, refl, sym, ap, ◌⊎◌, insert, subst, inl, inr, lookup, ok, err, ok_or,
  Bool-cases,
}
use spark_stage.Domain.Project.{JobJournal}
use spark_stage.Domain.State.{ProjectState}
use spark_stage.Domain.Validate.{bump_revision}
use spark_stage.Domain.Validate.Validity.{IsValid, core, IsCoherent}
use spark_stage.Domain.Validate.Revision.{bumped, bumped-IsValid, bump_revision-IsValid}
use spark_stage.Store.Errors.{StoreError}
use spark_stage.Store.Disk.{Disk, and_then}
use spark_stage.Store.Support.{validate_job_id}
use spark_stage.Store.Save.{save_revision}
use spark_stage.Store.Save.Laws.{Result-cases, open_state_cases}
use spark_stage.Store.Save.Decided.{with_command}
use spark_stage.Store.Save.Revised.{logged}
use spark_stage.Store.Save.Ends.{left, save_revision-ends, logged-ends}
use spark_stage.Store.Builds.Lifecycle.{rest}
use spark_stage.Store.Jobs.Changes.{
  cancel_job, interrupt_job, queued_state, enqueue_change, released_state, check_queued_job,
  check_running_job, file_missing, job_file,
}
use spark_stage.Store.Jobs.Operations.{
  read_job, write_job, save_job, save_enqueued, is_zero, enqueue_job_with_audition_target,
  cancel_queued_job, cancel_running_job_after_interrupt,
}
use spark_stage.Store.Jobs.Sound.{queued-IsCoherent, released-IsCoherent, enqueue_change_inverse}
use spark_stage.Store.Jobs.Queue.{save_enqueued_lem}
use spark_stage.Store.Calls.Move.{Move}

-- The next revision of a coherent state with the builds as they are.
bumped-Move :
    (s u : ProjectState) (command_id now : String)
    → IsCoherent (core u)
    → u.revision ≡ s.revision
    → u.builds ≡ s.builds
    → Move s (bumped (with_command command_id u) now)
unfolding bumped
bumped-Move s u command_id now h same builds = inr record {
  valid = bumped-IsValid (with_command command_id u) now h;
  revision = ap (λ n. n + 1) same;
  builds = rest (λ j. rw builds refl);
}

module _ (job : JobJournal) (target : Option ℕ) (command_id now : String) (d : Disk) where
  save_enqueued-Move :
      IsValid d.state
      → Move d.state (
          left
            (save_enqueued job (queued_state job target d.state) d.state.revision command_id now d))
  unfolding save_enqueued write_job
  save_enqueued-Move valid =
      let u = queued_state job target d.state in
      elim (Result-cases (bump_revision (with_command command_id u) now)) [
        | inr (e, full) ↦ rw full (inl refl)
        | inl (t, done) ↦
            let (_, _, room) = bump_revision-IsValid (with_command command_id u) t now done in
            subst (λ r. Move d.state (left r))
              (sym (save_enqueued_lem job target command_id now d valid room))
              (bumped-Move d.state u command_id now
                (queued-IsCoherent job target d.state valid.coherent) refl refl)
      ]

  pub enqueue-Move :
      (expected : ℕ)
      → Move d.state (left (enqueue_job_with_audition_target job expected command_id now target d))
  unfolding enqueue_job_with_audition_target
  enqueue-Move expected = elim (Bool-cases (is_zero target)) [
    | inl zero ↦ rw zero (inl refl)
    | inr some_takes ↦ elim (open_state_cases expected d) [
      | inr (e, failed) ↦ rw (some_takes, failed) (inl refl)
      | inl (valid, same, opened) ↦
          elim (Result-cases (enqueue_change d.bundles d.jobs job command_id target d.state)) [
            | inr (e, refused) ↦ rw some_takes (rw opened (rw refused (inl refl)))
            | inl (t, changed) ↦
                let (_, e) =
                  enqueue_change_inverse d.bundles d.jobs job command_id target d.state t changed in
                rw some_takes (rw opened (rw changed (rw (e, ← same) (save_enqueued-Move valid))))
          ]
    ]
  ]

-- Reading a job and writing one leave the state as it is.
read_job-cases :
    (id : String) (d : Disk)
    → ((job : JobJournal) × (read_job id d ≡ (ok job, d)))
      ⊎ ((e : StoreError) × (read_job id d ≡ (err e, d)))
unfolding read_job
read_job-cases id d = elim (Result-cases (validate_job_id id)) [
  | inr (e, bad) ↦ inr (e, rw bad refl)
  | inl (_, good) ↦ elim (Result-cases (ok_or (lookup id d.jobs) (file_missing (job_file id)))) [
    | inr (e, absent) ↦ inr (e, rw good (rw absent refl))
    | inl (job, there) ↦ inl (job, rw good (rw there refl))
  ]
]

save_job-cases :
    (job : JobJournal) (d : Disk)
    → (save_job job d ≡ (ok tt, record d { jobs = insert job.job_id job d.jobs }))
      ⊎ ((e : StoreError) × (save_job job d ≡ (err e, d)))
unfolding save_job write_job
save_job-cases job d = elim (Result-cases (validate_job_id job.job_id)) [
  | inr (e, bad) ↦ inr (e, rw bad refl)
  | inl (_, good) ↦ inl (rw good refl)
]

-- The last calls of a cancelled job.
release-Move :
    (ulid kind subject_id : String) (shot_id command_id now : String) (before : ProjectState)
    (d : Disk)
    → d.state ≡ before
    → IsValid d.state
    → Move before (
        left (
          logged ulid kind subject_id command_id now
            (save_revision (released_state shot_id d.state) d.state.revision command_id now)
            d))
release-Move ulid kind subject_id shot_id command_id now before d same valid =
    let u = released_state shot_id d.state in
    logged-ends (Move before) ulid kind subject_id command_id now
      (save_revision u d.state.revision command_id now) d
      (save_revision-ends (Move before) u command_id now d valid refl (inl same) (
        subst (λ w. Move w (bumped (with_command command_id u) now)) same
          (bumped-Move d.state u command_id now (released-IsCoherent shot_id d.state valid.coherent)
            refl refl)))

-- The job is saved, and then the state without it.
cancel-Move :
    (ulid kind subject_id : String) (saved : JobJournal) (shot_id command_id now : String)
    (d : Disk)
    → IsValid d.state
    → Move d.state (
        left (
          and_then (save_job saved d) λ _.
            logged ulid kind subject_id command_id now
              (save_revision (released_state shot_id d.state) d.state.revision command_id now)))
cancel-Move ulid kind subject_id saved shot_id command_id now d valid =
    elim (save_job-cases saved d) [
      | inr (e, bad) ↦ rw bad (inl refl)
      | inl written ↦ rw written (
          release-Move ulid kind subject_id shot_id command_id now d.state
            (record d { jobs = insert saved.job_id saved d.jobs }) refl valid)
    ]

module _ (ulid job_id : String) (expected : ℕ) (command_id now : String) (d : Disk) where
  pub cancel_queued-Move :
      Move d.state (left (cancel_queued_job ulid job_id expected command_id now d))
  unfolding cancel_queued_job
  cancel_queued-Move = elim (open_state_cases expected d) [
    | inr (e, failed) ↦ rw failed (inl refl)
    | inl (valid, same, opened) ↦ elim (read_job-cases job_id d) [
      | inr (e, absent) ↦ rw opened (rw absent (inl refl))
      | inl (job, found) ↦ elim (Result-cases (check_queued_job job job_id d.state)) [
        | inr (e, refused) ↦ rw opened (rw found (rw refused (inl refl)))
        | inl (_, passed) ↦ rw opened (
            rw found (
              rw passed (
                rw (← same) (
                  cancel-Move ulid "job_cancelled" job_id (cancel_job job) job.shot_id command_id
                    now d valid))))
      ]
    ]
  ]

  pub cancel_running-Move :
      Move d.state (left (cancel_running_job_after_interrupt ulid job_id expected command_id now d))
  unfolding cancel_running_job_after_interrupt
  cancel_running-Move = elim (open_state_cases expected d) [
    | inr (e, failed) ↦ rw failed (inl refl)
    | inl (valid, same, opened) ↦ elim (read_job-cases job_id d) [
      | inr (e, absent) ↦ rw opened (rw absent (inl refl))
      | inl (job, found) ↦ elim (Result-cases (check_running_job job job_id d.state)) [
        | inr (e, refused) ↦ rw opened (rw found (rw refused (inl refl)))
        | inl (_, passed) ↦ rw opened (
            rw found (
              rw passed (
                rw (← same) (
                  cancel-Move ulid "running_job_interrupted" job_id (interrupt_job now job)
                    job.shot_id command_id now d valid))))
      ]
    ]
  ]
