-- ===== src/Store/Jobs/Queue.antt =====
-- A job that was enqueued can be read back, keeps its shot, and can be cancelled while it is queued.
use spark_stage.Base.{
  ℕ, String, true, Option, none, some, Map, ◌≡◌, ◌<◌, ◌+◌, refl, sym, ap, ◌∙◌, arith, subst,
  u64_max, lookup, insert, lookup-insert, lookup-update, eq_refl, ok, err, err-ne-ok, Bool-cases,
  inl, inr, ◌⊎◌,
}
use spark_stage.Domain.Project.{JobState, JobJournal, ShotRuntimeState}
use spark_stage.Domain.State.{ProjectState}
use spark_stage.Domain.Validate.{bump_revision}
use spark_stage.Domain.Validate.Validity.{IsValid}
use spark_stage.Domain.Validate.Revision.{bumped, bump_revision-ok, bumped-IsValid, bumped-revision}
use spark_stage.Store.Errors.{StoreError}
use spark_stage.Store.Disk.{Disk}
use spark_stage.Store.Support.{is_job_id, is_queued, validate_job_id}
use spark_stage.Store.Save.{append_event}
use spark_stage.Store.Save.Laws.{Result-cases, save_state_lem, open_state_cases, open_state-ok}
use spark_stage.Store.Save.Decided.{IsAtomic, with_command}
use spark_stage.Store.Save.Revised.{recovered, save_revision_lem}
use spark_stage.Store.Jobs.Changes.{
  queue_shot, queued_state, no_target, enqueue_change, idle_stage, release_shot, released_state,
  check_queued_job, check_active_job, cancel_job,
}
use spark_stage.Store.Jobs.Idle.{IsStageOf, idle_stage-IsStageOf}
use spark_stage.Store.Jobs.Operations.{
  read_job, write_job, save_job, save_or_remove, save_enqueued, is_zero,
  enqueue_job_with_audition_target, cancel_queued_job,
}
use spark_stage.Store.Jobs.Sound.{
  queued-IsCoherent, released-IsCoherent, IsQueueable, enqueue_change_inverse,
}

-- The state and the disk after a job was enqueued.
abbrev pub enqueued :
    JobJournal → Option ℕ → (command_id now : String) → ProjectState → ProjectState
enqueued job target command_id now s =
    bumped (with_command command_id (queued_state job target s)) now

abbrev pub enqueued_disk : JobJournal → Option ℕ → (command_id now : String) → Disk → Disk
enqueued_disk job target command_id now d = record d {
  state = enqueued job target command_id now d.state;
  jobs = insert job.job_id job d.jobs;
  decisions = recovered d;
}

module _ (job : JobJournal) (target : Option ℕ) (command_id now : String) where
  pub save_enqueued_lem :
      (d : Disk)
      → IsValid d.state
      → d.state.revision < u64_max
      → save_enqueued job (queued_state job target d.state) d.state.revision command_id now d ≡ (
        ok (enqueued job target command_id now d.state),
        enqueued_disk job target command_id now d,
      )
  unfolding save_enqueued write_job save_or_remove
  save_enqueued_lem d valid room =
      let u = with_command command_id (queued_state job target d.state) in
      let coherent = queued-IsCoherent job target d.state valid.coherent in
      let done : bump_revision u now ≡ ok (bumped u now) = bump_revision-ok u now coherent room in
      let d₁ = record d { jobs = insert job.job_id job d.jobs } in
      let saved =
        save_state_lem (bumped u now) d₁ valid (bumped-IsValid u now coherent) room
          (bumped-revision u now) in
      rw done (rw saved refl)

  -- Below the last revision a job is enqueued as a whole, or nothing is written.
  enqueue-cases :
      (expected : ℕ) (d : Disk)
      → d.state.revision < u64_max
      → ((IsValid d.state × IsQueueable d.jobs job d.state)
          × (enqueue_job_with_audition_target job expected command_id now target d ≡ (
            ok (enqueued job target command_id now d.state),
            enqueued_disk job target command_id now d,
          )))
        ⊎ ((e : StoreError) × (enqueue_job_with_audition_target job expected command_id now target d
              ≡ (err e, d)))
  unfolding enqueue_job_with_audition_target
  enqueue-cases expected d room = elim (Bool-cases (is_zero target)) [
    | inl zero ↦ inr (no_target, rw zero refl)
    | inr some_takes ↦ elim (open_state_cases expected d) [
      | inr (e, failed) ↦ inr (e, rw (some_takes, failed) refl)
      | inl (valid, same, opened) ↦
          elim (Result-cases (enqueue_change d.bundles d.jobs job command_id target d.state)) [
            | inr (e, refused) ↦ inr (e, rw some_takes (rw opened (rw refused refl)))
            | inl (t, changed) ↦
                let (queueable, e) =
                  enqueue_change_inverse d.bundles d.jobs job command_id target d.state t changed in
                inl (
                  (valid, queueable),
                  rw some_takes
                      (rw opened (rw changed (rw (e, ← same) (save_enqueued_lem d valid room)))),
                )
          ]
    ]
  ]

  -- Below the last revision, enqueueing a job either saves a valid state of the next revision
  -- under the command, or fails and leaves every file as it was, the jobs too.
  pub enqueue_job-IsAtomic :
      (expected : ℕ) (d : Disk)
      → d.state.revision < u64_max
      → IsAtomic d command_id
          (enqueue_job_with_audition_target job expected command_id now target d)
  unfolding bumped
  enqueue_job-IsAtomic expected d room = elim (enqueue-cases expected d room) [
    | inr (e, failed) ↦ rw failed refl
    | inl ((valid, _), done) ↦ rw done record {
      state = refl;
      valid =
          bumped-IsValid (with_command command_id (queued_state job target d.state)) now
            (queued-IsCoherent job target d.state valid.coherent);
      revision = refl;
      command = refl;
      recipes = refl;
    }
  ]

  -- What a job that was enqueued leaves.
  enqueue-inverse :
      (expected : ℕ) (d d' : Disk) (t : ProjectState)
      → d.state.revision < u64_max
      → enqueue_job_with_audition_target job expected command_id now target d ≡ (ok t, d')
      → IsValid d.state
        × IsQueueable d.jobs job d.state
        × (d' ≡ enqueued_disk job target command_id now d)
  enqueue-inverse expected d d' t room h = elim (enqueue-cases expected d room) [
    | inr (e, failed) ↦ absurd (err-ne-ok (ap (λ p. p.0) (sym failed ∙ h)))
    | inl ((valid, queueable), done) ↦ (valid, queueable, ap (λ p. p.1) (sym h ∙ done))
  ]

  -- A job that was enqueued below the last revision is read back as it was given.
  pub enqueue_job-read_job :
      (expected : ℕ) (d d' : Disk) (t : ProjectState)
      → d.state.revision < u64_max
      → enqueue_job_with_audition_target job expected command_id now target d ≡ (ok t, d')
      → read_job job.job_id d' ≡ (ok job, d')
  unfolding read_job validate_job_id
  enqueue_job-read_job expected d d' t room h =
      let (_, q, e) = enqueue-inverse expected d d' t room h in
      subst (λ w. read_job job.job_id w ≡ (ok job, w)) (sym e)
        (rw q.id (rw lookup-insert (rw (eq_refl job.job_id) refl)))

  enqueued-found :
      (s : ProjectState) (jobs : Map JobJournal) (q : IsQueueable jobs job s)
      → lookup job.shot_id (enqueued job target command_id now s).shots
        ≡ some (queue_shot job.job_id target q.shot)
  unfolding bumped
  enqueued-found s jobs q = rw lookup-update (rw (eq_refl job.shot_id, q.found) refl)

-- A shot whose job was enqueued, two revisions below the last at least, takes no other job:
-- enqueueing one for it, at any expected revision, fails and changes nothing.
pub enqueue_job-exclusive :
    (job other : JobJournal) (target more : Option ℕ) (command_id now other_command later : String)
    (expected : ℕ) (d d' : Disk) (t : ProjectState)
    → d.state.revision + 1 < u64_max
    → enqueue_job_with_audition_target job expected command_id now target d ≡ (ok t, d')
    → other.shot_id ≡ job.shot_id
    → (again : ℕ)
    → (e : StoreError) × (enqueue_job_with_audition_target other again other_command later more d'
        ≡ (err e, d'))
unfolding bumped queue_shot
enqueue_job-exclusive job other target more command_id now other_command later expected d d' t room
      h same again =
    let (_, q, e) =
      enqueue-inverse job target command_id now expected d d' t (omega (arith, room)) h in
    let next : d'.state.revision ≡ d.state.revision + 1 = ap (λ w. w.state.revision) e in
    elim (enqueue-cases other more other_command later again d' (omega (arith, room, next))) [
      | inr failed ↦ failed
      | inl ((_, q'), _) ↦
          let there : lookup other.shot_id d'.state.shots
              ≡ some (queue_shot job.job_id target q.shot) =
            ap (λ w. lookup w d'.state.shots) same
            ∙ ap (λ w. lookup job.shot_id w.state.shots) e
            ∙ enqueued-found job target command_id now d.state d.jobs q in
          absurd (cc (there, q'.found, q'.idle))
    ]

-- The disk after a queued job was cancelled.
abbrev pub cancelled_state : JobJournal → (command_id now : String) → ProjectState → ProjectState
cancelled_state job command_id now s =
    bumped (with_command command_id (released_state job.shot_id s)) now

abbrev pub cancelled_disk : (ulid : String) → JobJournal → (command_id now : String) → Disk → Disk
cancelled_disk ulid job command_id now d =
    (append_event ulid "job_cancelled" job.job_id command_id now (record d {
      state = cancelled_state job command_id now d.state;
      jobs = insert job.job_id (cancel_job job) d.jobs;
      decisions = recovered d;
    })).1

-- A job that is queued, is on disk under its id, and is the one that its shot runs.
pub record IsCancellable (job : JobJournal) (d : Disk) : Type 0 where
  pub id : is_job_id job.job_id ≡ true
  pub found : lookup job.job_id d.jobs ≡ some job
  pub queued : is_queued job.state ≡ true
  pub shot : ShotRuntimeState
  pub runs : lookup job.shot_id d.state.shots ≡ some shot
  pub active : shot.active_job_id ≡ some job.job_id

module _ (ulid : String) (job : JobJournal) (command_id now : String) where
  cancel_queued_job-ok :
      (d : Disk)
      → IsValid d.state
      → d.state.revision < u64_max
      → IsCancellable job d
      → cancel_queued_job ulid job.job_id d.state.revision command_id now d ≡ (
        ok (cancelled_state job command_id now d.state),
        cancelled_disk ulid job command_id now d,
      )
  unfolding cancel_queued_job read_job validate_job_id check_queued_job check_active_job save_job
      write_job cancel_job
  cancel_queued_job-ok d valid room c =
      let u = with_command command_id (released_state job.shot_id d.state) in
      let coherent = released-IsCoherent job.shot_id d.state valid.coherent in
      let d₁ = record d { jobs = insert job.job_id (cancel_job job) d.jobs } in
      let saved =
        save_revision_lem (released_state job.shot_id d.state) (bumped u now) command_id now d₁
          valid refl (bump_revision-ok u now coherent room) in
      rw (open_state-ok d valid) (
        rw (c.id, c.found)
          (rw (c.queued)
            (rw (c.runs) (rw (c.active, eq_refl job.job_id) (rw c.id (rw saved refl))))))

  cancelled-found :
      (s : ProjectState) (shot : ShotRuntimeState)
      → lookup job.shot_id s.shots ≡ some shot
      → lookup job.shot_id (cancelled_state job command_id now s).shots ≡ some (release_shot shot)
  unfolding bumped
  cancelled-found s shot found = rw lookup-update (rw (eq_refl job.shot_id, found) refl)

-- The shot before the job and the disk after it was cancelled: the job file says so, and the shot runs
-- no job and is in the stage that its takes ask for.
pub record IsCancelled (job : JobJournal) (before : ShotRuntimeState) (d : Disk) : Type 0 where
  pub job_file : read_job job.job_id d ≡ (ok (record job { state = JobState.cancelled }), d)
  pub shot : ShotRuntimeState
  pub found : lookup job.shot_id d.state.shots ≡ some shot
  pub free : shot.active_job_id ≡ none
  pub stage : IsStageOf before shot.stage
  pub takes : shot.take_ids ≡ before.take_ids

cancelled_disk-IsCancelled :
    (ulid : String) (job : JobJournal) (command_id now : String) (target : Option ℕ) (d : Disk)
    (before : ShotRuntimeState)
    → is_job_id job.job_id ≡ true
    → lookup job.shot_id d.state.shots ≡ some (queue_shot job.job_id target before)
    → IsCancelled job before (cancelled_disk ulid job command_id now d)
unfolding read_job validate_job_id append_event release_shot queue_shot idle_stage cancel_job
cancelled_disk-IsCancelled ulid job command_id now target d before id found = record {
  job_file = rw id (rw lookup-insert (rw (eq_refl job.job_id) refl));
  shot = release_shot (queue_shot job.job_id target before);
  found =
      cancelled-found ulid job command_id now d.state (queue_shot job.job_id target before) found;
  free = refl;
  stage = idle_stage-IsStageOf before;
  takes = refl;
}

-- A job that was enqueued, two revisions below the last at least, can be cancelled next: the job
-- is read back as cancelled, and its shot runs no job, keeps its takes and is selected if a take
-- of it is selected, has candidates if none is and a listed take was not rejected, and is pending
-- otherwise.
pub enqueue_job-cancel_queued_job :
    (job : JobJournal) (target : Option ℕ) (command_id now : String) (expected : ℕ) (d d' : Disk)
    (t : ProjectState)
    → d.state.revision + 1 < u64_max
    → enqueue_job_with_audition_target job expected command_id now target d ≡ (ok t, d')
    → (ulid other_command later : String)
    → (before : ShotRuntimeState) × (lookup job.shot_id d.state.shots ≡ some before)
      × (u : ProjectState) × (d″ : Disk) × (cancel_queued_job ulid job.job_id d'.state.revision
            other_command later d'
          ≡ (ok u, d″))
      × IsCancelled job before d″
unfolding bumped queue_shot
enqueue_job-cancel_queued_job job target command_id now expected d d' t room h ulid other_command
      later =
    let (valid, q, e) =
      enqueue-inverse job target command_id now expected d d' t (omega (arith, room)) h in
    let next : d'.state.revision ≡ d.state.revision + 1 = ap (λ w. w.state.revision) e in
    let coherent = queued-IsCoherent job target d.state valid.coherent in
    let valid' : IsValid d'.state =
      subst (λ w. IsValid w.state) (sym e)
        (bumped-IsValid (with_command command_id (queued_state job target d.state)) now coherent) in
    let runs : lookup job.shot_id d'.state.shots ≡ some (queue_shot job.job_id target q.shot) =
      ap (λ w. lookup job.shot_id w.state.shots) e
      ∙ enqueued-found job target command_id now d.state d.jobs q in
    let written : lookup job.job_id d'.jobs ≡ some job =
      ap (λ w. lookup job.job_id w.jobs) e ∙ rw lookup-insert (rw (eq_refl job.job_id) refl) in
    let cancellable : IsCancellable job d' = record {
      id = q.id;
      found = written;
      queued = q.state;
      shot = queue_shot job.job_id target q.shot;
      runs = runs;
      active = refl;
    } in
    (
      q.shot,
      q.found,
      cancelled_state job other_command later d'.state,
      cancelled_disk ulid job other_command later d',
      cancel_queued_job-ok ulid job other_command later d' valid' (omega (arith, room, next))
          cancellable,
      cancelled_disk-IsCancelled ulid job other_command later target d' q.shot q.id runs,
    )
