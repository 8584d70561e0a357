-- ===== src/Store/Builds/Atomic.antt =====
-- Each operation on builds saves the next revision, or leaves every file as it was.
use spark_stage.Base.{
  ℕ, String, Bool, true, Option, some, ◌≡◌, refl, sym, ap, ◌∙◌, subst, not, ◌||◌, guard, guard_iff,
  Result, ok, err, lookup, ok_or, ok_or-eq_ok, then_iff, >>=-eq-ok, ok_injective, inl, inr, ◌⊎◌,
  ◌>>=◌, if_cases, str_eq,
}
use spark_stage.Domain.Project.{Approval, BuildRecord, FilePath}
use spark_stage.Domain.State.{ProjectState}
use spark_stage.Domain.Validate.Validity.{core, IsCoherent, IsValid}
use spark_stage.Store.Errors.{StoreError}
use spark_stage.Store.Disk.{Disk, Action}
use spark_stage.Store.Save.{save_revision}
use spark_stage.Store.Save.Laws.{Result-cases, open_state_cases}
use spark_stage.Store.Save.Decided.{IsSaved, IsAtomic, IsChange, decide, decide-IsAtomic}
use spark_stage.Store.Save.Revised.{
  save_revision-IsAtomic, revise-IsAtomic, revise_logged-IsAtomic, logged-IsAtomic,
}
use spark_stage.Store.Decisions.Coherence.{retain-IsCoherent}
use spark_stage.Store.Builds.Changes.{
  start_change, owned_build, backfill, is_unowned, run_change, finish_change, check_artifact,
  approved_state, review_subject, review_change, build_missing,
}
use spark_stage.Store.Builds.Operations.{
  start_build, mark_running_found, mark_build_running, finish_build, approve_build_review,
}
use spark_stage.Store.Builds.Steps.{
  start_change-Progress, backfill-Progress, run_change-Progress, finish_change-Progress,
  review_change-Progress,
}

pub start-steady :
    (build : BuildRecord) (command_id : String) (d : Disk) (s t : ProjectState)
    → start_change build command_id s ≡ ok t
    → t.revision ≡ s.revision
start-steady build command_id d s t h = (start_change-Progress build command_id s t h).1

-- Starting a build either saves a valid state of the next revision under the command, or fails and
-- leaves every file as it was.
pub start_build-IsAtomic :
    (build : BuildRecord) (expected : ℕ) (command_id now : String) (d : Disk)
    → IsAtomic d command_id (start_build build expected command_id now d)
unfolding start_build
start_build-IsAtomic build expected command_id now d =
    revise-IsAtomic _ (start-steady build command_id) command_id now expected d

pub finish-steady :
    (ulid id : String) (output_path : Option FilePath) (error : Option String) (stale : Bool)
    (now : String) (d : Disk) (s t : ProjectState)
    → finish_change d.files ulid id output_path error stale now s ≡ ok t
    → t.revision ≡ s.revision
finish-steady ulid id output_path error stale now d s t h =
    (finish_change-Progress d.files ulid id output_path error stale now s t h).1

-- Finishing a build either saves a valid state of the next revision under the command, or fails and
-- leaves every file as it was.
pub finish_build-IsAtomic :
    (ulid event_ulid id : String) (output_path : Option FilePath) (error : Option String)
    (stale : Bool) (expected : ℕ) (command_id now : String) (d : Disk)
    → IsAtomic d command_id
        (finish_build ulid event_ulid id output_path error stale expected command_id now d)
unfolding finish_build
finish_build-IsAtomic ulid event_ulid id output_path error stale expected command_id now d =
    revise_logged-IsAtomic _ (finish-steady ulid id output_path error stale now) event_ulid
      "build_finished" id command_id now expected d

-- A review as one change, and the build that it is about.
abbrev pub review_whole :
    (approval_id : String) → Disk → ProjectState → Result StoreError ProjectState
review_whole approval_id d s =
    review_subject approval_id s >>= λ found. review_change d.files approval_id found s

abbrev subject_text : Result StoreError (Approval × String) → String
subject_text (ok (approval, id)) = id
subject_text (err e) = ""

abbrev pub review_id : String → ProjectState → String
review_id approval_id s = subject_text (review_subject approval_id s)

pub review-IsChange : (approval_id : String) → IsChange (review_whole approval_id)
unfolding review_change approved_state
review-IsChange approval_id = record {
  coherent = λ d s t h e.
      let ((approval, id), _, e₁) = >>=-eq-ok (review_subject approval_id s) _ e in
      let (b, _, e₂) = >>=-eq-ok (ok_or (lookup id s.builds) (build_missing id)) _ e₁ in
      let (_, e₃) = (then_iff (check_artifact d.files id b) _ t).0 e₂ in
      subst (λ w. IsCoherent (core w)) (ok_injective e₃)
        (retain-IsCoherent s (λ a. not (str_eq a.approval_id approval_id)) h);
  steady = λ d s t e.
      let ((approval, id), _, e₁) = >>=-eq-ok (review_subject approval_id s) _ e in
      (review_change-Progress d.files approval_id approval id s t e₁).1;
}

pub review-decides :
    (ulid approval_id : String) (expected : ℕ) (command_id now : String) (d : Disk)
    → approve_build_review ulid approval_id expected command_id now d
      ≡ decide
          (review_whole approval_id)
          (review-IsChange approval_id)
          ulid
          "build_approved"
          (review_id approval_id)
          command_id
          now
          expected
          d
unfolding approve_build_review
review-decides ulid approval_id expected command_id now d = elim (open_state_cases expected d) [
  | inr (e, failed) ↦ rw failed refl
  | inl (_, _, opened) ↦ elim (Result-cases (review_subject approval_id d.state)) [
    | inr (e, refused) ↦ rw opened (rw refused refl)
    | inl (found, there) ↦ rw opened (rw there refl)
  ]
]

-- Approving the review of a build either saves a valid state of the next revision under the command,
-- or fails and leaves every file as it was.
pub approve_build_review-IsAtomic :
    (ulid approval_id : String) (expected : ℕ) (command_id now : String) (d : Disk)
    → IsAtomic d command_id (approve_build_review ulid approval_id expected command_id now d)
approve_build_review-IsAtomic ulid approval_id expected command_id now d =
    subst (IsAtomic d command_id) (sym (review-decides ulid approval_id expected command_id now d))
      (decide-IsAtomic _ (review-IsChange approval_id) ulid "build_approved" (review_id approval_id)
        command_id now expected d)

-- A call answers with the state as it stands, or saves the next revision, or fails and changes nothing.
abbrev pub IsAnswer : Disk → String → Result StoreError ProjectState × Disk → Type 0
IsAnswer d command_id (ok t, d') = ((d' ≡ d) × (t ≡ d.state)) ⊎ IsSaved d command_id t d'
IsAnswer d command_id (err e, d') = d' ≡ d

answers :
    (d : Disk) (command_id : String) (r : Result StoreError ProjectState × Disk)
    → IsAtomic d command_id r
    → IsAnswer d command_id r
answers d command_id (ok t, d') h = inr h
answers d command_id (err e, d') h = h

mark_running_found-IsAnswer :
    (ulid id : String) (b : BuildRecord) (command_id now : String) (d : Disk)
    → lookup id d.state.builds ≡ some b
    → IsValid d.state
    → IsAnswer d command_id (mark_running_found ulid id b d.state d.state.revision command_id now d)
unfolding mark_running_found
mark_running_found-IsAnswer ulid id b command_id now d found valid =
    let answers_with = λ (m : Action ProjectState). IsAnswer d command_id (m d) in
    if_cases answers_with (str_eq b.status "running")
      (λ _.
        if_cases answers_with (is_unowned b)
          (λ _. answers d command_id _ (
            save_revision-IsAtomic (backfill b id command_id d.state) command_id now d valid
              (backfill-Progress id d.state b found command_id).1))
          (λ _. inl (refl, refl)))
      (λ _. elim (Result-cases (run_change b id command_id d.state)) [
        | inr (e, refused) ↦ rw refused refl
        | inl (t, changed) ↦ rw changed (
            answers d command_id _ (
              logged-IsAtomic ulid "build_started" id command_id now
                (save_revision t d.state.revision command_id now) d
                (save_revision-IsAtomic t command_id now d valid
                  (run_change-Progress id d.state b found command_id t changed).1)))
      ])

pub owned_build_inverse :
    (id command_id : String) (s : ProjectState) (b : BuildRecord)
    → owned_build id command_id s ≡ ok b
    → (lookup id s.builds ≡ some b) × ((is_unowned b || str_eq b.command_id command_id) ≡ true)
unfolding owned_build
owned_build_inverse id command_id s b h =
    let (c, there, h₁) = >>=-eq-ok (ok_or (lookup id s.builds) (build_missing id)) _ h in
    let (mine, h₂) = (then_iff (guard _ _) _ b).0 h₁ in
    let same = ok_injective h₂ in
    (
      ok_or-eq_ok (lookup id s.builds) _ there ∙ ap some same,
      subst (λ w. (is_unowned w || str_eq w.command_id command_id) ≡ true) same
          ((guard_iff _ _).0 mine),
    )

-- Marking a build as running either answers with the state as it stands, or saves a valid state of the
-- next revision under the command, or fails and leaves every file as it was.
pub mark_build_running-IsAnswer :
    (ulid id : String) (expected : ℕ) (command_id now : String) (d : Disk)
    → IsAnswer d command_id (mark_build_running ulid id expected command_id now d)
unfolding mark_build_running
mark_build_running-IsAnswer ulid id expected command_id now d = elim (open_state_cases expected d) [
  | inr (e, failed) ↦ rw failed refl
  | inl (valid, same, opened) ↦ elim (Result-cases (owned_build id command_id d.state)) [
    | inr (e, refused) ↦ rw opened (rw refused refl)
    | inl (b, there) ↦ rw opened (
        rw there (
          rw (← same) (
            mark_running_found-IsAnswer ulid id b command_id now d
              (owned_build_inverse id command_id d.state b there).0 valid)))
  ]
]
