-- ===== src/Store/Builds/Steps.antt =====
-- Each operation on builds takes one step of the life of a build.
use spark_stage.Base.{
  String, Bool, true, false, Option, none, some, List, [], ◌∷◌, Map, ◌≡◌, ◌↔◌, refl, ap, ◌∙◌, arith,
  lookup, lookup-update, lookup-contains_key, update, contains, find, values, str_eq, eq_iff,
  eq_refl, Bool-cases, Option-cases, inl, inr, not, not-eq_true, subst, ok, guard, guard_iff, ok_or,
  ok_or-eq_ok, then_iff, >>=-eq-ok, ◌>>◌, ok_injective,
}
use spark_stage.Domain.Project.{Approval, BuildRecord, FilePath}
use spark_stage.Domain.State.{ProjectState}
use spark_stage.Store.Builds.{
  valid_project_relative_path, build_is_active, set_stale, mark_builds, mark_build_ids_stale,
}
use spark_stage.Store.Builds.Changes.{
  ensure_no_job, ensure_no_build, is_new_build, start_change, is_unowned, own_build, run_build,
  backfill, finish_with, run_change, fail_build, deliver_build, deliver_change, finish_change,
  approve_build, check_artifact, approved_state, review_change, build_missing, no_output,
  unsafe_output, missing_output, not_awaiting, build_stale, no_artifact,
}
use spark_stage.Store.Builds.Lifecycle.{
  status_of, is_active, BuildStep, rest, queue, run, deliver, fail, approve, status-update,
  update-Others, status-insert, insert-Others, none-active,
}

-- A change that leaves the status of a build as it was.
status-kept :
    (id : String) (f : BuildRecord → BuildRecord)
    → ((b : BuildRecord) → (f b).status ≡ b.status)
    → (builds : Map BuildRecord) (j : String)
    → status_of j (update id f builds) ≡ status_of j builds
unfolding lookup update
status-kept id f keeps [] j = refl
status-kept id f keeps ((k, b) ∷ later) j =
    ground (arith, eq_iff j k, eq_iff id k, keeps b, status-kept id f keeps later j)

-- Marking builds as stale leaves every status as it was.
pub mark_builds-status :
    (ids : List String) (builds : Map BuildRecord) (j : String)
    → status_of j (mark_builds ids builds) ≡ status_of j builds
unfolding mark_builds
mark_builds-status [] builds j = refl
mark_builds-status (id ∷ ids) builds j =
    mark_builds-status ids (update id set_stale builds) j
    ∙ status-kept id set_stale (λ _. refl) builds j

pub mark_build_ids_stale-BuildStep :
    (ids : List String) (s : ProjectState) → BuildStep s.builds (mark_build_ids_stale ids s).builds
unfolding mark_build_ids_stale
mark_build_ids_stale-BuildStep ids s = rest (mark_builds-status ids s.builds)

-- A change that takes a step and keeps the revision.
abbrev pub Progress : ProjectState → ProjectState → Type 0
Progress s t = BuildStep s.builds t.builds × (t.revision ≡ s.revision)

build_is_free_inverse :
    (s : ProjectState) → ensure_no_build s ≡ ok tt → find build_is_active (values s.builds) ≡ none
unfolding ensure_no_build
build_is_free_inverse s h = elim (Option-cases (find build_is_active (values s.builds))) [
  | inl absent ↦ absent
  | inr (b, there) ↦ absurd (cc (rw (there, ensure_no_build) at h))
]

new_build-queued :
    (build : BuildRecord) (command_id : String)
    → is_new_build build command_id ≡ true
    → build.status ≡ "queued"
new_build-queued build command_id h = elim (Bool-cases (str_eq build.status "queued")) [
  | inl same ↦ (eq_iff build.status "queued").0 same
  | inr other ↦ absurd (cc (rw (other, is_new_build) at h))
]

pub start_change-Progress :
    (build : BuildRecord) (command_id : String) (s t : ProjectState)
    → start_change build command_id s ≡ ok t
    → Progress s t
unfolding start_change
start_change-Progress build command_id s t h =
    let (_, h₁) = (then_iff (ensure_no_job s) _ t).0 h in
    let (fresh, h₂) = (then_iff (guard _ _) _ t).0 h₁ in
    let (idle, h₃) = (then_iff (ensure_no_build s) _ t).0 h₂ in
    let (new, h₄) = (then_iff (guard _ _) _ t).0 h₃ in
    let queued = new_build-queued build command_id ((guard_iff _ _).0 new) in
    let absent =
      lookup-contains_key build.build_id s.builds (not-eq_true _ ((guard_iff _ _).0 fresh)) in
    subst (Progress s) (ok_injective h₄) (
      queue build.build_id (rw absent refl) (none-active s.builds (build_is_free_inverse s idle))
          (status-insert build.build_id s.builds build ∙ ap some queued)
          (insert-Others build.build_id s.builds build),
      refl,
    )

module _ (id : String) (s : ProjectState) (b : BuildRecord)
    (found : lookup id s.builds ≡ some b) where
  found-status :
      (status : String) → str_eq b.status status ≡ true → status_of id s.builds ≡ some status
  found-status status h = rw found (ap some ((eq_iff b.status status).0 h))

  pub found-active : build_is_active b ≡ true → is_active (status_of id s.builds) ≡ true
  unfolding build_is_active
  found-active h = rw found h

  backfill-steady : (command_id : String) → (backfill b id command_id s).revision ≡ s.revision
  unfolding backfill
  backfill-steady command_id = ground arith

  backfilled-found :
      (command_id : String)
      → (c : BuildRecord) × (lookup id (backfill b id command_id s).builds ≡ some c)
  unfolding backfill
  backfilled-found command_id = elim (Bool-cases (is_unowned b)) [
    | inl free ↦ (own_build command_id b, rw free (rw lookup-update (rw (eq_refl id, found) refl)))
    | inr owned ↦ (b, rw owned found)
  ]

  backfilled-kept :
      (command_id j : String)
      → status_of j (backfill b id command_id s).builds ≡ status_of j s.builds
  unfolding backfill own_build
  backfilled-kept command_id j = elim (Bool-cases (is_unowned b)) [
    | inl free ↦ rw free (status-kept id (own_build command_id) (λ _. refl) s.builds j)
    | inr owned ↦ rw owned refl
  ]

  pub backfill-Progress : (command_id : String) → Progress s (backfill b id command_id s)
  backfill-Progress command_id = (rest (backfilled-kept command_id), backfill-steady command_id)

  pub run_change-Progress :
      (command_id : String) (t : ProjectState) → run_change b id command_id s ≡ ok t → Progress s t
  unfolding run_change run_build
  run_change-Progress command_id t h =
      let u = backfill b id command_id s in
      let (queued, h₁) = (then_iff (guard _ _) _ t).0 h in
      let (c, there) = backfilled-found command_id in
      subst (Progress s) (ok_injective h₁) (
        run id (found-status "queued" ((guard_iff _ _).0 queued))
            (status-update id u.builds run_build c there)
            (λ j other. update-Others id u.builds run_build j other ∙ backfilled-kept command_id j),
        backfill-steady command_id,
      )

  deliver_change-Progress :
      (files : List FilePath) (ulid now : String) (output_path : Option FilePath) (t : ProjectState)
      → build_is_active b ≡ true
      → deliver_change files ulid id now b output_path s ≡ ok t
      → Progress s t
  unfolding deliver_change deliver_build
  deliver_change-Progress files ulid now output_path t active h =
      let (output, _, h₁) = >>=-eq-ok (ok_or output_path no_output) _ h in
      let safe = guard (valid_project_relative_path output) (unsafe_output output) in
      let there = guard (contains files output) (missing_output output) in
      let (_, h₃) = (then_iff (safe >> there) _ t).0 h₁ in
      subst (Progress s) (ok_injective h₃) (
        deliver id (found-active active) (status-update id s.builds (deliver_build output) b found)
            (update-Others id s.builds (deliver_build output)),
        refl,
      )

  finish_with-Progress :
      (files : List FilePath) (ulid now : String) (output_path : Option FilePath)
      (error : Option String) (stale : Bool) (t : ProjectState)
      → build_is_active b ≡ true
      → finish_with error id stale s (deliver_change files ulid id now b output_path s) ≡ ok t
      → Progress s t
  unfolding fail_build
  finish_with-Progress files ulid now output_path none stale t active h =
      deliver_change-Progress files ulid now output_path t active h
  finish_with-Progress files ulid now output_path (some message) stale t active h =
      subst (Progress s) (ok_injective h) (
        fail id (found-active active) (status-update id s.builds (fail_build message stale) b found)
            (update-Others id s.builds (fail_build message stale)),
        refl,
      )

pub finish_change-Progress :
    (files : List FilePath) (ulid id : String) (output_path : Option FilePath)
    (error : Option String) (stale : Bool) (now : String) (s t : ProjectState)
    → finish_change files ulid id output_path error stale now s ≡ ok t
    → Progress s t
unfolding finish_change
finish_change-Progress files ulid id output_path error stale now s t h =
    let (b, there, h₁) = >>=-eq-ok (ok_or (lookup id s.builds) (build_missing id)) _ h in
    let found = ok_or-eq_ok (lookup id s.builds) _ there in
    let (active, h₂) = (then_iff (guard _ _) _ t).0 h₁ in
    finish_with-Progress id s b found files ulid now output_path error stale t
      ((guard_iff _ _).0 active) h₂

-- What the check of an artifact tells of the build.
pub record HasArtifact (files : List FilePath) (b : BuildRecord) : Type 0 where
  pub status : b.status ≡ "needs_review"
  pub fresh : b.stale ≡ false
  pub output : FilePath
  pub made : b.output_path ≡ some output
  pub safe : valid_project_relative_path output ≡ true
  pub there : contains files output ≡ true

pub check_artifact_iff :
    (files : List FilePath) (id : String) (b : BuildRecord)
    → (check_artifact files id b ≡ ok tt) ↔ HasArtifact files b
unfolding check_artifact
check_artifact_iff files id b = (
  λ h.
      let awaiting = guard (str_eq b.status "needs_review") (not_awaiting id) in
      let (status, h₁) = (then_iff awaiting _ tt).0 h in
      let (fresh, h₂) = (then_iff (guard (not b.stale) (build_stale id)) _ tt).0 h₁ in
      let (output, made, h₃) = >>=-eq-ok (ok_or b.output_path (no_artifact id)) _ h₂ in
      let both = (guard_iff _ _).0 h₃ in
      record {
        status = (eq_iff b.status "needs_review").0 ((guard_iff _ _).0 status);
        fresh = not-eq_true _ ((guard_iff _ _).0 fresh);
        output = output;
        made = ok_or-eq_ok b.output_path _ made;
        safe = ground (arith, both);
        there = ground (arith, both);
      },
  λ h. rw (h.status, h.fresh, h.made, h.safe, h.there) refl,
)

pub review_change-Progress :
    (files : List FilePath) (approval_id : String) (approval : Approval) (id : String)
    (s t : ProjectState)
    → review_change files approval_id (approval, id) s ≡ ok t
    → Progress s t
unfolding review_change approved_state approve_build
review_change-Progress files approval_id approval id s t h =
    let (b, there, h₁) = >>=-eq-ok (ok_or (lookup id s.builds) (build_missing id)) _ h in
    let found = ok_or-eq_ok (lookup id s.builds) _ there in
    let (good, h₂) = (then_iff (check_artifact files id b) _ t).0 h₁ in
    let status = ((check_artifact_iff files id b).0 good).status in
    subst (Progress s) (ok_injective h₂) (
      approve id (rw found (ap some status)) (status-update id s.builds approve_build b found)
          (update-Others id s.builds approve_build),
      refl,
    )
