-- ===== src/Store/Builds/Review.antt =====
-- A finished build waits for one review, and its approval ends it.
use Prim.Native.String.{◌++◌ as str_append}
use spark_stage.Base.{
  ℕ, not, String, Bool, true, Option, none, some, List, [], ◌∷◌, ◌++◌, ◌≡◌, ◌<◌, refl, sym, ap, ◌∙◌,
  subst, lookup, update, Distinct, map, lookup-update, eq_refl, find, find_last, find-narrower,
  last-alone, retain, str_eq, contains, ok, guard, guard_iff, ok_or, ok_or-eq_ok, then_iff,
  >>=-eq-ok, ◌>>◌, ok_injective, arith, u64_max, if◌then◌else◌, Bool-cases, inl, inr,
}
use spark_stage.Domain.Project.{
  ApprovalKind, kind_eq, Approval, BuildRecord, FilePath, ProjectStage,
}
use spark_stage.Domain.State.{ProjectState}
use spark_stage.Domain.Validate.Validity.{IsValid}
use spark_stage.Domain.Validate.Revision.{bumped, bumped-IsValid}
use spark_stage.Store.Disk.{Disk}
use spark_stage.Store.Save.{append_event}
use spark_stage.Store.Save.Decided.{with_command, decide-ok}
use spark_stage.Store.Save.Revised.{revise_logged-inverse}
use spark_stage.Store.Builds.{valid_project_relative_path, build_is_active, is_build_approval}
use spark_stage.Store.Builds.Changes.{
  is_other_review, deliver_build, review_kind, review_approval, deliver_change, finish_change,
  approved_state, approve_build, is_review_of, review_subject, review_change, build_missing,
  no_output, unsafe_output, missing_output,
}
use spark_stage.Store.Builds.Operations.{finish_build, approve_build_review}
use spark_stage.Store.Builds.Lifecycle.{status_of, status-update}
use spark_stage.Store.Builds.Steps.{HasArtifact, check_artifact_iff}
use spark_stage.Store.Builds.Atomic.{
  finish-steady, review_whole, review_id, review-IsChange, review-decides,
}

-- What a build that is delivered comes from.
pub record IsDelivered (files : List FilePath) (ulid id now : String) (s t : ProjectState)
    : Type 0 where
  pub build : BuildRecord
  pub found : lookup id s.builds ≡ some build
  pub active : build_is_active build ≡ true
  pub output : FilePath
  pub safe : valid_project_relative_path output ≡ true
  pub there : contains files output ≡ true
  pub builds : t.builds ≡ update id (deliver_build output) s.builds
  pub approvals :
      t.pending_approvals
      ≡ retain (is_other_review id) s.pending_approvals ++ review_approval ulid id now build ∷ []

finish_change_inverse :
    (files : List FilePath) (ulid id : String) (output_path : Option FilePath) (stale : Bool)
    (now : String) (s t : ProjectState)
    → finish_change files ulid id output_path none stale now s ≡ ok t
    → IsDelivered files ulid id now s t
unfolding finish_change deliver_change
finish_change_inverse files ulid id output_path stale now s t h =
    let (b, there, h₁) = >>=-eq-ok (ok_or (lookup id s.builds) (build_missing id)) _ h in
    let (active, h₂) = (then_iff (guard _ _) _ t).0 h₁ in
    let (output, _, h₃) = >>=-eq-ok (ok_or output_path no_output) _ h₂ in
    let safe = guard (valid_project_relative_path output) (unsafe_output output) in
    let exists = guard (contains files output) (missing_output output) in
    let (both, h₄) = (then_iff (safe >> exists) _ t).0 h₃ in
    let (is_safe, exists_too) = (then_iff safe exists tt).0 both in
    record {
      build = b;
      found = ok_or-eq_ok (lookup id s.builds) _ there;
      active = (guard_iff _ _).0 active;
      output = output;
      safe = (guard_iff _ _).0 is_safe;
      there = (guard_iff _ _).0 exists_too;
      builds = ap (λ w. w.builds) (sym (ok_injective h₄));
      approvals = ap (λ w. w.pending_approvals) (sym (ok_injective h₄));
    }

-- The state of a delivered build, with the approval that asks for its review first of its id.
module _ (files : List FilePath) (ulid id now : String) (s u : ProjectState)
    (h : IsDelivered files ulid id now s u) where
  abbrev pub approval_id : String
  approval_id = str_append "APR-" ulid

  abbrev pub approval : Approval
  approval = review_approval ulid id now h.build

  abbrev pub delivered : BuildRecord
  delivered = deliver_build h.output h.build

  delivered-found : lookup id u.builds ≡ some delivered
  delivered-found =
      subst (λ w. lookup id w ≡ some delivered) (sym h.builds)
        (rw lookup-update (rw (eq_refl id, h.found) refl))

  delivered-HasArtifact : HasArtifact files delivered
  unfolding deliver_build
  delivered-HasArtifact = record {
    status = refl;
    fresh = refl;
    output = h.output;
    made = refl;
    safe = h.safe;
    there = h.there;
  }

  approval-kind : is_build_approval (review_kind h.build) ≡ true
  approval-kind = elim (Bool-cases (str_eq h.build.kind "final")) [
    | inl final ↦ rw final refl
    | inr other ↦ rw other refl
  ]

  approval-review : is_review_of approval_id approval ≡ true
  unfolding is_review_of review_approval
  approval-review = rw (eq_refl approval_id, approval-kind) refl

  approval-pending : IsValid u → find (is_review_of approval_id) u.pending_approvals ≡ some approval
  unfolding is_review_of review_approval
  approval-pending valid =
      let others = retain (is_other_review id) s.pending_approvals in
      let ids = subst (λ w. Distinct (map (λ a. a.approval_id) w)) h.approvals valid.approval_ids in
      subst (λ w. find (is_review_of approval_id) w ≡ some approval) (sym h.approvals)
        (find_last (is_review_of approval_id) approval others approval-review (
          find-narrower _ (λ a. str_eq a.approval_id approval_id) others (λ a e. ground (arith, e))
            (last-alone (λ a. a.approval_id) approval others ids)))

  review_subject-ok : IsValid u → review_subject approval_id u ≡ ok (approval, id)
  unfolding review_subject review_approval
  review_subject-ok valid = rw (approval-pending valid) refl

  review_whole-ok :
      (d : Disk)
      → d.files ≡ files
      → IsValid u
      → review_whole approval_id d u ≡ ok (approved_state approval_id id (review_kind h.build) u)
  unfolding review_change review_approval
  review_whole-ok d same valid =
      let good = subst (λ w. HasArtifact w delivered) (sym same) delivered-HasArtifact in
      rw (review_subject-ok valid)
        (rw delivered-found (rw ((check_artifact_iff d.files id delivered).1 good) refl))

-- The state after an approved review: the build is approved, and a final build completes the project.
pub record IsReviewed (id : String) (build : BuildRecord) (approval_id : String) (t : ProjectState)
    : Type 0 where
  pub valid : IsValid t
  pub status : status_of id t.builds ≡ some "approved"
  pub stage :
      t.project_stage
      ≡ (if str_eq build.kind "final" then ProjectStage.completed else ProjectStage.shooting)
  pub closed : find (is_review_of approval_id) t.pending_approvals ≡ none

dropped-closed :
    (id : String) (approvals : List Approval)
    → find (is_review_of id) (retain (λ a. not (str_eq a.approval_id id)) approvals) ≡ none
unfolding find retain is_review_of
dropped-closed id [] = refl
dropped-closed id (a ∷ rest) = elim (Bool-cases (str_eq a.approval_id id)) [
  | inl same ↦ rw same (dropped-closed id rest)
  | inr other ↦ rw (other, other) (dropped-closed id rest)
]

review-stage :
    (build : BuildRecord) (finished open_again : ProjectStage)
    → (if kind_eq (review_kind build) ApprovalKind.final_visual_review
        then finished
        else open_again)
      ≡ (if str_eq build.kind "final" then finished else open_again)
review-stage build finished open_again = elim (Bool-cases (str_eq build.kind "final")) [
  | inl final ↦ rw final refl
  | inr other ↦ rw other refl
]

-- The review of a delivered build can be approved.
module _ (ulid id now : String) (s : ProjectState) (d : Disk)
    (h : IsDelivered d.files ulid id now s d.state) (valid : IsValid d.state)
    (room : d.state.revision < u64_max) (other_ulid command_id later : String) where
  abbrev name : String
  name = str_append "APR-" ulid

  abbrev reviewed : ProjectState
  reviewed =
      bumped (with_command command_id (approved_state name id (review_kind h.build) d.state)) later

  reviewed-IsReviewed : IsValid reviewed → IsReviewed id h.build name reviewed
  unfolding bumped approved_state approve_build
  reviewed-IsReviewed valid' = record {
    valid = valid';
    status =
        status-update id d.state.builds approve_build (delivered d.files ulid id now s d.state h)
          (delivered-found d.files ulid id now s d.state h);
    stage = review-stage h.build ProjectStage.completed ProjectStage.shooting;
    closed = dropped-closed name d.state.pending_approvals;
  }

  delivered-approves :
      (u : ProjectState) × (d″ : Disk) × (approve_build_review other_ulid name d.state.revision
          command_id later d
        ≡ (ok u, d″))
      × (d″.state ≡ u)
      × IsReviewed id h.build name u
  delivered-approves =
      let change = review-IsChange name in
      let changed = review_whole-ok d.files ulid id now s d.state h d refl valid in
      let coherent = change.coherent d d.state _ valid.coherent changed in
      (
        reviewed,
        _,
        review-decides other_ulid name d.state.revision command_id later d
            ∙ decide-ok (review_whole name) change other_ulid "build_approved" (review_id name)
                command_id later d _ valid room changed,
        refl,
        reviewed-IsReviewed (bumped-IsValid _ later coherent),
      )

-- Where a build was finished without an error, its one review can be approved next, below the
-- last revision: the build is approved then, the approval is gone, and the project is completed
-- if the build is a final one, and back at shooting if not.
pub finish_build-approve_build_review :
    (ulid event_ulid id : String) (output_path : Option FilePath) (stale : Bool) (expected : ℕ)
    (command_id now : String) (d d' : Disk) (t : ProjectState)
    → finish_build ulid event_ulid id output_path none stale expected command_id now d ≡ (ok t, d')
    → d'.state.revision < u64_max
    → (other_ulid other_command later : String)
    → let approval_id = str_append "APR-" ulid in
      (build : BuildRecord) × (lookup id d.state.builds ≡ some build)
      × ((u : ProjectState) × (d″ : Disk) × (approve_build_review other_ulid approval_id
              d'.state.revision other_command later d'
            ≡ (ok u, d″))
          × (d″.state ≡ u)
          × IsReviewed id build approval_id u)
unfolding finish_build append_event bumped
finish_build-approve_build_review ulid event_ulid id output_path stale expected command_id now d d'
      t h room other_ulid other_command later =
    let (u, changed, _, e, valid, left) =
      revise_logged-inverse _ (finish-steady ulid id output_path none stale now) event_ulid
        "build_finished" id command_id now expected d d' t h in
    let state : d'.state ≡ t = ap (λ w. w.state) left in
    let files : d'.files ≡ d.files = ap (λ w. w.files) left in
    let delivered_u =
      finish_change_inverse d.files ulid id output_path stale now d.state u changed in
    let delivered_t : IsDelivered d.files ulid id now d.state
        (bumped (with_command command_id u) now) =
      record {
        build = delivered_u.build;
        found = delivered_u.found;
        active = delivered_u.active;
        output = delivered_u.output;
        safe = delivered_u.safe;
        there = delivered_u.there;
        builds = delivered_u.builds;
        approvals = delivered_u.approvals;
      } in
    let ready =
      subst (λ w. IsDelivered w ulid id now d.state d'.state) (sym files)
        (subst (IsDelivered d.files ulid id now d.state) (sym (state ∙ e)) delivered_t) in
    (
      ready.build,
      ready.found,
      delivered-approves ulid id now d.state d' ready (subst IsValid (sym state) valid) room
          other_ulid other_command later,
    )
