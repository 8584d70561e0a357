-- ===== src/Domain/Validate/Revision.antt =====
-- `bump_revision` succeeds on every coherent state below the last revision, and gives a valid one.
use spark_stage.Base.{
  String, true, false, List, ◌≡◌, refl, ◌<◌, ◌+◌, ◌≢◌, arith, any, any_iff, ok, err-ne-ok,
  ok_injective, sym, >>=-eq-ok, Bool-cases, leb, leb_of_le, leb→le, u64_max, checked_add, inl, inr,
}
use spark_stage.Domain.Project.{ProjectOutcome, Approval}
use spark_stage.Domain.State.{ProjectState, derived_outcome, refresh_derived_outcome}
use spark_stage.Domain.Validate.{bump_revision}
use spark_stage.Domain.Validate.Validity.{core, IsCoherent, IsValid, OutcomeFits}
use spark_stage.Domain.Validate.Exact.{validate_iff}

-- The state after a change of the revision.
unfoldable pub bumped : ProjectState → String → ProjectState
unfolding refresh_derived_outcome
bumped s now = refresh_derived_outcome (record s { revision = s.revision + 1; updated_at = now })

module _ (s : ProjectState) (now : String) where
  pub bumped-revision : (bumped s now).revision ≡ s.revision + 1
  unfolding bumped
  bumped-revision = refl

  pub bumped-command : (bumped s now).last_command_id ≡ s.last_command_id
  unfolding bumped
  bumped-command = refl

derived_outcome_blocked :
    (approvals : List Approval) (outcome : ProjectOutcome)
    → any (λ a. a.blocking) approvals ≡ true
    → derived_outcome approvals outcome ≡ ProjectOutcome.needs_review
unfolding derived_outcome
derived_outcome_blocked approvals outcome h = rw h

derived_outcome_open :
    (approvals : List Approval) (outcome : ProjectOutcome)
    → any (λ a. a.blocking) approvals ≡ false
    → derived_outcome approvals outcome ≢ ProjectOutcome.needs_review
unfolding derived_outcome
derived_outcome_open approvals outcome h = ground (arith, h)

-- The derived outcome fits the approvals.
pub derived_outcome-fits :
    (approvals : List Approval) (outcome : ProjectOutcome)
    → OutcomeFits approvals (derived_outcome approvals outcome)
derived_outcome-fits approvals outcome nf nc =
    let blocked = any_iff (λ (a : Approval). a.blocking) approvals in
    elim (Bool-cases (any (λ (a : Approval). a.blocking) approvals)) [
      | inl some_block ↦
          (λ _. derived_outcome_blocked approvals outcome some_block, λ _. blocked.0 some_block)
      | inr none_block ↦
          (λ b. cc (blocked.1 b), λ e. absurd (derived_outcome_open approvals outcome none_block e))
    ]

pub bumped-IsValid :
    (s : ProjectState) (now : String) → IsCoherent (core s) → IsValid (bumped s now)
unfolding bumped
bumped-IsValid s now h = record {
  coherent = h;
  revision = omega arith;
  outcome = derived_outcome-fits s.pending_approvals s.project_outcome;
}

pub bump_revision-ok :
    (s : ProjectState) (now : String)
    → IsCoherent (core s)
    → s.revision < u64_max
    → bump_revision s now ≡ ok (bumped s now)
unfolding bump_revision bumped checked_add
bump_revision-ok s now h room =
    let valid = (validate_iff (bumped s now)).1 (bumped-IsValid s now h) in
    rw (leb_of_le (s.revision + 1) u64_max (omega arith)) (rw valid)

-- Where `bump_revision` succeeds, its result is valid and is the state of the next revision, and
-- the revision was not the last.
pub bump_revision-IsValid :
    (s t : ProjectState) (now : String)
    → bump_revision s now ≡ ok t
    → IsValid t × (t ≡ bumped s now) × (s.revision < u64_max)
unfolding bump_revision bumped checked_add
bump_revision-IsValid s t now h = elim (Bool-cases (leb (s.revision + 1) u64_max)) [
  | inr over ↦ absurd (err-ne-ok (rw (over, bump_revision, checked_add) at h))
  | inl room ↦
      let (_, valid, same) = >>=-eq-ok _ _ (rw (room, bump_revision, checked_add) at h) in
      let e = ok_injective same in
      (
        rw (← e) ((validate_iff (bumped s now)).0 valid),
        sym e,
        omega (arith, leb→le (s.revision + 1) u64_max room),
      )
]
