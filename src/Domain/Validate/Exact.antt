-- ===== src/Domain/Validate/Exact.antt =====
-- `ProjectState::validate` decides well-formedness, and `bump_revision` gives well-formed states.
use spark_stage.Base.{
  ℕ, true, [], ◌≡◌, ◌<◌, ◌↔◌, not, arith, eq_iff, All_of_In, All-map, ok, ◌==◌, ◌>>◌, All, for_each,
  then_iff, guard_iff, for_each_iff,
}
use spark_stage.Domain.Errors.{
  unsupported_schema, zero_revision, missing_active_contract, outcome_approval_mismatch,
}
use spark_stage.Domain.State.{ProjectState}
use spark_stage.Domain.Validate.{
  Check, check_reference, check_shot, check_candidate_approval, validate,
}
use spark_stage.Domain.Validate.Validity.{IsReference, IsShot, OffersCandidates, IsValid}
use spark_stage.Domain.Validate.Parts.{
  validate_contract_iff, active_missing_iff, outcome_mismatch_iff, check_approval_ids_iff,
  check_budget_approval_iff, check_take_iff, check_reference_iff,
}
use spark_stage.Domain.Validate.Shots.{check_shot_iff, check_candidate_approval_iff}

-- Two checks in a row pass when both do.
both : {m k : Check} → m ≡ ok tt → k ≡ ok tt → (m >> k) ≡ ok tt
both {m} {k} p q = (then_iff m k tt).1 (p, q)

positive_iff : (n : ℕ) → (not (n == 0) ≡ true) ↔ (0 < n)
positive_iff n = (λ h. ground arith, λ h. ground arith)

module _ (s : ProjectState) where
  references_iff : (for_each check_reference s.references ≡ ok tt) ↔ All IsReference s.references
  references_iff =
      let each = for_each_iff check_reference s.references in
      (
        λ h. All-map _ _ s.references (λ e. (check_reference_iff e).0) (each.0 h),
        λ h. each.1 (All-map _ _ s.references (λ e. (check_reference_iff e).1) h),
      )

  shots_iff : (for_each (check_shot s.takes) s.shots ≡ ok tt) ↔ All (IsShot s.takes) s.shots
  shots_iff =
      let each = for_each_iff (check_shot s.takes) s.shots in
      (
        λ h. All-map _ _ s.shots (λ e. (check_shot_iff s.takes e).0) (each.0 h),
        λ h. each.1 (All-map _ _ s.shots (λ e. (check_shot_iff s.takes e).1) h),
      )

  candidates_iff :
      (for_each (check_candidate_approval s.shots s.takes) s.pending_approvals ≡ ok tt)
      ↔ All (OffersCandidates s.shots s.takes) s.pending_approvals
  candidates_iff =
      let each = for_each_iff (check_candidate_approval s.shots s.takes) s.pending_approvals in
      let one = check_candidate_approval_iff s.shots s.takes in
      (
        λ h. All-map _ _ s.pending_approvals (λ a. (one a).0) (each.0 h),
        λ h. each.1 (All-map _ _ s.pending_approvals (λ a. (one a).1) h),
      )

  validate-IsValid : validate s ≡ ok tt → IsValid s
  unfolding validate
  validate-IsValid h₁₁ =
      let (h₁₀, c₁₁) = (then_iff _ _ tt).0 h₁₁ in
      let (h₉, c₁₀) = (then_iff _ _ tt).0 h₁₀ in
      let (h₈, c₉) = (then_iff _ _ tt).0 h₉ in
      let (h₇, c₈) = (then_iff _ _ tt).0 h₈ in
      let (h₆, c₇) = (then_iff _ _ tt).0 h₇ in
      let (h₅, c₆) = (then_iff _ _ tt).0 h₆ in
      let (h₄, c₅) = (then_iff _ _ tt).0 h₅ in
      let (h₃, c₄) = (then_iff _ _ tt).0 h₄ in
      let (h₂, c₃) = (then_iff _ _ tt).0 h₃ in
      let (c₁, c₂) = (then_iff _ _ tt).0 h₂ in
      record {
        revision = (positive_iff s.revision).0 ((guard_iff _ _).0 c₂);
        outcome =
            (outcome_mismatch_iff s.pending_approvals s.project_outcome).0 ((guard_iff _ _).0 c₅);
        coherent = record {
          schema = (eq_iff _ _).0 ((guard_iff _ _).0 c₁);
          contract = (validate_contract_iff s.budget.contract).0 c₃;
          active = (active_missing_iff s.active_contract_id s.contracts).0 ((guard_iff _ _).0 c₄);
          approval_ids = ((check_approval_ids_iff [] s.pending_approvals).0 c₆).0;
          overruns = (check_budget_approval_iff s.budget.overruns s.pending_approvals).0 c₇;
          takes = (check_take_iff s.takes).0 c₈;
          references = references_iff.0 c₉;
          shots = shots_iff.0 c₁₀;
          candidates = candidates_iff.0 c₁₁;
        };
      }

  IsValid-validate : IsValid s → validate s ≡ ok tt
  unfolding validate
  IsValid-validate v =
      let c₁ = (guard_iff _ (unsupported_schema s.schema_version)).1 ((eq_iff _ _).1 v.schema) in
      let c₂ = (guard_iff _ zero_revision).1 ((positive_iff s.revision).1 v.revision) in
      let c₃ = (validate_contract_iff s.budget.contract).1 v.contract in
      let c₄ =
        (guard_iff _ missing_active_contract).1
          ((active_missing_iff s.active_contract_id s.contracts).1 v.active) in
      let c₅ =
        (guard_iff _ outcome_approval_mismatch).1
          ((outcome_mismatch_iff s.pending_approvals s.project_outcome).1 v.outcome) in
      let c₆ =
        (check_approval_ids_iff [] s.pending_approvals).1
          (v.approval_ids, All_of_In _ _ (λ _ _ i. i)) in
      let c₇ = (check_budget_approval_iff s.budget.overruns s.pending_approvals).1 v.overruns in
      both
        (both
          (both
            (both (both (both (both (both (both (both c₁ c₂) c₃) c₄) c₅) c₆) c₇)
              ((check_take_iff s.takes).1 v.takes))
            (references_iff.1 v.references))
          (shots_iff.1 v.shots))
        (candidates_iff.1 v.candidates)

-- `validate` accepts a project state exactly when it is well formed: the schema, the revision,
-- the contract, the approvals, the takes, the references and the shots, and what each of them
-- says of the others.
pub validate_iff : (s : ProjectState) → (validate s ≡ ok tt) ↔ IsValid s
validate_iff s = (validate-IsValid s, IsValid-validate s)
