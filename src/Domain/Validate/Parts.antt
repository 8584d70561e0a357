-- ===== src/Domain/Validate/Parts.antt =====
-- Each test of `ProjectState::validate` outside the shots passes exactly when its part of the
-- well-formedness holds.
use spark_stage.Base.{
  ℕ, String, true, false, Option, none, some, List, [], ◌∷◌, Map, ◌≡◌, ◌≢◌, refl, ◌↔◌, inl, inr,
  not, ◌&&◌, arith, eq_iff, map, any, any_iff, retain, contains, contains-false_iff, All, In,
  not_In-cons, Distinct, OnSome, lookup, contains_key, codes, Component, root_dir, cur_dir,
  parent_dir, normal, is_normal, components, ok, err-ne-ok, Bool, Bool-cases, Option-cases,
  is_text_iff, then_iff, for_each,
}
use spark_stage.Domain.Project.{
  ProjectOutcome, ApprovalKind, kind_eq, kind_eq_iff, Approval, TakeMetadata, ReferenceAsset,
  ContractRecord,
}
use spark_stage.Domain.Budget.{BudgetContract, BudgetOverrun, validate_contract}
use spark_stage.Domain.State.{needs_review}
use spark_stage.Domain.Validate.{
  bool_ne, is_closed, active_missing, outcome_mismatch, check_approval_ids, check_budget_approval,
  check_take, check_reference, reference_is_invalid,
}
use spark_stage.Domain.Validate.Validity.{
  IsBudgetContract, IsListed, OutcomeFits, HasOpenOverrun, IsReference,
}

pub validate_contract_iff :
    (c : BudgetContract) → (validate_contract c ≡ ok tt) ↔ IsBudgetContract c
unfolding validate_contract
validate_contract_iff c = (λ h. ground arith, λ h. ground arith)

pub active_missing_iff :
    (id : Option String) (contracts : Map ContractRecord)
    → (not (active_missing id contracts) ≡ true) ↔ OnSome (IsListed contracts) id
unfolding active_missing contains_key
active_missing_iff none contracts = (λ h. tt, λ h. refl)
active_missing_iff (some id) contracts = (λ h. ground arith, λ h. ground arith)

outcome_back :
    (blocked : Bool) (outcome : ProjectOutcome)
    → (outcome ≢ ProjectOutcome.failed
        → outcome ≢ ProjectOutcome.cancelled
        → (blocked ≡ true) ↔ (outcome ≡ ProjectOutcome.needs_review))
    → not (bool_ne blocked (needs_review outcome) && not (is_closed outcome)) ≡ true
outcome_back true ProjectOutcome.failed h = refl
outcome_back false ProjectOutcome.failed h = refl
outcome_back true ProjectOutcome.cancelled h = refl
outcome_back false ProjectOutcome.cancelled h = refl
outcome_back true ProjectOutcome.needs_review h = refl
outcome_back false ProjectOutcome.needs_review h = cc ((h (λ e. cc) (λ e. cc)).1 refl)
outcome_back false _ h = refl
outcome_back true _ h = cc ((h (λ e. cc) (λ e. cc)).0 refl)

outcome_iff :
    (blocked : Bool) (outcome : ProjectOutcome)
    → (not (bool_ne blocked (needs_review outcome) && not (is_closed outcome)) ≡ true) ↔ (
        outcome ≢ ProjectOutcome.failed
        → outcome ≢ ProjectOutcome.cancelled
        → (blocked ≡ true) ↔ (outcome ≡ ProjectOutcome.needs_review))
outcome_iff blocked outcome =
    (λ h nf nc. (λ b. ground arith, λ e. ground arith), outcome_back blocked outcome)

pub outcome_mismatch_iff :
    (approvals : List Approval) (outcome : ProjectOutcome)
    → (not (outcome_mismatch approvals outcome) ≡ true) ↔ OutcomeFits approvals outcome
unfolding outcome_mismatch
outcome_mismatch_iff approvals outcome =
    let blocked = any_iff (λ (a : Approval). a.blocking) approvals in
    let same = outcome_iff (any (λ (a : Approval). a.blocking) approvals) outcome in
    (
      λ h nf nc.
          let both = same.0 h nf nc in (λ b. both.0 (blocked.1 b), λ e. blocked.0 (both.1 e)),
      λ fits. same.1 (λ nf nc.
          let both = fits nf nc in (λ b. both.0 (blocked.0 b), λ e. blocked.1 (both.1 e))),
    )

pub check_approval_ids_iff :
    (seen : List String) (approvals : List Approval)
    → (check_approval_ids seen approvals ≡ ok tt) ↔ (
        Distinct (map (λ a. a.approval_id) approvals)
        × All (λ a. ¬ In a.approval_id seen) approvals)
unfolding check_approval_ids
check_approval_ids_iff seen [] = (λ h. (tt, tt), λ h. refl)
check_approval_ids_iff seen (a ∷ rest) =
    let ih = check_approval_ids_iff (a.approval_id ∷ seen) rest in
    let shift = not_In-cons (λ (x : Approval). x.approval_id) a.approval_id seen rest in
    let absent = contains-false_iff seen a.approval_id in
    (
      λ h. elim (Bool-cases (contains seen a.approval_id)) [
        | inl old ↦ absurd (err-ne-ok (rw old at h))
        | inr new ↦
            let (distinct, apart) = ih.0 (rw new at h) in
            let (alone, unseen) = shift.0 apart in ((alone, distinct), (absent.0 new, unseen))
      ],
      λ h. rw (absent.1 h.1.0) (ih.1 (h.0.1, shift.1 (h.0.0, h.1.1))),
    )

open_overrun_iff :
    (overruns : Map BudgetOverrun) (a : Approval)
    → (check_budget_approval overruns a ≡ ok tt) ↔ (
        (o : BudgetOverrun) × (lookup a.approval_id overruns ≡ some o)
        × (o.approved_at ≡ none)
        × (a.subject_id ≡ some a.approval_id))
unfolding check_budget_approval
open_overrun_iff overruns a =
    let own = is_text_iff a.subject_id a.approval_id in
    (
      λ h. elim (Option-cases (lookup a.approval_id overruns)) [
        | inl missing ↦ absurd (ground (arith, missing))
        | inr (o, found) ↦ (o, found, ground (arith, found, own), ground (arith, found, own))
      ],
      λ h. ground (arith, h.1, h.2, own.1 h.3),
    )

pub check_budget_approval_iff :
    (overruns : Map BudgetOverrun) (approvals : List Approval)
    → (for_each
          (check_budget_approval overruns)
          (retain (λ a. kind_eq a.kind ApprovalKind.budget_overrun) approvals)
        ≡ ok tt)
      ↔ All (HasOpenOverrun overruns) approvals
unfolding retain for_each
check_budget_approval_iff overruns [] = (λ h. tt, λ h. refl)
check_budget_approval_iff overruns (a ∷ rest) =
    let ih = check_budget_approval_iff overruns rest in
    let here = open_overrun_iff overruns a in
    let kind = kind_eq_iff a.kind ApprovalKind.budget_overrun in
    (
      λ h. elim (Bool-cases (kind_eq a.kind ApprovalKind.budget_overrun)) [
        | inl budget ↦
            let (first, later) = (then_iff _ _ tt).0 (rw budget at h) in
            (λ _. here.0 first, ih.0 later)
        | inr other ↦ (λ e. cc (kind.1 e), ih.0 (rw other at h))
      ],
      λ h. elim (Bool-cases (kind_eq a.kind ApprovalKind.budget_overrun)) [
        | inl budget ↦ rw budget ((then_iff _ _ tt).1 (here.1 (h.0 (kind.0 budget)), ih.1 h.1))
        | inr other ↦ rw other (ih.1 h.1)
      ],
    )

pub check_take_iff :
    (takes : Map TakeMetadata)
    → (for_each check_take takes ≡ ok tt) ↔ All (λ e. e.0 ≡ e.1.take_id) takes
unfolding check_take for_each
check_take_iff [] = (λ h. tt, λ h. refl)
check_take_iff ((key, take) ∷ rest) =
    let same = eq_iff key take.take_id in
    let ih = check_take_iff rest in (λ h. ground (arith, same, ih), λ h. ground (arith, same, ih))

normal_iff :
    (cs : List Component)
    → (any (λ c. not (is_normal c)) cs ≡ false) ↔ All (λ c. (s : List ℕ) × (c ≡ normal s)) cs
unfolding any is_normal
normal_iff [] = (λ h. tt, λ h. refl)
normal_iff (root_dir ∷ cs) = (λ h. cc, λ h. cc (h.0.1))
normal_iff (cur_dir ∷ cs) = (λ h. cc, λ h. cc (h.0.1))
normal_iff (parent_dir ∷ cs) = (λ h. cc, λ h. cc (h.0.1))
normal_iff (normal s ∷ cs) = (λ h. ((s, refl), (normal_iff cs).0 h), λ h. (normal_iff cs).1 h.1)

pub check_reference_iff :
    (e : String × ReferenceAsset) → (check_reference e ≡ ok tt) ↔ IsReference e
unfolding check_reference reference_is_invalid
check_reference_iff (key, r) =
    let inside = normal_iff (components (codes r.relative_path)) in
    (
      λ h. ground (arith, eq_iff key r.reference_id, inside),
      λ h. ground (arith, eq_iff key r.reference_id, inside),
    )
