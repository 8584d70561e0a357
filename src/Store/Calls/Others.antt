-- ===== src/Store/Calls/Others.antt =====
-- The calls on the budget and on jobs move no build, and save one valid revision at most.
use spark_stage.Base.{
  ℕ, String, Option, none, some, refl, sym, ap, subst, inl, inr, find, Option-cases,
}
use spark_stage.Domain.Budget.{BudgetContract, BudgetOverrun, validate_contract}
use spark_stage.Domain.Validate.{bump_revision}
use spark_stage.Domain.Validate.Parts.{validate_contract_iff}
use spark_stage.Domain.Validate.Validity.{IsValid}
use spark_stage.Domain.Validate.Revision.{bumped}
use spark_stage.Store.Disk.{Disk}
use spark_stage.Store.Save.Laws.{Result-cases, open_state_cases}
use spark_stage.Store.Save.Ends.{left, decide-ends}
use spark_stage.Store.Builds.Lifecycle.{status_of}
use spark_stage.Store.Builds.Advance.{Advances, unmoved}
use spark_stage.Store.Budget.{
  OverrunRequest, has_id, request_change, request_found, request_budget_overrun,
  approve_budget_overrun, update_budget_contract,
}
use spark_stage.Store.Budget.Changes.{
  approve_overrun_change_lem, approve-IsChange, contract_change_lem, contract-IsChange,
}
use spark_stage.Store.Budget.Requests.{requested, request_found-saved}
use spark_stage.Store.Calls.Takes.{same-Advances}

module _ (expected : ℕ) (command_id now : String) (d : Disk) where
  pub approve_budget_overrun-Advances :
      (ulid approval_id : String)
      → Advances d (left (approve_budget_overrun ulid approval_id expected command_id now d))
  unfolding approve_budget_overrun
  approve_budget_overrun-Advances ulid approval_id =
      decide-ends (Advances d) _ command_id now expected d (unmoved d)
        (λ u e. same-Advances d command_id now u (λ j.
          ap (λ w. status_of j w.builds)
            (approve_overrun_change_lem approval_id now d.state u e).1))
        (approve-IsChange approval_id now) ulid "budget_overrun_approved" (λ _. approval_id)

  pub update_budget_contract-Advances :
      (ulid : String) (contract : BudgetContract)
      → Advances d (left (update_budget_contract ulid contract expected command_id now d))
  unfolding update_budget_contract
  update_budget_contract-Advances ulid contract = elim (Result-cases (validate_contract contract)) [
    | inr (e, bad) ↦ rw bad (unmoved d)
    | inl (_, good) ↦ rw good (
        decide-ends (Advances d) _ command_id now expected d (unmoved d)
          (λ u e.
            same-Advances d command_id now u
              (λ j. ap (λ w. status_of j w.builds) (contract_change_lem contract d.state u e)))
          (contract-IsChange contract ((validate_contract_iff contract).0 good)) ulid
          "budget_contract_updated" (λ s. s.project_id))
  ]

module _ (ulid : String) (r : OverrunRequest) (command_id now : String) (d : Disk) where
  requested-Advances : Advances d (bumped (requested ulid r command_id now d.state) now)
  unfolding request_change
  requested-Advances = same-Advances d command_id now (request_change r _ now d.state) (λ j. refl)

  request_found-Advances :
      (o : Option BudgetOverrun)
      → IsValid d.state
      → Advances d (left (request_found ulid r d.state o d.state.revision command_id now d))
  unfolding request_found
  request_found-Advances (some o) valid =
      elim (Option-cases (find (has_id o.approval_id) d.state.pending_approvals)) [
        | inl absent ↦ rw absent (unmoved d)
        | inr (a, there) ↦ rw there (unmoved d)
      ]
  request_found-Advances none valid =
      elim (Result-cases (bump_revision (requested ulid r command_id now d.state) now)) [
        | inr (e, refused) ↦ rw refused (unmoved d)
        | inl (t, done) ↦
            let (e, saved) = request_found-saved ulid r command_id now d t valid done in
            subst (λ w. Advances d (left w)) (sym saved)
              (subst (Advances d) (sym e) requested-Advances)
      ]

  pub request_budget_overrun-Advances :
      (expected : ℕ) → Advances d (left (request_budget_overrun ulid r expected command_id now d))
  unfolding request_budget_overrun
  request_budget_overrun-Advances expected = elim (open_state_cases expected d) [
    | inr (e, failed) ↦ rw failed (unmoved d)
    | inl (valid, same, opened) ↦ rw opened (rw (← same) (request_found-Advances _ valid))
  ]
