-- ===== src/Store/Budget/Changes.antt =====
-- Approving an overrun and changing the contract keep a state coherent.
use spark_stage.Base.{
  ℕ, String, true, false, some, [], Map, ◌≡◌, refl, sym, ◌+◌, ◌↔◌, not, arith, eq_iff, All-retain,
  All-retain_test, All-In, Distinct-retain, retain, find, lookup, update, lookup-update, str_eq,
  inl, inr, ok, ok_or, ok_or-eq_ok, ok_injective, guard, guard_iff, >>=-eq-ok, checked_add,
}
use spark_stage.Domain.Errors.{revision_overflow}
use spark_stage.Domain.Project.{ApprovalKind, kind_eq, kind_eq_iff, Approval}
use spark_stage.Domain.Budget.{BudgetContract, BudgetOverrun, validate_contract}
use spark_stage.Domain.State.{ProjectState}
use spark_stage.Domain.Validate.Validity.{core, IsCoherent, IsBudgetContract, HasOpenOverrun}
use spark_stage.Domain.Validate.Parts.{validate_contract_iff}
use spark_stage.Store.Save.Laws.{Result-cases}
use spark_stage.Store.Errors.{approval_not_found, invariant}
use spark_stage.Store.Disk.{Disk}
use spark_stage.Store.Save.Decided.{IsChange, IsAtomic, decide-IsAtomic}
use spark_stage.Store.Budget.{
  has_id, approve_overrun, approve_overrun_change, contract_change, approve_budget_overrun,
  update_budget_contract,
}

has_id_iff : (id : String) (a : Approval) → (has_id id a ≡ true) ↔ (a.approval_id ≡ id)
unfolding has_id
has_id_iff id a = eq_iff a.approval_id id

-- An approved overrun leaves the other requests as they were.
others-HasOpenOverrun :
    (overruns : Map BudgetOverrun) (id now : String) (a : Approval)
    → not (has_id id a) ≡ true
    → HasOpenOverrun overruns a
    → HasOpenOverrun (update id (approve_overrun now) overruns) a
unfolding has_id
others-HasOpenOverrun overruns id now a other h kind =
    let (o, found, still, subject) = h kind in
    let differs : str_eq a.approval_id id ≡ false = ground (arith, other) in
    (o, rw lookup-update (rw differs found), still, subject)

abbrev pub overrun_approved : (approval_id now : String) → ProjectState → ProjectState
overrun_approved id now s = record s {
  budget = record s.budget { overruns = update id (approve_overrun now) s.budget.overruns };
  pending_approvals = retain (λ a. not (has_id id a)) s.pending_approvals;
}

-- The approval was found, asks for an overrun, and the overrun is on record.
pub record IsRequested (s : ProjectState) (id : String) : Type 0 where
  pub approval : Approval
  pub pending : find (has_id id) s.pending_approvals ≡ some approval
  pub kind : approval.kind ≡ ApprovalKind.budget_overrun
  pub overrun : BudgetOverrun
  pub found : lookup id s.budget.overruns ≡ some overrun

pub approve_overrun_change_lem :
    (id now : String) (s t : ProjectState)
    → approve_overrun_change id now s ≡ ok t
    → IsRequested s id × (t ≡ overrun_approved id now s)
unfolding approve_overrun_change
approve_overrun_change_lem id now s t e =
    let (a, pending, e₁) =
      >>=-eq-ok (ok_or (find (has_id id) s.pending_approvals) (approval_not_found id)) _ e in
    let test = guard (kind_eq a.kind ApprovalKind.budget_overrun) (approval_not_found id) in
    let (_, passed, e₂) = >>=-eq-ok test _ e₁ in
    let (o, found, e₃) =
      >>=-eq-ok (ok_or (lookup id s.budget.overruns) (approval_not_found id)) _ e₂ in
    (
      record {
        approval = a;
        pending = ok_or-eq_ok (find (has_id id) s.pending_approvals) _ pending;
        kind = (kind_eq_iff a.kind ApprovalKind.budget_overrun).0 ((guard_iff _ _).0 passed);
        overrun = o;
        found = ok_or-eq_ok (lookup id s.budget.overruns) _ found;
      },
      sym (ok_injective e₃),
    )

approved-IsCoherent :
    (id now : String) (s : ProjectState)
    → IsCoherent (core s)
    → IsCoherent (core (overrun_approved id now s))
approved-IsCoherent id now s h = record {
  schema = h.schema;
  contract = h.contract;
  active = h.active;
  approval_ids = Distinct-retain (λ a. a.approval_id) _ s.pending_approvals h.approval_ids;
  overruns = All-retain_test _ _ s.pending_approvals (λ x i other.
      others-HasOpenOverrun s.budget.overruns id now x other
        (All-In (HasOpenOverrun s.budget.overruns) x s.pending_approvals h.overruns i));
  takes = h.takes;
  references = h.references;
  shots = h.shots;
  candidates = All-retain _ _ s.pending_approvals h.candidates;
}

pub approve-IsChange :
    (approval_id now : String) → IsChange (λ _ s. approve_overrun_change approval_id now s)
approve-IsChange id now = record {
  coherent =
      λ d s t h e. rw (approve_overrun_change_lem id now s t e).1 (approved-IsCoherent id now s h);
  steady = λ d s t e. rw (approve_overrun_change_lem id now s t e).1 refl;
}

abbrev pub contract_replaced : BudgetContract → ℕ → ProjectState → ProjectState
contract_replaced contract revision s = record s {
  budget = record { contract = record contract { contract_revision = revision }; overruns = [] };
  pending_approvals =
      retain (λ a. not (kind_eq a.kind ApprovalKind.budget_overrun)) s.pending_approvals;
}

pub contract_change_lem :
    (contract : BudgetContract) (s t : ProjectState)
    → contract_change contract s ≡ ok t
    → t ≡ contract_replaced contract (s.budget.contract.contract_revision + 1) s
unfolding contract_change checked_add
contract_change_lem contract s t e =
    let (n, more, e₁) =
      >>=-eq-ok
        (ok_or (checked_add s.budget.contract.contract_revision 1) (invariant revision_overflow)) _
        e in
    let next : n ≡ s.budget.contract.contract_revision + 1 = ground (arith, more) in
    rw (← next) (sym (ok_injective e₁))

replaced-IsCoherent :
    (contract : BudgetContract) (n : ℕ) (s : ProjectState)
    → IsBudgetContract contract
    → IsCoherent (core s)
    → IsCoherent (core (contract_replaced contract (n + 1) s))
replaced-IsCoherent contract n s good h = record {
  schema = h.schema;
  contract = record {
    contract_revision = omega arith;
    wall_clock = good.wall_clock;
    audition_takes = good.audition_takes;
    final_takes = good.final_takes;
    disk_free = good.disk_free;
    source = good.source;
    audition_seconds = good.audition_seconds;
    final_seconds = good.final_seconds;
    audition_bytes = good.audition_bytes;
    final_bytes = good.final_bytes;
  };
  active = h.active;
  approval_ids = Distinct-retain (λ a. a.approval_id) _ s.pending_approvals h.approval_ids;
  overruns =
      All-retain_test _ _ s.pending_approvals (λ x i other kind. absurd (cc (rw kind at other)));
  takes = h.takes;
  references = h.references;
  shots = h.shots;
  candidates = All-retain _ _ s.pending_approvals h.candidates;
}

pub contract-IsChange :
    (contract : BudgetContract)
    → IsBudgetContract contract
    → IsChange (λ _ s. contract_change contract s)
contract-IsChange contract good = record {
  coherent = λ d s t h e.
      rw (contract_change_lem contract s t e)
        (replaced-IsCoherent contract s.budget.contract.contract_revision s good h);
  steady = λ d s t e. rw (contract_change_lem contract s t e) refl;
}

-- Approving an overrun either saves a valid state of the next revision under the command, or
-- fails and leaves the state and the journal as they were.
pub approve_budget_overrun-IsAtomic :
    (ulid approval_id : String) (expected : ℕ) (command_id now : String) (d : Disk)
    → IsAtomic d command_id (approve_budget_overrun ulid approval_id expected command_id now d)
unfolding approve_budget_overrun
approve_budget_overrun-IsAtomic ulid approval_id expected command_id now d =
    decide-IsAtomic _ (approve-IsChange approval_id now) ulid "budget_overrun_approved"
      (λ _. approval_id) command_id now expected d

-- Changing the budget contract either saves a valid state of the next revision under the command,
-- or fails and leaves the state and the journal as they were.
pub update_budget_contract-IsAtomic :
    (ulid : String) (contract : BudgetContract) (expected : ℕ) (command_id now : String) (d : Disk)
    → IsAtomic d command_id (update_budget_contract ulid contract expected command_id now d)
unfolding update_budget_contract
update_budget_contract-IsAtomic ulid contract expected command_id now d =
    elim (Result-cases (validate_contract contract)) [
      | inr (e, bad) ↦ rw bad refl
      | inl (_, good) ↦ rw good (
          decide-IsAtomic _ (contract-IsChange contract ((validate_contract_iff contract).0 good))
            ulid "budget_contract_updated" (λ s. s.project_id) command_id now expected d)
    ]
