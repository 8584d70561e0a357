-- ===== src/Store/Budget.antt =====
-- Requests to leave the budget, and changes of the contract: src/store/project/budget.rs.
pub mod Changes
pub mod Requests
use Prim.Native.String.{◌++◌ as str_append}
use spark_stage.Base.{
  ℕ, String, Bool, true, false, Option, none, some, List, [], ◌∷◌, ◌++◌, ◌&&◌, not, Map, values,
  insert, update, lookup, find, retain, str_eq, is_some, decimal, concat, join, checked_add, Result,
  ok, err, ok_or, guard, ◌>>=◌ as then_with,
}
use spark_stage.Domain.Errors.{StateInvariantError, revision_overflow}
use spark_stage.Domain.Project.{ApprovalKind, kind_eq, Approval}
use spark_stage.Domain.Budget.{BudgetContract, BudgetOverrun, validate_contract}
use spark_stage.Domain.State.{ProjectState}
use spark_stage.Domain.Validate.{bump_revision}
use spark_stage.Store.Errors.{StoreError, approval_not_found, invariant}
use spark_stage.Store.Disk.{
  BuildRecipe, DecisionJournalRecord, Disk, Action, and_then, ◌>>=◌, ◌>>◌, pure, lift, get,
  from_invariant,
}
use spark_stage.Store.Save.{open_state, save_state, save_decided}

-- What a caller asks for, as it stands in the overrun.
pub record OverrunRequest : Type 0 where
  pub scope : String
  pub shot_id : String
  pub operation : String
  pub dimensions : List String
  pub reasons : List String
  pub incremental_wall_seconds : ℕ
  pub incremental_disk_bytes : ℕ

unfoldable pub is_open_for : String → BudgetOverrun → Bool
is_open_for scope overrun = str_eq overrun.scope scope && not (is_some overrun.approved_at)

unfoldable pub has_id : String → Approval → Bool
has_id id a = str_eq a.approval_id id

abbrev pub overrun_description : OverrunRequest → String
overrun_description r = concat (
    "Approve "
    ∷ r.operation
    ∷ " budget overrun for "
    ∷ r.shot_id
    ∷ ": "
    ∷ join "; " r.reasons
    ∷ " (+"
    ∷ decimal r.incremental_wall_seconds
    ∷ "s, +"
    ∷ decimal r.incremental_disk_bytes
    ∷ " bytes)"
    ∷ [])

unfoldable pub overrun_approval : OverrunRequest → (approval_id now : String) → Approval
overrun_approval r approval_id now = record {
  approval_id = approval_id;
  kind = ApprovalKind.budget_overrun;
  subject_id = some approval_id;
  shot_id = some r.shot_id;
  take_ids = [];
  blocking = true;
  description = overrun_description r;
  created_at = now;
}

unfoldable pub requested_overrun : OverrunRequest → (approval_id now : String) → BudgetOverrun
requested_overrun r approval_id now = record {
  approval_id = approval_id;
  scope = r.scope;
  shot_id = r.shot_id;
  operation = r.operation;
  dimensions = r.dimensions;
  reasons = r.reasons;
  incremental_wall_seconds = r.incremental_wall_seconds;
  incremental_disk_bytes = r.incremental_disk_bytes;
  requested_at = now;
  approved_at = none;
}

-- The state with the new request.
unfoldable pub request_change :
    OverrunRequest → (approval_id now : String) → ProjectState → ProjectState
unfolding overrun_approval requested_overrun
request_change r approval_id now s = record s {
  budget = record s.budget {
    overruns = insert approval_id (requested_overrun r approval_id now) s.budget.overruns;
  };
  pending_approvals = s.pending_approvals ++ overrun_approval r approval_id now ∷ [];
}

-- The rest of `request_budget_overrun`, for the open request of the scope that was found.
unfoldable pub request_found :
    (ulid : String)
    → OverrunRequest
    → ProjectState
    → Option BudgetOverrun
    → (expected : ℕ) → (command_id now : String) → Action (ProjectState × Approval)
unfolding save_state request_change overrun_approval has_id
request_found ulid r s (some overrun) expected command_id now = do
  approval ← lift (
      ok_or (find (has_id overrun.approval_id) s.pending_approvals)
        (approval_not_found overrun.approval_id))
  pure (s, approval)
request_found ulid r s none expected command_id now =
    let approval_id = str_append "APR-" ulid in
    let u = record (request_change r approval_id now s) { last_command_id = some command_id } in
    lift (from_invariant (bump_revision u now)) >>= λ t.
    save_state t expected >> pure (t, overrun_approval r approval_id now)

unfoldable pub request_budget_overrun :
    (ulid : String)
    → OverrunRequest
    → (expected : ℕ) → (command_id now : String) → Action (ProjectState × Approval)
unfolding open_state request_found is_open_for
request_budget_overrun ulid r expected command_id now = do
  s ← open_state expected
  request_found ulid r s (find (is_open_for r.scope) (values s.budget.overruns)) expected command_id
      now

unfoldable pub approve_overrun : String → BudgetOverrun → BudgetOverrun
approve_overrun now overrun = record overrun { approved_at = some now }

-- `approve_budget_overrun`.
unfoldable pub approve_overrun_change :
    (approval_id now : String) → ProjectState → Result StoreError ProjectState
unfolding approve_overrun has_id
approve_overrun_change approval_id now s =
    then_with
      (ok_or (find (has_id approval_id) s.pending_approvals) (approval_not_found approval_id))
      λ approval.
        then_with
          (guard (kind_eq approval.kind ApprovalKind.budget_overrun)
            (approval_not_found approval_id))
          λ _.
            then_with
              (ok_or (lookup approval_id s.budget.overruns) (approval_not_found approval_id))
              λ overrun. ok (record s {
                budget = record s.budget {
                  overruns = update approval_id (approve_overrun now) s.budget.overruns;
                };
                pending_approvals = retain (λ a. not (has_id approval_id a)) s.pending_approvals;
              })

unfoldable pub approve_budget_overrun :
    (ulid approval_id : String) (expected : ℕ) (command_id now : String) → Action ProjectState
unfolding open_state save_decided approve_overrun_change
approve_budget_overrun ulid approval_id expected command_id now = do
  s ← open_state expected
  t ← lift (approve_overrun_change approval_id now s)
  save_decided ulid "budget_overrun_approved" approval_id t expected command_id now

-- `update_budget_contract`, after the contract was validated.
unfoldable pub contract_change : BudgetContract → ProjectState → Result StoreError ProjectState
contract_change contract s =
    then_with
      (ok_or (checked_add s.budget.contract.contract_revision 1) (invariant revision_overflow))
      λ revision. ok (record s {
        budget = record {
          contract = record contract { contract_revision = revision };
          overruns = [];
        };
        pending_approvals =
            retain (λ a. not (kind_eq a.kind ApprovalKind.budget_overrun)) s.pending_approvals;
      })

unfoldable pub update_budget_contract :
    (ulid : String)
    → BudgetContract
    → (expected : ℕ) → (command_id now : String) → Action ProjectState
unfolding open_state save_decided contract_change validate_contract
update_budget_contract ulid contract expected command_id now = do
  lift (from_invariant (validate_contract contract))
  s ← open_state expected
  t ← lift (contract_change contract s)
  save_decided ulid "budget_contract_updated" s.project_id t expected command_id now
