-- ===== src/Domain/Validate.antt =====
-- `ProjectState::validate` and `bump_revision`: src/domain/project.rs.
pub mod Validity
pub mod Parts
pub mod Shots
pub mod Exact
pub mod Revision
use Prim.Native.String.{len}
use spark_stage.Base.{
  ℕ, String, Bool, true, false, Option, none, some, List, [], ◌∷◌, Map, not, ◌&&◌, ◌||◌, ◌==◌,
  str_eq, is_some, is_text, any, all, retain, contains, lookup, contains_key, checked_add, codes,
  is_absolute, components, is_normal, Result, ok, err, ok_or, guard, for_each, ◌>>=◌, ◌>>◌,
  if◌then◌else◌,
}
use spark_stage.Domain.Errors.{
  StateInvariantError, unsupported_schema, zero_revision, revision_overflow,
  budget_approval_missing, budget_approval_mismatch, missing_active_contract,
  outcome_approval_mismatch, duplicate_approval, shot_key_mismatch, take_key_mismatch,
  reference_key_mismatch, reference_invalid, duplicate_shot_take, shot_take_missing,
  take_shot_mismatch, rejected_take_unavailable, decision_take_unavailable,
  approved_take_not_selected, candidate_approval_shot_missing, candidate_approval_shot_unknown,
  candidate_approval_take_unavailable,
}
use spark_stage.Domain.Project.{
  ProjectOutcome, ApprovalKind, kind_eq, Approval, ShotRuntimeState, TakeMetadata, ReferenceAsset,
  ContractRecord, project_schema_version,
}
use spark_stage.Domain.Budget.{BudgetOverrun, validate_contract}
use spark_stage.Domain.State.{ProjectState, needs_review, refresh_derived_outcome}

abbrev pub Check : Type 0
Check = Result StateInvariantError (Unit {0})

-- `active_contract_id.as_ref().is_some_and(|id| !contracts.contains_key(id))`.
unfoldable pub active_missing : Option String → Map ContractRecord → Bool
active_missing none contracts = false
active_missing (some id) contracts = not (contains_key id contracts)

abbrev pub bool_ne : Bool → Bool → Bool
bool_ne true b = not b
bool_ne false b = b

-- `matches!(outcome, Failed | Cancelled)`.
abbrev pub is_closed : ProjectOutcome → Bool
is_closed ProjectOutcome.failed = true
is_closed ProjectOutcome.cancelled = true
is_closed _ = false

unfoldable pub outcome_mismatch : List Approval → ProjectOutcome → Bool
outcome_mismatch approvals outcome =
    bool_ne (any (λ a. a.blocking) approvals) (needs_review outcome) && not (is_closed outcome)

-- The search for an approval id that the set `seen` holds already.
unfoldable pub check_approval_ids : List String → List Approval → Check
check_approval_ids seen [] = ok tt
check_approval_ids seen (a ∷ rest) =
    guard (not (contains seen a.approval_id)) (duplicate_approval a.approval_id)
    >> check_approval_ids (a.approval_id ∷ seen) rest

-- A pending budget approval has an open overrun request of its own id.
unfoldable pub check_budget_approval : Map BudgetOverrun → Approval → Check
check_budget_approval overruns a =
    ok_or (lookup a.approval_id overruns) (budget_approval_missing a.approval_id) >>= λ overrun.
    guard (not (is_some overrun.approved_at || not (is_text a.subject_id a.approval_id)))
      (budget_approval_mismatch a.approval_id)

unfoldable pub check_take : String × TakeMetadata → Check
check_take (key, take) = guard (str_eq key take.take_id) (take_key_mismatch key take.take_id)

-- The metadata of a reference: a full hash, some bytes, and a path inside the project.
unfoldable pub reference_is_invalid : ReferenceAsset → Bool
reference_is_invalid r =
    not (len r.sha256 == 64)
    || r.bytes == 0
    || len r.relative_path == 0
    || is_absolute (codes r.relative_path)
    || any (λ c. not (is_normal c)) (components (codes r.relative_path))

unfoldable pub check_reference : String × ReferenceAsset → Check
check_reference (key, r) =
    guard (str_eq key r.reference_id) (reference_key_mismatch key r.reference_id)
    >> guard (not (reference_is_invalid r)) (reference_invalid r.reference_id)

-- The loop over `shot.take_ids`, with the set of the ids seen.
unfoldable pub check_shot_takes :
    Map TakeMetadata → ShotRuntimeState → List String → List String → Check
check_shot_takes takes shot seen [] = ok tt
check_shot_takes takes shot seen (id ∷ ids) =
    guard (not (contains seen id)) (duplicate_shot_take shot.shot_id id)
    >> (ok_or (lookup id takes) (shot_take_missing shot.shot_id id) >>= λ take.
        guard (str_eq take.shot_id shot.shot_id) (take_shot_mismatch id shot.shot_id take.shot_id))
    >> check_shot_takes takes shot (id ∷ seen) ids

unfoldable pub check_rejected : ShotRuntimeState → String → Check
check_rejected shot id =
    guard (contains shot.take_ids id) (rejected_take_unavailable shot.shot_id id)

-- `takes.get(id).is_some_and(|take| take.stale)`.
abbrev pub known_stale : Option TakeMetadata → Bool
known_stale none = false
known_stale (some take) = take.stale

-- The pass over the selected and the approved take.
unfoldable pub check_decision : Map TakeMetadata → ShotRuntimeState → String → Option String → Check
check_decision takes shot kind none = ok tt
check_decision takes shot kind (some id) =
    guard
      (not (
        not (contains shot.take_ids id)
        || contains shot.rejected_take_ids id
        || known_stale (lookup id takes)))
      (decision_take_unavailable shot.shot_id id kind)

unfoldable pub check_approved : ShotRuntimeState → Option String → Check
check_approved shot none = ok tt
check_approved shot (some id) =
    guard (is_text shot.selected_candidate_take_id id) (approved_take_not_selected shot.shot_id id)

unfoldable pub check_shot : Map TakeMetadata → String × ShotRuntimeState → Check
check_shot takes (key, shot) =
    guard (str_eq key shot.shot_id) (shot_key_mismatch key shot.shot_id)
    >> check_shot_takes takes shot [] shot.take_ids
    >> for_each (check_rejected shot) shot.rejected_take_ids
    >> check_decision takes shot "selected" shot.selected_candidate_take_id
    >> check_decision takes shot "approved" shot.approved_take_id
    >> check_approved shot shot.approved_take_id

-- `takes.get(id).is_none_or(|take| take.stale)`.
abbrev pub missing_or_stale : Option TakeMetadata → Bool
missing_or_stale none = true
missing_or_stale (some take) = take.stale

unfoldable pub check_candidate : Map TakeMetadata → ShotRuntimeState → String → String → Check
check_candidate takes shot approval_id id =
    guard
      (not (
        not (contains shot.take_ids id)
        || contains shot.rejected_take_ids id
        || missing_or_stale (lookup id takes)))
      (candidate_approval_take_unavailable approval_id id)

unfoldable pub check_candidate_approval : Map ShotRuntimeState → Map TakeMetadata → Approval → Check
check_candidate_approval shots takes a =
    if kind_eq a.kind ApprovalKind.candidate_selection
    then (ok_or a.shot_id (candidate_approval_shot_missing a.approval_id) >>= λ shot_id.
        ok_or (lookup shot_id shots) (candidate_approval_shot_unknown a.approval_id shot_id)
        >>= λ shot. for_each (check_candidate takes shot a.approval_id) a.take_ids)
    else ok tt

-- `ProjectState::validate`.
unfoldable pub validate : ProjectState → Check
validate s =
    guard (str_eq s.schema_version project_schema_version) (unsupported_schema s.schema_version)
    >> guard (not (s.revision == 0)) zero_revision
    >> validate_contract s.budget.contract
    >> guard (not (active_missing s.active_contract_id s.contracts)) missing_active_contract
    >> guard (not (outcome_mismatch s.pending_approvals s.project_outcome))
        outcome_approval_mismatch
    >> check_approval_ids [] s.pending_approvals
    >> for_each (check_budget_approval s.budget.overruns)
        (retain (λ a. kind_eq a.kind ApprovalKind.budget_overrun) s.pending_approvals)
    >> for_each check_take s.takes
    >> for_each check_reference s.references
    >> for_each (check_shot s.takes) s.shots
    >> for_each (check_candidate_approval s.shots s.takes) s.pending_approvals

-- `ProjectState::bump_revision`.
unfoldable pub bump_revision : ProjectState → String → Result StateInvariantError ProjectState
bump_revision s now = ok_or (checked_add s.revision 1) revision_overflow >>= λ revision.
    let t = refresh_derived_outcome (record s { revision = revision; updated_at = now }) in
    validate t >>= λ _. ok t
