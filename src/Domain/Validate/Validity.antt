-- ===== src/Domain/Validate/Validity.antt =====
-- What a well-formed project state is, said without the code that tests it.
use Prim.Native.String.{len}
use spark_stage.Base.{
  ℕ, String, true, false, Option, none, some, List, Map, ◌≡◌, ◌≢◌, ◌<◌, ◌↔◌, map, All, In, Distinct,
  OnSome, lookup, codes, is_blank, normal, is_absolute, components,
}
use spark_stage.Domain.Project.{
  ProjectOutcome, ApprovalKind, Approval, ShotRuntimeState, TakeMetadata, ReferenceAsset,
  ContractRecord, project_schema_version,
}
use spark_stage.Domain.Budget.{BudgetContract, BudgetOverrun}
use spark_stage.Domain.State.{ProjectState}

-- Every quantity of the contract is positive and its estimate has a source.
pub record IsBudgetContract (c : BudgetContract) : Type 0 where
  pub contract_revision : 0 < c.contract_revision
  pub wall_clock : 0 < c.wall_clock_limit_seconds
  pub audition_takes : 0 < c.max_audition_takes_per_shot
  pub final_takes : 0 < c.max_final_takes_per_shot
  pub disk_free : 0 < c.minimum_disk_free_bytes
  pub source : is_blank c.estimate.source ≡ false
  pub audition_seconds : 0 < c.estimate.audition_wall_seconds_per_video_second
  pub final_seconds : 0 < c.estimate.final_wall_seconds_per_video_second
  pub audition_bytes : 0 < c.estimate.audition_bytes_per_video_second
  pub final_bytes : 0 < c.estimate.final_bytes_per_video_second

abbrev pub IsListed {ℓ} : {V : Type ℓ} → Map V → String → Type ℓ
IsListed {V = V} m id = (v : V) × (lookup id m ≡ some v)

-- Some pending approval blocks the project.
abbrev pub IsBlocked : List Approval → Type 0
IsBlocked approvals = (a : Approval) × In a approvals × (a.blocking ≡ true)

-- Outside the two closed outcomes a project needs review exactly when an approval blocks it.
abbrev pub OutcomeFits : List Approval → ProjectOutcome → Type 0
OutcomeFits approvals outcome =
    outcome ≢ ProjectOutcome.failed
    → outcome ≢ ProjectOutcome.cancelled
    → IsBlocked approvals ↔ (outcome ≡ ProjectOutcome.needs_review)

-- A budget approval names itself, and its overrun request is still open.
abbrev pub HasOpenOverrun : Map BudgetOverrun → Approval → Type 0
HasOpenOverrun overruns a =
    a.kind ≡ ApprovalKind.budget_overrun
    → ((o : BudgetOverrun) × (lookup a.approval_id overruns ≡ some o)
        × (o.approved_at ≡ none)
        × (a.subject_id ≡ some a.approval_id))

-- A reference has a hash of full length, some bytes and a path that stays inside the project.
pub record IsReference (e : String × ReferenceAsset) : Type 0 where
  pub key : e.0 ≡ e.1.reference_id
  pub hash : len e.1.sha256 ≡ 64
  pub bytes : 0 < e.1.bytes
  pub path : len e.1.relative_path ≢ 0
  pub relative : is_absolute (codes e.1.relative_path) ≡ false
  pub inside : All (λ c. (s : List ℕ) × (c ≡ normal s)) (components (codes e.1.relative_path))

-- The take exists and belongs to the shot.
abbrev pub BelongsTo : Map TakeMetadata → String → String → Type 0
BelongsTo takes shot_id id = (t : TakeMetadata) × (lookup id takes ≡ some t) × (t.shot_id ≡ shot_id)

-- A take that can still be decided on: listed by the shot, not rejected, and not stale.
pub record IsUsable (takes : Map TakeMetadata) (shot : ShotRuntimeState) (id : String)
    : Type 0 where
  pub listed : In id shot.take_ids
  pub kept : ¬ In id shot.rejected_take_ids
  pub fresh : (t : TakeMetadata) → lookup id takes ≡ some t → t.stale ≡ false

pub record IsShot (takes : Map TakeMetadata) (e : String × ShotRuntimeState) : Type 0 where
  pub key : e.0 ≡ e.1.shot_id
  pub distinct : Distinct e.1.take_ids
  pub belong : All (BelongsTo takes e.1.shot_id) e.1.take_ids
  pub rejected : All (λ id. In id e.1.take_ids) e.1.rejected_take_ids
  pub selected : OnSome (IsUsable takes e.1) e.1.selected_candidate_take_id
  pub approved : OnSome (IsUsable takes e.1) e.1.approved_take_id
  pub approved_selected :
      OnSome (λ id. e.1.selected_candidate_take_id ≡ some id) e.1.approved_take_id

-- An approval that asks for a candidate names a shot, and offers takes that exist and are usable.
abbrev pub OffersCandidates : Map ShotRuntimeState → Map TakeMetadata → Approval → Type 0
OffersCandidates shots takes a =
    a.kind ≡ ApprovalKind.candidate_selection
    → ((shot_id : String) × (shot : ShotRuntimeState) × (a.shot_id ≡ some shot_id)
        × (lookup shot_id shots ≡ some shot)
        × All (λ id. IsListed takes id × IsUsable takes shot id) a.take_ids)

-- The fields of a state that refer to one another.
pub record Core : Type 0 where
  pub schema_version : String
  pub contract : BudgetContract
  pub overruns : Map BudgetOverrun
  pub active_contract_id : Option String
  pub contracts : Map ContractRecord
  pub pending_approvals : List Approval
  pub shots : Map ShotRuntimeState
  pub takes : Map TakeMetadata
  pub references : Map ReferenceAsset

abbrev pub core : ProjectState → Core
core s = record {
  schema_version = s.schema_version;
  contract = s.budget.contract;
  overruns = s.budget.overruns;
  active_contract_id = s.active_contract_id;
  contracts = s.contracts;
  pending_approvals = s.pending_approvals;
  shots = s.shots;
  takes = s.takes;
  references = s.references;
}

-- The references between the parts of a state are sound.
pub record IsCoherent (c : Core) : Type 0 where
  pub schema : c.schema_version ≡ project_schema_version
  pub contract : IsBudgetContract c.contract
  pub active : OnSome (IsListed c.contracts) c.active_contract_id
  pub approval_ids : Distinct (map (λ a. a.approval_id) c.pending_approvals)
  pub overruns : All (HasOpenOverrun c.overruns) c.pending_approvals
  pub takes : All (λ e. e.0 ≡ e.1.take_id) c.takes
  pub references : All IsReference c.references
  pub shots : All (IsShot c.takes) c.shots
  pub candidates : All (OffersCandidates c.shots c.takes) c.pending_approvals

pub record IsValid (s : ProjectState) : Type 0 where
  pub coherent : IsCoherent (core s)
  pub open coherent use *
  pub revision : 0 < s.revision
  pub outcome : OutcomeFits s.pending_approvals s.project_outcome
