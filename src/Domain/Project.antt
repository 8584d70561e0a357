-- ===== src/Domain/Project.antt =====
-- The records of a project's state: src/domain/project.rs. Times and paths are texts.
use spark_stage.Base.{ℕ, String, Bool, true, false, Option, List, ◌≡◌, ◌↔◌, arith}
use spark_stage.Domain.Script.{Operation, Risk}

abbrev pub FilePath : Type 0
FilePath = String

abbrev pub project_schema_version : String
project_schema_version = "1.0"

pub data ProjectStage : Type 0 where
  authoring shooting review build completed : ProjectStage

pub data ProjectOutcome : Type 0 where
  in_progress needs_review done done_with_warnings failed cancelled : ProjectOutcome

pub data WorkMode : Type 0 where
  fast director : WorkMode

pub data QualityTarget : Type 0 where
  draft_cut playable approved : QualityTarget

pub data ContractStatus : Type 0 where
  pending_approval active superseded rejected : ContractStatus

pub record AuthoringReceipt : Type 0 where
  pub receipt_id : String
  pub contract_id : String
  pub project_id : String
  pub schema_version : String
  pub bundle_hash : String
  pub brief_hash : String
  pub command_id : String
  pub skill : String
  pub agent_host : Option String
  pub model : Option String
  pub created_at : String

pub record ContractRecord : Type 0 where
  pub contract_id : String
  pub relative_path : FilePath
  pub bundle_hash : String
  pub status : ContractStatus
  pub receipt : AuthoringReceipt

pub data ApprovalKind : Type 0 where
  script_bundle candidate_selection budget_overrun build_review final_visual_review : ApprovalKind

-- The derived `==` of the enum.
abbrev pub kind_eq : ApprovalKind → ApprovalKind → Bool
kind_eq script_bundle script_bundle = true
kind_eq candidate_selection candidate_selection = true
kind_eq budget_overrun budget_overrun = true
kind_eq build_review build_review = true
kind_eq final_visual_review final_visual_review = true
kind_eq _ _ = false

pub kind_eq_iff : (j k : ApprovalKind) → (kind_eq j k ≡ true) ↔ (j ≡ k)
kind_eq_iff j k = (λ h. ground arith, λ h. ground arith)

pub record Approval : Type 0 where
  pub approval_id : String
  pub kind : ApprovalKind
  pub subject_id : Option String
  pub shot_id : Option String
  pub take_ids : List String
  pub blocking : Bool
  pub description : String
  pub created_at : String

pub data ShotStage : Type 0 where
  pending queued generating candidates_ready selected approved failed : ShotStage

pub record ShotRuntimeState : Type 0 where
  pub shot_id : String
  pub title : String
  pub stage : ShotStage
  pub risk : Risk
  pub active_job_id : Option String
  pub audition_target_takes : Option ℕ
  pub selected_candidate_take_id : Option String
  pub approved_take_id : Option String
  pub take_ids : List String
  pub rejected_take_ids : List String
  pub fail_codes : List String
  pub stale : Bool

pub record FailureRecord : Type 0 where
  pub code : String
  pub subject : String
  pub message : String
  pub occurred_at : String

pub data ReferenceSubjectKind : Type 0 where
  character location : ReferenceSubjectKind

pub record ReferenceAsset : Type 0 where
  pub reference_id : String
  pub subject_kind : ReferenceSubjectKind
  pub subject_id : String
  pub relative_path : FilePath
  pub sha256 : String
  pub bytes : ℕ
  pub original_file_name : String
  pub active : Bool
  pub supersedes : Option String
  pub superseded_by : Option String
  pub created_at : String

pub data PromotionStrategy : Type 0 where
  enhance video_reference frame_reference seed_replay : PromotionStrategy

pub record TakeMetadata : Type 0 where
  pub take_id : String
  pub shot_id : String
  pub job_id : String
  pub profile : String
  pub status : String
  pub media_path : FilePath
  pub input_hash : String
  pub adapter_fingerprint : String
  pub workflow_hash : String
  pub model_fingerprint : String
  pub seed : ℕ
  pub elapsed_milliseconds : ℕ
  pub first_frame_path : Option FilePath
  pub last_frame_path : Option FilePath
  pub handoff_candidate_path : Option FilePath
  pub parent_take_id : Option String
  pub promotion_strategy : Option PromotionStrategy
  pub hard_checks : List String
  pub warnings : List String
  pub stale : Bool

pub record BuildRecord : Type 0 where
  pub build_id : String
  pub kind : String
  pub status : String
  pub recipe : String
  pub command_id : String
  pub output_path : Option FilePath
  pub warnings : List String
  pub stale : Bool

pub data JobState : Type 0 where
  queued active completed blocked failed cancelled : JobState

pub data AttemptState : Type 0 where
  prepared submitting submission_unknown submitted running backend_succeeded : AttemptState
  backend_failed retry_wait output_validated output_invalid completed cancelled : AttemptState

pub record AttemptJournal : Type 0 where
  pub request_id : String
  pub client_id : Option String
  pub workflow_hash : Option String
  pub backend_job_id : Option String
  pub state : AttemptState
  pub created_at : String
  pub updated_at : String
  pub error_code : Option String
  pub error_message : Option String
  pub output_path : Option FilePath

pub record JobJournal : Type 0 where
  pub schema_version : String
  pub job_id : String
  pub command_id : String
  pub project_id : String
  pub contract_id : String
  pub shot_id : String
  pub reserved_take_id : String
  pub operation : Operation
  pub resolved_prompt : String
  pub seed : ℕ
  pub profile : String
  pub input_hash : String
  pub adapter_fingerprint : String
  pub smoke_test : Bool
  pub parent_take_id : Option String
  pub promotion_strategy : Option PromotionStrategy
  pub state : JobState
  pub attempts : List AttemptJournal
