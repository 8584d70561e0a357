-- ===== src/Store/Support.antt =====
-- src/store/project/support.rs: revisions, and the identifiers that name files.
use Prim.Native.String.{len}
use spark_stage.Base.{
  ℕ, String, Bool, false, Option, none, some, List, [], ◌∷◌, ◌&&◌, ◌||◌, not, leb, ◌==◌, all, codes,
  get_last?, is_ascii_digit, is_ascii_lowercase, is_ascii_alphanumeric, is_blank, length, concat,
  str_eq, guard, ◌>>◌, true, Result, ok, err, if◌then◌else◌,
}
use spark_stage.Domain.Script.{Risk}
use spark_stage.Domain.Project.{
  JobState, JobJournal, ShotStage, ShotRuntimeState, project_schema_version,
}
use spark_stage.Domain.State.{ProjectState}
use spark_stage.Store.Errors.{StoreError, revision_conflict, invalid_project_id, invalid_job}

abbrev pub not_new_job : StoreError
not_new_job = invalid_job "new job identity, state, or ownership does not match the enqueue command"

abbrev pub is_queued : JobState → Bool
is_queued JobState.queued = true
is_queued _ = false

abbrev pub is_empty {ℓ} : {A : Type ℓ} → List A → Bool
is_empty [] = true
is_empty (x ∷ xs) = false

unfoldable pub ensure_revision : ProjectState → ℕ → Result StoreError (Unit {0})
ensure_revision s expected =
    if s.revision == expected then ok tt else err (revision_conflict expected s.revision)

-- `strip_prefix`, on the codes.
unfoldable pub strip_prefix : List ℕ → List ℕ → Option (List ℕ)
strip_prefix [] s = some s
strip_prefix (c ∷ prefix) [] = none
strip_prefix (c ∷ prefix) (d ∷ s) = if c == d then strip_prefix prefix s else none

-- The suffix is 26 ASCII letters and digits. A suffix with a byte outside ASCII fails both.
unfoldable pub is_ulid_suffix : Option (List ℕ) → Bool
unfolding is_ascii_alphanumeric
is_ulid_suffix none = false
is_ulid_suffix (some suffix) = length suffix == 26 && all is_ascii_alphanumeric suffix

unfoldable pub is_job_id : String → Bool
unfolding strip_prefix is_ulid_suffix
is_job_id value = is_ulid_suffix (strip_prefix (codes "JOB-") (codes value))

unfoldable pub validate_job_id : String → Result StoreError (Unit {0})
unfolding is_job_id
validate_job_id value =
    if is_job_id value
    then ok tt
    else err (invalid_job (concat ("invalid job id `" ∷ value ∷ "`" ∷ [])))

-- The tests of `validate_job` after the one of the id.
unfoldable pub is_new_job : JobJournal → (project_id command_id : String) → Bool
unfolding is_blank
is_new_job job project_id command_id = not (
    not (str_eq job.schema_version project_schema_version)
    || not (str_eq job.project_id project_id)
    || not (str_eq job.command_id command_id)
    || not (is_queued job.state)
    || not (is_empty job.attempts)
    || is_blank job.shot_id
    || is_blank job.reserved_take_id)

unfoldable pub validate_job :
    JobJournal → (project_id command_id : String) → Result StoreError (Unit {0})
unfolding validate_job_id is_new_job
validate_job job project_id command_id =
    validate_job_id job.job_id >> guard (is_new_job job project_id command_id) not_new_job

unfoldable pub initial_shot_state : (shot_id title : String) → Risk → ShotRuntimeState
initial_shot_state shot_id title risk = record {
  shot_id = shot_id;
  title = title;
  stage = ShotStage.pending;
  risk = risk;
  active_job_id = none;
  audition_target_takes = none;
  selected_candidate_take_id = none;
  approved_take_id = none;
  take_ids = [];
  rejected_take_ids = [];
  fail_codes = [];
  stale = false;
}

-- `value.contains("--")`.
unfoldable pub has_double_dash : List ℕ → Bool
has_double_dash [] = false
has_double_dash (c ∷ []) = false
has_double_dash (c ∷ d ∷ s) = c == b'-' && d == b'-' || has_double_dash (d ∷ s)

unfoldable pub is_slug_byte : ℕ → Bool
unfolding is_ascii_lowercase is_ascii_digit
is_slug_byte c = is_ascii_lowercase c || is_ascii_digit c || c == b'-'

abbrev pub head? : List ℕ → Option ℕ
head? [] = none
head? (c ∷ s) = some c

-- `.is_some_and(u8::is_ascii_alphanumeric)`.
unfoldable pub ends_word : Option ℕ → Bool
unfolding is_ascii_alphanumeric
ends_word none = false
ends_word (some c) = is_ascii_alphanumeric c

-- The tests of `validate_project_id` on the bytes; a byte outside ASCII passes none of them.
unfoldable pub is_slug : List ℕ → Bool
is_slug s =
    all is_slug_byte s && ends_word (head? s) && ends_word (get_last? s) && not (has_double_dash s)

unfoldable pub validate_project_id : String → Result StoreError (Unit {0})
validate_project_id value =
    if not (len value == 0) && leb (len value) 64 && is_slug (codes value)
    then ok tt
    else err (invalid_project_id value)
