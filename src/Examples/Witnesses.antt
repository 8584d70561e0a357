-- ===== src/Examples/Witnesses.antt =====
-- Each property applied to the example project.
use spark_stage.Base.{
  str_eq, Option, String, true, false, none, some, [], ◌∷◌, ◌≡◌, ◌≢◌, ◌↔◌, refl, ok, err, arith,
  contains, lookup, ap, List, retain, find, eq_iff,
}
use spark_stage.Domain.State.{ProjectState}
use spark_stage.Domain.Validate.{validate}
use spark_stage.Domain.Validate.Validity.{IsValid, core, IsCoherent}
use spark_stage.Domain.Validate.Exact.{validate_iff}
use spark_stage.Store.Errors.{take_rejected, shot_already_approved}
use spark_stage.Store.Disk.{DecisionJournalRecord, Disk, prepared}
use spark_stage.Store.Journal.{committed_decisions, latest_from, order_from, shown_all, pending_for}
use spark_stage.Store.Save.{decision_history, save_decided, save_uncommitted}
use spark_stage.Store.Save.Decided.{IsAtomic}
use spark_stage.Store.Save.Crash.{
  before_write, IsFresh, decision_history-before_write, save_decided-decision_history,
  save_uncommitted-decision_history,
}
use spark_stage.Store.Decisions.Guards.{
  BatchTakeSelection, ensure_reviewable, validate_review_batch, check_selections, check_selection,
  ensure_undecided, ensure_available, ensure_idle,
}
use spark_stage.Store.Decisions.Guards.Exact.{IsReviewable, ensure_reviewable_iff}
use spark_stage.Store.Decisions.Changes.{batch_change}
use spark_stage.Store.Decisions.Batches.{batch_change-IsCoherent}
use spark_stage.Store.Decisions.Operations.{
  set_project_paused, select_take, approve_take, reject_take, review_takes_batch,
}
use spark_stage.Store.Decisions.Operations.Atomic.{
  set_project_paused-IsAtomic, select_take-IsAtomic, approve_take-IsAtomic, reject_take-IsAtomic,
}
use spark_stage.Store.Decisions.Operations.Batch.{review_takes_batch-IsAtomic}
use spark_stage.Store.Decisions.Operations.Workflow.{
  Approves, reject_take-ok, approve_take-ok, select_take-approve_take, approve_take-final,
  reject_take-final,
}
use spark_stage.Store.Decisions.Operations.History.{Selects, select_take-Selects}
use spark_stage.Domain.Budget.{default_contract}
use spark_stage.Store.Budget.{
  OverrunRequest, is_open_for, has_id, request_budget_overrun, approve_budget_overrun,
  update_budget_contract,
}
use spark_stage.Store.Budget.Changes.{
  approve_budget_overrun-IsAtomic, update_budget_contract-IsAtomic,
}
use spark_stage.Store.Budget.Requests.{
  IsPending, IsRequest, pending-answers, request_budget_overrun-IsRequest,
  request_budget_overrun-again,
}
use spark_stage.Examples.Project.{
  shot, reviewing, disk, selected, selected_disk, asking, asking_disk, overrun, overrun_pending,
  reviewing-IsValid, selected-IsValid, asking-IsValid, first-IsReviewable, selected-IsReviewable,
}

validate_iff_example : (validate reviewing ≡ ok tt) ↔ IsValid reviewing
validate_iff_example = validate_iff reviewing

ensure_reviewable_iff_example :
    (ensure_reviewable reviewing "S01" "T01" ≡ ok shot) ↔ IsReviewable reviewing "S01" "T01" shot
ensure_reviewable_iff_example = ensure_reviewable_iff reviewing "S01" "T01" shot

select_take-IsAtomic_example :
    IsAtomic disk "CMD-2" (select_take "U1" "S01" "T01" 4 "CMD-2" "t1" disk)
select_take-IsAtomic_example = select_take-IsAtomic "U1" "S01" "T01" 4 "CMD-2" "t1" disk

approve_take-IsAtomic_example :
    IsAtomic selected_disk "CMD-2" (approve_take "U1" "S01" "T01" 4 "CMD-2" "t1" selected_disk)
approve_take-IsAtomic_example = approve_take-IsAtomic "U1" "S01" "T01" 4 "CMD-2" "t1" selected_disk

reject_take-IsAtomic_example :
    IsAtomic disk "CMD-2" (reject_take "U1" "S01" "T01" 4 "CMD-2" "t1" disk)
reject_take-IsAtomic_example = reject_take-IsAtomic "U1" "S01" "T01" 4 "CMD-2" "t1" disk

set_project_paused-IsAtomic_example :
    IsAtomic disk "CMD-2" (set_project_paused "U1" true 4 "CMD-2" "t1" disk)
set_project_paused-IsAtomic_example = set_project_paused-IsAtomic "U1" true 4 "CMD-2" "t1" disk

abbrev batch : List BatchTakeSelection
batch = record { shot_id = "S01"; take_id = "T02"; accept_warnings = false } ∷ []

review_takes_batch-IsAtomic_example :
    IsAtomic disk "CMD-2" (review_takes_batch (λ _. "U1") batch true 4 "CMD-2" "t1" disk)
review_takes_batch-IsAtomic_example =
    review_takes_batch-IsAtomic (λ _. "U1") batch true 4 "CMD-2" "t1" disk

batch_passes : validate_review_batch reviewing batch true ≡ ok tt
unfolding validate_review_batch check_selections check_selection ensure_undecided ensure_available
    ensure_idle contains lookup
batch_passes = refl

batch_change-IsCoherent_example :
    (t : ProjectState) × (batch_change [] batch true reviewing ≡ ok t) × IsCoherent (core t)
batch_change-IsCoherent_example =
    batch_change-IsCoherent [] batch true reviewing reviewing-IsValid.coherent batch_passes

select_take-approve_take_example : Approves disk "S01" "T01" (
    approve_take "U2" "S01" "T01" 5 "CMD-3" "t2"
      (select_take "U1" "S01" "T01" 4 "CMD-2" "t1" disk).1)
select_take-approve_take_example =
    select_take-approve_take "S01" "T01" disk shot "U1" "CMD-2" "t1" "U2" "CMD-3" "t2"
      reviewing-IsValid (omega arith) first-IsReviewable

approved :
    (t : ProjectState) × (d' : Disk) × (approve_take "U1" "S01" "T01" 4 "CMD-2" "t1" selected_disk
      ≡ (ok t, d'))
approved = (
  _,
  _,
  approve_take-ok "S01" "T01" selected_disk selected-IsValid "U1" "CMD-2" "t1" _ (omega arith)
      selected-IsReviewable refl,
)

-- The second take cannot be selected once the first is approved.
approve_take-final_example :
    select_take "U2" "S01" "T02" approved.1.state.revision "CMD-3" "t2" approved.1
    ≡ (err (shot_already_approved "S01"), approved.1)
approve_take-final_example =
    approve_take-final "U1" "S01" "T01" 4 "CMD-2" "t1" selected_disk approved.1 approved.0
      approved.2 "U2" "T02" "CMD-3" "t2"

rejected :
    (t : ProjectState) × (d' : Disk) × (reject_take "U1" "S01" "T01" 4 "CMD-2" "t1" disk
      ≡ (ok t, d'))
rejected =
    reject_take-ok "S01" "T01" disk reviewing-IsValid "U1" "CMD-2" "t1" shot (omega arith)
      first-IsReviewable

reject_take-final_example :
    select_take "U2" "S01" "T01" rejected.1.state.revision "CMD-3" "t2" rejected.1
    ≡ (err (take_rejected "T01"), rejected.1)
reject_take-final_example =
    reject_take-final "U1" "S01" "T01" 4 "CMD-2" "t1" disk rejected.1 rejected.0 rejected.2 "U2"
      "CMD-3" "t2"

-- A selection that was prepared.
abbrev decision : DecisionJournalRecord
decision = record {
  event_id = "DEC-1";
  kind = "take_selected";
  subject_id = "T01";
  command_id = "CMD-1";
  occurred_at = "t1";
  phase = prepared;
}

abbrev other_decision : DecisionJournalRecord
other_decision = record decision { command_id = "CMD-2" }

abbrev text_of : Option String → String
text_of none = ""
text_of (some s) = s

apart : ◌≢◌ {A = Option String} (some "CMD-1") (some "CMD-2")
apart e =
    let same : ◌≡◌ {A = String} "CMD-1" "CMD-2" = ap text_of e in
    let equal : str_eq "CMD-1" "CMD-2" ≡ true = (eq_iff "CMD-1" "CMD-2").1 same in cc equal

decision_history-before_write_example :
    (decision_history 10 (before_write disk other_decision)).0 ≡ (decision_history 10 disk).0
unfolding pending_for latest_from retain
decision_history-before_write_example =
    decision_history-before_write 10 disk other_decision refl tt refl reviewing-IsValid refl apart

abbrev request : OverrunRequest
request = record {
  scope = "wall:1";
  shot_id = "S01";
  operation = "audition";
  dimensions = "wall:1" ∷ [];
  reasons = "too long" ∷ [];
  incremental_wall_seconds = 60;
  incremental_disk_bytes = 0;
}

request_budget_overrun-IsRequest_example :
    IsRequest disk "CMD-2" (request_budget_overrun "U1" request 4 "CMD-2" "t1" disk)
request_budget_overrun-IsRequest_example =
    request_budget_overrun-IsRequest "U1" request "CMD-2" "t1" 4 disk

overrun-IsPending : IsPending asking "wall:1" overrun_pending
unfolding find is_open_for has_id
overrun-IsPending = record { overrun = overrun; open_request = refl; pending = refl }

request_budget_overrun-again_example :
    request_budget_overrun "U2" request 4 "CMD-3" "t2" asking_disk
    ≡ (ok (asking, overrun_pending), asking_disk)
request_budget_overrun-again_example =
    request_budget_overrun-again "U1" request 4 "CMD-2" "t1" asking_disk asking_disk asking
      overrun_pending
      (pending-answers "U1" request "CMD-2" "t1" asking_disk overrun_pending asking-IsValid
        overrun-IsPending)
      "U2" request "CMD-3" "t2" refl

approve_budget_overrun-IsAtomic_example :
    IsAtomic asking_disk "CMD-2" (approve_budget_overrun "U1" "APR-9" 4 "CMD-2" "t1" asking_disk)
approve_budget_overrun-IsAtomic_example =
    approve_budget_overrun-IsAtomic "U1" "APR-9" 4 "CMD-2" "t1" asking_disk

update_budget_contract-IsAtomic_example :
    IsAtomic asking_disk "CMD-2"
      (update_budget_contract "U1" default_contract 4 "CMD-2" "t1" asking_disk)
update_budget_contract-IsAtomic_example =
    update_budget_contract-IsAtomic "U1" default_contract 4 "CMD-2" "t1" asking_disk

selected-IsFresh : IsFresh "U1" "CMD-2" selected disk
unfolding pending_for latest_from retain
selected-IsFresh = record {
  valid = reviewing-IsValid;
  quiet = refl;
  coherent = selected-IsValid.coherent;
  revision = refl;
  room = omega arith;
  event = tt;
  command = tt;
  other = apart;
}

abbrev decided_disk : Disk
decided_disk = (save_decided "U1" "take_selected" "T01" selected 4 "CMD-2" "t1" disk).1

save_decided-decision_history_example : decision_history 10 decided_disk ≡ (
  ok (
      record {
        event_id = "DEC-U1";
        kind = "take_selected";
        subject_id = "T01";
        command_id = "CMD-2";
        occurred_at = "t1";
      }
      ∷ []),
  decided_disk,
)
unfolding committed_decisions latest_from order_from shown_all
save_decided-decision_history_example =
    save_decided-decision_history "U1" "take_selected" "T01" "CMD-2" "t1" selected disk
      selected-IsFresh 10 refl

save_uncommitted-decision_history_example :
    decision_history 10 (save_uncommitted "U1" "take_selected" "T01" selected 4 "CMD-2" "t1" disk).1
    ≡ decision_history 10 decided_disk
save_uncommitted-decision_history_example =
    save_uncommitted-decision_history "U1" "take_selected" "T01" "CMD-2" "t1" selected disk
      selected-IsFresh 10 refl

reviewing-IsFresh : IsFresh "U1" "CMD-2" reviewing disk
unfolding pending_for latest_from retain
reviewing-IsFresh = record {
  valid = reviewing-IsValid;
  quiet = refl;
  coherent = reviewing-IsValid.coherent;
  revision = refl;
  room = omega arith;
  event = tt;
  command = tt;
  other = apart;
}

select_take-Selects_example :
    Selects 10 "U1" "S01" "T01" "CMD-2" "t1" disk (select_take "U1" "S01" "T01" 4 "CMD-2" "t1" disk)
select_take-Selects_example =
    select_take-Selects "U1" "S01" "T01" "CMD-2" "t1" disk shot reviewing-IsFresh first-IsReviewable
      10 refl
