-- ===== src/Examples/Builds.antt =====
-- A project with a queued build, and calls on it.
use spark_stage.Base.{
  is_blank, any, contains, for_each, retain, update, all, contains_key, components,
  inner_components, is_absolute, is_normal, is_whitespace, split, checked_add, saturating_add,
  String, false, none, some, List, [], ◌∷◌, ◌≡◌, ◌≤◌, refl, arith, ok, lookup,
}
use spark_stage.Domain.Project.{BuildRecord}
use spark_stage.Domain.State.{ProjectState}
use spark_stage.Domain.State.{refresh_derived_outcome, derived_outcome}
use spark_stage.Domain.Budget.{validate_contract}
use spark_stage.Domain.Validate.{
  bump_revision, validate, active_missing, outcome_mismatch, check_approval_ids, check_take,
  check_shot, check_shot_takes, check_decision, check_approved, check_candidate_approval,
  check_candidate, check_budget_approval, check_reference, check_rejected, reference_is_invalid,
}
use spark_stage.Store.Support.{ensure_revision}
use spark_stage.Store.Journal.{
  recover_decisions_for_state, pending_for, commit_decisions, latest_from,
}
use spark_stage.Store.Save.{
  open_state, read_state, save_revision, save_state, append_event, write_state,
}
use spark_stage.Store.Builds.{build_is_active, valid_project_relative_path}
use spark_stage.Store.Builds.Changes.{
  finish_change, deliver_change, is_other_review, review_approval, deliver_build,
}
use spark_stage.Domain.Validate.Validity.{IsValid}
use spark_stage.Store.Disk.{Disk}
use spark_stage.Store.Builds.Operations.{finish_build, approve_build_review}
use spark_stage.Store.Builds.Review.{IsReviewed, finish_build-approve_build_review}
use spark_stage.Store.Builds.Lifecycle.{status_of, IsExclusive}
use spark_stage.Store.Calls.{Operation, Call, carry_out, run_calls}
use spark_stage.Store.Calls.Move.{Move}
use spark_stage.Store.Calls.Steps.{carry_out-Move}
use spark_stage.Store.Calls.Runs.{
  run_calls-IsValid, run_calls-revision, run_calls-IsExclusive, run_calls-approved,
}
use spark_stage.Examples.Project.{disk, reviewing, reviewing-IsValid}

abbrev build : String → BuildRecord
build status = record {
  build_id = "BLD-1";
  kind = "final";
  status = status;
  recipe = "builds/one.json";
  command_id = "CMD-2";
  output_path = none;
  warnings = [];
  stale = false;
}

-- A build is started, marked as running and finished.
abbrev calls : List Call
calls =
    record {
      operation = Operation.start (build "queued");
      expected = 4;
      command_id = "CMD-2";
      now = "t1";
    }
    ∷ record {
      operation = Operation.mark_running "U1" "BLD-1";
      expected = 5;
      command_id = "CMD-2";
      now = "t2";
    }
    ∷ record {
      operation = Operation.finish "U2" "U3" "BLD-1" (some "out/final.mp4") none false;
      expected = 6;
      command_id = "CMD-2";
      now = "t3";
    }
    ∷ []

carry_out-Move_example :
    Move disk.state (carry_out (Operation.start (build "queued")) 4 "CMD-2" "t1" disk).state
carry_out-Move_example = carry_out-Move (Operation.start (build "queued")) 4 "CMD-2" "t1" disk

run_calls-IsValid_example : IsValid (run_calls calls disk).state
run_calls-IsValid_example = run_calls-IsValid calls disk reviewing-IsValid

run_calls-revision_example :
    (4 ≤ (run_calls calls disk).state.revision) × ((run_calls calls disk).state.revision ≤ 7)
run_calls-revision_example = run_calls-revision calls disk

-- A project with one build.
abbrev with_build : String → Disk
with_build status = record disk {
  state = record reviewing { builds = ("BLD-1", build status) ∷ [] };
}

no_builds-IsExclusive : IsExclusive disk.state.builds
unfolding lookup
no_builds-IsExclusive i j hi hj = absurd (cc hi)

run_calls-IsExclusive_example : IsExclusive (run_calls calls disk).state.builds
run_calls-IsExclusive_example = run_calls-IsExclusive calls disk no_builds-IsExclusive

approved-status : status_of "BLD-1" (with_build "approved").state.builds ≡ some "approved"
unfolding lookup
approved-status = refl

-- The second build is started, marked as running and finished, and its review is approved, beside the
-- first one.
abbrev next_calls : List Call
next_calls =
    record {
      operation = Operation.start (record (build "queued") { build_id = "BLD-2" });
      expected = 4;
      command_id = "CMD-2";
      now = "t1";
    }
    ∷ record {
      operation = Operation.mark_running "U1" "BLD-2";
      expected = 5;
      command_id = "CMD-2";
      now = "t2";
    }
    ∷ record {
      operation = Operation.finish "U2" "U3" "BLD-2" (some "out/final.mp4") none false;
      expected = 6;
      command_id = "CMD-2";
      now = "t3";
    }
    ∷ record {
      operation = Operation.approve_build "U4" "APR-U2";
      expected = 7;
      command_id = "CMD-3";
      now = "t4";
    }
    ∷ []

run_calls-approved_example :
    status_of "BLD-1" (run_calls next_calls (with_build "approved")).state.builds ≡ some "approved"
run_calls-approved_example =
    run_calls-approved "BLD-1" next_calls (with_build "approved") approved-status

finished :
    (t : ProjectState) × (d' : Disk) × (finish_build "U2" "U3" "BLD-1"
        (some "out/final.mp4")
        none
        false
        4
        "CMD-2"
        "t3"
        (with_build "running")
      ≡ (ok t, d'))
unfolding finish_build open_state read_state save_revision save_state append_event finish_change
    deliver_change ensure_revision build_is_active valid_project_relative_path
    recover_decisions_for_state pending_for commit_decisions write_state bump_revision
    refresh_derived_outcome derived_outcome is_other_review review_approval deliver_build validate
    validate_contract is_blank active_missing outcome_mismatch any check_approval_ids contains
    for_each retain check_take check_shot check_shot_takes lookup update check_decision
    check_approved check_candidate_approval check_candidate all contains_key components
    inner_components is_absolute is_normal is_whitespace split check_budget_approval check_reference
    check_rejected reference_is_invalid checked_add saturating_add latest_from
finished = (_, _, refl)

finish_build-approve_build_review_example :
    (build : BuildRecord) × (lookup "BLD-1" (with_build "running").state.builds ≡ some build)
    × ((u : ProjectState) × (d″ : Disk) × (approve_build_review "U4" "APR-U2"
            finished.1.state.revision "CMD-3" "t4" finished.1
          ≡ (ok u, d″))
        × (d″.state ≡ u)
        × IsReviewed "BLD-1" build "APR-U2" u)
unfolding finished
finish_build-approve_build_review_example =
    finish_build-approve_build_review "U2" "U3" "BLD-1" (some "out/final.mp4") false 4 "CMD-2" "t3"
      (with_build "running") finished.1 finished.0 finished.2 (omega arith) "U4" "CMD-3" "t4"
