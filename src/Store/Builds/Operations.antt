-- ===== src/Store/Builds/Operations.antt =====
-- The operations on builds, from reading the state to saving it: src/store/project/builds.rs.
use spark_stage.Base.{ℕ, String, Bool, Option, str_eq, if◌then◌else◌}
use spark_stage.Domain.Project.{BuildRecord, FilePath}
use spark_stage.Domain.State.{ProjectState}
use spark_stage.Store.Disk.{Action, ◌>>=◌, ◌>>◌, pure, lift, get}
use spark_stage.Store.Save.{open_state, save_revision, save_decided, append_event}
use spark_stage.Store.Builds.Changes.{
  start_change, is_unowned, owned_build, backfill, run_change, finish_change, review_subject,
  review_change,
}

unfoldable pub start_build :
    BuildRecord → (expected : ℕ) → (command_id now : String) → Action ProjectState
unfolding open_state save_revision start_change
start_build build expected command_id now = do
  s ← open_state expected
  t ← lift (start_change build command_id s)
  save_revision t expected command_id now

-- A build that runs already is left to run, and saved only where the command takes it.
unfoldable pub mark_running_found :
    (ulid build_id : String)
    → BuildRecord
    → ProjectState
    → (expected : ℕ) → (command_id now : String) → Action ProjectState
unfolding save_revision run_change backfill append_event
mark_running_found ulid build_id build s expected command_id now =
    if str_eq build.status "running"
    then if is_unowned build
      then save_revision (backfill build build_id command_id s) expected command_id now
      else pure s
    else (lift (run_change build build_id command_id s) >>= λ t.
        save_revision t expected command_id now >>= λ u.
        append_event ulid "build_started" build_id command_id now >> pure u)

unfoldable pub mark_build_running :
    (ulid build_id : String) (expected : ℕ) (command_id now : String) → Action ProjectState
unfolding open_state owned_build mark_running_found
mark_build_running ulid build_id expected command_id now = do
  s ← open_state expected
  build ← lift (owned_build build_id command_id s)
  mark_running_found ulid build_id build s expected command_id now

-- The ids of the approval and of the event are drawn in this order.
unfoldable pub finish_build :
    (ulid event_ulid build_id : String) (output_path : Option FilePath) (error : Option String)
    (stale : Bool) (expected : ℕ) (command_id now : String)
    → Action ProjectState
unfolding open_state save_revision finish_change append_event
finish_build ulid event_ulid build_id output_path error stale expected command_id now = do
  s ← open_state expected
  d ← get
  t ← lift (finish_change d.files ulid build_id output_path error stale now s)
  u ← save_revision t expected command_id now
  append_event event_ulid "build_finished" build_id command_id now
  pure u

unfoldable pub approve_build_review :
    (ulid approval_id : String) (expected : ℕ) (command_id now : String) → Action ProjectState
unfolding open_state save_decided review_subject review_change
approve_build_review ulid approval_id expected command_id now = do
  s ← open_state expected
  d ← get
  found ← lift (review_subject approval_id s)
  t ← lift (review_change d.files approval_id found s)
  save_decided ulid "build_approved" (found.1) t expected command_id now
