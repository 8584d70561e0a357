-- ===== src/Store/Decisions/Operations/Atomic.antt =====
-- Each decision on a take either saves the next revision or leaves every file as it was.
use spark_stage.Base.{String, Bool, ℕ, if◌then◌else◌}
use spark_stage.Store.Disk.{Disk}
use spark_stage.Store.Save.Decided.{IsAtomic, decide-IsAtomic}
use spark_stage.Store.Decisions.Operations.{
  set_project_paused, select_take, approve_take, reject_take,
}
use spark_stage.Store.Decisions.Operations.Sound.{
  pause-IsChange, select-IsChange, approve-IsChange, reject-IsChange,
}

-- Pausing or resuming a project either saves a valid state of the next revision under the
-- command, or fails and leaves the state and the journal as they were.
pub set_project_paused-IsAtomic :
    (ulid : String) (paused : Bool) (expected : ℕ) (command_id now : String) (d : Disk)
    → IsAtomic d command_id (set_project_paused ulid paused expected command_id now d)
unfolding set_project_paused
set_project_paused-IsAtomic ulid paused expected command_id now d =
    decide-IsAtomic _ (pause-IsChange paused) ulid
      (if paused then "project_paused" else "project_resumed") (λ s. s.project_id) command_id now
      expected d

-- Selecting a take, from any disk and with any arguments, either saves a valid state of the next
-- revision under the command, or fails and leaves the state and the journal as they were.
pub select_take-IsAtomic :
    (ulid shot_id take_id : String) (expected : ℕ) (command_id now : String) (d : Disk)
    → IsAtomic d command_id (select_take ulid shot_id take_id expected command_id now d)
unfolding select_take
select_take-IsAtomic ulid shot_id take_id expected command_id now d =
    decide-IsAtomic _ (select-IsChange shot_id take_id) ulid "take_selected" (λ _. take_id)
      command_id now expected d

-- Approving a take, from any disk and with any arguments, either saves a valid state of the next
-- revision under the command, or fails and leaves the state and the journal as they were.
pub approve_take-IsAtomic :
    (ulid shot_id take_id : String) (expected : ℕ) (command_id now : String) (d : Disk)
    → IsAtomic d command_id (approve_take ulid shot_id take_id expected command_id now d)
unfolding approve_take
approve_take-IsAtomic ulid shot_id take_id expected command_id now d =
    decide-IsAtomic _ (approve-IsChange shot_id take_id) ulid "take_approved" (λ _. take_id)
      command_id now expected d

-- Rejecting a take, from any disk and with any arguments, either saves a valid state of the next
-- revision under the command, or fails and leaves the state and the journal as they were.
pub reject_take-IsAtomic :
    (ulid shot_id take_id : String) (expected : ℕ) (command_id now : String) (d : Disk)
    → IsAtomic d command_id (reject_take ulid shot_id take_id expected command_id now d)
unfolding reject_take
reject_take-IsAtomic ulid shot_id take_id expected command_id now d =
    decide-IsAtomic _ (reject-IsChange shot_id take_id) ulid "take_rejected" (λ _. take_id)
      command_id now expected d
