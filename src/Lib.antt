-- ===== src/Lib.antt =====
-- Verification of SparkStage, a tool that turns a script into shots, takes and builds. A project is
-- a directory with a state file, a journal of decisions and the recipes of its builds. Every client
-- (command line, terminal, worker) changes it through the operations of the project store.
--
-- Base: texts, lists, ordered maps, results and machine words as the source uses them.
-- Domain.Script, Domain.Project, Domain.Budget, Domain.State, Domain.Errors: the records of
--   src/domain/script.rs and src/domain/project.rs, field by field. Times and paths are texts.
-- Domain.Validate: `ProjectState::validate` and `bump_revision`. Its children say what a well-formed
--   state is (Validity) and relate the code to it (Parts, Shots, Exact, Revision).
-- Store.Errors: `StoreError` of src/store/mod.rs. Store.Support: src/store/project/support.rs, the
--   check of revisions and of project ids.
-- Store.Disk: the decoded files, and calls that pass them on. A call keeps what it has written also
--   when it then fails, so that a partial write is visible in a statement.
-- Store.Journal: decisions.jsonl, from src/store/project/decisions.rs: prepare, commit, recover, and
--   the history. Store.Save: `read_state` and `save_state` of src/store/project.rs, and the first
--   and last lines that the operations share; Save/Crash has calls that stopped early.
-- Store.Builds: src/store/project/builds.rs: which builds a decision or a script makes stale, the
--   changes of the state (Changes), the operations from starting a build to approving its review
--   (Operations), and the life of a build as a step relation (Lifecycle, Steps, Advance, Review).
-- Store.Jobs: the jobs of src/store/project.rs: enqueueing, reading and cancelling them;
--   its child Idle has the stage of a shot without a job.
-- Store.Calls: fifteen of these operations as calls that follow one another: pausing, the decisions on
--   takes, the overruns and the contract of the budget, the life of a build, and jobs.
-- Validation: src/validation.rs, the issues of a script bundle. The estimate of the spoken time is
--   compared in floating point, so that comparison is an argument.
-- Store.Decisions: selecting, approving and rejecting takes, batches of them, and pausing, from
--   src/store/project/decisions.rs: the guards (Guards), the change of the state (Changes) and the
--   whole operation (Operations).
-- Store.Budget: src/store/project/budget.rs.
-- Worker.Summary, Worker.Budget: src/worker/runtime/budget.rs, the estimates and the gate that each
--   generation passes; the gate reads what Store.Budget wrote. Its children compare the gate with plain
--   numbers (Exact). The free space that the system reports is an argument.
-- Build.Subtitles: src/build/subtitles.rs, the cues of a build and how they are written. An addition
--   of `u64` wraps there as in a release build; the hashes and the files of a track are left out.
-- Examples: a small project, with the properties applied to it.
--
-- An operation is a function from the disk to its result and the disk after it. The project lock
-- makes the calls of one project follow each other, so a call sees the disk that the last one left;
-- a crash is a disk that is between two writes of a call. `Ulid::new()` is an argument, for a batch a
-- function from the number of ids drawn so far. Revisions and amounts are natural numbers, with the
-- checked and saturating operations of `u64` written out. A `HashMap` has no order in the source; the
-- model visits one in the order of its keys. Decimal numbers are written with at most twenty digits,
-- which hold every `u64`.
--
-- Not modelled: reading and writing files, JSON, the lock, and the recovery of interrupted cleanup
-- plans, which has nothing to do where no plan is interrupted; in the store, `apply_bundle`,
-- `approve_script`, the references, the cleanup plans (creating one after an interrupted one saves two
-- revisions), and `save_state` called directly by the worker; and the parts outside the store that
-- work through it (command line, terminal, worker, adapters, media, the rest of the builds, portability).
pub mod Base
pub mod Domain
pub mod Store
pub mod Validation
pub mod Worker
pub mod Build
pub mod Examples
