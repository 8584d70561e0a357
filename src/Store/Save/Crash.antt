-- ===== src/Store/Save/Crash.antt =====
-- A crash inside a call with one decision, before the state is written and after it:
-- `decision_history` of src/store/project/decisions.rs on what the call left.
use Prim.Native.String.{◌++◌ as str_append}
use mathlib.Core.List.{reverse, reverse-append}
use spark_stage.Base.{
  ℕ, String, Bool, true, false, Option, none, some, List, [], ◌∷◌, ◌++◌, Map, ◌≡◌, ◌≢◌, refl, arith,
  ◌&&◌, leb, retain, values, insert, append-nil, eq_iff, ok, ◌+◌, ◌<◌, ◌∙◌, ap, u64_max,
}
use spark_stage.Domain.State.{ProjectState}
use spark_stage.Domain.Validate.{bump_revision}
use spark_stage.Domain.Validate.Validity.{core, IsCoherent, IsValid}
use spark_stage.Domain.Validate.Revision.{bumped, bumped-revision, bump_revision-ok, bumped-IsValid}
use spark_stage.Store.Disk.{prepared, DecisionJournalRecord, Disk}
use spark_stage.Store.Journal.{
  new_decision, prepare_decision, append_decisions, latest_from, commit, pending_for,
  committed_decisions, to_decision, truncate,
}
use spark_stage.Store.Journal.Laws.{IsNewEvent, latest_from-append}
use spark_stage.Store.Journal.History.{
  IsNewCommand, waits_for, history-prepared, history-committed, pending_for-new,
  pending_for-committed,
}
use spark_stage.Store.Save.{decision_history, save_decided, save_uncommitted}
use spark_stage.Store.Save.Laws.{recoverable, IsQuiet, save_state_lem, decision_history-ok}
use spark_stage.Store.Save.Decided.{with_command, save_decided_lem}

-- The disk where a call stopped after it prepared the decision, after it wrote the state, and at its
-- end.
abbrev pub before_write : Disk → DecisionJournalRecord → Disk
before_write d r = record d { decisions = d.decisions ++ r ∷ [] }

abbrev before_commit : Disk → ProjectState → DecisionJournalRecord → Disk
before_commit d t r = record d { state = t; decisions = d.decisions ++ r ∷ [] }

abbrev finished : Disk → ProjectState → DecisionJournalRecord → Disk
finished d t r = record d { state = t; decisions = (d.decisions ++ r ∷ []) ++ commit r ∷ [] }

retain-insert_none :
    (p : DecisionJournalRecord → Bool) (k : String) (v : DecisionJournalRecord)
    (m : Map DecisionJournalRecord)
    → p v ≡ false
    → retain p (values m) ≡ []
    → retain p (values (insert k v m)) ≡ []
unfolding retain insert
retain-insert_none p k v [] fails h = rw fails refl
retain-insert_none p k v ((j, w) ∷ m) fails h = ground (arith, retain-insert_none p k v m fails)

-- A decision of another command is not recovered.
recoverable-other :
    (last : Option String) (r : DecisionJournalRecord) (xs : List DecisionJournalRecord)
    → last ≢ some r.command_id
    → recoverable last xs ≡ []
    → recoverable last (xs ++ r ∷ []) ≡ []
unfolding pending_for latest_from
recoverable-other none r xs other quiet = refl
recoverable-other (some c) r xs other quiet =
    let fails : waits_for c r ≡ false = ground (arith, eq_iff r.command_id c, other) in
    rw (latest_from-append [] xs (r ∷ []))
      (retain-insert_none (waits_for c) r.event_id r (latest_from [] xs) fails quiet)

module _ (limit : ℕ) (d : Disk) (r : DecisionJournalRecord)
    (bounds : leb 1 limit && leb limit 1000 ≡ true) (new : IsNewEvent r.event_id d.decisions)
    (phase : r.phase ≡ prepared) where
  -- Where a call stopped after it prepared a decision of a new event and before it wrote the
  -- state, on a disk with a valid state, nothing to recover and another last command, the history
  -- is the one before the call.
  pub decision_history-before_write :
      IsValid d.state
      → IsQuiet d
      → d.state.last_command_id ≢ some r.command_id
      → (decision_history limit (before_write d r)).0 ≡ (decision_history limit d).0
  decision_history-before_write valid quiet other =
      rw
        (
          decision_history-ok limit d bounds valid,
          decision_history-ok limit (before_write d r) bounds valid,
        )
        (rw (quiet, recoverable-other d.state.last_command_id r d.decisions other quiet)
          (rw
            (
              append-nil d.decisions,
              append-nil (d.decisions ++ r ∷ []),
              history-prepared r d.decisions new phase,
            )
            refl))

-- What saving a state with one decision needs to succeed, on a disk where nothing is left to recover
-- and neither the event nor the command was used before.
pub record IsFresh (ulid command_id : String) (s : ProjectState) (d : Disk) : Type 0 where
  pub valid : IsValid d.state
  pub quiet : IsQuiet d
  pub coherent : IsCoherent (core s)
  pub revision : s.revision ≡ d.state.revision
  pub room : d.state.revision < u64_max
  pub event : IsNewEvent (str_append "DEC-" ulid) d.decisions
  pub command : IsNewCommand command_id d.decisions
  pub other : d.state.last_command_id ≢ some command_id

module _ (ulid kind subject_id command_id now : String) (s : ProjectState) (d : Disk)
    (fresh : IsFresh ulid command_id s d) where
  abbrev decided_state : ProjectState
  decided_state = bumped (with_command command_id s) now

  abbrev decision : DecisionJournalRecord
  decision = new_decision ulid kind subject_id command_id now

  nothing_left : recoverable d.state.last_command_id (d.decisions ++ decision ∷ []) ≡ []
  unfolding new_decision
  nothing_left =
      recoverable-other d.state.last_command_id decision d.decisions fresh.other fresh.quiet

  bump-decided : bump_revision (with_command command_id s) now ≡ ok decided_state
  bump-decided =
      bump_revision-ok (with_command command_id s) now fresh.coherent
        (omega (arith, fresh.revision, fresh.room))

  decided-IsValid : IsValid decided_state
  decided-IsValid = bumped-IsValid (with_command command_id s) now fresh.coherent

  save_decided-fresh :
      save_decided ulid kind subject_id s d.state.revision command_id now d
      ≡ (ok decided_state, finished d decided_state decision)
  save_decided-fresh =
      rw
        (save_decided_lem ulid kind subject_id s command_id now d fresh.valid fresh.coherent
          fresh.revision fresh.room)
        (rw nothing_left (rw (append-nil (d.decisions ++ decision ∷ [])) refl))

  save_uncommitted-fresh :
      save_uncommitted ulid kind subject_id s d.state.revision command_id now d
      ≡ (ok tt, before_commit d decided_state decision)
  unfolding save_uncommitted prepare_decision append_decisions
  save_uncommitted-fresh =
      let saved =
        save_state_lem decided_state (before_write d decision) fresh.valid decided-IsValid
          fresh.room (bumped-revision _ now ∙ ap (λ n. n + 1) fresh.revision) in
      rw bump-decided (rw saved (rw nothing_left (rw (append-nil (d.decisions ++ decision ∷ [])))))

  module _ (limit : ℕ) (bounds : leb 1 limit && leb limit 1000 ≡ true) where
    -- On a disk with a valid state and nothing to recover, after a coherent state of the same
    -- revision, below the last, is saved with one decision, whose event and command are new to
    -- the journal and whose command is not the last, the history, read with a limit from 1 to
    -- 1000, is that decision and then the history before, newest first, cut at the limit, and
    -- reading it leaves the disk as it is.
    pub save_decided-decision_history :
        let after = (save_decided ulid kind subject_id s d.state.revision command_id now d).1 in
        decision_history limit after ≡ (
          ok (
              truncate limit (
                record {
                  event_id = str_append "DEC-" ulid;
                  kind = kind;
                  subject_id = subject_id;
                  command_id = command_id;
                  occurred_at = now;
                }
                ∷ reverse (committed_decisions d.decisions))),
          after,
        )
    unfolding new_decision bumped
    save_decided-decision_history = rw save_decided-fresh (
        rw (decision_history-ok limit (finished d decided_state decision) bounds decided-IsValid) (
          rw (pending_for-committed command_id decision d.decisions fresh.command) (
            rw
              (
                append-nil ((d.decisions ++ decision ∷ []) ++ commit decision ∷ []),
                history-committed decision d.decisions fresh.event,
              )
              (rw (reverse-append (committed_decisions d.decisions) (to_decision decision ∷ []))
                refl))))

    -- On a disk with a valid state and nothing to recover, a coherent state of the same revision,
    -- below the last, is saved with one decision, whose event and command are new to the journal
    -- and whose command is not the last: where the process stops after the state is written and
    -- before the decision is committed, reading the history, with a limit from 1 to 1000, gives
    -- the same answer and leaves the same disk as after the whole call.
    pub save_uncommitted-decision_history :
        decision_history limit
          (save_uncommitted ulid kind subject_id s d.state.revision command_id now d).1
        ≡ decision_history limit
            (save_decided ulid kind subject_id s d.state.revision command_id now d).1
    unfolding new_decision bumped
    save_uncommitted-decision_history = rw (save_decided-decision_history) (
        rw (save_uncommitted-fresh, save_decided-fresh)
          (rw
            (decision_history-ok limit (before_commit d decided_state decision) bounds
              decided-IsValid)
            (rw (pending_for-new command_id decision d.decisions fresh.command refl refl) (
              rw (history-committed decision d.decisions fresh.event) (
                rw (reverse-append (committed_decisions d.decisions) (to_decision decision ∷ []))
                  refl)))))
