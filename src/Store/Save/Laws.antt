-- ===== src/Store/Save/Laws.antt =====
-- How the shared first and last lines of the operations end.
use mathlib.Core.List.{reverse}
use spark_stage.Base.{
  ◌&&◌, ℕ, String, true, false, Option, none, some, List, [], ◌∷◌, ◌++◌, map, ◌≡◌, refl, sym, ◌∙◌,
  ◌<◌, ◌+◌, ◌==◌, arith, append-nil, append_assoc, ==_refl, ==_iff, saturating_add-room, leb,
  u64_max, saturating_add, Result, ok, err, Bool-cases, inl, inr, ◌⊎◌,
}
use spark_stage.Domain.Errors.{StateInvariantError}
use spark_stage.Domain.State.{ProjectState}
use spark_stage.Domain.Validate.{validate}
use spark_stage.Domain.Validate.Validity.{IsValid}
use spark_stage.Domain.Validate.Exact.{validate_iff}
use spark_stage.Store.Errors.{StoreError, invariant, revision_conflict}
use spark_stage.Store.Disk.{DecisionJournalRecord, Disk}
use spark_stage.Store.Support.{ensure_revision}
use spark_stage.Store.Journal.{
  commit, commit_decisions, pending_for, recover_for, recover_decisions_for_state,
  committed_decisions, truncate,
}
use spark_stage.Store.Save.{decision_history, read_state, save_state, open_state, write_state}

pub Result-cases :
    {E A : Type 0} (r : Result E A) → ((a : A) × (r ≡ ok a)) ⊎ ((e : E) × (r ≡ err e))
Result-cases (ok a) = inl (a, refl)
Result-cases (err e) = inr (e, refl)

-- Committing appends a record of the second phase for each decision.
pub commit_decisions_lem :
    (records : List DecisionJournalRecord) (d : Disk)
    → commit_decisions records d
      ≡ (ok tt, record d { decisions = d.decisions ++ map commit records })
unfolding commit_decisions
commit_decisions_lem [] d = rw append-nil
commit_decisions_lem (r ∷ rest) d =
    rw (commit_decisions_lem rest (record d { decisions = d.decisions ++ commit r ∷ [] }))
      (rw append_assoc)

-- What recovery commits in the journal of a state.
abbrev pub recoverable : Option String → List DecisionJournalRecord → List DecisionJournalRecord
recoverable none records = []
recoverable (some command_id) records = pending_for command_id records

recover_for_lem :
    (command : Option String) (d : Disk)
    → recover_for command d ≡ (
      ok tt,
      record d { decisions = d.decisions ++ map commit (recoverable command d.decisions) },
    )
recover_for_lem none d = rw append-nil
recover_for_lem (some command_id) d = commit_decisions_lem (pending_for command_id d.decisions) d

pub recover_lem :
    (s : ProjectState) (d : Disk)
    → recover_decisions_for_state s d ≡ (
      ok tt,
      record d {
        decisions = d.decisions ++ map commit (recoverable s.last_command_id d.decisions);
      },
    )
unfolding recover_decisions_for_state
recover_lem s d = recover_for_lem s.last_command_id d

-- A valid state is read as it stands.
read_state-ok : (d : Disk) → IsValid d.state → read_state d ≡ (ok d.state, d)
unfolding read_state
read_state-ok d v = rw ((validate_iff d.state).1 v) refl

-- Saving the next revision of a valid state over it recovers its decisions and writes it.
pub save_state_lem :
    (t : ProjectState) (d : Disk)
    → IsValid d.state
    → IsValid t
    → d.state.revision < u64_max
    → t.revision ≡ d.state.revision + 1
    → save_state t d.state.revision d ≡ (
      ok tt,
      record d {
        state = t;
        decisions = d.decisions ++ map commit (recoverable d.state.last_command_id d.decisions);
      },
    )
unfolding save_state ensure_revision write_state
save_state_lem t d old new room next =
    let same : t.revision == saturating_add d.state.revision 1 ≡ true =
      (==_iff _ _).1 (next ∙ sym (saturating_add-room d.state.revision 1 (omega arith))) in
    rw (read_state-ok d old, recover_lem d.state d, ==_refl d.state.revision, same)
      (rw ((validate_iff t).1 new) refl)

read_state-bad :
    (d : Disk) (e : StateInvariantError)
    → validate d.state ≡ err e
    → read_state d ≡ (err (invariant e), d)
unfolding read_state
read_state-bad d e bad = rw bad

ensure_revision-same :
    (s : ProjectState) (expected : ℕ)
    → s.revision == expected ≡ true
    → ensure_revision s expected ≡ ok tt
unfolding ensure_revision
ensure_revision-same s expected h = rw h

ensure_revision-other :
    (s : ProjectState) (expected : ℕ)
    → s.revision == expected ≡ false
    → ensure_revision s expected ≡ err (revision_conflict expected s.revision)
unfolding ensure_revision
ensure_revision-other s expected h = rw h

-- A state is read as it stands, or the call fails and changes nothing.
pub open_state_cases :
    (expected : ℕ) (d : Disk)
    → (IsValid d.state × (d.state.revision ≡ expected) × (open_state expected d ≡ (ok d.state, d)))
      ⊎ ((e : StoreError) × (open_state expected d ≡ (err e, d)))
unfolding open_state
open_state_cases expected d = elim (Result-cases (validate d.state)) [
  | inr (e, bad) ↦ inr (invariant e, rw (read_state-bad d e bad))
  | inl (_, good) ↦ elim (Bool-cases (d.state.revision == expected)) [
    | inl same ↦ inl (
      (validate_iff d.state).0 good,
      (==_iff _ _).0 same,
      rw (
        read_state-ok d ((validate_iff d.state).0 good),
        ensure_revision-same d.state expected same,
      ),
    )
    | inr other ↦ inr (
      revision_conflict expected d.state.revision,
      rw (
        read_state-ok d ((validate_iff d.state).0 good),
        ensure_revision-other d.state expected other,
      ),
    )
  ]
]

pub open_state-ok : (d : Disk) → IsValid d.state → open_state d.state.revision d ≡ (ok d.state, d)
unfolding open_state
open_state-ok d valid =
    rw (read_state-ok d valid, ensure_revision-same d.state _ (==_refl d.state.revision)) refl

-- A disk with no decision left to recover for its state.
abbrev pub IsQuiet : Disk → Type 0
IsQuiet d = recoverable d.state.last_command_id d.decisions ≡ []

-- The history is that of the journal after recovery.
pub decision_history-ok :
    (limit : ℕ) (d : Disk)
    → leb 1 limit && leb limit 1000 ≡ true
    → IsValid d.state
    → let records = d.decisions ++ map commit (recoverable d.state.last_command_id d.decisions) in
      decision_history limit d ≡ (
        ok (truncate limit (reverse (committed_decisions records))),
        record d { decisions = records },
      )
unfolding decision_history
decision_history-ok limit d bounds valid =
    rw bounds (rw (read_state-ok d valid) (rw (recover_lem d.state d) refl))
