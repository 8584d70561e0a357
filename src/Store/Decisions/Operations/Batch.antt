-- ===== src/Store/Decisions/Operations/Batch.antt =====
-- A batch of decisions is carried out as a whole or not at all.
use spark_stage.Base.{
  ℕ, String, Bool, List, [], ◌∷◌, ◌++◌, map, ◌≡◌, refl, sym, ap, ◌∙◌, subst, ◌<◌, ◌+◌, arith,
  u64_max, append_assoc, append-nil, ok, ok_injective, then_iff, inl, inr, if◌then◌else◌,
}
use spark_stage.Domain.State.{ProjectState}
use spark_stage.Domain.Validate.{bump_revision}
use spark_stage.Domain.Validate.Validity.{core, IsCoherent, IsValid}
use spark_stage.Domain.Validate.Revision.{
  bumped, bumped-revision, bumped-command, bumped-IsValid, bump_revision-ok, bump_revision-IsValid,
}
use spark_stage.Store.Disk.{DecisionJournalRecord, Disk}
use spark_stage.Store.Journal.{new_decision, prepare_decision, append_decisions, commit}
use spark_stage.Store.Save.Laws.{
  Result-cases, commit_decisions_lem, recoverable, save_state_lem, open_state_cases, open_state-ok,
}
use spark_stage.Store.Save.Decided.{IsAtomic, IsChange, with_command}
use spark_stage.Store.Decisions.Guards.{BatchTakeSelection, validate_review_batch}
use spark_stage.Store.Decisions.Changes.{batch_change}
use spark_stage.Store.Decisions.Batches.{batch_change-IsCoherent}
use spark_stage.Store.Decisions.Operations.{prepare_batch, review_takes_batch}
use spark_stage.Store.Decisions.Operations.Sound.{batch_change-steady}

-- The decisions of a batch, one for each selection.
abbrev pub batch_decisions :
    (ulids : ℕ → String) (drawn : ℕ) (kind : String)
    → List BatchTakeSelection
    → (command_id now : String) → List DecisionJournalRecord
batch_decisions ulids drawn kind [] command_id now = []
batch_decisions ulids drawn kind (x ∷ rest) command_id now =
    new_decision (ulids drawn) kind x.take_id command_id now
    ∷ batch_decisions ulids (ℕ.suc drawn) kind rest command_id now

prepare_batch_lem :
    (ulids : ℕ → String) (drawn : ℕ) (kind : String) (selections : List BatchTakeSelection)
    (command_id now : String) (d : Disk)
    → let decisions = batch_decisions ulids drawn kind selections command_id now in
      prepare_batch ulids drawn kind selections command_id now d
      ≡ (ok decisions, record d { decisions = d.decisions ++ decisions })
unfolding prepare_batch prepare_decision append_decisions
prepare_batch_lem ulids drawn kind [] command_id now d = rw append-nil refl
prepare_batch_lem ulids drawn kind (x ∷ rest) command_id now d =
    let first = new_decision (ulids drawn) kind x.take_id command_id now in
    let d₁ = record d { decisions = d.decisions ++ first ∷ [] } in
    rw (prepare_batch_lem ulids (ℕ.suc drawn) kind rest command_id now d₁)
      (rw (append_assoc d.decisions (first ∷ []) _) refl)

pub batch-IsChange :
    (selections : List BatchTakeSelection) (approve : Bool)
    → IsChange (λ d s. batch_change d.recipes selections approve s)
unfolding batch_change
batch-IsChange selections approve = record {
  coherent = λ d s t h e.
      let (passed, _) = (then_iff (validate_review_batch s selections approve) _ t).0 e in
      let (t', e', good) = batch_change-IsCoherent d.recipes selections approve s h passed in
      subst (λ w. IsCoherent (core w)) (ok_injective (sym e' ∙ e)) good;
  steady = λ d. batch_change-steady d.recipes approve selections;
}

-- The kind of the decisions of a batch.
abbrev pub batch_kind : Bool → String
batch_kind approve = if approve then "take_approved_batch" else "take_selected_batch"

module _ (ulids : ℕ → String) (selections : List BatchTakeSelection) (approve : Bool)
    (command_id now : String) (d : Disk) (valid : IsValid d.state)
    (room : d.state.revision < u64_max) where
  -- On a valid state below the last revision, a batch whose change of the state succeeds is saved
  -- as one revision: the journal gains the prepared decisions in the order of the selections,
  -- what a crash had left, and then the committed decisions.
  pub review_takes_batch-saved :
      (t : ProjectState)
      → batch_change d.recipes selections approve d.state ≡ ok t
      → let decisions = batch_decisions ulids 0 (batch_kind approve) selections command_id now in
        let u = bumped (with_command command_id t) now in
        let prepared = d.decisions ++ decisions in
        review_takes_batch ulids selections approve d.state.revision command_id now d ≡ (
          ok u,
          record d {
            state = u;
            decisions =
                (prepared ++ map commit (recoverable d.state.last_command_id prepared))
                ++ map commit decisions;
          },
        )
  unfolding review_takes_batch
  review_takes_batch-saved t changed =
      let coherent =
        (batch-IsChange selections approve).coherent d d.state t valid.coherent changed in
      let steady = (batch-IsChange selections approve).steady d d.state t changed in
      let u = bumped (with_command command_id t) now in
      let decisions = batch_decisions ulids 0 (batch_kind approve) selections command_id now in
      let prepared = d.decisions ++ decisions in
      let d₁ = record d { decisions = prepared } in
      let bump : bump_revision (with_command command_id t) now ≡ ok u =
        bump_revision-ok (with_command command_id t) now coherent (omega (arith, steady, room)) in
      let saved =
        save_state_lem u d₁ valid (bumped-IsValid _ now coherent) room
          (bumped-revision _ now ∙ ap (λ n. n + 1) steady) in
      let d₂ = record d₁ {
        state = u;
        decisions = prepared ++ map commit (recoverable d.state.last_command_id prepared);
      } in
      rw (open_state-ok d valid) (
        rw changed (
          rw bump (
            rw (prepare_batch_lem ulids 0 (batch_kind approve) selections command_id now d)
              (rw saved (rw (commit_decisions_lem decisions d₂) refl)))))

-- From the revision that the batch expects.
review_takes_batch-IsAtomic_at :
    (ulids : ℕ → String) (selections : List BatchTakeSelection) (approve : Bool)
    (command_id now : String) (d : Disk)
    → IsValid d.state
    → IsAtomic d command_id
        (review_takes_batch ulids selections approve d.state.revision command_id now d)
unfolding review_takes_batch
review_takes_batch-IsAtomic_at ulids selections approve command_id now d valid =
    let sound = batch-IsChange selections approve in
    elim (Result-cases (batch_change d.recipes selections approve d.state)) [
      | inr (e, refused) ↦ rw (open_state-ok d valid) (rw refused refl)
      | inl (t, changed) ↦ elim (Result-cases (bump_revision (with_command command_id t) now)) [
        | inr (e, full) ↦ rw (open_state-ok d valid) (rw changed (rw full refl))
        | inl (u, done) ↦
            let (_, _, below) = bump_revision-IsValid (with_command command_id t) u now done in
            let steady = sound.steady d d.state t changed in
            let room : d.state.revision < u64_max = omega (arith, steady, below) in
            subst (IsAtomic d command_id)
              (sym (
                review_takes_batch-saved ulids selections approve command_id now d valid room t
                  changed))
              record {
                state = refl;
                valid =
                    bumped-IsValid (with_command command_id t) now
                      (sound.coherent d d.state t valid.coherent changed);
                revision = bumped-revision (with_command command_id t) now ∙ ap (λ n. n + 1) steady;
                command = bumped-command (with_command command_id t) now;
                recipes = refl;
              }
      ]
    ]

-- A batch of decisions, from any disk and with any arguments, either saves one valid state of the
-- next revision under the command, or fails and leaves the state and the journal as they were.
pub review_takes_batch-IsAtomic :
    (ulids : ℕ → String) (selections : List BatchTakeSelection) (approve : Bool) (expected : ℕ)
    (command_id now : String) (d : Disk)
    → IsAtomic d command_id (review_takes_batch ulids selections approve expected command_id now d)
unfolding review_takes_batch
review_takes_batch-IsAtomic ulids selections approve expected command_id now d =
    elim (open_state_cases expected d) [
      | inr (e, failed) ↦ rw failed refl
      | inl (valid, same, opened) ↦
          subst
            (λ n.
              IsAtomic d command_id
                (review_takes_batch ulids selections approve n command_id now d))
            same (review_takes_batch-IsAtomic_at ulids selections approve command_id now d valid)
    ]
