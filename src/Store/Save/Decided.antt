-- ===== src/Store/Save/Decided.antt =====
-- How a call with one decision ends: it saves the next revision, or it changes nothing.
use spark_stage.Base.{
  ℕ, String, Option, some, List, [], ◌∷◌, ◌++◌, map, ◌≡◌, refl, sym, ap, ◌∙◌, ◌<◌, ◌+◌, arith,
  append_assoc, u64_max, Result, ok, err, err-ne-ok, ok_injective, inl, inr, subst,
}
use spark_stage.Domain.State.{ProjectState}
use spark_stage.Domain.Validate.{bump_revision}
use spark_stage.Domain.Validate.Validity.{core, IsCoherent, IsValid}
use spark_stage.Domain.Validate.Revision.{
  bumped, bumped-revision, bumped-command, bump_revision-ok, bump_revision-IsValid, bumped-IsValid,
}
use spark_stage.Store.Errors.{StoreError}
use spark_stage.Store.Disk.{DecisionJournalRecord, Disk, Action, ◌>>=◌, lift, get}
use spark_stage.Store.Journal.{
  new_decision, prepare_decision, append_decisions, commit, commit_decisions,
}
use spark_stage.Store.Save.{open_state, save_decided}
use spark_stage.Store.Save.Laws.{
  Result-cases, recoverable, save_state_lem, open_state_cases, open_state-ok,
}

-- What a call that saved the state with a command leaves behind.
pub record IsSaved (d : Disk) (command_id : String) (t : ProjectState) (d' : Disk) : Type 0 where
  pub state : d'.state ≡ t
  pub valid : IsValid t
  pub revision : t.revision ≡ d.state.revision + 1
  pub command : t.last_command_id ≡ some command_id
  pub recipes : d'.recipes ≡ d.recipes

-- A call saves the next revision or, with an error, leaves every file as it was.
abbrev pub IsAtomic : Disk → String → Result StoreError ProjectState × Disk → Type 0
IsAtomic d command_id (ok t, d') = IsSaved d command_id t d'
IsAtomic d command_id (err e, d') = d' ≡ d

-- The records of a call with one decision: it is prepared, what a crash left is committed, and then
-- the decision is.
abbrev pub decided :
    Option String → DecisionJournalRecord → List DecisionJournalRecord → List DecisionJournalRecord
decided last decision records =
    let prepared = records ++ decision ∷ [] in
    prepared ++ map commit (recoverable last prepared) ++ commit decision ∷ []

abbrev pub with_command : String → ProjectState → ProjectState
with_command command_id s = record s { last_command_id = some command_id }

pub save_decided_lem :
    (ulid kind subject_id : String) (s : ProjectState) (command_id now : String) (d : Disk)
    → IsValid d.state
    → IsCoherent (core s)
    → s.revision ≡ d.state.revision
    → d.state.revision < u64_max
    → save_decided ulid kind subject_id s d.state.revision command_id now d ≡ (
      ok (bumped (with_command command_id s) now),
      record d {
        state = bumped (with_command command_id s) now;
        decisions =
            decided d.state.last_command_id
              (new_decision ulid kind subject_id command_id now)
              d.decisions;
      },
    )
unfolding save_decided prepare_decision append_decisions commit_decisions
save_decided_lem ulid kind subject_id s command_id now d old coherent same room =
    let decision = new_decision ulid kind subject_id command_id now in
    let t = bumped (with_command command_id s) now in
    let d₁ = record d { decisions = d.decisions ++ decision ∷ [] } in
    let bump : bump_revision (with_command command_id s) now ≡ ok t =
      bump_revision-ok (with_command command_id s) now coherent (omega (arith, same, room)) in
    let saved =
      save_state_lem t d₁ old (bumped-IsValid _ now coherent) room
        (bumped-revision _ now ∙ ap (λ n. n + 1) same) in
    rw bump
      (rw saved (rw (append_assoc (d.decisions ++ decision ∷ []) _ (commit decision ∷ [])) refl))

-- Saving with one decision is atomic; at the last revision it fails before it writes anything.
save_decided-IsAtomic :
    (ulid kind subject_id : String) (s : ProjectState) (command_id now : String) (d : Disk)
    → IsValid d.state
    → IsCoherent (core s)
    → s.revision ≡ d.state.revision
    → IsAtomic d command_id (save_decided ulid kind subject_id s d.state.revision command_id now d)
unfolding save_decided
save_decided-IsAtomic ulid kind subject_id s command_id now d old coherent same =
    let u = with_command command_id s in
    elim (Result-cases (bump_revision u now)) [
      | inr (e, full) ↦ rw full refl
      | inl (t, done) ↦
          let (_, _, room) = bump_revision-IsValid u t now done in
          let room' : d.state.revision < u64_max = omega (arith, same, room) in
          subst (IsAtomic d command_id)
            (sym (save_decided_lem ulid kind subject_id s command_id now d old coherent same room'))
            record {
              state = refl;
              valid = bumped-IsValid u now coherent;
              revision = bumped-revision u now ∙ ap (λ n. n + 1) same;
              command = bumped-command u now;
              recipes = refl;
            }
    ]

-- A change of the state that keeps it coherent, and its revision as it was.
pub record IsChange (change : Disk → ProjectState → Result StoreError ProjectState) : Type 0 where
  pub coherent :
      (d : Disk) (s t : ProjectState)
      → IsCoherent (core s)
      → change d s ≡ ok t
      → IsCoherent (core t)
  pub steady : (d : Disk) (s t : ProjectState) → change d s ≡ ok t → t.revision ≡ s.revision

module _ (change : Disk → ProjectState → Result StoreError ProjectState) (sound : IsChange change)
    (ulid kind : String) (subject_of : ProjectState → String) (command_id now : String) where
  abbrev pub decide : ℕ → Action ProjectState
  decide expected = do
    s ← open_state expected
    d ← get
    t ← lift (change d s)
    save_decided ulid kind (subject_of s) t expected command_id now

  pub decide-IsAtomic : (expected : ℕ) (d : Disk) → IsAtomic d command_id (decide expected d)
  decide-IsAtomic expected d = elim (open_state_cases expected d) [
    | inr (e, failed) ↦ rw failed refl
    | inl (valid, same, opened) ↦ elim (Result-cases (change d d.state)) [
      | inr (e, refused) ↦ rw opened (rw refused refl)
      | inl (t, changed) ↦ rw opened (
          rw changed (
            rw (← same) (
              save_decided-IsAtomic ulid kind (subject_of d.state) t command_id now d valid
                (sound.coherent d d.state t valid.coherent changed)
                (sound.steady d d.state t changed))))
    ]
  ]

  -- A change that succeeds is carried through, below the last revision.
  pub decide-ok :
      (d : Disk) (t : ProjectState)
      → IsValid d.state
      → d.state.revision < u64_max
      → change d d.state ≡ ok t
      → decide d.state.revision d ≡ (
        ok (bumped (with_command command_id t) now),
        record d {
          state = bumped (with_command command_id t) now;
          decisions =
              decided d.state.last_command_id
                (new_decision ulid kind (subject_of d.state) command_id now)
                d.decisions;
        },
      )
  decide-ok d t valid room changed = rw (open_state-ok d valid) (
      rw changed (
        save_decided_lem ulid kind (subject_of d.state) t command_id now d valid
          (sound.coherent d d.state t valid.coherent changed) (sound.steady d d.state t changed)
          room))

  -- A change that is refused refuses the call.
  pub decide-err :
      (d : Disk) (e : StoreError)
      → IsValid d.state
      → change d d.state ≡ err e
      → decide d.state.revision d ≡ (err e, d)
  decide-err d e valid refused = rw (open_state-ok d valid) (rw refused refl)

  -- What a call that succeeds went through.
  pub decide-inverse :
      (expected : ℕ) (d d' : Disk) (t : ProjectState)
      → decide expected d ≡ (ok t, d')
      → (u : ProjectState) × (change d d.state ≡ ok u)
        × (t ≡ bumped (with_command command_id u) now)
        × (d'.state ≡ t)
        × IsValid t
  unfolding save_decided
  decide-inverse expected d d' t h = elim (open_state_cases expected d) [
    | inr (e, failed) ↦ absurd (err-ne-ok (ap (λ p. p.0) (rw (decide, failed) at h)))
    | inl (valid, same, opened) ↦ elim (Result-cases (change d d.state)) [
      | inr (e, refused) ↦ absurd (err-ne-ok (ap (λ p. p.0) (rw (decide, opened, refused) at h)))
      | inl (u, changed) ↦ elim (Result-cases (bump_revision (with_command command_id u) now)) [
        | inr (e, full) ↦
            absurd
              (err-ne-ok (ap (λ p. p.0) (rw (decide, opened, changed, save_decided, full) at h)))
        | inl (v, done) ↦
            let (_, _, below) = bump_revision-IsValid (with_command command_id u) v now done in
            let steady = sound.steady d d.state u changed in
            let room : d.state.revision < u64_max = omega (arith, steady, below) in
            let here = subst (λ n. decide n d ≡ (ok t, d')) (sym same) h in
            let e = sym (decide-ok d u valid room changed) ∙ here in
            let ends = ok_injective (ap (λ p. p.0) e) in
            (
              u,
              changed,
              sym ends,
              sym (ap (λ p. p.1.state) e) ∙ ends,
              rw (← ends) (
                  bumped-IsValid (with_command command_id u) now
                    (sound.coherent d d.state u valid.coherent changed)),
            )
      ]
    ]
  ]
