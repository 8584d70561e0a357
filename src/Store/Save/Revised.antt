-- ===== src/Store/Save/Revised.antt =====
-- How a call that records no decision ends: it saves the next revision, or it changes nothing.
use spark_stage.Base.{
  ℕ, String, List, ◌++◌, map, ◌≡◌, refl, sym, ap, ◌∙◌, ◌+◌, arith, Result, ok, err, err-ne-ok,
  ok_injective, inl, inr, subst,
}
use spark_stage.Domain.State.{ProjectState}
use spark_stage.Domain.Validate.{bump_revision}
use spark_stage.Domain.Validate.Validity.{IsValid}
use spark_stage.Domain.Validate.Revision.{
  bumped, bumped-revision, bumped-command, bump_revision-IsValid,
}
use spark_stage.Store.Errors.{StoreError}
use spark_stage.Store.Disk.{DecisionJournalRecord, Disk, Action, ◌>>=◌, ◌>>◌, lift, get, pure}
use spark_stage.Store.Journal.{commit}
use spark_stage.Store.Save.{open_state, save_revision, append_event}
use spark_stage.Store.Save.Laws.{Result-cases, recoverable, save_state_lem, open_state_cases}
use spark_stage.Store.Save.Decided.{IsAtomic, with_command}

-- The journal after `save_state` committed what a crash had left.
abbrev pub recovered : Disk → List DecisionJournalRecord
recovered d = d.decisions ++ map commit (recoverable d.state.last_command_id d.decisions)

-- The revision is saved, or nothing is written: what `bump_revision` says decides.
pub save_revision_lem :
    (s t : ProjectState) (command_id now : String) (d : Disk)
    → IsValid d.state
    → s.revision ≡ d.state.revision
    → bump_revision (with_command command_id s) now ≡ ok t
    → save_revision s d.state.revision command_id now d
      ≡ (ok t, record d { state = t; decisions = recovered d })
unfolding save_revision
save_revision_lem s t command_id now d old same done =
    let u = with_command command_id s in
    let (valid, e, room) = bump_revision-IsValid u t now done in
    let next : t.revision ≡ d.state.revision + 1 =
      ap (λ w. w.revision) e ∙ bumped-revision u now ∙ ap (λ n. n + 1) same in
    rw done (rw (save_state_lem t d old valid (omega (arith, same, room)) next) refl)

pub save_revision-IsAtomic :
    (s : ProjectState) (command_id now : String) (d : Disk)
    → IsValid d.state
    → s.revision ≡ d.state.revision
    → IsAtomic d command_id (save_revision s d.state.revision command_id now d)
unfolding save_revision
save_revision-IsAtomic s command_id now d old same =
    let u = with_command command_id s in
    elim (Result-cases (bump_revision u now)) [
      | inr (e, full) ↦ rw full refl
      | inl (t, done) ↦
          let (valid, e, _) = bump_revision-IsValid u t now done in
          subst (IsAtomic d command_id) (sym (save_revision_lem s t command_id now d old same done))
            record {
              state = refl;
              valid = valid;
              revision = ap (λ w. w.revision) e ∙ bumped-revision u now ∙ ap (λ n. n + 1) same;
              command = ap (λ w. w.last_command_id) e ∙ bumped-command u now;
              recipes = refl;
            }
    ]

-- What a call of `save_revision` that succeeds has done.
pub save_revision-inverse :
    (s t : ProjectState) (command_id now : String) (d d' : Disk)
    → IsValid d.state
    → s.revision ≡ d.state.revision
    → save_revision s d.state.revision command_id now d ≡ (ok t, d')
    → (t ≡ bumped (with_command command_id s) now)
      × IsValid t
      × (d' ≡ record d { state = t; decisions = recovered d })
unfolding save_revision
save_revision-inverse s t command_id now d d' old same h =
    let u = with_command command_id s in
    elim (Result-cases (bump_revision u now)) [
      | inr (e, full) ↦ absurd (err-ne-ok (ap (λ p. p.0) (rw (full, save_revision) at h)))
      | inl (v, done) ↦
          let (valid, e, _) = bump_revision-IsValid u v now done in
          let ends = sym (save_revision_lem s v command_id now d old same done) ∙ h in
          let same' = ok_injective (ap (λ p. p.0) ends) in
          (
            sym same' ∙ e,
            subst IsValid same' valid,
            sym (ap (λ p. p.1) ends)
                ∙ ap (λ w. record d { state = w; decisions = recovered d }) same',
          )
    ]

-- An event after a call adds a line and changes nothing else.
abbrev pub logged :
    (ulid kind subject_id command_id now : String) → Action ProjectState → Action ProjectState
logged ulid kind subject_id command_id now m =
    m >>= λ t. append_event ulid kind subject_id command_id now >> pure t

module _ (ulid kind subject_id command_id now : String) where
  abbrev pub with_event : Disk → Disk
  with_event d = (append_event ulid kind subject_id command_id now d).1

  pub with_event-state : (d : Disk) → (with_event d).state ≡ d.state
  unfolding append_event
  with_event-state d = refl

  -- `m` is given by the disk it starts from and how it ends.
  pub logged-IsAtomic :
      (m : Action ProjectState) (d : Disk)
      → IsAtomic d command_id (m d)
      → IsAtomic d command_id (logged ulid kind subject_id command_id now m d)
  unfolding append_event
  logged-IsAtomic m d = go (m d)
    where
      go :
          (r : Result StoreError ProjectState × Disk)
          → IsAtomic d command_id r
          → IsAtomic d command_id (logged ulid kind subject_id command_id now (λ _. r) d)
      go (err e, d') h = h
      go (ok t, d') h = record {
        state = h.state;
        valid = h.valid;
        revision = h.revision;
        command = h.command;
        recipes = h.recipes;
      }

  pub logged-inverse :
      (m : Action ProjectState) (d d' : Disk) (t : ProjectState)
      → logged ulid kind subject_id command_id now m d ≡ (ok t, d')
      → (d₁ : Disk) × (m d ≡ (ok t, d₁)) × (d' ≡ with_event d₁)
  unfolding append_event
  logged-inverse m d d' t = go (m d)
    where
      go :
          (r : Result StoreError ProjectState × Disk)
          → logged ulid kind subject_id command_id now (λ _. r) d ≡ (ok t, d')
          → (d₁ : Disk) × (r ≡ (ok t, d₁)) × (d' ≡ with_event d₁)
      go (err e, d₁) h = absurd (err-ne-ok (ap (λ p. p.0) h))
      go (ok u, d₁) h =
          (d₁, ap (λ w. (ok w, d₁)) (ok_injective (ap (λ p. p.0) h)), sym (ap (λ p. p.1) h))

-- A change of the state saved as a revision: the shape of an operation with no decision.
module _ (change : Disk → ProjectState → Result StoreError ProjectState)
    (steady : (d : Disk) (s t : ProjectState) → change d s ≡ ok t → t.revision ≡ s.revision)
    (command_id now : String) where
  abbrev pub revise : ℕ → Action ProjectState
  revise expected = do
    s ← open_state expected
    d ← get
    t ← lift (change d s)
    save_revision t expected command_id now

  pub revise-IsAtomic : (expected : ℕ) (d : Disk) → IsAtomic d command_id (revise expected d)
  revise-IsAtomic expected d = elim (open_state_cases expected d) [
    | inr (e, failed) ↦ rw failed refl
    | inl (valid, same, opened) ↦ elim (Result-cases (change d d.state)) [
      | inr (e, refused) ↦ rw opened (rw refused refl)
      | inl (t, changed) ↦ rw opened (
          rw changed (
            rw (← same)
              (save_revision-IsAtomic t command_id now d valid (steady d d.state t changed))))
    ]
  ]

  -- What a call that succeeds went through.
  pub revise-inverse :
      (expected : ℕ) (d d' : Disk) (t : ProjectState)
      → revise expected d ≡ (ok t, d')
      → (u : ProjectState) × (change d d.state ≡ ok u)
        × IsValid d.state
        × (t ≡ bumped (with_command command_id u) now)
        × IsValid t
        × (d' ≡ record d { state = t; decisions = recovered d })
  revise-inverse expected d d' t h = elim (open_state_cases expected d) [
    | inr (e, failed) ↦ absurd (err-ne-ok (ap (λ p. p.0) (rw (revise, failed) at h)))
    | inl (valid, same, opened) ↦ elim (Result-cases (change d d.state)) [
      | inr (e, refused) ↦ absurd (err-ne-ok (ap (λ p. p.0) (rw (revise, opened, refused) at h)))
      | inl (u, changed) ↦
          let (e, valid', e') =
            save_revision-inverse u t command_id now d d' valid (steady d d.state u changed)
              (rw (revise, opened, changed, ← same) at h) in
          (u, changed, valid, e, valid', e')
    ]
  ]

-- The same, with an event at the end.
module _ (change : Disk → ProjectState → Result StoreError ProjectState)
    (steady : (d : Disk) (s t : ProjectState) → change d s ≡ ok t → t.revision ≡ s.revision)
    (ulid kind subject_id command_id now : String) where
  abbrev pub revise_logged : ℕ → Action ProjectState
  revise_logged expected = do
    s ← open_state expected
    d ← get
    t ← lift (change d s)
    logged ulid kind subject_id command_id now (save_revision t expected command_id now)

  revise_logged-logged :
      (expected : ℕ) (d : Disk)
      → revise_logged expected d
        ≡ logged ulid kind subject_id command_id now
            (revise change steady command_id now expected)
            d
  revise_logged-logged expected d = elim (open_state_cases expected d) [
    | inr (e, failed) ↦ rw failed refl
    | inl (_, _, opened) ↦ elim (Result-cases (change d d.state)) [
      | inr (e, refused) ↦ rw opened (rw refused refl)
      | inl (t, changed) ↦ rw opened (rw changed refl)
    ]
  ]

  pub revise_logged-IsAtomic :
      (expected : ℕ) (d : Disk) → IsAtomic d command_id (revise_logged expected d)
  revise_logged-IsAtomic expected d =
      subst (IsAtomic d command_id) (sym (revise_logged-logged expected d)) (
        logged-IsAtomic ulid kind subject_id command_id now
          (revise change steady command_id now expected) d
          (revise-IsAtomic change steady command_id now expected d))

  pub revise_logged-inverse :
      (expected : ℕ) (d d' : Disk) (t : ProjectState)
      → revise_logged expected d ≡ (ok t, d')
      → (u : ProjectState) × (change d d.state ≡ ok u)
        × IsValid d.state
        × (t ≡ bumped (with_command command_id u) now)
        × IsValid t
        × (d'
            ≡ with_event ulid kind subject_id command_id now
                (record d { state = t; decisions = recovered d }))
  revise_logged-inverse expected d d' t h =
      let (d₁, h₁, e₁) =
        logged-inverse ulid kind subject_id command_id now
          (revise change steady command_id now expected) d d' t
          (sym (revise_logged-logged expected d) ∙ h) in
      let (u, changed, valid, e, valid', e₂) =
        revise-inverse change steady command_id now expected d d₁ t h₁ in
      (u, changed, valid, e, valid', e₁ ∙ ap (with_event ulid kind subject_id command_id now) e₂)
