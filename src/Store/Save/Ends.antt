-- ===== src/Store/Save/Ends.antt =====
-- What holds of the state that a call leaves: it is the state before, or the changed one, bumped.
use spark_stage.Base.{ℕ, String, ◌≡◌, refl, sym, ap, subst, Result, ok, err, inl, inr}
use spark_stage.Domain.State.{ProjectState}
use spark_stage.Domain.Validate.{bump_revision}
use spark_stage.Domain.Validate.Validity.{IsValid}
use spark_stage.Domain.Validate.Revision.{bumped, bump_revision-IsValid}
use spark_stage.Store.Errors.{StoreError}
use spark_stage.Store.Disk.{Disk, Action}
use spark_stage.Store.Save.{save_revision, append_event}
use spark_stage.Store.Save.Laws.{Result-cases}
use spark_stage.Store.Save.Decided.{
  IsAtomic, IsChange, with_command, decide, decide-IsAtomic, decide-inverse,
}
use spark_stage.Store.Save.Revised.{
  save_revision_lem, revise, revise-IsAtomic, revise-inverse, logged, revise_logged,
  revise_logged-IsAtomic, revise_logged-inverse,
}

-- The state after a call.
abbrev pub left {ℓ} : {A : Type ℓ} → Result StoreError A × Disk → ProjectState
left (r, d) = d.state

module _ (Q : ProjectState → Type 0) where
  -- An atomic call leaves the state before it or the one that it answers with.
  pub atomic-ends :
      (d : Disk) (command_id : String) (r : Result StoreError ProjectState × Disk)
      → IsAtomic d command_id r
      → Q d.state
      → ((t : ProjectState) (d' : Disk) → r ≡ (ok t, d') → Q t)
      → Q (left r)
  atomic-ends d command_id (ok t, d') h before after = subst Q (sym h.state) (after t d' refl)
  atomic-ends d command_id (err e, d') h before after = subst Q (ap (λ w. w.state) (sym h)) before

  pub save_revision-ends :
      (s : ProjectState) (command_id now : String) (d : Disk)
      → IsValid d.state
      → s.revision ≡ d.state.revision
      → Q d.state
      → Q (bumped (with_command command_id s) now)
      → Q (left (save_revision s d.state.revision command_id now d))
  unfolding save_revision
  save_revision-ends s command_id now d valid same before after =
      elim (Result-cases (bump_revision (with_command command_id s) now)) [
        | inr (e, full) ↦ rw full before
        | inl (t, done) ↦
            let (_, e, _) = bump_revision-IsValid (with_command command_id s) t now done in
            subst (λ r. Q (left r)) (sym (save_revision_lem s t command_id now d valid same done))
              (subst Q (sym e) after)
      ]

  pub logged-ends :
      (ulid kind subject_id command_id now : String) (m : Action ProjectState) (d : Disk)
      → Q (left (m d))
      → Q (left (logged ulid kind subject_id command_id now m d))
  unfolding append_event
  logged-ends ulid kind subject_id command_id now m d = go (m d)
    where
      go :
          (r : Result StoreError ProjectState × Disk)
          → Q (left r)
          → Q (left (logged ulid kind subject_id command_id now (λ _. r) d))
      go (err e, d') h = h
      go (ok t, d') h = h

  module _ (change : Disk → ProjectState → Result StoreError ProjectState) (command_id now : String)
      (expected : ℕ) (d : Disk) (before : Q d.state)
      (after : (u : ProjectState)
        → change d d.state ≡ ok u
        → Q (bumped (with_command command_id u) now)) where
    pub decide-ends :
        (sound : IsChange change) (ulid kind : String) (subject_of : ProjectState → String)
        → Q (left (decide change sound ulid kind subject_of command_id now expected d))
    decide-ends sound ulid kind subject_of =
        let r = decide change sound ulid kind subject_of command_id now expected d in
        atomic-ends d command_id r
          (decide-IsAtomic change sound ulid kind subject_of command_id now expected d) before
          (λ t d' h.
            let (u, changed, e, _, _) =
              decide-inverse change sound ulid kind subject_of command_id now expected d d' t h in
            subst Q (sym e) (after u changed))

    module _
        (steady : (d : Disk) (s t : ProjectState)
          → change d s ≡ ok t
          → t.revision ≡ s.revision) where
      pub revise-ends : Q (left (revise change steady command_id now expected d))
      revise-ends =
          atomic-ends d command_id (revise change steady command_id now expected d)
            (revise-IsAtomic change steady command_id now expected d) before
            (λ t d' h.
              let (u, changed, _, e, _, _) =
                revise-inverse change steady command_id now expected d d' t h in
              subst Q (sym e) (after u changed))

      pub revise_logged-ends :
          (ulid kind subject_id : String)
          → Q (left (revise_logged change steady ulid kind subject_id command_id now expected d))
      revise_logged-ends ulid kind subject_id =
          atomic-ends d command_id _
            (revise_logged-IsAtomic change steady ulid kind subject_id command_id now expected d)
            before
            (λ t d' h.
              let (u, changed, _, e, _, _) =
                revise_logged-inverse change steady ulid kind subject_id command_id now expected d
                  d' t h in
              subst Q (sym e) (after u changed))
