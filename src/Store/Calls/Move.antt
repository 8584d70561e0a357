-- ===== src/Store/Calls/Move.antt =====
-- What a call may do to the state: nothing, or save one valid revision with one step of one build.
use spark_stage.Base.{String, ◌≡◌, ◌⊎◌, ◌+◌, sym, ap, ◌∙◌, subst, inl, inr, Result, ok, err}
use spark_stage.Domain.Project.{Approval}
use spark_stage.Domain.State.{ProjectState}
use spark_stage.Domain.Validate.Validity.{IsValid}
use spark_stage.Store.Errors.{StoreError}
use spark_stage.Store.Disk.{Disk}
use spark_stage.Store.Save.Decided.{IsAtomic, IsSaved}
use spark_stage.Store.Save.Ends.{left}
use spark_stage.Store.Builds.Lifecycle.{BuildStep}
use spark_stage.Store.Builds.Atomic.{IsAnswer}
use spark_stage.Store.Builds.Advance.{Advances}
use spark_stage.Store.Budget.Requests.{IsRequest}

pub record IsRevision (before after : ProjectState) : Type 0 where
  pub valid : IsValid after
  pub revision : after.revision ≡ before.revision + 1
  pub builds : BuildStep before.builds after.builds

abbrev pub Move : ProjectState → ProjectState → Type 0
Move before after = (after ≡ before) ⊎ IsRevision before after

saved-Move :
    (d d' : Disk) (command_id : String) (t : ProjectState)
    → IsSaved d command_id t d'
    → Advances d d'.state
    → Move d.state d'.state
saved-Move d d' command_id t h a = inr record {
  valid = subst IsValid (sym h.state) h.valid;
  revision = ap (λ w. w.revision) h.state ∙ h.revision;
  builds = a;
}

pub atomic-Move :
    (d : Disk) (command_id : String) (r : Result StoreError ProjectState × Disk)
    → IsAtomic d command_id r
    → Advances d (left r)
    → Move d.state (left r)
atomic-Move d command_id (ok t, d') h a = saved-Move d d' command_id t h a
atomic-Move d command_id (err e, d') h a = inl (ap (λ w. w.state) h)

pub answer-Move :
    (d : Disk) (command_id : String) (r : Result StoreError ProjectState × Disk)
    → IsAnswer d command_id r
    → Advances d (left r)
    → Move d.state (left r)
answer-Move d command_id (ok t, d') (inl (same, _)) a = inl (ap (λ w. w.state) same)
answer-Move d command_id (ok t, d') (inr h) a = saved-Move d d' command_id t h a
answer-Move d command_id (err e, d') h a = inl (ap (λ w. w.state) h)

pub request-Move :
    (d : Disk) (command_id : String) (r : Result StoreError (ProjectState × Approval) × Disk)
    → IsRequest d command_id r
    → Advances d (left r)
    → Move d.state (left r)
request-Move d command_id (ok (t, a), d') (inl (same, _)) b = inl (ap (λ w. w.state) same)
request-Move d command_id (ok (t, a), d') (inr h) b = saved-Move d d' command_id t h b
request-Move d command_id (err e, d') h b = inl (ap (λ w. w.state) h)
