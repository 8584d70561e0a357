-- ===== src/Store/Calls/Runs.antt =====
-- Sequences of calls of the operations of Store.Calls, however they end.
use spark_stage.Base.{
  String, some, List, [], ◌∷◌, ◌≡◌, ◌≤◌, ◌+◌, sym, ap, subst, inl, inr, arith, length,
}
use spark_stage.Domain.State.{ProjectState}
use spark_stage.Domain.Validate.Validity.{IsValid}
use spark_stage.Store.Disk.{Disk}
use spark_stage.Store.Builds.Lifecycle.{status_of, IsExclusive, step-IsExclusive, step-approved}
use spark_stage.Store.Calls.{Call, carry_out, run_calls}
use spark_stage.Store.Calls.Move.{IsRevision}
use spark_stage.Store.Calls.Steps.{carry_out-Move}

-- What one call keeps, a sequence of calls keeps.
run-keeps :
    (Q : ProjectState → Type 0)
    → ((before after : ProjectState) → IsRevision before after → Q before → Q after)
    → (calls : List Call) (d : Disk) → Q d.state
    → Q (run_calls calls d).state
unfolding run_calls
run-keeps Q kept [] d h = h
run-keeps Q kept (c ∷ calls) d h =
    run-keeps Q kept calls (carry_out c.operation c.expected c.command_id c.now d)
      (elim (carry_out-Move c.operation c.expected c.command_id c.now d) [
        | inl same ↦ subst Q (sym same) h
        | inr revision ↦ kept d.state _ revision h
      ])

-- From a valid state, any sequence of calls of fifteen operations of the store (pausing, deciding
-- on takes one by one or in a batch, requesting and approving overruns, changing the budget
-- contract, starting, running, finishing and approving a build, and enqueueing and cancelling a
-- job), whether they succeed or fail, leaves a valid state.
pub run_calls-IsValid :
    (calls : List Call) (d : Disk) → IsValid d.state → IsValid (run_calls calls d).state
run_calls-IsValid = run-keeps IsValid (λ before after h _. h.valid)

-- Any sequence of calls of fifteen operations of the store (pausing, deciding on takes one by one
-- or in a batch, requesting and approving overruns, changing the budget contract, starting,
-- running, finishing and approving a build, and enqueueing and cancelling a job) raises the
-- revision by at most one for each call, and never lowers it.
pub run_calls-revision :
    (calls : List Call) (d : Disk)
    → (d.state.revision ≤ (run_calls calls d).state.revision)
      × ((run_calls calls d).state.revision ≤ d.state.revision + length calls)
unfolding run_calls
run_calls-revision [] d = (omega arith, omega arith)
run_calls-revision (c ∷ calls) d =
    let d₁ = carry_out c.operation c.expected c.command_id c.now d in
    let (low, high) = run_calls-revision calls d₁ in
    elim (carry_out-Move c.operation c.expected c.command_id c.now d) [
      | inl same ↦
          let e : d₁.state.revision ≡ d.state.revision = ap (λ w. w.revision) same in
          (omega (arith, e, low), omega (arith, e, high))
      | inr h ↦ (omega (arith, h.revision, low), omega (arith, h.revision, high))
    ]

-- Where at most one build is active, at most one is active after any sequence of calls of fifteen
-- operations of the store (pausing, deciding on takes one by one or in a batch, requesting and
-- approving overruns, changing the budget contract, starting, running, finishing and approving a
-- build, and enqueueing and cancelling a job).
pub run_calls-IsExclusive :
    (calls : List Call) (d : Disk)
    → IsExclusive d.state.builds
    → IsExclusive (run_calls calls d).state.builds
run_calls-IsExclusive =
    run-keeps (λ s. IsExclusive s.builds)
      (λ before after h. step-IsExclusive before.builds after.builds h.builds)

-- An approved build stays approved whatever calls of fifteen operations of the store follow
-- (pausing, deciding on takes one by one or in a batch, requesting and approving overruns,
-- changing the budget contract, starting, running, finishing and approving a build, and
-- enqueueing and cancelling a job).
pub run_calls-approved :
    (id : String) (calls : List Call) (d : Disk)
    → status_of id d.state.builds ≡ some "approved"
    → status_of id (run_calls calls d).state.builds ≡ some "approved"
run_calls-approved id =
    run-keeps (λ s. status_of id s.builds ≡ some "approved")
      (λ before after h. step-approved before.builds after.builds h.builds id)
