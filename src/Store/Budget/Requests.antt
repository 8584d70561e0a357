-- ===== src/Store/Budget/Requests.antt =====
-- One open request for each scope: asking again gives the request that is pending.
use Prim.Native.String.{◌++◌ as str_append}
use spark_stage.Base.{
  find_last, last-alone, ℕ, String, Bool, true, Option, none, some, [], ◌∷◌, ◌++◌, Map, map, ◌≡◌,
  ◌<◌, ◌+◌, refl, sym, ap, ◌∙◌, subst, arith, eq_refl, find, values, insert, Option-cases, inl, inr,
  ◌⊎◌, u64_max, Result, ok, err, err-ne-ok, ok_injective,
}
use spark_stage.Domain.Project.{Approval}
use spark_stage.Domain.Budget.{BudgetOverrun}
use spark_stage.Domain.State.{ProjectState}
use spark_stage.Domain.Validate.{bump_revision}
use spark_stage.Domain.Validate.Validity.{IsValid}
use spark_stage.Domain.Validate.Revision.{
  bumped, bumped-revision, bumped-command, bump_revision-IsValid,
}
use spark_stage.Store.Errors.{StoreError}
use spark_stage.Store.Disk.{Disk}
use spark_stage.Store.Journal.{commit}
use spark_stage.Store.Save.Laws.{
  Result-cases, recoverable, save_state_lem, open_state_cases, open_state-ok,
}
use spark_stage.Store.Save.Decided.{IsSaved, with_command}
use spark_stage.Store.Budget.{
  OverrunRequest, is_open_for, has_id, overrun_approval, requested_overrun, request_change,
  request_found, request_budget_overrun,
}

find-insert :
    (p : BudgetOverrun → Bool) (k : String) (v : BudgetOverrun) (m : Map BudgetOverrun)
    → p v ≡ true
    → find p (values m) ≡ none
    → find p (values (insert k v m)) ≡ some v
unfolding find insert
find-insert p k v [] holds nothing = rw holds refl
find-insert p k v ((j, w) ∷ m) holds nothing = ground (arith, find-insert p k v m holds)

-- A request saves the next revision, or finds its answer and leaves every file as it was.
abbrev pub IsRequest : Disk → String → Result StoreError (ProjectState × Approval) × Disk → Type 0
IsRequest d command_id (ok (t, approval), d') =
    ((d' ≡ d) × (t ≡ d.state)) ⊎ IsSaved d command_id t d'
IsRequest d command_id (err e, d') = d' ≡ d

module _ (ulid : String) (r : OverrunRequest) (command_id now : String) where
  abbrev pub request_id : String
  request_id = str_append "APR-" ulid

  abbrev pub requested : ProjectState → ProjectState
  requested s = with_command command_id (request_change r request_id now s)

  requested-revision : (s : ProjectState) → (requested s).revision ≡ s.revision
  unfolding request_change
  requested-revision s = refl

  -- A request that is not open yet is saved, where its new state is valid.
  pub request_found-saved :
      (d : Disk) (t : ProjectState)
      → IsValid d.state
      → bump_revision (requested d.state) now ≡ ok t
      → (t ≡ bumped (requested d.state) now)
        × (request_found ulid r d.state none d.state.revision command_id now d ≡ (
          ok (t, overrun_approval r request_id now),
          record d {
            state = t;
            decisions = d.decisions ++ map commit (recoverable d.state.last_command_id d.decisions);
          },
        ))
  unfolding request_found
  request_found-saved d t valid done =
      let (valid', e, below) = bump_revision-IsValid (requested d.state) t now done in
      let steady = requested-revision d.state in
      let room : d.state.revision < u64_max = omega (arith, steady, below) in
      let next : t.revision ≡ d.state.revision + 1 =
        ap (λ w. w.revision) e ∙ bumped-revision (requested d.state) now ∙ ap (λ n. n + 1) steady in
      (e, rw done (rw (save_state_lem t d valid valid' room next) refl))

  request_found-IsRequest :
      (d : Disk) (o : Option BudgetOverrun)
      → IsValid d.state
      → IsRequest d command_id (request_found ulid r d.state o d.state.revision command_id now d)
  unfolding request_found
  request_found-IsRequest d (some o) valid =
      elim (Option-cases (find (has_id o.approval_id) d.state.pending_approvals)) [
        | inl absent ↦ rw absent refl
        | inr (a, there) ↦ rw there (inl (refl, refl))
      ]
  request_found-IsRequest d none valid =
      elim (Result-cases (bump_revision (requested d.state) now)) [
        | inr (e, refused) ↦ rw refused refl
        | inl (t, done) ↦
            let (e, saved) = request_found-saved d t valid done in
            let (valid', _, _) = bump_revision-IsValid (requested d.state) t now done in
            subst (IsRequest d command_id) (sym saved) (
              inr record {
                state = refl;
                valid = valid';
                revision =
                    ap (λ w. w.revision) e
                    ∙ bumped-revision (requested d.state) now
                    ∙ ap (λ n. n + 1) (requested-revision d.state);
                command = ap (λ w. w.last_command_id) e ∙ bumped-command (requested d.state) now;
                recipes = refl;
              })
      ]

  -- A request for an overrun either answers with the state as it stands and changes nothing, or
  -- saves a valid state of the next revision under the command, or fails and changes nothing.
  pub request_budget_overrun-IsRequest :
      (expected : ℕ) (d : Disk)
      → IsRequest d command_id (request_budget_overrun ulid r expected command_id now d)
  unfolding request_budget_overrun
  request_budget_overrun-IsRequest expected d = elim (open_state_cases expected d) [
    | inr (e, failed) ↦ rw failed refl
    | inl (valid, same, opened) ↦ rw opened (rw (← same) (request_found-IsRequest d _ valid))
  ]

-- The request of the scope is pending, with its approval.
pub record IsPending (s : ProjectState) (scope : String) (a : Approval) : Type 0 where
  pub overrun : BudgetOverrun
  pub open_request : find (is_open_for scope) (values s.budget.overruns) ≡ some overrun
  pub pending : find (has_id overrun.approval_id) s.pending_approvals ≡ some a

pub pending-answers :
    (ulid : String) (r : OverrunRequest) (command_id now : String) (d : Disk) (a : Approval)
    → IsValid d.state
    → IsPending d.state r.scope a
    → request_budget_overrun ulid r d.state.revision command_id now d ≡ (ok (d.state, a), d)
unfolding request_budget_overrun request_found
pending-answers ulid r command_id now d a valid p =
    rw (open_state-ok d valid) (rw p.open_request (rw p.pending refl))

opens :
    (r : OverrunRequest) (id now : String) → is_open_for r.scope (requested_overrun r id now) ≡ true
unfolding is_open_for requested_overrun
opens r id now = rw (eq_refl r.scope) refl

named : (r : OverrunRequest) (id now : String) → has_id id (overrun_approval r id now) ≡ true
unfolding has_id overrun_approval
named r id now = eq_refl id

-- A state that is valid after a new request has it pending.
requested-IsPending :
    (ulid : String) (r : OverrunRequest) (command_id now : String) (s : ProjectState)
    → find (is_open_for r.scope) (values s.budget.overruns) ≡ none
    → IsValid (bumped (requested ulid r command_id now s) now)
    → IsPending
        (bumped (requested ulid r command_id now s) now)
        r.scope
        (overrun_approval r (request_id ulid r command_id now) now)
unfolding bumped request_change has_id
requested-IsPending ulid r command_id now s nothing valid =
    let id = request_id ulid r command_id now in
    record {
      overrun = requested_overrun r id now;
      open_request =
          find-insert (is_open_for r.scope) id (requested_overrun r id now) s.budget.overruns
            (opens r id now) nothing;
      pending = find_last _ (overrun_approval r id now) s.pending_approvals (named r id now) (
          last-alone (λ a. a.approval_id) (overrun_approval r id now) s.pending_approvals
            valid.approval_ids);
    }

request_found-IsPending :
    (ulid : String) (r : OverrunRequest) (command_id now : String) (d d' : Disk)
    (o : Option BudgetOverrun) (t : ProjectState) (a : Approval)
    → IsValid d.state
    → find (is_open_for r.scope) (values d.state.budget.overruns) ≡ o
    → request_found ulid r d.state o d.state.revision command_id now d ≡ (ok (t, a), d')
    → IsValid d'.state × IsPending d'.state r.scope a
unfolding request_found
request_found-IsPending ulid r command_id now d d' (some o) t a valid found h =
    elim (Option-cases (find (has_id o.approval_id) d.state.pending_approvals)) [
      | inl absent ↦ absurd (err-ne-ok (ap (λ p. p.0) (rw (absent, request_found) at h)))
      | inr (b, there) ↦
          let e : (ok (d.state, b), d) ≡ (ok (t, a), d') = rw (there, request_found) at h in
          let same : b ≡ a = ap (λ p. p.1) (ok_injective (ap (λ p. p.0) e)) in
          subst (λ w. IsValid w.state × IsPending w.state r.scope a) (ap (λ p. p.1) e)
            (valid, record { overrun = o; open_request = found; pending = there ∙ ap some same })
    ]
request_found-IsPending ulid r command_id now d d' none t a valid found h =
    elim (Result-cases (bump_revision (requested ulid r command_id now d.state) now)) [
      | inr (e, refused) ↦ absurd (err-ne-ok (ap (λ p. p.0) (rw (refused, request_found) at h)))
      | inl (u, done) ↦
          let (e, saved) = request_found-saved ulid r command_id now d u valid done in
          let (valid', _, _) = bump_revision-IsValid _ u now done in
          let ends = sym saved ∙ h in
          let same = ap (λ p. p.1) (ok_injective (ap (λ p. p.0) ends)) in
          let written : u ≡ d'.state = ap (λ p. p.1.state) ends in
          let e' = sym e ∙ written in
          let pending =
            requested-IsPending ulid r command_id now d.state found (subst IsValid e valid') in
          (
            subst IsValid written valid',
            subst (λ w. IsPending w r.scope a) e' (subst (IsPending _ r.scope) same pending),
          )
    ]

-- After a request for an overrun succeeded, a request for the same scope at the new revision,
-- whatever else it says, answers with the same pending approval and changes nothing.
pub request_budget_overrun-again :
    (ulid : String) (r : OverrunRequest) (expected : ℕ) (command_id now : String) (d d' : Disk)
    (t : ProjectState) (a : Approval)
    → request_budget_overrun ulid r expected command_id now d ≡ (ok (t, a), d')
    → (other_ulid : String) (again : OverrunRequest) (other_command later : String)
    → again.scope ≡ r.scope
    → request_budget_overrun other_ulid again d'.state.revision other_command later d'
      ≡ (ok (d'.state, a), d')
unfolding request_budget_overrun
request_budget_overrun-again ulid r expected command_id now d d' t a h other_ulid again
      other_command later scope =
    elim (open_state_cases expected d) [
      | inr (e, failed) ↦
          absurd (err-ne-ok (ap (λ p. p.0) (rw (failed, request_budget_overrun) at h)))
      | inl (valid, same, opened) ↦
          let (valid', pending) =
            request_found-IsPending ulid r command_id now d d' _ t a valid refl
              (rw (opened, ← same, request_budget_overrun) at h) in
          pending-answers other_ulid again other_command later d' a valid'
            (subst (λ w. IsPending d'.state w a) (sym scope) pending)
    ]
