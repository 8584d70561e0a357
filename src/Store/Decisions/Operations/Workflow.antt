-- ===== src/Store/Decisions/Operations/Workflow.antt =====
-- Decisions on one take after another: what a decision leaves possible, and what it rules out.
use spark_stage.Base.{
  ℕ, String, some, ◌≡◌, refl, sym, ap, ◌∙◌, ◌<◌, ◌+◌, arith, u64_max, lookup, lookup-update,
  eq_refl, Result, ok, err, ok_injective, guard, In_last, is_text, then_iff, >>=-eq-ok, subst,
}
use spark_stage.Domain.Project.{ShotRuntimeState}
use spark_stage.Domain.State.{ProjectState}
use spark_stage.Domain.Validate.Validity.{IsValid}
use spark_stage.Domain.Validate.Revision.{bumped, bumped-IsValid}
use spark_stage.Store.Errors.{StoreError, shot_already_approved, take_rejected, take_not_selected}
use spark_stage.Store.Disk.{Disk}
use spark_stage.Store.Builds.{mark_builds_stale_for_decision, mark_build_ids_stale}
use spark_stage.Store.Journal.{new_decision}
use spark_stage.Store.Save.Decided.{decided, with_command, decide-ok, decide-err, decide-inverse}
use spark_stage.Store.Decisions.Guards.{
  ensure_reviewable, ensure_undecided, ensure_available, ensure_idle,
}
use spark_stage.Store.Decisions.Guards.Exact.{
  IsReviewable, ensure_reviewable-rejected, ensure_reviewable_iff,
}
use spark_stage.Store.Decisions.Changes.{
  settle, select_shot, select_change, approve_shot, approve_change, reject_shot, reject_change,
}
use spark_stage.Store.Decisions.Operations.{select_take, approve_take, reject_take}
use spark_stage.Store.Decisions.Operations.Sound.{
  select-IsChange, approve-IsChange, reject-IsChange,
}
use spark_stage.Store.Decisions.Operations.After.{
  after, after-found, after-revision, select_change-ok, approve_change-ok, reject_change-ok,
  select-IsReviewable, settled-IsCoherent, select_change-rejected,
}

module _ (shot_id take_id : String) (d : Disk) (valid : IsValid d.state) where
  -- On a valid state below the last revision, selecting a take that can be reviewed succeeds: the
  -- state is settled on the take, and the journal gains the prepared decision, what a crash had
  -- left, and the committed decision.
  pub select_take-ok :
      (ulid command_id now : String) (shot : ShotRuntimeState)
      → d.state.revision < u64_max
      → IsReviewable d.state shot_id take_id shot
      → let t = after d.recipes shot_id take_id (select_shot take_id) d.state command_id now in
        select_take ulid shot_id take_id d.state.revision command_id now d ≡ (
          ok t,
          record d {
            state = t;
            decisions =
                decided d.state.last_command_id
                  (new_decision ulid "take_selected" take_id command_id now)
                  d.decisions;
          },
        )
  unfolding select_take
  select_take-ok ulid command_id now shot room r =
      decide-ok _ (select-IsChange shot_id take_id) ulid "take_selected" (λ _. take_id) command_id
        now d (settle d.recipes shot_id take_id (select_shot take_id) d.state) valid room
        (select_change-ok d.recipes shot_id take_id d.state shot r)

  pub reject_take-ok :
      (ulid command_id now : String) (shot : ShotRuntimeState)
      → d.state.revision < u64_max
      → IsReviewable d.state shot_id take_id shot
      → (t : ProjectState) × (d' : Disk) × (reject_take ulid shot_id take_id d.state.revision
            command_id now d
          ≡ (ok t, d'))
  unfolding reject_take
  reject_take-ok ulid command_id now shot room r =
      let (u, changed) = reject_change-ok d.recipes shot_id take_id d.state shot r in
      (
        _,
        _,
        decide-ok _ (reject-IsChange shot_id take_id) ulid "take_rejected" (λ _. take_id) command_id
            now d u valid room changed,
      )

  pub approve_take-ok :
      (ulid command_id now : String) (shot : ShotRuntimeState)
      → d.state.revision < u64_max
      → IsReviewable d.state shot_id take_id shot
      → shot.selected_candidate_take_id ≡ some take_id
      → let t = after d.recipes shot_id take_id (approve_shot take_id) d.state command_id now in
        approve_take ulid shot_id take_id d.state.revision command_id now d ≡ (
          ok t,
          record d {
            state = t;
            decisions =
                decided d.state.last_command_id
                  (new_decision ulid "take_approved" take_id command_id now)
                  d.decisions;
          },
        )
  unfolding approve_take
  approve_take-ok ulid command_id now shot room r chosen =
      decide-ok _ (approve-IsChange shot_id take_id) ulid "take_approved" (λ _. take_id) command_id
        now d (settle d.recipes shot_id take_id (approve_shot take_id) d.state) valid room
        (approve_change-ok d.recipes shot_id take_id d.state shot r chosen)

-- What a call that approved a take has done.
approve_take-inverse :
    (ulid shot_id take_id : String) (expected : ℕ) (command_id now : String) (d d' : Disk)
    (t : ProjectState)
    → approve_take ulid shot_id take_id expected command_id now d ≡ (ok t, d')
    → (shot : ShotRuntimeState) × IsReviewable d.state shot_id take_id shot
      × (d'.state ≡ after d.recipes shot_id take_id (approve_shot take_id) d.state command_id now)
      × IsValid d'.state
unfolding approve_take approve_change
approve_take-inverse ulid shot_id take_id expected command_id now d d' t h =
    let (u, changed, e, e', valid) =
      decide-inverse _ (approve-IsChange shot_id take_id) ulid "take_approved" (λ _. take_id)
        command_id now expected d d' t h in
    let (shot, passed, more) = >>=-eq-ok (ensure_reviewable d.state shot_id take_id) _ changed in
    let test = is_text shot.selected_candidate_take_id take_id in
    let (_, same) = (then_iff (guard test (take_not_selected take_id)) _ u).0 more in
    (
      shot,
      (ensure_reviewable_iff d.state shot_id take_id shot).0 passed,
      e' ∙ e ∙ ap (λ w. bumped (with_command command_id w) now) (sym (ok_injective same)),
      subst IsValid (sym e') valid,
    )

-- Once a take of a shot is approved, selecting any take of that shot at the new revision is
-- refused as already approved, and nothing changes.
pub approve_take-final :
    (ulid shot_id take_id : String) (expected : ℕ) (command_id now : String) (d d' : Disk)
    (t : ProjectState)
    → approve_take ulid shot_id take_id expected command_id now d ≡ (ok t, d')
    → (other_ulid other_take other_command later : String)
    → select_take other_ulid shot_id other_take d'.state.revision other_command later d'
      ≡ (err (shot_already_approved shot_id), d')
unfolding select_take select_change ensure_reviewable ensure_undecided ensure_idle approve_shot
approve_take-final ulid shot_id take_id expected command_id now d d' t h other_ulid other_take
      other_command later =
    let (shot, r, e, valid) =
      approve_take-inverse ulid shot_id take_id expected command_id now d d' t h in
    let found =
      after-found d.recipes shot_id take_id (approve_shot take_id) d.state command_id now shot
        r.open_shot.found in
    let there : lookup shot_id d'.state.shots ≡ some (approve_shot take_id shot) =
      ap (λ w. lookup shot_id w.shots) e ∙ found in
    decide-err _ (select-IsChange shot_id other_take) other_ulid "take_selected" (λ _. other_take)
      other_command later d' (shot_already_approved shot_id) valid
      (rw there (rw r.open_shot.idle refl))

-- The call approved the take of the shot.
pub record Approves (d : Disk) (shot_id take_id : String)
    (outcome : Result StoreError ProjectState × Disk) : Type 0 where
  pub result : ProjectState
  pub succeeds : outcome.0 ≡ ok result
  pub written : outcome.1.state ≡ result
  pub twice : result.revision ≡ d.state.revision + 2
  pub shot : ShotRuntimeState
  pub found : lookup shot_id result.shots ≡ some shot
  pub approved : shot.approved_take_id ≡ some take_id
  pub selected : shot.selected_candidate_take_id ≡ some take_id

-- From a valid state at least two revisions below the last, a take that can be reviewed can be
-- selected and then approved: the approval succeeds, two revisions later, and the shot has the
-- take selected and approved.
pub select_take-approve_take :
    (shot_id take_id : String) (d : Disk) (shot : ShotRuntimeState)
    (ulid command_id now next_ulid next_command later : String)
    → IsValid d.state
    → d.state.revision + 1 < u64_max
    → IsReviewable d.state shot_id take_id shot
    → let (_, d') = select_take ulid shot_id take_id d.state.revision command_id now d in
      Approves d shot_id take_id
        (approve_take next_ulid shot_id take_id (d.state.revision + 1) next_command later d')
unfolding approve_shot select_shot
select_take-approve_take shot_id take_id d shot ulid command_id now next_ulid next_command later
      valid room r =
    let t = after d.recipes shot_id take_id (select_shot take_id) d.state command_id now in
    let r' = select-IsReviewable d.recipes shot_id take_id d.state shot r command_id now in
    let below : d.state.revision < u64_max = omega (arith, room) in
    let selected = select_take-ok shot_id take_id d valid ulid command_id now shot below r in
    let decision = new_decision ulid "take_selected" take_id command_id now in
    let d' = record d {
      state = t;
      decisions = decided d.state.last_command_id decision d.decisions;
    } in
    let valid' =
      bumped-IsValid _ now
        (settled-IsCoherent d.recipes shot_id take_id d.state shot r command_id valid) in
    let next =
      after-revision d.recipes shot_id take_id (select_shot take_id) d.state command_id now in
    let below' : d'.state.revision < u64_max = omega (arith, next, room) in
    let u = after d.recipes shot_id take_id (approve_shot take_id) t next_command later in
    let ends =
      approve_take-ok shot_id take_id d' valid' next_ulid next_command later
        (select_shot take_id shot) below' r' refl in
    let final : Approves d shot_id take_id
        (approve_take next_ulid shot_id take_id t.revision next_command later d') =
      subst (Approves d shot_id take_id) (sym ends) record {
        result = u;
        succeeds = refl;
        written = refl;
        twice = omega (
          arith,
          next,
          after-revision d.recipes shot_id take_id (approve_shot take_id) t next_command later,
        );
        shot = approve_shot take_id (select_shot take_id shot);
        found =
            after-found d.recipes shot_id take_id (approve_shot take_id) t next_command later
              (select_shot take_id shot) r'.open_shot.found;
        approved = refl;
        selected = refl;
      } in
    subst
      (λ p.
        Approves d shot_id take_id
          (approve_take next_ulid shot_id take_id (d.state.revision + 1) next_command later p.1))
      (sym selected)
      (subst
        (λ n.
          Approves d shot_id take_id
            (approve_take next_ulid shot_id take_id n next_command later d'))
        next final)

-- Once a take is rejected, selecting it at the new revision is refused as rejected, and nothing
-- changes.
pub reject_take-final :
    (ulid shot_id take_id : String) (expected : ℕ) (command_id now : String) (d d' : Disk)
    (t : ProjectState)
    → reject_take ulid shot_id take_id expected command_id now d ≡ (ok t, d')
    → (other_ulid other_command later : String)
    → select_take other_ulid shot_id take_id d'.state.revision other_command later d'
      ≡ (err (take_rejected take_id), d')
unfolding select_take select_change ensure_reviewable ensure_undecided ensure_available ensure_idle
    reject_take reject_change reject_shot bumped mark_builds_stale_for_decision mark_build_ids_stale
reject_take-final ulid shot_id take_id expected command_id now d d' t h other_ulid other_command
      later =
    let (u, changed, e, e', valid) =
      decide-inverse _ (reject-IsChange shot_id take_id) ulid "take_rejected" (λ _. take_id)
        command_id now expected d d' t h in
    let (shot, passed, same) = >>=-eq-ok (ensure_reviewable d.state shot_id take_id) _ changed in
    let r = (ensure_reviewable_iff d.state shot_id take_id shot).0 passed in
    let w : d'.state ≡ bumped (with_command command_id u) now = e' ∙ e in
    let there : lookup shot_id d'.state.shots ≡ some (reject_shot take_id shot) =
      ap (λ w. lookup shot_id w.shots) (e' ∙ e)
      ∙ ap (λ w. lookup shot_id w.shots) (sym (ok_injective same))
      ∙ rw lookup-update (rw (eq_refl shot_id, r.open_shot.found) refl) in
    let takes : lookup take_id d'.state.takes ≡ some r.take =
      ap (λ w. lookup take_id w.takes) (e' ∙ e)
      ∙ ap (λ w. lookup take_id w.takes) (sym (ok_injective same))
      ∙ r.available.known in
    decide-err _ (select-IsChange shot_id take_id) other_ulid "take_selected" (λ _. take_id)
      other_command later d' (take_rejected take_id) (subst IsValid (sym e') valid)
      (select_change-rejected d'.recipes shot_id take_id d'.state (
        ensure_reviewable-rejected d'.state shot_id take_id (reject_shot take_id shot) r.take
          record {
            found = there;
            idle = r.open_shot.idle;
            undecided = rw r.open_shot.undecided refl;
          }
          record {
            known = takes;
            own = r.available.own;
            fresh = r.available.fresh;
            listed = r.available.listed;
          }
          (In_last take_id shot.rejected_take_ids)))
