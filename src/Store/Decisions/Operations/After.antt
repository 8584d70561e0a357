-- ===== src/Store/Decisions/Operations/After.antt =====
-- The state after a decision that settles a shot, and which decisions it leaves possible.
use spark_stage.Base.{
  String, some, Map, ◌≡◌, refl, ◌+◌, lookup, lookup-update, eq_refl, Result, ok, err, is_text_iff,
  update, ◌>>=◌,
}
use spark_stage.Domain.Project.{ShotRuntimeState}
use spark_stage.Domain.State.{ProjectState}
use spark_stage.Domain.Validate.Validity.{core, IsCoherent, IsValid}
use spark_stage.Domain.Validate.Revision.{bumped}
use spark_stage.Store.Errors.{StoreError, take_rejected}
use spark_stage.Store.Disk.{BuildRecipe}
use spark_stage.Store.Builds.{mark_builds_stale_for_decision, mark_build_ids_stale}
use spark_stage.Store.Save.Decided.{with_command}
use spark_stage.Store.Decisions.Guards.{ensure_reviewable}
use spark_stage.Store.Decisions.Guards.Exact.{IsReviewable, ensure_reviewable_iff}
use spark_stage.Store.Decisions.Changes.{
  settle, select_shot, select_change, approve_shot, approve_change, reject_change,
}
use spark_stage.Store.Decisions.Coherence.{select_change-IsCoherent}

succeeds-map :
    {A B : Type 0} (m : Result StoreError A) (a : A) (f : A → B)
    → m ≡ ok a
    → (m >>= λ x. ok (f x)) ≡ ok (f a)
succeeds-map m a f e = rw e refl

-- The shots and the takes of a state after a decision.
module _ (recipes : Map BuildRecipe) (shot_id take_id : String)
    (change : ShotRuntimeState → ShotRuntimeState) (s : ProjectState)
    (command_id now : String) where
  abbrev pub after : ProjectState
  after = bumped (with_command command_id (settle recipes shot_id take_id change s)) now

  pub after-shots : after.shots ≡ update shot_id change s.shots
  unfolding bumped settle mark_builds_stale_for_decision mark_build_ids_stale
  after-shots = refl

  pub after-takes : after.takes ≡ s.takes
  unfolding bumped settle mark_builds_stale_for_decision mark_build_ids_stale
  after-takes = refl

  pub after-revision : after.revision ≡ s.revision + 1
  unfolding bumped settle mark_builds_stale_for_decision mark_build_ids_stale
  after-revision = refl

  pub after-found :
      (shot : ShotRuntimeState)
      → lookup shot_id s.shots ≡ some shot
      → lookup shot_id after.shots ≡ some (change shot)
  after-found shot found = rw after-shots (rw lookup-update (rw (eq_refl shot_id, found) refl))

module _ (recipes : Map BuildRecipe) (shot_id take_id : String) (s : ProjectState)
    (shot : ShotRuntimeState) (r : IsReviewable s shot_id take_id shot) where
  pub select_change-ok :
      select_change recipes shot_id take_id s
      ≡ ok (settle recipes shot_id take_id (select_shot take_id) s)
  unfolding select_change
  select_change-ok = rw ((ensure_reviewable_iff s shot_id take_id shot).1 r) refl

  pub approve_change-ok :
      shot.selected_candidate_take_id ≡ some take_id
      → approve_change recipes shot_id take_id s
        ≡ ok (settle recipes shot_id take_id (approve_shot take_id) s)
  unfolding approve_change
  approve_change-ok chosen =
      rw ((ensure_reviewable_iff s shot_id take_id shot).1 r) (rw ((is_text_iff _ _).1 chosen) refl)

  pub reject_change-ok : (t : ProjectState) × (reject_change recipes shot_id take_id s ≡ ok t)
  unfolding reject_change
  reject_change-ok = (
    _,
    succeeds-map (ensure_reviewable s shot_id take_id) shot _
        ((ensure_reviewable_iff s shot_id take_id shot).1 r),
  )

  -- A selected take can be reviewed as before.
  pub select-IsReviewable :
      (command_id now : String)
      → IsReviewable
          (after recipes shot_id take_id (select_shot take_id) s command_id now)
          shot_id
          take_id
          (select_shot take_id shot)
  unfolding select_shot
  select-IsReviewable command_id now = record {
    open_shot = record {
      found =
          after-found recipes shot_id take_id (select_shot take_id) s command_id now shot
            r.open_shot.found;
      idle = r.open_shot.idle;
      undecided = r.open_shot.undecided;
    };
    take = r.take;
    available = record {
      known =
          rw (after-takes recipes shot_id take_id (select_shot take_id) s command_id now)
            r.available.known;
      own = r.available.own;
      fresh = r.available.fresh;
      listed = r.available.listed;
      kept = r.available.kept;
    };
  }

  pub settled-IsCoherent :
      (command_id : String)
      → IsValid s
      → IsCoherent
          (core (with_command command_id (settle recipes shot_id take_id (select_shot take_id) s)))
  settled-IsCoherent command_id valid =
      select_change-IsCoherent recipes shot_id take_id s valid.coherent _ select_change-ok

pub select_change-rejected :
    (recipes : Map BuildRecipe) (shot_id take_id : String) (s : ProjectState)
    → ensure_reviewable s shot_id take_id ≡ err (take_rejected take_id)
    → select_change recipes shot_id take_id s ≡ err (take_rejected take_id)
unfolding select_change
select_change-rejected recipes shot_id take_id s h = rw h refl
