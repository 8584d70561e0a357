-- ===== src/Store/Decisions/Guards/Exact.antt =====
-- The guards of the decisions let a take pass exactly when it can be reviewed.
use spark_stage.Base.{
  String, false, none, some, ◌≡◌, refl, ◌↔◌, arith, eq_iff, In, contains_iff, contains-false_iff,
  lookup, ok, err, >>=-eq-ok, ok_injective,
}
use spark_stage.Domain.Project.{ShotRuntimeState, TakeMetadata}
use spark_stage.Domain.State.{ProjectState}
use spark_stage.Store.Errors.{take_rejected}
use spark_stage.Store.Decisions.Guards.{ensure_available, ensure_undecided, ensure_reviewable}

-- The take exists, is the shot's own, is fresh, listed and not rejected.
pub record IsAvailable (s : ProjectState) (shot : ShotRuntimeState) (shot_id take_id : String)
    (take : TakeMetadata) : Type 0 where
  pub known : lookup take_id s.takes ≡ some take
  pub own : take.shot_id ≡ shot_id
  pub fresh : take.stale ≡ false
  pub listed : In take_id shot.take_ids
  pub kept : ¬ In take_id shot.rejected_take_ids

-- The shot exists, no job runs for it and no take of it is approved.
pub record IsUndecided (s : ProjectState) (shot_id : String) (shot : ShotRuntimeState)
    : Type 0 where
  pub found : lookup shot_id s.shots ≡ some shot
  pub idle : shot.active_job_id ≡ none
  pub undecided : shot.approved_take_id ≡ none

pub ensure_undecided_iff :
    (s : ProjectState) (shot_id : String) (shot : ShotRuntimeState)
    → (ensure_undecided s shot_id ≡ ok shot) ↔ IsUndecided s shot_id shot
unfolding ensure_undecided
ensure_undecided_iff s shot_id shot = (
  λ h. record { found = ground arith; idle = ground arith; undecided = ground arith },
  λ h. ground (arith, h),
)

pub ensure_available_iff :
    (s : ProjectState) (shot : ShotRuntimeState) (shot_id take_id : String) (take : TakeMetadata)
    → (ensure_available s shot shot_id take_id ≡ ok take) ↔ IsAvailable s shot shot_id take_id take
unfolding ensure_available
ensure_available_iff s shot shot_id take_id take =
    let listed = contains_iff shot.take_ids take_id in
    let kept = contains-false_iff shot.rejected_take_ids take_id in
    (
      λ h. record {
        known = ground arith;
        own = ground (arith, eq_iff take.shot_id shot_id);
        fresh = ground arith;
        listed = listed.0 (ground arith);
        kept = kept.0 (ground arith);
      },
      λ h. ground (
        arith,
        h.known,
        h.own,
        h.fresh,
        eq_iff take.shot_id shot_id,
        listed.1 h.listed,
        kept.1 h.kept,
      ),
    )

-- A take of a shot that a decision may name.
pub record IsReviewable (s : ProjectState) (shot_id take_id : String) (shot : ShotRuntimeState)
    : Type 0 where
  pub open_shot : IsUndecided s shot_id shot
  pub take : TakeMetadata
  pub available : IsAvailable s shot shot_id take_id take

-- The guards of a decision let a shot pass exactly when it exists, runs no job and has no
-- approved take, and the take exists, is its own, fresh, listed and not rejected.
pub ensure_reviewable_iff :
    (s : ProjectState) (shot_id take_id : String) (shot : ShotRuntimeState)
    → (ensure_reviewable s shot_id take_id ≡ ok shot) ↔ IsReviewable s shot_id take_id shot
unfolding ensure_reviewable
ensure_reviewable_iff s shot_id take_id shot = (
  λ h.
      let (shot', undecided, h₁) = >>=-eq-ok (ensure_undecided s shot_id) _ h in
      let (take, available, same) = >>=-eq-ok (ensure_available s shot' shot_id take_id) _ h₁ in
      let e = ok_injective same in
      record {
        open_shot = (ensure_undecided_iff s shot_id shot).0 (rw e at undecided);
        take = take;
        available = (ensure_available_iff s shot shot_id take_id take).0 (rw e at available);
      },
  λ h.
      rw ((ensure_undecided_iff s shot_id shot).1 h.open_shot)
        (rw ((ensure_available_iff s shot shot_id take_id h.take).1 h.available)),
)

-- All that a take needs but that it was not rejected.
pub record IsOffered (s : ProjectState) (shot : ShotRuntimeState) (shot_id take_id : String)
    (take : TakeMetadata) : Type 0 where
  pub known : lookup take_id s.takes ≡ some take
  pub own : take.shot_id ≡ shot_id
  pub fresh : take.stale ≡ false
  pub listed : In take_id shot.take_ids

-- A rejected take is refused as rejected.
pub ensure_reviewable-rejected :
    (s : ProjectState) (shot_id take_id : String) (shot : ShotRuntimeState) (take : TakeMetadata)
    → IsUndecided s shot_id shot
    → IsOffered s shot shot_id take_id take
    → In take_id shot.rejected_take_ids
    → ensure_reviewable s shot_id take_id ≡ err (take_rejected take_id)
unfolding ensure_reviewable ensure_available
ensure_reviewable-rejected s shot_id take_id shot take undecided offered rejected =
    rw ((ensure_undecided_iff s shot_id shot).1 undecided) (
      rw
        (
          offered.known,
          (eq_iff take.shot_id shot_id).1 offered.own,
          offered.fresh,
          (contains_iff shot.take_ids take_id).1 offered.listed,
          (contains_iff shot.rejected_take_ids take_id).1 rejected,
        )
        refl)
