-- ===== src/Store/Decisions/Batches.antt =====
-- A batch of decisions that passes its validation is carried out as a whole.
use spark_stage.Base.{
  String, Bool, true, false, none, some, List, [], ◌∷◌, Map, ◌≡◌, refl, sym, eq_iff, map, All, In,
  Distinct, not_In-cons, contains-false_iff, lookup-update, str_eq, Bool-cases, ok, >>=-eq-ok,
  then_iff, guard_iff, not-eq_true, inl, inr, OnSome, if◌then◌else◌,
}
use spark_stage.Domain.Project.{ShotRuntimeState, TakeMetadata}
use spark_stage.Domain.State.{ProjectState}
use spark_stage.Domain.Validate.Validity.{IsUsable, IsShot, core, IsCoherent}
use spark_stage.Store.Disk.{BuildRecipe}
use spark_stage.Store.Builds.{mark_builds_stale_for_decision, mark_build_ids_stale}
use spark_stage.Store.Decisions.Guards.{
  BatchTakeSelection, ensure_undecided, ensure_available, check_selection, check_selections,
  validate_review_batch,
}
use spark_stage.Store.Decisions.Guards.Exact.{
  IsReviewable, ensure_undecided_iff, ensure_available_iff,
}
use spark_stage.Store.Decisions.Changes.{settle, batch_shot, batch_loop, batch_change}
use spark_stage.Store.Decisions.Coherence.{
  KeepsTakes, usable-change, available-IsUsable, settle-found,
}

OnSome-chosen :
    (P : String → Type 0) (b : Bool) (id : String) → P id → OnSome P (if b then some id else none)
OnSome-chosen P true id p = p
OnSome-chosen P false id p = tt

-- The shot of the selection can take the decision.
abbrev pub CanDecide : ProjectState → BatchTakeSelection → Type 0
CanDecide s selection =
    (shot : ShotRuntimeState) × IsReviewable s selection.shot_id selection.take_id shot

check_selection-CanDecide :
    (s : ProjectState) (approve : Bool) (seen : List String) (selection : BatchTakeSelection)
    → check_selection s approve seen selection ≡ ok tt
    → (¬ In selection.shot_id seen) × CanDecide s selection
unfolding check_selection
check_selection-CanDecide s approve seen selection h =
    let (new, h₁) = (then_iff _ _ tt).0 h in
    let (shot, undecided, h₂) = >>=-eq-ok (ensure_undecided s selection.shot_id) _ h₁ in
    let (take, available, h₃) =
      >>=-eq-ok (ensure_available s shot selection.shot_id selection.take_id) _ h₂ in
    (
      (contains-false_iff seen selection.shot_id).0 (not-eq_true _ ((guard_iff _ _).0 new)),
      (
        shot,
        record {
          open_shot = (ensure_undecided_iff s selection.shot_id shot).0 undecided;
          take = take;
          available =
              (ensure_available_iff s shot selection.shot_id selection.take_id take).0 available;
        },
      ),
    )

check_selections-CanDecide :
    (s : ProjectState) (approve : Bool) (seen : List String) (selections : List BatchTakeSelection)
    → check_selections s approve seen selections ≡ ok tt
    → Distinct (map (λ x. x.shot_id) selections)
      × All (λ x. ¬ In x.shot_id seen) selections
      × All (CanDecide s) selections
unfolding check_selections
check_selections-CanDecide s approve seen [] h = (tt, tt, tt)
check_selections-CanDecide s approve seen (x ∷ rest) h =
    let (first, later) = (then_iff _ _ tt).0 h in
    let (new, can) = check_selection-CanDecide s approve seen x first in
    let (distinct, apart, all) =
      check_selections-CanDecide s approve (x.shot_id ∷ seen) rest later in
    let (alone, unseen) =
      (not_In-cons (λ (y : BatchTakeSelection). y.shot_id) x.shot_id seen rest).0 apart in
    ((alone, distinct), (new, unseen), (can, all))

module _ (recipes : Map BuildRecipe) (approve : Bool) where
  batch-KeepsTakes : (take_id : String) → KeepsTakes (batch_shot approve take_id)
  unfolding batch_shot
  batch-KeepsTakes take_id = record { listed = λ v. refl; rejected = λ v. refl }

  batch-IsShot :
      (takes : Map TakeMetadata) (shot_id take_id : String) (v : ShotRuntimeState)
      → IsUsable takes v take_id
      → IsShot takes (shot_id, v)
      → IsShot takes (shot_id, batch_shot approve take_id v)
  unfolding batch_shot
  batch-IsShot takes shot_id take_id v usable p =
      let now =
        usable-change takes (batch_shot approve take_id) (batch-KeepsTakes take_id) v take_id
          usable in
      record {
        key = p.key;
        distinct = p.distinct;
        belong = p.belong;
        rejected = p.rejected;
        selected = now;
        approved = OnSome-chosen _ approve take_id now;
        approved_selected = OnSome-chosen _ approve take_id refl;
      }

  -- A decision on another shot leaves the selection possible.
  settle-CanDecide :
      (s : ProjectState) (shot_id take_id : String) (x : BatchTakeSelection)
      → str_eq x.shot_id shot_id ≡ false
      → CanDecide s x
      → CanDecide (settle recipes shot_id take_id (batch_shot approve take_id) s) x
  unfolding settle mark_builds_stale_for_decision mark_build_ids_stale
  settle-CanDecide s shot_id take_id x differs (shot, r) = (
    shot,
    record {
      open_shot = record {
        found = rw lookup-update (rw differs r.open_shot.found);
        idle = r.open_shot.idle;
        undecided = r.open_shot.undecided;
      };
      take = r.take;
      available = record {
        known = r.available.known;
        own = r.available.own;
        fresh = r.available.fresh;
        listed = r.available.listed;
        kept = r.available.kept;
      };
    },
  )

  settle-CanDecide_all :
      (s : ProjectState) (shot_id take_id : String) (rest : List BatchTakeSelection)
      → ¬ In shot_id (map (λ x. x.shot_id) rest)
      → All (CanDecide s) rest
      → All (CanDecide (settle recipes shot_id take_id (batch_shot approve take_id) s)) rest
  settle-CanDecide_all s shot_id take_id [] alone can = tt
  settle-CanDecide_all s shot_id take_id (x ∷ rest) alone (first, later) = (
    settle-CanDecide s shot_id take_id x
        (elim (Bool-cases (str_eq x.shot_id shot_id)) [
          | inl same ↦ absurd (alone (inl (sym ((eq_iff x.shot_id shot_id).0 same))))
          | inr differs ↦ differs
        ])
        first,
    settle-CanDecide_all s shot_id take_id rest (λ i. alone (inr i)) later,
  )

  batch_loop-IsCoherent :
      (selections : List BatchTakeSelection) (s : ProjectState)
      → IsCoherent (core s)
      → Distinct (map (λ x. x.shot_id) selections)
      → All (CanDecide s) selections
      → (t : ProjectState) × (batch_loop recipes approve selections s ≡ ok t) × IsCoherent (core t)
  unfolding batch_loop
  batch_loop-IsCoherent [] s h distinct can = (s, refl, h)
  batch_loop-IsCoherent (x ∷ rest) s h (alone, distinct) ((shot, r), can) =
      let change = batch_shot approve x.take_id in
      let usable = available-IsUsable s shot x.shot_id x.take_id r.take r.available in
      let h' =
        settle-found recipes x.shot_id x.take_id s h change shot (batch-KeepsTakes x.take_id)
          r.open_shot.found (batch-IsShot s.takes x.shot_id x.take_id shot usable) in
      let next = settle recipes x.shot_id x.take_id change s in
      let (t, ends, good) =
        batch_loop-IsCoherent rest next h' distinct
          (settle-CanDecide_all s x.shot_id x.take_id rest alone can) in
      (t, rw r.open_shot.found ends, good)

-- On a coherent state a batch that passes its validation succeeds as a whole, and the result is
-- coherent.
pub batch_change-IsCoherent :
    (recipes : Map BuildRecipe) (selections : List BatchTakeSelection) (approve : Bool)
    (s : ProjectState)
    → IsCoherent (core s)
    → validate_review_batch s selections approve ≡ ok tt
    → (t : ProjectState) × (batch_change recipes selections approve s ≡ ok t) × IsCoherent (core t)
unfolding batch_change validate_review_batch
batch_change-IsCoherent recipes selections approve s h passed =
    let (_, checked) = (then_iff _ _ tt).0 ((then_iff _ _ tt).0 passed).1 in
    let (distinct, _, can) = check_selections-CanDecide s approve [] selections checked in
    let (t, ends, good) = batch_loop-IsCoherent recipes approve selections s h distinct can in
    (t, (then_iff _ _ t).1 (passed, ends), good)
