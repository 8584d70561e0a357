-- ===== src/Store/Decisions/Coherence.antt =====
-- A decision on a take keeps the parts of a state coherent.
use spark_stage.Base.{
  String, Bool, Option, none, some, Map, ◌≡◌, refl, sym, not, arith, OnSome, retain, subst, is_text,
  is_text_iff, guard, guard_iff, All-retain, All-map, All-update, Distinct-retain, lookup, update,
  lookup-update, str_eq, Bool-cases, ok, ok_injective, then_iff, >>=-eq-ok, inl, inr,
}
use spark_stage.Domain.Project.{Approval, ShotRuntimeState, TakeMetadata}
use spark_stage.Domain.State.{ProjectState}
use spark_stage.Domain.Validate.Validity.{IsUsable, IsShot, OffersCandidates, core, IsCoherent}
use spark_stage.Store.Errors.{take_not_selected}
use spark_stage.Store.Disk.{BuildRecipe}
use spark_stage.Store.Builds.{mark_build_ids_stale, mark_builds_stale_for_decision, keeps_approval}
use spark_stage.Store.Decisions.Guards.Exact.{IsAvailable, ensure_reviewable_iff}
use spark_stage.Store.Decisions.Guards.{ensure_reviewable}
use spark_stage.Store.Decisions.Changes.{
  asks_for, settle, select_shot, select_change, approve_shot, approve_change,
}

-- Fewer approvals leave a state coherent.
pub retain-IsCoherent :
    (s : ProjectState) (p : Approval → Bool)
    → IsCoherent (core s)
    → IsCoherent (core (record s { pending_approvals = retain p s.pending_approvals }))
retain-IsCoherent s p h = record {
  schema = h.schema;
  contract = h.contract;
  active = h.active;
  approval_ids = Distinct-retain (λ a. a.approval_id) p s.pending_approvals h.approval_ids;
  overruns = All-retain _ p s.pending_approvals h.overruns;
  takes = h.takes;
  references = h.references;
  shots = h.shots;
  candidates = All-retain _ p s.pending_approvals h.candidates;
}

-- Marking builds only drops approvals.
pub mark-IsCoherent :
    (recipes : Map BuildRecipe) (s : ProjectState) (shot_id : String) (current : Option String)
    → IsCoherent (core s)
    → IsCoherent (core (mark_builds_stale_for_decision recipes s shot_id current))
unfolding mark_builds_stale_for_decision mark_build_ids_stale
mark-IsCoherent recipes s shot_id current h = retain-IsCoherent s (keeps_approval _) h

-- The change leaves the takes of the shot as they were.
pub record KeepsTakes (change : ShotRuntimeState → ShotRuntimeState) : Type 0 where
  pub listed : (v : ShotRuntimeState) → (change v).take_ids ≡ v.take_ids
  pub rejected : (v : ShotRuntimeState) → (change v).rejected_take_ids ≡ v.rejected_take_ids

module _ (takes : Map TakeMetadata) (change : ShotRuntimeState → ShotRuntimeState)
    (keeps : KeepsTakes change) where
  pub usable-change :
      (v : ShotRuntimeState) (id : String) → IsUsable takes v id → IsUsable takes (change v) id
  usable-change v id u = record {
    listed = rw (keeps.listed v) u.listed;
    kept = rw (keeps.rejected v) u.kept;
    fresh = u.fresh;
  }

  offers-update :
      (shot_id : String) (shots : Map ShotRuntimeState) (a : Approval)
      → OffersCandidates shots takes a
      → OffersCandidates (update shot_id change shots) takes a
  offers-update shot_id shots a offers kind =
      let (other, v, named, found, usable) = offers kind in
      elim (Bool-cases (str_eq other shot_id)) [
        | inl same ↦ (
          other,
          change v,
          named,
          rw lookup-update (rw (same, found)),
          All-map _ _ a.take_ids (λ id u. (u.0, usable-change v id u.1)) usable,
        )
        | inr differs ↦ (other, v, named, rw lookup-update (rw differs found), usable)
      ]

-- A change of one shot keeps the state coherent, if the changed shot is sound.
pub update-IsCoherent :
    (shot_id : String) (change : ShotRuntimeState → ShotRuntimeState) (s : ProjectState)
    → KeepsTakes change
    → ((v : ShotRuntimeState)
        → lookup shot_id s.shots ≡ some v
        → IsShot s.takes (shot_id, v)
        → IsShot s.takes (shot_id, change v))
    → IsCoherent (core s)
    → IsCoherent (core (record s { shots = update shot_id change s.shots }))
update-IsCoherent shot_id change s keeps sound h = record {
  schema = h.schema;
  contract = h.contract;
  active = h.active;
  approval_ids = h.approval_ids;
  overruns = h.overruns;
  takes = h.takes;
  references = h.references;
  shots = All-update _ _ shot_id change s.shots (λ j v p. p) (λ v p e. sound v e p) h.shots;
  candidates =
      All-map _ _ s.pending_approvals (offers-update s.takes change keeps shot_id s.shots)
        h.candidates;
}

-- A settled decision keeps the state coherent, if the changed shot is sound.
settle-IsCoherent :
    (recipes : Map BuildRecipe) (shot_id take_id : String)
    (change : ShotRuntimeState → ShotRuntimeState) (s : ProjectState)
    → KeepsTakes change
    → ((v : ShotRuntimeState)
        → lookup shot_id s.shots ≡ some v
        → IsShot s.takes (shot_id, v)
        → IsShot s.takes (shot_id, change v))
    → IsCoherent (core s)
    → IsCoherent (core (settle recipes shot_id take_id change s))
unfolding settle
settle-IsCoherent recipes shot_id take_id change s keeps sound h =
    let drops = λ (a : Approval). not (asks_for shot_id a) in
    let t = record s { pending_approvals = retain drops s.pending_approvals } in
    mark-IsCoherent recipes (record t { shots = update shot_id change t.shots }) shot_id
      (some take_id) (update-IsCoherent shot_id change t keeps sound (retain-IsCoherent s drops h))

pub available-IsUsable :
    (s : ProjectState) (shot : ShotRuntimeState) (shot_id take_id : String) (take : TakeMetadata)
    → IsAvailable s shot shot_id take_id take
    → IsUsable s.takes shot take_id
available-IsUsable s shot shot_id take_id take a = record {
  listed = a.listed;
  kept = a.kept;
  fresh = λ t e. ground (arith, a.known, a.fresh, e);
}

select-KeepsTakes : (take_id : String) → KeepsTakes (select_shot take_id)
unfolding select_shot
select-KeepsTakes take_id = record { listed = λ v. refl; rejected = λ v. refl }

approve-KeepsTakes : (take_id : String) → KeepsTakes (approve_shot take_id)
unfolding approve_shot
approve-KeepsTakes take_id = record { listed = λ v. refl; rejected = λ v. refl }

-- A test of an `Option` that is empty.
pub OnSome-none : {A : Type 0} (P : A → Type 0) {o : Option A} → o ≡ none → OnSome P o
OnSome-none P e = rw e tt

module _ (takes : Map TakeMetadata) (shot_id take_id : String) (v : ShotRuntimeState)
    (usable : IsUsable takes v take_id) where
  select-IsShot :
      v.approved_take_id ≡ none
      → IsShot takes (shot_id, v)
      → IsShot takes (shot_id, select_shot take_id v)
  unfolding select_shot
  select-IsShot undecided p = record {
    key = p.key;
    distinct = p.distinct;
    belong = p.belong;
    rejected = p.rejected;
    selected =
        usable-change takes (select_shot take_id) (select-KeepsTakes take_id) v take_id usable;
    approved = OnSome-none _ undecided;
    approved_selected = OnSome-none _ undecided;
  }

  approve-IsShot :
      v.selected_candidate_take_id ≡ some take_id
      → IsShot takes (shot_id, v)
      → IsShot takes (shot_id, approve_shot take_id v)
  unfolding approve_shot
  approve-IsShot selected p =
      let now =
        usable-change takes (approve_shot take_id) (approve-KeepsTakes take_id) v take_id usable in
      record {
        key = p.key;
        distinct = p.distinct;
        belong = p.belong;
        rejected = p.rejected;
        selected = subst (OnSome (IsUsable takes (approve_shot take_id v))) (sym selected) now;
        approved = now;
        approved_selected = selected;
      }

module _ (recipes : Map BuildRecipe) (shot_id take_id : String) (s : ProjectState)
    (h : IsCoherent (core s)) where
  -- Settling the shot that the guards found.
  pub settle-found :
      (change : ShotRuntimeState → ShotRuntimeState) (shot : ShotRuntimeState)
      → KeepsTakes change
      → lookup shot_id s.shots ≡ some shot
      → (IsShot s.takes (shot_id, shot) → IsShot s.takes (shot_id, change shot))
      → IsCoherent (core (settle recipes shot_id take_id change s))
  settle-found change shot keeps found sound =
      settle-IsCoherent recipes shot_id take_id change s keeps
        (λ v e p.
          let same : shot ≡ v = cc in
          subst (λ w. IsShot s.takes (shot_id, change w)) same
            (sound (subst (λ w. IsShot s.takes (shot_id, w)) (sym same) p)))
        h

  -- Selecting a take keeps the state coherent.
  pub select_change-IsCoherent :
      (t : ProjectState) → select_change recipes shot_id take_id s ≡ ok t → IsCoherent (core t)
  unfolding select_change
  select_change-IsCoherent t e =
      let (shot, passed, same) = >>=-eq-ok (ensure_reviewable s shot_id take_id) _ e in
      let r = (ensure_reviewable_iff s shot_id take_id shot).0 passed in
      let usable = available-IsUsable s shot shot_id take_id r.take r.available in
      let change = select_shot take_id in
      rw (← ok_injective same) (
        settle-found change shot (select-KeepsTakes take_id) r.open_shot.found
          (select-IsShot s.takes shot_id take_id shot usable r.open_shot.undecided))

  -- Approving a take keeps the state coherent.
  pub approve_change-IsCoherent :
      (t : ProjectState) → approve_change recipes shot_id take_id s ≡ ok t → IsCoherent (core t)
  unfolding approve_change
  approve_change-IsCoherent t e =
      let (shot, passed, e') = >>=-eq-ok (ensure_reviewable s shot_id take_id) _ e in
      let r = (ensure_reviewable_iff s shot_id take_id shot).0 passed in
      let usable = available-IsUsable s shot shot_id take_id r.take r.available in
      let test = is_text shot.selected_candidate_take_id take_id in
      let (chosen, same) = (then_iff (guard test (take_not_selected take_id)) _ t).0 e' in
      let selected = (is_text_iff _ _).0 ((guard_iff _ _).0 chosen) in
      rw (← ok_injective same) (
        settle-found (approve_shot take_id) shot (approve-KeepsTakes take_id) r.open_shot.found
          (approve-IsShot s.takes shot_id take_id shot usable selected))
