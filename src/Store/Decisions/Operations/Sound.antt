-- ===== src/Store/Decisions/Operations/Sound.antt =====
-- The changes of the decisions on takes are changes in the sense of Save/Decided.
use spark_stage.Base.{
  String, Bool, List, Map, ◌≡◌, refl, ◌∙◌, is_text, guard, ok, ok_injective, then_iff, >>=-eq-ok,
  lookup, [], ◌∷◌, ok_or, Option, some,
}
use spark_stage.Domain.Project.{ShotRuntimeState}
use spark_stage.Domain.State.{ProjectState}
use spark_stage.Store.Errors.{take_not_selected, shot_not_found}
use spark_stage.Store.Disk.{BuildRecipe}
use spark_stage.Store.Builds.{mark_builds_stale_for_decision, mark_build_ids_stale}
use spark_stage.Store.Save.Decided.{IsChange}
use spark_stage.Store.Decisions.Guards.{
  BatchTakeSelection, ensure_reviewable, validate_review_batch,
}
use spark_stage.Store.Decisions.Changes.{
  settle, pause_change, select_shot, select_change, approve_shot, approve_change, reject_change,
  batch_shot, batch_loop, batch_change,
}
use spark_stage.Store.Decisions.Coherence.{select_change-IsCoherent, approve_change-IsCoherent}
use spark_stage.Store.Decisions.Rejection.{reject_change-IsCoherent}

pub mark-steady :
    (recipes : Map BuildRecipe) (s : ProjectState) (shot_id : String) (current : Option String)
    → (mark_builds_stale_for_decision recipes s shot_id current).revision ≡ s.revision
unfolding mark_builds_stale_for_decision mark_build_ids_stale
mark-steady recipes s shot_id current = refl

pub settle-steady :
    (recipes : Map BuildRecipe) (shot_id take_id : String)
    (change : ShotRuntimeState → ShotRuntimeState) (s : ProjectState)
    → (settle recipes shot_id take_id change s).revision ≡ s.revision
unfolding settle
settle-steady recipes shot_id take_id change s = mark-steady recipes _ shot_id (some take_id)

pub pause-IsChange : (paused : Bool) → IsChange (λ _ s. ok (pause_change paused s))
unfolding pause_change
pause-IsChange paused = record {
  coherent = λ d s t h e. rw (← ok_injective e) record {
    schema = h.schema;
    contract = h.contract;
    active = h.active;
    approval_ids = h.approval_ids;
    overruns = h.overruns;
    takes = h.takes;
    references = h.references;
    shots = h.shots;
    candidates = h.candidates;
  };
  steady = λ d s t e. rw (← ok_injective e) refl;
}

module _ (shot_id take_id : String) where
  pub select-IsChange : IsChange (λ d s. select_change d.recipes shot_id take_id s)
  unfolding select_change
  select-IsChange = record {
    coherent = λ d s t h. select_change-IsCoherent d.recipes shot_id take_id s h t;
    steady = λ d s t e.
        let (_, _, same) = >>=-eq-ok (ensure_reviewable s shot_id take_id) _ e in
        rw (← ok_injective same) (settle-steady d.recipes shot_id take_id (select_shot take_id) s);
  }

  pub approve-IsChange : IsChange (λ d s. approve_change d.recipes shot_id take_id s)
  unfolding approve_change
  approve-IsChange = record {
    coherent = λ d s t h. approve_change-IsCoherent d.recipes shot_id take_id s h t;
    steady = λ d s t e.
        let (shot, _, e') = >>=-eq-ok (ensure_reviewable s shot_id take_id) _ e in
        let test = is_text shot.selected_candidate_take_id take_id in
        let (_, same) = (then_iff (guard test (take_not_selected take_id)) _ t).0 e' in
        rw (← ok_injective same) (settle-steady d.recipes shot_id take_id (approve_shot take_id) s);
  }

  pub reject-IsChange : IsChange (λ d s. reject_change d.recipes shot_id take_id s)
  unfolding reject_change
  reject-IsChange = record {
    coherent = λ d s t. reject_change-IsCoherent d.recipes shot_id take_id s t;
    steady = λ d s t e.
        let (_, _, same) = >>=-eq-ok (ensure_reviewable s shot_id take_id) _ e in
        rw (← ok_injective same) (mark-steady d.recipes _ shot_id _);
  }

batch_loop-steady :
    (recipes : Map BuildRecipe) (approve : Bool) (selections : List BatchTakeSelection)
    (s t : ProjectState)
    → batch_loop recipes approve selections s ≡ ok t
    → t.revision ≡ s.revision
unfolding batch_loop
batch_loop-steady recipes approve [] s t e = rw (← ok_injective e) refl
batch_loop-steady recipes approve (x ∷ rest) s t e =
    let (_, _, e') = >>=-eq-ok (ok_or (lookup x.shot_id s.shots) (shot_not_found x.shot_id)) _ e in
    batch_loop-steady recipes approve rest _ t e'
    ∙ settle-steady recipes x.shot_id x.take_id (batch_shot approve x.take_id) s

pub batch_change-steady :
    (recipes : Map BuildRecipe) (approve : Bool) (selections : List BatchTakeSelection)
    (s t : ProjectState)
    → batch_change recipes selections approve s ≡ ok t
    → t.revision ≡ s.revision
unfolding batch_change
batch_change-steady recipes approve selections s t e =
    batch_loop-steady recipes approve selections s t
      ((then_iff (validate_review_batch s selections approve) _ t).0 e).1
