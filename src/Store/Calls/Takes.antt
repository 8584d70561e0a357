-- ===== src/Store/Calls/Takes.antt =====
-- The decisions on takes move no build.
use spark_stage.Base.{
  ℕ, String, Bool, Option, some, List, [], ◌∷◌, Map, ◌≡◌, sym, ap, ◌∙◌, subst, inl, inr, arith,
  lookup, ok, ok_or, ok_injective, then_iff, >>=-eq-ok, guard, is_text, if◌then◌else◌, ◌<◌, u64_max,
}
use spark_stage.Domain.Project.{ShotRuntimeState}
use spark_stage.Domain.State.{ProjectState}
use spark_stage.Domain.Validate.{bump_revision}
use spark_stage.Domain.Validate.Revision.{bumped, bump_revision-IsValid}
use spark_stage.Store.Errors.{take_not_selected, shot_not_found}
use spark_stage.Store.Disk.{Disk, BuildRecipe}
use spark_stage.Store.Save.Laws.{Result-cases, open_state_cases}
use spark_stage.Store.Save.Decided.{with_command}
use spark_stage.Store.Save.Ends.{left, decide-ends}
use spark_stage.Store.Builds.{mark_builds_stale_for_decision, mark_build_ids_stale}
use spark_stage.Store.Builds.Lifecycle.{rest, status_of}
use spark_stage.Store.Builds.Steps.{mark_builds-status}
use spark_stage.Store.Builds.Advance.{Advances, unmoved, bumped-Advances}
use spark_stage.Store.Decisions.Guards.{
  BatchTakeSelection, ensure_reviewable, validate_review_batch,
}
use spark_stage.Store.Decisions.Changes.{
  pause_change, settle, select_shot, select_change, approve_shot, approve_change, reject_change,
  batch_shot, batch_loop, batch_change,
}
use spark_stage.Store.Decisions.Operations.{
  set_project_paused, select_take, approve_take, reject_take, review_takes_batch,
}
use spark_stage.Store.Decisions.Operations.Sound.{
  pause-IsChange, select-IsChange, approve-IsChange, reject-IsChange,
}
use spark_stage.Store.Decisions.Operations.Batch.{batch-IsChange, review_takes_batch-saved}

-- Every build has the status that it had.
abbrev pub SameBuilds : ProjectState → ProjectState → Type 0
SameBuilds s t = (j : String) → status_of j t.builds ≡ status_of j s.builds

pub same-Advances :
    (d : Disk) (command_id now : String) (u : ProjectState)
    → SameBuilds d.state u
    → Advances d (bumped (with_command command_id u) now)
same-Advances d command_id now u h = bumped-Advances d u command_id now (rest h)

marked-SameBuilds :
    (recipes : Map BuildRecipe) (s : ProjectState) (shot_id : String) (current : Option String)
    → SameBuilds s (mark_builds_stale_for_decision recipes s shot_id current)
unfolding mark_builds_stale_for_decision mark_build_ids_stale
marked-SameBuilds recipes s shot_id current j = mark_builds-status _ s.builds j

settle-SameBuilds :
    (recipes : Map BuildRecipe) (shot_id take_id : String)
    (change : ShotRuntimeState → ShotRuntimeState) (s : ProjectState)
    → SameBuilds s (settle recipes shot_id take_id change s)
unfolding settle
settle-SameBuilds recipes shot_id take_id change s j =
    marked-SameBuilds recipes _ shot_id (some take_id) j

select-SameBuilds :
    (recipes : Map BuildRecipe) (shot_id take_id : String) (s t : ProjectState)
    → select_change recipes shot_id take_id s ≡ ok t
    → SameBuilds s t
unfolding select_change
select-SameBuilds recipes shot_id take_id s t h =
    let (_, _, e) = >>=-eq-ok (ensure_reviewable s shot_id take_id) _ h in
    subst (SameBuilds s) (ok_injective e)
      (settle-SameBuilds recipes shot_id take_id (select_shot take_id) s)

approve-SameBuilds :
    (recipes : Map BuildRecipe) (shot_id take_id : String) (s t : ProjectState)
    → approve_change recipes shot_id take_id s ≡ ok t
    → SameBuilds s t
unfolding approve_change
approve-SameBuilds recipes shot_id take_id s t h =
    let (shot, _, h₁) = >>=-eq-ok (ensure_reviewable s shot_id take_id) _ h in
    let chosen =
      guard (is_text shot.selected_candidate_take_id take_id) (take_not_selected take_id) in
    let (_, e) = (then_iff chosen _ t).0 h₁ in
    subst (SameBuilds s) (ok_injective e)
      (settle-SameBuilds recipes shot_id take_id (approve_shot take_id) s)

reject-SameBuilds :
    (recipes : Map BuildRecipe) (shot_id take_id : String) (s t : ProjectState)
    → reject_change recipes shot_id take_id s ≡ ok t
    → SameBuilds s t
unfolding reject_change
reject-SameBuilds recipes shot_id take_id s t h =
    let (_, _, e) = >>=-eq-ok (ensure_reviewable s shot_id take_id) _ h in
    subst (SameBuilds s) (ok_injective e) (marked-SameBuilds recipes _ shot_id _)

batch_loop-SameBuilds :
    (recipes : Map BuildRecipe) (approve : Bool) (selections : List BatchTakeSelection)
    (s t : ProjectState)
    → batch_loop recipes approve selections s ≡ ok t
    → SameBuilds s t
unfolding batch_loop
batch_loop-SameBuilds recipes approve [] s t h j =
    ap (λ w. status_of j w.builds) (sym (ok_injective h))
batch_loop-SameBuilds recipes approve (x ∷ later) s t h j =
    let (_, _, e) = >>=-eq-ok (ok_or (lookup x.shot_id s.shots) (shot_not_found x.shot_id)) _ h in
    batch_loop-SameBuilds recipes approve later _ t e j
    ∙ settle-SameBuilds recipes x.shot_id x.take_id (batch_shot approve x.take_id) s j

batch-SameBuilds :
    (recipes : Map BuildRecipe) (selections : List BatchTakeSelection) (approve : Bool)
    (s t : ProjectState)
    → batch_change recipes selections approve s ≡ ok t
    → SameBuilds s t
unfolding batch_change
batch-SameBuilds recipes selections approve s t h =
    batch_loop-SameBuilds recipes approve selections s t
      ((then_iff (validate_review_batch s selections approve) _ t).0 h).1

module _ (expected : ℕ) (command_id now : String) (d : Disk) where
  pub pause-Advances :
      (ulid : String) (paused : Bool)
      → Advances d (left (set_project_paused ulid paused expected command_id now d))
  unfolding set_project_paused pause_change
  pause-Advances ulid paused =
      decide-ends (Advances d) _ command_id now expected d (unmoved d)
        (λ u e.
          same-Advances d command_id now u
            (λ j. ap (λ w. status_of j w.builds) (sym (ok_injective e))))
        (pause-IsChange paused) ulid (if paused then "project_paused" else "project_resumed")
        (λ s. s.project_id)

  pub select_take-Advances :
      (ulid shot_id take_id : String)
      → Advances d (left (select_take ulid shot_id take_id expected command_id now d))
  unfolding select_take
  select_take-Advances ulid shot_id take_id =
      decide-ends (Advances d) _ command_id now expected d (unmoved d)
        (λ u e.
          same-Advances d command_id now u
            (select-SameBuilds d.recipes shot_id take_id d.state u e))
        (select-IsChange shot_id take_id) ulid "take_selected" (λ _. take_id)

  pub approve_take-Advances :
      (ulid shot_id take_id : String)
      → Advances d (left (approve_take ulid shot_id take_id expected command_id now d))
  unfolding approve_take
  approve_take-Advances ulid shot_id take_id =
      decide-ends (Advances d) _ command_id now expected d (unmoved d)
        (λ u e.
          same-Advances d command_id now u
            (approve-SameBuilds d.recipes shot_id take_id d.state u e))
        (approve-IsChange shot_id take_id) ulid "take_approved" (λ _. take_id)

  pub reject_take-Advances :
      (ulid shot_id take_id : String)
      → Advances d (left (reject_take ulid shot_id take_id expected command_id now d))
  unfolding reject_take
  reject_take-Advances ulid shot_id take_id =
      decide-ends (Advances d) _ command_id now expected d (unmoved d)
        (λ u e.
          same-Advances d command_id now u
            (reject-SameBuilds d.recipes shot_id take_id d.state u e))
        (reject-IsChange shot_id take_id) ulid "take_rejected" (λ _. take_id)

  -- A batch, from the revision that it expects.
  pub review_takes_batch-Advances :
      (ulids : ℕ → String) (selections : List BatchTakeSelection) (approve : Bool)
      → Advances d (left (review_takes_batch ulids selections approve expected command_id now d))
  unfolding review_takes_batch
  review_takes_batch-Advances ulids selections approve = elim (open_state_cases expected d) [
    | inr (e, failed) ↦ rw failed (unmoved d)
    | inl (valid, same, opened) ↦
        elim (Result-cases (batch_change d.recipes selections approve d.state)) [
          | inr (e, refused) ↦ rw opened (rw refused (unmoved d))
          | inl (t, changed) ↦ elim (Result-cases (bump_revision (with_command command_id t) now)) [
            | inr (e, full) ↦ rw opened (rw changed (rw full (unmoved d)))
            | inl (u, done) ↦
                let (_, _, below) = bump_revision-IsValid (with_command command_id t) u now done in
                let steady = (batch-IsChange selections approve).steady d d.state t changed in
                let room : d.state.revision < u64_max = omega (arith, steady, below) in
                let saved =
                  review_takes_batch-saved ulids selections approve command_id now d valid room t
                    changed in
                let there =
                  same-Advances d command_id now t
                    (batch-SameBuilds d.recipes selections approve d.state t changed) in
                subst
                  (λ n.
                    Advances d
                      (left (review_takes_batch ulids selections approve n command_id now d)))
                  same (subst (λ r. Advances d (left r)) (sym saved) there)
          ]
        ]
  ]
