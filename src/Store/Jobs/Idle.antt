-- ===== src/Store/Jobs/Idle.antt =====
-- The stage of a shot that runs no job, as `cancel_queued_job` of src/store/project.rs sets it: what
-- its takes ask for, in words that do not follow the code.
use spark_stage.Base.{
  String, Bool, true, false, none, some, ◌≡◌, refl, inl, inr, ◌⊎◌, not, any, contains, All,
  All_of_In, In, Bool-cases, Option-cases, any_iff, contains_iff, contains-false_iff, arith,
}
use spark_stage.Domain.Project.{ShotStage, ShotRuntimeState}
use spark_stage.Store.Jobs.Changes.{idle_stage}

-- A selected take asks for the stage of a selection, a listed take that was not rejected for the stage
-- of candidates, and a shot where neither is there waits.
abbrev pub IsStageOf : ShotRuntimeState → ShotStage → Type 0
IsStageOf shot stage =
    ((id : String) × (shot.selected_candidate_take_id ≡ some id) × (stage ≡ ShotStage.selected))
    ⊎ ((shot.selected_candidate_take_id ≡ none)
        × (id : String) × In id shot.take_ids
        × (¬ In id shot.rejected_take_ids)
        × (stage ≡ ShotStage.candidates_ready))
    ⊎ ((shot.selected_candidate_take_id ≡ none)
        × All (λ id. In id shot.rejected_take_ids) shot.take_ids
        × (stage ≡ ShotStage.pending))

module _ (shot : ShotRuntimeState) (unselected : shot.selected_candidate_take_id ≡ none) where
  abbrev waits : String → Bool
  waits id = not (contains shot.rejected_take_ids id)

  idle_stage-candidates : any waits shot.take_ids ≡ true → IsStageOf shot (idle_stage shot)
  unfolding idle_stage
  idle_stage-candidates h =
      let (id, listed, kept) = (any_iff waits shot.take_ids).0 h in
      let absent : contains shot.rejected_take_ids id ≡ false = ground (arith, kept) in
      inr (
        inl (
          unselected,
          id,
          listed,
          (contains-false_iff shot.rejected_take_ids id).0 absent,
          rw unselected (rw h refl),
        ))

  idle_stage-pending : any waits shot.take_ids ≡ false → IsStageOf shot (idle_stage shot)
  unfolding idle_stage
  idle_stage-pending h = inr (
      inr (
        unselected,
        All_of_In _ shot.take_ids (λ id listed.
            elim (Bool-cases (contains shot.rejected_take_ids id)) [
              | inl there ↦ (contains_iff shot.rejected_take_ids id).0 there
              | inr absent ↦
                  let kept : waits id ≡ true = ground (arith, absent) in
                  absurd (cc (h, (any_iff waits shot.take_ids).1 (id, listed, kept)))
            ]),
        rw unselected (rw h refl),
      ))

pub idle_stage-IsStageOf : (shot : ShotRuntimeState) → IsStageOf shot (idle_stage shot)
unfolding idle_stage
idle_stage-IsStageOf shot = elim (Option-cases shot.selected_candidate_take_id) [
  | inr (id, chosen) ↦ inl (id, chosen, rw chosen refl)
  | inl unselected ↦ elim (Bool-cases (any (waits shot unselected) shot.take_ids)) [
    | inl h ↦ idle_stage-candidates shot unselected h
    | inr h ↦ idle_stage-pending shot unselected h
  ]
]
