-- ===== src/Worker/Budget/Exact.antt =====
-- `assess_generation` of src/worker/runtime/budget.rs, compared with what a generation may use in
-- plain numbers and with the overruns on record.
use Prim.Native.Nat.{min}
use spark_stage.Base.{
  ℕ, String, Bool, true, List, [], ◌∷◌, ◌+◌, ◌*◌, ◌≤◌, ◌≡◌, ◌⊎◌, In, ◌&&◌, values, retain, length,
  concat, decimal, ltb, str_eq, is_some, u32_max, u64_max, if◌then◌else◌,
}
use spark_stage.Domain.Script.{ShotContract}
use spark_stage.Domain.Budget.{BudgetOverrun}
use spark_stage.Domain.State.{ProjectState}
use spark_stage.Worker.Summary.{BudgetSummary}
use spark_stage.Worker.Budget.{approved_dimensions}

-- An overrun on record that was approved names the dimension.
abbrev pub IsApproved : List BudgetOverrun → String → Type 0
IsApproved overruns dimension =
    (o : BudgetOverrun) × In o overruns × (is_some o.approved_at ≡ true) × In dimension o.dimensions

module _ (s : ProjectState) (shot : ShotContract) (profile : String) (audition : Bool) where
  -- The takes of the shot under the profile, with the new one.
  abbrev pub next_take : ℕ
  next_take =
      min
        (length
            (retain (λ t. str_eq t.shot_id shot.id && str_eq t.profile profile) (values s.takes))
          + 1)
        u32_max

  -- Whether the new take comes on top of the takes that the estimates plan for.
  abbrev pub is_extra : Bool
  is_extra = ltb (if audition then shot.generation_plan.audition_takes else 1) next_take

  abbrev pub extra_bytes : ℕ
  extra_bytes =
      if is_extra
      then shot.duration
        * (if audition
            then s.budget.contract.estimate.audition_bytes_per_video_second
            else s.budget.contract.estimate.final_bytes_per_video_second)
      else 0

  abbrev pub extra_seconds : ℕ
  extra_seconds =
      if is_extra
      then shot.duration
        * (if audition
            then s.budget.contract.estimate.audition_wall_seconds_per_video_second
            else s.budget.contract.estimate.final_wall_seconds_per_video_second)
      else 0

  abbrev pub take_limit : ℕ
  take_limit =
      if audition
      then s.budget.contract.max_audition_takes_per_shot
      else s.budget.contract.max_final_takes_per_shot

  abbrev pub take_dimension : String
  take_dimension = concat (
      "take:"
      ∷ decimal s.budget.contract.contract_revision
      ∷ ":"
      ∷ shot.id
      ∷ ":"
      ∷ (if audition then "audition" else "final")
      ∷ ":"
      ∷ decimal next_take
      ∷ [])

  abbrev pub wall_dimension : String
  wall_dimension = concat ("wall:" ∷ decimal s.budget.contract.contract_revision ∷ [])

  -- The free space holds the minimum, what the summary says is needed and what the new take adds; and
  -- the number of takes and the time keep their limits, or an approved overrun names them.
  pub record IsWithin (summary : BudgetSummary) : Type 0 where
    pub space :
        min
          (s.budget.contract.minimum_disk_free_bytes + summary.disk_required_bytes + extra_bytes)
          u64_max
        ≤ summary.disk_free_bytes
    pub takes : (next_take ≤ take_limit) ⊎ IsApproved (values s.budget.overruns) take_dimension
    pub wall :
        (min (summary.estimated_total_seconds + extra_seconds) u64_max
          ≤ s.budget.contract.wall_clock_limit_seconds)
        ⊎ IsApproved (values s.budget.overruns) wall_dimension

module _ (s : ProjectState) (summary : BudgetSummary) (shot : ShotContract) (profile : String)
    (audition : Bool) where
  abbrev total : ℕ
  total = min (summary.estimated_total_seconds + extra_seconds s shot profile audition) u64_max

  abbrev IsNamed : String × String → Type 0
  IsNamed e = In e.0 (approved_dimensions (values s.budget.overruns))
