-- ===== src/Worker/Budget.antt =====
-- The gate that a generation passes: src/worker/runtime/budget.rs.
-- The free space that the system reports is an argument.
pub mod Laws
pub mod Gate
pub mod Exact
use Prim.Native.Nat.{min}
use spark_stage.Base.{
  ℕ, String, Bool, true, false, Option, none, some, List, [], ◌∷◌, ◌++◌, ◌+◌, ◌-◌, ◌/◌, ◌&&◌, ◌||◌,
  not, Map, map, values, retain, contains, str_eq, is_some, length, ltb, decimal, concat, join,
  saturating_add, saturating_mul, saturating_add_u32, u32_max, if◌then◌else◌, Result, ok, err,
  ◌>>=◌,
}
use spark_stage.Domain.Script.{ShotContract, ScriptBundle}
use spark_stage.Domain.Project.{TakeMetadata}
use spark_stage.Domain.Budget.{BudgetContract, BudgetOverrun}
use spark_stage.Domain.State.{ProjectState}
use spark_stage.Store.Errors.{StoreError}
use spark_stage.Worker.Summary.{
  BudgetSummary, budget_summary, take_count, estimate_wall_seconds, estimate_disk_bytes,
}

-- `GenerationBudgetGate`.
pub data GenerationBudgetGate : Type 0 where
  allowed : GenerationBudgetGate
  disk_blocked : (available_bytes required_bytes : ℕ) → GenerationBudgetGate
  approval_required :
      (scope : String) (dimensions reasons : List String) (wall_seconds disk_bytes : ℕ)
      → GenerationBudgetGate

-- The dimensions that the approved overruns cover.
unfoldable pub approved_dimensions : List BudgetOverrun → List String
approved_dimensions [] = []
approved_dimensions (overrun ∷ rest) =
    let later = approved_dimensions rest in
    if is_some overrun.approved_at then overrun.dimensions ++ later else later

-- What one generation more would take.
pub record Projection : Type 0 where
  pub operation : String
  pub projected : ℕ
  pub limit : ℕ
  pub total_seconds : ℕ

-- The dimensions that the projection exceeds, each with its reason.
unfoldable pub exceeded : BudgetContract → (shot_id : String) → Projection → List (String × String)
exceeded contract shot_id p =
    (if ltb p.limit p.projected
      then (
        concat (
            "take:"
            ∷ decimal contract.contract_revision
            ∷ ":"
            ∷ shot_id
            ∷ ":"
            ∷ p.operation
            ∷ ":"
            ∷ decimal p.projected
            ∷ []),
        concat (
            p.operation
            ∷ " take "
            ∷ decimal p.projected
            ∷ " exceeds the per-shot limit "
            ∷ decimal p.limit
            ∷ []),
      )
        ∷ []
      else [])
    ++ (if ltb contract.wall_clock_limit_seconds p.total_seconds
        then (
          concat ("wall:" ∷ decimal contract.contract_revision ∷ []),
          concat (
              "estimated total "
              ∷ decimal p.total_seconds
              ∷ "s exceeds the "
              ∷ decimal contract.wall_clock_limit_seconds
              ∷ "s wall-clock limit"
              ∷ []),
        )
          ∷ []
        else [])

-- The exceeded dimensions that no approved overrun covers.
unfoldable pub pending_dimensions :
    List BudgetOverrun → List (String × String) → List (String × String)
unfolding approved_dimensions
pending_dimensions overruns = retain (λ e. not (contains (approved_dimensions overruns) e.0))

unfoldable pub gate_for :
    List (String × String) → (wall_seconds disk_bytes : ℕ) → GenerationBudgetGate
gate_for [] wall_seconds disk_bytes = allowed
gate_for (e ∷ rest) wall_seconds disk_bytes =
    approval_required (join "|" (map (λ e. e.0) (e ∷ rest))) (map (λ e. e.0) (e ∷ rest))
      (map (λ e. e.1) (e ∷ rest)) wall_seconds disk_bytes

unfoldable pub projection :
    ProjectState
    → BudgetSummary
    → ShotContract
    → (profile : String) → (audition : Bool) → Projection
unfolding take_count estimate_wall_seconds
projection s summary shot profile audition =
    let contract = s.budget.contract in
    let projected = saturating_add_u32 (take_count s.takes shot.id profile) 1 in
    let planned = if audition then shot.generation_plan.audition_takes else 1 in
    record {
      operation = if audition then "audition" else "final";
      projected = projected;
      limit =
          if audition
          then contract.max_audition_takes_per_shot
          else contract.max_final_takes_per_shot;
      total_seconds =
          saturating_add summary.estimated_total_seconds
            (if ltb planned projected then estimate_wall_seconds shot audition 1 contract else 0);
    }

-- The free space that the generation needs.
unfoldable pub required_disk :
    ProjectState → BudgetSummary → ShotContract → (profile : String) → (audition : Bool) → ℕ
unfolding take_count estimate_disk_bytes
required_disk s summary shot profile audition =
    let contract = s.budget.contract in
    let projected = saturating_add_u32 (take_count s.takes shot.id profile) 1 in
    let planned = if audition then shot.generation_plan.audition_takes else 1 in
    saturating_add contract.minimum_disk_free_bytes (
      saturating_add summary.disk_required_bytes
        (if ltb planned projected then estimate_disk_bytes shot audition 1 contract else 0))

-- The rest of `assess_generation`, for the summary that it begins with.
unfoldable pub assess_summary :
    ProjectState
    → BudgetSummary
    → ShotContract
    → (profile : String) → (audition : Bool) → GenerationBudgetGate
unfolding required_disk projection exceeded pending_dimensions gate_for estimate_wall_seconds
    estimate_disk_bytes
assess_summary s summary shot profile audition =
    let contract = s.budget.contract in
    let required = required_disk s summary shot profile audition in
    if ltb summary.disk_free_bytes required
    then disk_blocked summary.disk_free_bytes required
    else gate_for
        (pending_dimensions (values s.budget.overruns)
          (exceeded contract shot.id (projection s summary shot profile audition)))
        (estimate_wall_seconds shot audition 1 contract)
        (estimate_disk_bytes shot audition 1 contract)

unfoldable pub assess_generation :
    (free : Result StoreError ℕ)
    → ProjectState
    → ScriptBundle
    → ShotContract
    → (profile : String) → (audition : Bool) → Result StoreError GenerationBudgetGate
unfolding budget_summary assess_summary
assess_generation free s bundle shot profile audition =
    budget_summary free s (some bundle) >>= λ summary.
    ok (assess_summary s summary shot profile audition)
