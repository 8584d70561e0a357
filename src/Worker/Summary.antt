-- ===== src/Worker/Summary.antt =====
-- The budget summary of a project: `budget_summary` and its estimates in
-- src/worker/runtime/budget.rs. The free space that the system reports is an argument.
use Prim.Native.Nat.{min}
use spark_stage.Base.{
  ℕ, String, Bool, true, false, Option, none, some, List, [], ◌∷◌, ◌-◌, ◌/◌, ◌&&◌, ◌||◌, Map,
  values, retain, str_eq, length, ltb, saturating_add, saturating_mul, saturating_add_u32, u32_max,
  if◌then◌else◌, Result, ok, ◌>>=◌,
}
use spark_stage.Domain.Script.{ShotContract, ScriptBundle}
use spark_stage.Domain.Project.{TakeMetadata}
use spark_stage.Domain.Budget.{BudgetContract}
use spark_stage.Domain.State.{ProjectState}
use spark_stage.Store.Errors.{StoreError}

-- `BudgetSummary` of src/tui/protocol.rs.
pub record BudgetSummary : Type 0 where
  pub estimate_source : String
  pub elapsed_seconds : ℕ
  pub estimated_total_seconds : ℕ
  pub estimated_remaining_seconds : ℕ
  pub wall_clock_limit_seconds : ℕ
  pub disk_free_bytes : ℕ
  pub disk_required_bytes : ℕ
  pub minimum_disk_free_bytes : ℕ
  pub audition_takes_used : ℕ
  pub audition_takes_limit : ℕ
  pub max_audition_takes_per_shot : ℕ
  pub final_takes_used : ℕ
  pub final_takes_limit : ℕ
  pub max_final_takes_per_shot : ℕ
  pub overrun_required : Bool

unfoldable pub take_count : Map TakeMetadata → (shot_id profile : String) → ℕ
take_count takes shot_id profile =
    min (length (retain (λ t. str_eq t.shot_id shot_id && str_eq t.profile profile) (values takes)))
      u32_max

unfoldable pub estimate_wall_seconds :
    ShotContract → (audition : Bool) → (takes : ℕ) → BudgetContract → ℕ
estimate_wall_seconds shot audition takes contract =
    saturating_mul
      (saturating_mul shot.duration (
        if audition
        then contract.estimate.audition_wall_seconds_per_video_second
        else contract.estimate.final_wall_seconds_per_video_second))
      takes

unfoldable pub estimate_disk_bytes :
    ShotContract → (audition : Bool) → (takes : ℕ) → BudgetContract → ℕ
estimate_disk_bytes shot audition takes contract =
    saturating_mul
      (saturating_mul shot.duration (
        if audition
        then contract.estimate.audition_bytes_per_video_second
        else contract.estimate.final_bytes_per_video_second))
      takes

-- The sums of the loop over the shots.
pub record Totals : Type 0 where
  pub remaining_seconds : ℕ
  pub disk_required_bytes : ℕ
  pub audition_takes_used : ℕ
  pub audition_takes_limit : ℕ
  pub final_takes_used : ℕ
  pub final_takes_limit : ℕ

abbrev pub no_totals : Totals
no_totals = record {
  remaining_seconds = 0;
  disk_required_bytes = 0;
  audition_takes_used = 0;
  audition_takes_limit = 0;
  final_takes_used = 0;
  final_takes_limit = 0;
}

unfoldable pub add_shot : Map TakeMetadata → BudgetContract → Totals → ShotContract → Totals
unfolding take_count estimate_wall_seconds estimate_disk_bytes
add_shot takes contract t shot =
    let plan = shot.generation_plan in
    let audition_used = take_count takes shot.id plan.audition_profile in
    let final_used = take_count takes shot.id plan.final_profile in
    let audition_remaining = plan.audition_takes - audition_used in
    let final_remaining = 1 - final_used in
    record {
      remaining_seconds =
          saturating_add
            (saturating_add t.remaining_seconds
              (estimate_wall_seconds shot true audition_remaining contract))
            (estimate_wall_seconds shot false final_remaining contract);
      disk_required_bytes =
          saturating_add
            (saturating_add t.disk_required_bytes
              (estimate_disk_bytes shot true audition_remaining contract))
            (estimate_disk_bytes shot false final_remaining contract);
      audition_takes_used = saturating_add_u32 t.audition_takes_used audition_used;
      audition_takes_limit = saturating_add_u32 t.audition_takes_limit plan.audition_takes;
      final_takes_used = saturating_add_u32 t.final_takes_used final_used;
      final_takes_limit = saturating_add_u32 t.final_takes_limit 1;
    }

unfoldable pub add_shots : Map TakeMetadata → BudgetContract → Totals → List ShotContract → Totals
unfolding add_shot
add_shots takes contract t [] = t
add_shots takes contract t (shot ∷ rest) =
    add_shots takes contract (add_shot takes contract t shot) rest

abbrev pub shots_of : Option ScriptBundle → List ShotContract
shots_of none = []
shots_of (some bundle) = bundle.shots

-- `fold(0, u64::saturating_add)`.
unfoldable pub elapsed_milliseconds : ℕ → List TakeMetadata → ℕ
elapsed_milliseconds total [] = total
elapsed_milliseconds total (take ∷ rest) =
    elapsed_milliseconds (saturating_add total take.elapsed_milliseconds) rest

unfoldable pub budget_summary :
    (free : Result StoreError ℕ)
    → ProjectState
    → Option ScriptBundle
    → Result StoreError BudgetSummary
unfolding add_shots elapsed_milliseconds
budget_summary free s bundle =
    let contract = s.budget.contract in
    let elapsed = saturating_add (elapsed_milliseconds 0 (values s.takes)) 999 / 1000 in
    let totals = add_shots s.takes contract no_totals (shots_of bundle) in
    let total = saturating_add elapsed totals.remaining_seconds in
    let floor = saturating_add contract.minimum_disk_free_bytes totals.disk_required_bytes in
    free >>= λ free_bytes. ok record {
      estimate_source = contract.estimate.source;
      elapsed_seconds = elapsed;
      estimated_total_seconds = total;
      estimated_remaining_seconds = totals.remaining_seconds;
      wall_clock_limit_seconds = contract.wall_clock_limit_seconds;
      disk_free_bytes = free_bytes;
      disk_required_bytes = totals.disk_required_bytes;
      minimum_disk_free_bytes = contract.minimum_disk_free_bytes;
      audition_takes_used = totals.audition_takes_used;
      audition_takes_limit = totals.audition_takes_limit;
      max_audition_takes_per_shot = contract.max_audition_takes_per_shot;
      final_takes_used = totals.final_takes_used;
      final_takes_limit = totals.final_takes_limit;
      max_final_takes_per_shot = contract.max_final_takes_per_shot;
      overrun_required = ltb contract.wall_clock_limit_seconds total || ltb free_bytes floor;
    }
