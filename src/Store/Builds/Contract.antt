-- ===== src/Store/Builds/Contract.antt =====
-- Which builds a new script makes stale: src/store/project/builds.rs.
use spark_stage.Base.{
  String, Bool, true, Option, none, some, List, Map, map, values, not, ◌||◌, any, retain, contains,
  lookup, if◌then◌else◌,
}
use spark_stage.Domain.Project.{BuildRecord}
use spark_stage.Domain.State.{ProjectState}
use spark_stage.Store.Disk.{BuildRecipe}
use spark_stage.Store.Builds.{valid_project_relative_path, mark_build_ids_stale}

abbrev uses_shot : List String → Option BuildRecipe → Bool
uses_shot changed none = true
uses_shot changed (some recipe) = any (λ input. contains changed input.shot_id) recipe.inputs

-- A recipe whose path is unsafe, or that cannot be read, makes its build stale.
unfoldable pub outdated_by_shots : Map BuildRecipe → List String → BuildRecord → Bool
outdated_by_shots recipes changed build =
    not (valid_project_relative_path build.recipe)
    || uses_shot changed (lookup build.recipe recipes)

-- The set of the changed shots is a list.
unfoldable pub build_ids_for_shots : Map BuildRecipe → ProjectState → List String → List String
build_ids_for_shots recipes s changed =
    map (λ build. build.build_id)
      (retain (outdated_by_shots recipes changed)
        (retain (λ build. not build.stale) (values s.builds)))

unfoldable pub mark_builds_stale_for_contract :
    Map BuildRecipe
    → ProjectState
    → (changed : List String) (delivery_changed : Bool) → ProjectState
unfolding build_ids_for_shots
mark_builds_stale_for_contract recipes s changed delivery_changed =
    mark_build_ids_stale
      (if delivery_changed
        then map (λ build. build.build_id) (retain (λ build. not build.stale) (values s.builds))
        else build_ids_for_shots recipes s changed)
      s
