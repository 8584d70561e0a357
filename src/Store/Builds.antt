-- ===== src/Store/Builds.antt =====
-- Which builds a change of a shot makes stale: src/store/project/builds.rs.
pub mod Contract
pub mod Changes
pub mod Operations
pub mod Lifecycle
pub mod Steps
pub mod Atomic
pub mod Advance
pub mod Review
use Prim.Native.String.{len}
use spark_stage.Base.{
  String, Bool, true, false, Option, none, some, List, [], ◌∷◌, Map, map, values, not, ◌&&◌, ◌||◌,
  ◌==◌, all, retain, find, contains, lookup, update, str_eq, is_text, codes, is_absolute,
  components, is_normal,
}
use spark_stage.Domain.Project.{ApprovalKind, Approval, BuildRecord, FilePath}
use spark_stage.Domain.State.{ProjectState}
use spark_stage.Store.Disk.{BuildInput, BuildRecipe}

unfoldable pub valid_project_relative_path : FilePath → Bool
valid_project_relative_path path =
    not (len path == 0) && not (is_absolute (codes path)) && all is_normal (components (codes path))

-- `build_is_active`.
unfoldable pub build_is_active : BuildRecord → Bool
build_is_active build = str_eq build.status "queued" || str_eq build.status "running"

abbrev pub set_stale : BuildRecord → BuildRecord
set_stale build = record build { stale = true }

unfoldable pub mark_builds : List String → Map BuildRecord → Map BuildRecord
mark_builds [] builds = builds
mark_builds (id ∷ ids) builds = mark_builds ids (update id set_stale builds)

-- `matches!(kind, BuildReview | FinalVisualReview)`.
abbrev pub is_build_approval : ApprovalKind → Bool
is_build_approval ApprovalKind.build_review = true
is_build_approval ApprovalKind.final_visual_review = true
is_build_approval _ = false

-- `subject.is_none_or(|id| !ids.contains(id))`.
abbrev pub outside : List String → Option String → Bool
outside ids none = true
outside ids (some id) = not (contains ids id)

unfoldable pub keeps_approval : List String → Approval → Bool
keeps_approval ids a = not (is_build_approval a.kind) || outside ids a.subject_id

unfoldable pub mark_build_ids_stale : List String → ProjectState → ProjectState
mark_build_ids_stale ids s = record s {
  builds = mark_builds ids s.builds;
  pending_approvals = retain (keeps_approval ids) s.pending_approvals;
}

abbrev pub uses_other_take : Option BuildInput → Option String → Bool
uses_other_take none current = false
uses_other_take (some input) current = not (is_text current input.take_id)

abbrev pub recipe_is_outdated : Option BuildRecipe → String → Option String → Bool
recipe_is_outdated none shot_id current = true
recipe_is_outdated (some recipe) shot_id current =
    uses_other_take (find (λ input. str_eq input.shot_id shot_id) recipe.inputs) current

-- A recipe whose path is unsafe, or that cannot be read, makes its build stale.
unfoldable pub outdated_by_decision :
    Map BuildRecipe → (shot_id : String) → (current : Option String) → BuildRecord → Bool
outdated_by_decision recipes shot_id current build =
    not (valid_project_relative_path build.recipe)
    || recipe_is_outdated (lookup build.recipe recipes) shot_id current

unfoldable pub stale_ids_for_decision :
    Map BuildRecipe → (shot_id : String) → (current : Option String) → Map BuildRecord → List String
stale_ids_for_decision recipes shot_id current builds =
    map (λ build. build.build_id)
      (retain (outdated_by_decision recipes shot_id current)
        (retain (λ build. not build.stale) (values builds)))

unfoldable pub mark_builds_stale_for_decision :
    Map BuildRecipe → ProjectState → (shot_id : String) → (current : Option String) → ProjectState
mark_builds_stale_for_decision recipes s shot_id current =
    mark_build_ids_stale (stale_ids_for_decision recipes shot_id current s.builds) s
