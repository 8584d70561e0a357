-- ===== src/Validation/Bundle.antt =====
-- The checks of a whole bundle: `Validator::run` of src/validation.rs.
use spark_stage.Base.{
  ℕ, String, Option, none, some, List, [], ◌∷◌, ◌++◌, map, not, ◌&&◌, ◌||◌, ◌==◌, ◌%◌, leb, ltb,
  length, contains, concat, decimal, saturating_add_u32,
}
use spark_stage.Domain.Script.{
  Character, Location, Story, ShotContract, AuthoringMetadata, ScriptBundle,
}
use spark_stage.Store.Support.{is_empty}
use spark_stage.Validation.Text.{is_shot_id}
use spark_stage.Validation.Issues.{
  Issues, push_if, at_index, at, for_each_index, require_schema_version, require_slug, require_text,
  reject_prohibited_story_terms,
}
use spark_stage.Validation.Shots.{validate_shot}

abbrev pub check_authoring : Option AuthoringMetadata → Issues
check_authoring none = []
check_authoring (some authoring) =
    require_text authoring.skill "/authoring/skill" "AUTHORING_METADATA"

unfoldable pub validate_project : ScriptBundle → Issues
unfolding require_slug require_text
validate_project bundle =
    let project = bundle.project in
    let delivery = project.delivery in
    require_schema_version bundle.schema_version "/schema_version"
    ++ require_slug project.id "/project/id"
    ++ require_text project.title "/project/title" "PROJECT_TEXT"
    ++ require_text project.logline "/project/logline" "PROJECT_TEXT"
    ++ require_text project.genre "/project/genre" "PROJECT_TEXT"
    ++ require_text project.language "/project/language" "PROJECT_TEXT"
    ++ push_if (project.target_duration_seconds == 0) "DURATION_RANGE"
        "/project/target_duration_seconds" "target duration must be greater than zero"
    ++ push_if (project.shot_count == 0) "SHOT_COUNT" "/project/shot_count"
        "shot count must be greater than zero"
    ++ push_if
        (delivery.width == 0
          || delivery.height == 0
          || not (delivery.width % 2 == 0)
          || not (delivery.height % 2 == 0))
        "DELIVERY_SPEC" "/project/delivery" "width and height must be positive even numbers"
    ++ push_if (not (leb 1 delivery.fps && leb delivery.fps 120)) "DELIVERY_SPEC"
        "/project/delivery/fps" "fps must be between 1 and 120"
    ++ check_authoring bundle.authoring

unfoldable pub validate_character : (seen : List String) (index : ℕ) → Character → Issues
unfolding require_slug require_text reject_prohibited_story_terms
validate_character seen index character =
    let base = at_index "/bible/characters" index in
    require_slug character.id (at base "id")
    ++ push_if (contains seen character.id) "DUPLICATE_ID" (at base "id")
        (concat ("duplicate character id `" ∷ character.id ∷ "`" ∷ []))
    ++ push_if (ltb character.age 18) "CONTENT_BOUNDARY" (at base "age")
        "short-drama characters must be adults"
    ++ push_if (not character.fictional) "CONTENT_BOUNDARY" (at base "fictional")
        "short-drama characters must be explicitly fictional"
    ++ require_text character.name (at base "name") "BIBLE_TEXT"
    ++ require_text character.appearance (at base "appearance") "BIBLE_TEXT"
    ++ require_text character.wardrobe (at base "wardrobe") "BIBLE_TEXT"
    ++ require_text character.personality (at base "personality") "BIBLE_TEXT"
    ++ reject_prohibited_story_terms character.appearance (at base "appearance")
    ++ reject_prohibited_story_terms character.wardrobe (at base "wardrobe")

unfoldable pub validate_location : (seen : List String) (index : ℕ) → Location → Issues
unfolding require_slug require_text
validate_location seen index location =
    let base = at_index "/bible/locations" index in
    require_slug location.id (at base "id")
    ++ push_if (contains seen location.id) "DUPLICATE_ID" (at base "id")
        (concat ("duplicate location id `" ∷ location.id ∷ "`" ∷ []))
    ++ require_text location.name (at base "name") "BIBLE_TEXT"
    ++ require_text location.description (at base "description") "BIBLE_TEXT"

-- A loop that keeps the set of the ids that it has seen.
unfoldable pub for_each_id {ℓ} :
    {A : Type ℓ}
    → (A → String)
    → (check : List String → ℕ → A → Issues) → (seen : List String) (index : ℕ) → List A
    → Issues
for_each_id id_of check seen index [] = []
for_each_id id_of check seen index (x ∷ xs) =
    check seen index x ++ for_each_id id_of check (id_of x ∷ seen) (ℕ.suc index) xs

unfoldable pub validate_bible : ScriptBundle → Issues
unfolding for_each_id validate_character validate_location require_text
validate_bible bundle =
    for_each_id (λ c. c.id) validate_character [] 0 bundle.bible.characters
    ++ for_each_id (λ l. l.id) validate_location [] 0 bundle.bible.locations
    ++ require_text bundle.bible.style "/bible/style" "BIBLE_TEXT"

unfoldable pub validate_story : Story → Issues
unfolding for_each_index require_text reject_prohibited_story_terms
validate_story story =
    require_text story.synopsis "/story/synopsis" "STORY_TEXT"
    ++ reject_prohibited_story_terms story.synopsis "/story/synopsis"
    ++ push_if (is_empty story.beats) "STORY_BEATS" "/story/beats"
        "story must contain at least one beat"
    ++ for_each_index
        (λ index beat.
          require_text beat (at_index "/story/beats" index) "STORY_TEXT"
          ++ reject_prohibited_story_terms beat (at_index "/story/beats" index))
        0 story.beats

-- The durations added up in `u32`.
unfoldable pub total_duration : ℕ → List ShotContract → ℕ
unfolding saturating_add_u32
total_duration sum [] = sum
total_duration sum (shot ∷ shots) = total_duration (saturating_add_u32 sum shot.duration) shots

-- `over_budget` is the comparison in floating point, as in Validation.Shots.
module _ (over_budget : (spoken pauses changes duration : ℕ) → Option String) where
  unfoldable pub check_listed_shot :
      ScriptBundle → (seen : List String) (index : ℕ) → ShotContract → Issues
  unfolding is_shot_id validate_shot
  check_listed_shot bundle seen index shot =
      let base = at_index "/shots" index in
      require_schema_version shot.schema_version (at base "schema_version")
      ++ push_if (not (is_shot_id shot.id)) "INVALID_ID" (at base "id")
          "shot id must use S followed by at least two digits"
      ++ push_if (contains seen shot.id) "DUPLICATE_ID" (at base "id")
          (concat ("duplicate shot id `" ∷ shot.id ∷ "`" ∷ []))
      ++ validate_shot over_budget bundle.project.delivery (map (λ c. c.id) bundle.bible.characters)
          (map (λ l. l.id) bundle.bible.locations) bundle.shots index shot

  unfoldable pub validate_shots : ScriptBundle → Issues
  unfolding for_each_id check_listed_shot total_duration
  validate_shots bundle =
      let project = bundle.project in
      let seconds = total_duration 0 bundle.shots in
      push_if (not (length bundle.shots == project.shot_count)) "SHOT_COUNT" "/shots" (
        concat (
          "project declares "
          ∷ decimal project.shot_count
          ∷ " shots but bundle contains "
          ∷ decimal (length bundle.shots)
          ∷ []))
      ++ push_if (not (seconds == project.target_duration_seconds)) "DURATION_MISMATCH" "/shots" (
          concat (
            "shot durations total "
            ∷ decimal seconds
            ∷ "s but project target is "
            ∷ decimal project.target_duration_seconds
            ∷ "s"
            ∷ []))
      ++ for_each_id (λ shot. shot.id) (check_listed_shot bundle) [] 0 bundle.shots

  -- `Validator::run`.
  unfoldable pub run : ScriptBundle → Issues
  unfolding validate_project validate_bible validate_story validate_shots
  run bundle =
      validate_project bundle
      ++ validate_bible bundle
      ++ validate_story bundle.story
      ++ validate_shots bundle
