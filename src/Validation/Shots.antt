-- ===== src/Validation/Shots.antt =====
-- The checks of one shot: `validate_shot` of src/validation.rs and what it calls.
use spark_stage.Base.{
  ℕ, String, Bool, true, false, Option, none, some, List, [], ◌∷◌, ◌++◌, Map, map, not, ◌&&◌, ◌||◌,
  ◌==◌, leb, ltb, length, contains, lookup, str_eq, is_some, codes, is_whitespace, concat,
  if◌then◌else◌, ◌+◌, ◌-◌,
}
use spark_stage.Domain.Script.{
  Operation, ContinuityRelation, Conditioning, DeliverySpec, DialogueLine, ShotContract,
}
use spark_stage.Store.Support.{is_empty}
use spark_stage.Validation.Text.{owner_of, escape_pointer, is_pause_punctuation}
use spark_stage.Validation.Issues.{
  Issues, push_if, push_found, at_index, at, for_each_index, for_all, require_text,
  require_reference_path, reject_backend_controls, reject_prohibited_story_terms,
}

abbrev pub max_shot_duration_seconds : ℕ
max_shot_duration_seconds = 15

abbrev pub max_audition_takes : ℕ
max_audition_takes = 4

-- The loop over the characters of a shot, with the ids listed so far.
unfoldable pub check_characters :
    (base : String) → (declared seen : List String) → ℕ → List String → Issues
check_characters base declared seen index [] = []
check_characters base declared seen index (id ∷ ids) =
    let path = at_index (at base "characters") index in
    push_if (not (contains declared id)) "UNKNOWN_CHARACTER" path
      (concat ("character `" ∷ id ∷ "` is not declared in bible" ∷ []))
    ++ push_if (contains seen id) "DUPLICATE_ID" path
        (concat ("character `" ∷ id ∷ "` is listed more than once" ∷ []))
    ++ check_characters base declared (id ∷ seen) (ℕ.suc index) ids

abbrev pub fits_i2v : Option Conditioning → Bool
fits_i2v none = false
fits_i2v (some value) = is_some value.first_frame && not (is_some value.last_frame)

abbrev pub fits_flf2v : Option Conditioning → Bool
fits_flf2v none = false
fits_flf2v (some value) = is_some value.first_frame && is_some value.last_frame

abbrev pub fits_r2v : Option Conditioning → Bool
fits_r2v none = false
fits_r2v (some value) = not (is_empty value.reference_images) || is_some value.reference_video

-- The match on the operation and its conditioning.
abbrev pub check_operation : (base : String) → Operation → Option Conditioning → Issues
check_operation base Operation.t2v conditioning =
    push_if (is_some conditioning) "CONDITIONING_MISMATCH" base
      "t2v must not include visual conditioning"
check_operation base Operation.i2v conditioning =
    push_if (not (fits_i2v conditioning)) "CONDITIONING_MISMATCH" base
      "i2v requires first_frame and must not include last_frame"
check_operation base Operation.flf2v conditioning =
    push_if (not (fits_flf2v conditioning)) "CONDITIONING_MISMATCH" base
      "flf2v requires first_frame and last_frame"
check_operation base Operation.r2v conditioning =
    push_if (not (fits_r2v conditioning)) "CONDITIONING_MISMATCH" base
      "r2v requires reference_images or reference_video"

abbrev pub check_file : (path : String) → Option String → Issues
check_file path none = []
check_file path (some file) = require_reference_path file path

abbrev pub check_files : (base : String) → Option Conditioning → Issues
check_files base none = []
check_files base (some value) =
    check_file (at base "first_frame") value.first_frame
    ++ check_file (at base "last_frame") value.last_frame
    ++ check_file (at base "reference_video") value.reference_video
    ++ for_each_index
        (λ index file. require_reference_path file (at_index (at base "reference_images") index)) 0
        value.reference_images

unfoldable pub validate_conditioning : (shot_index : ℕ) → Operation → Option Conditioning → Issues
unfolding for_each_index require_reference_path
validate_conditioning shot_index operation conditioning =
    let base = at (at_index "/shots" shot_index) "conditioning" in
    check_operation base operation conditioning ++ check_files base conditioning

-- `shot_indices`: of two shots with one id the later counts.
abbrev pub or_here : Option ℕ → Bool → ℕ → Option ℕ
or_here (some later) here index = some later
or_here none here index = if here then some index else none

unfoldable pub shot_index_of : String → (index : ℕ) → List ShotContract → Option ℕ
shot_index_of id index [] = none
shot_index_of id index (shot ∷ shots) =
    or_here (shot_index_of id (ℕ.suc index) shots) (str_eq shot.id id) index

abbrev pub get_elem? {ℓ} : {A : Type ℓ} → List A → ℕ → Option A
get_elem? [] n = none
get_elem? (x ∷ xs) ℕ.zero = some x
get_elem? (x ∷ xs) (ℕ.suc n) = get_elem? xs n

-- The source of a shot, if it stands before it, and the issues where it does not.
abbrev pub check_source : (path source : String) (shot_index : ℕ) → Option ℕ → Option ℕ × Issues
check_source path source shot_index none = (
  none,
  push_if true "CONTINUITY_REFERENCE" path
      (concat ("continuity source `" ∷ source ∷ "` does not exist" ∷ [])),
)
check_source path source shot_index (some index) =
    if leb shot_index index
    then (
      none,
      push_if true "CONTINUITY_REFERENCE" path
          "continuity source must appear before the current shot",
    )
    else (some index, [])

unfoldable pub source_of :
    List ShotContract → (path : String) (shot_index : ℕ) → Option String → Option ℕ × Issues
unfolding shot_index_of
source_of shots path shot_index none = (none, [])
source_of shots path shot_index (some source) =
    check_source path source shot_index (shot_index_of source 0 shots)

abbrev pub is_continuous : ContinuityRelation → Bool
is_continuous ContinuityRelation.continuous = true
is_continuous _ = false

abbrev pub outside_shot : (characters : List String) → Option String → Bool
outside_shot characters none = false
outside_shot characters (some owner) = not (contains characters owner)

abbrev pub owner_text : Option String → String
owner_text none = ""
owner_text (some owner) = owner

unfoldable pub check_states :
    (base field : String) → (characters : List String) → Map String → Issues
unfolding owner_of escape_pointer for_all
check_states base field characters states =
    for_all
      (λ e.
        push_if (outside_shot characters (owner_of e.0)) "CHARACTER_SCOPE"
          (at (at base field) (escape_pointer e.0))
          (concat (
            "continuity character `"
            ∷ owner_text (owner_of e.0)
            ∷ "` must be listed in shot.characters"
            ∷ [])))
      states

abbrev pub check_state : (base key expected : String) → Option String → Issues
check_state base key expected none = []
check_state base key expected (some actual) =
    push_if (not (str_eq actual expected)) "CONTINUITY_STATE_MISMATCH"
      (at (at base "state_in") (escape_pointer key))
      (concat (
        "state `" ∷ key ∷ "` is `" ∷ expected ∷ "` but source shot ends with `" ∷ actual ∷ "`"
        ∷ []))

-- A continuous shot goes on in the place and the states of its source.
abbrev pub check_continuous : (base : String) → ShotContract → Option ShotContract → Issues
check_continuous base shot none = []
check_continuous base shot (some source) =
    push_if (not (str_eq source.location shot.location)) "CONTINUITY_STATE_MISMATCH"
      (at base "relation") "continuous shots must use the same location"
    ++ for_all (λ e. check_state base e.0 e.1 (lookup e.0 source.continuity.state_out))
        shot.continuity.state_in

abbrev pub source_shot : List ShotContract → (continuous : Bool) → Option ℕ → Option ShotContract
source_shot shots true (some index) = get_elem? shots index
source_shot shots _ _ = none

unfoldable pub validate_continuity : List ShotContract → (shot_index : ℕ) → ShotContract → Issues
unfolding source_of check_states for_all
validate_continuity shots shot_index shot =
    let base = at (at_index "/shots" shot_index) "continuity" in
    let (source_index, issues) = source_of shots (at base "from") shot_index shot.continuity.from in
    let continuous = is_continuous shot.continuity.relation in
    issues
    ++ push_if (continuous && not (is_some shot.continuity.from)) "CONTINUITY_REFERENCE"
        (at base "from") "continuous relation requires a source shot"
    ++ check_states base "state_in" shot.characters shot.continuity.state_in
    ++ check_states base "state_out" shot.characters shot.continuity.state_out
    ++ check_continuous base shot (source_shot shots continuous source_index)

-- The characters of the spoken text and its pauses.
unfoldable pub count_spoken : List ℕ → ℕ
unfolding is_pause_punctuation
count_spoken [] = 0
count_spoken (c ∷ s) =
    let later = count_spoken s in
    if is_pause_punctuation c || is_whitespace c then later else ℕ.suc later

unfoldable pub count_pauses : List ℕ → ℕ
unfolding is_pause_punctuation
count_pauses [] = 0
count_pauses (c ∷ s) =
    let later = count_pauses s in if is_pause_punctuation c then ℕ.suc later else later

abbrev pub total : List ℕ → ℕ
total [] = 0
total (n ∷ ns) = n + total ns

abbrev pub check_line : (base : String) → (characters : List String) → ℕ → DialogueLine → Issues
check_line base characters index line =
    push_if (not (contains characters line.who)) "CHARACTER_SCOPE" (at (at_index base index) "who")
      (concat ("dialogue speaker `" ∷ line.who ∷ "` must be listed in shot.characters" ∷ []))
    ++ require_text line.text (at (at_index base index) "text") "DIALOGUE_TEXT"
    ++ reject_prohibited_story_terms line.text (at (at_index base index) "text")

-- `over_budget` compares the estimate with the time of the shot, in floating point, and gives the
-- message of the issue. Its arguments are the spoken characters, the pauses, the changes of the line
-- and the duration.
module _ (over_budget : (spoken pauses changes duration : ℕ) → Option String) where
  unfoldable pub validate_dialogue : (shot_index : ℕ) → ShotContract → Issues
  unfolding for_each_index count_spoken count_pauses require_text reject_prohibited_story_terms
  validate_dialogue shot_index shot =
      let base = at (at_index "/shots" shot_index) "dialogue" in
      let texts = map (λ line. codes line.text) shot.dialogue in
      for_each_index (check_line base shot.characters) 0 shot.dialogue
      ++ push_found
          (over_budget (total (map count_spoken texts)) (total (map count_pauses texts))
            (length shot.dialogue - 1) shot.duration)
          "DIALOGUE_BUDGET" base (λ message. message)

  unfoldable pub validate_shot :
      DeliverySpec
      → (characters locations : List String) → List ShotContract
      → (index : ℕ) → ShotContract
      → Issues
  unfolding require_text reject_backend_controls reject_prohibited_story_terms check_characters
      for_all validate_conditioning validate_continuity validate_dialogue
  validate_shot delivery characters locations shots index shot =
      let base = at_index "/shots" index in
      let plan = shot.generation_plan in
      require_text shot.title (at base "title") "SHOT_TEXT"
      ++ require_text shot.prompt (at base "prompt") "SHOT_TEXT"
      ++ reject_backend_controls shot.prompt (at base "prompt")
      ++ reject_prohibited_story_terms shot.prompt (at base "prompt")
      ++ push_if (not (leb 1 shot.duration && leb shot.duration max_shot_duration_seconds))
          "DURATION_RANGE" (at base "duration") "shot duration must be between 1 and 15 seconds"
      ++ push_if
          (not (shot.width == delivery.width)
            || not (shot.height == delivery.height)
            || not (shot.fps == delivery.fps))
          "DELIVERY_MISMATCH" base "shot width, height, and fps must match project delivery"
      ++ check_characters base characters [] 0 shot.characters
      ++ push_if (not (contains locations shot.location)) "UNKNOWN_LOCATION" (at base "location")
          (concat ("location `" ∷ shot.location ∷ "` is not declared in bible" ∷ []))
      ++ for_all
          (λ e.
            push_if (not (contains shot.characters e.0)) "CHARACTER_SCOPE"
              (at (at base "camera/screen_direction") e.0)
              "screen direction character must be listed in shot.characters")
          shot.camera.screen_direction
      ++ validate_conditioning index shot.operation shot.conditioning
      ++ validate_continuity shots index shot
      ++ validate_dialogue index shot
      ++ push_if (ltb max_audition_takes plan.audition_takes) "AUDITION_BUDGET"
          (at base "generation_plan/audition_takes") "audition_takes cannot exceed 4"
      ++ require_text plan.audition_profile (at base "generation_plan/audition_profile")
          "PROFILE_NAME"
      ++ require_text plan.final_profile (at base "generation_plan/final_profile") "PROFILE_NAME"
      ++ push_if (str_eq plan.audition_profile plan.final_profile) "PROFILE_COLLISION"
          (at base "generation_plan/final_profile")
          "final_profile must differ from audition_profile so take cost and lineage remain distinguishable"
