-- ===== src/Build/Subtitles.antt =====
-- The subtitle cues of a build, and how they are written: src/build/subtitles.rs.
pub mod Timeline
pub mod Cues
use Prim.Native.Char.{code}
use Prim.Native.Nat.{min}
use Prim.Native.String.{◌++◌ as str_append}
use spark_stage.Base.{
  ℕ, String, Bool, true, false, Option, none, some, List, [], ◌∷◌, ◌++◌, ◌+◌, ◌*◌, ◌/◌, ◌%◌, ◌^◌,
  ◌&&◌, ◌||◌, ◌==◌, not, ltb, length, contains, is_whitespace, decimal, concat, join, str_eq,
  checked_add, saturating_mul, ok_or, Result, ok, err, ◌>>=◌, if◌then◌else◌,
}
use spark_stage.Domain.Script.{DialogueLine, ShotContract}

-- `BuildKind` of src/build.rs.
pub data BuildKind : Type 0 where
  draft trailer final : BuildKind

abbrev pub is_trailer : BuildKind → Bool
is_trailer draft = false
is_trailer trailer = true
is_trailer final = false

pub record SubtitleCue : Type 0 where
  pub shot_id : String
  pub start_milliseconds : ℕ
  pub end_milliseconds : ℕ
  pub speaker : String
  pub text : String

-- The word that a text starts with, and the words after it.
abbrev pub with_word : String → List String → List String
with_word String.[] rest = rest
with_word (String.◌∷◌ c s) rest = String.◌∷◌ c s ∷ rest

unfoldable pub words : String → String × List String
words String.[] = ("", [])
words (String.◌∷◌ c s) =
    let (word, rest) = words s in
    if is_whitespace (code c) then ("", with_word word rest) else (String.◌∷◌ c word, rest)

-- `value.split_whitespace().collect::<Vec<_>>().join(" ")`.
unfoldable pub normalize : String → String
unfolding words
normalize value = let (word, rest) = words value in join " " (with_word word rest)

-- `offset + …` on `u64`, which wraps in a release build.
unfoldable pub wrapping_add : ℕ → ℕ → ℕ
wrapping_add a b = (a + b) % 18446744073709551616

unfoldable pub cue_at :
    (shot_id : String) (offset duration count index : ℕ) → DialogueLine → SubtitleCue
unfolding wrapping_add normalize
cue_at shot_id offset duration count index line = record {
  shot_id = shot_id;
  start_milliseconds = wrapping_add offset (saturating_mul duration index / count);
  end_milliseconds = wrapping_add offset (saturating_mul duration (index + 1) / count);
  speaker = normalize line.who;
  text = normalize line.text;
}

-- The loop of `append_shot_cues`.
unfoldable pub cues_from :
    (shot_id : String) (offset duration count index : ℕ) → List DialogueLine → List SubtitleCue
unfolding cue_at
cues_from shot_id offset duration count index [] = []
cues_from shot_id offset duration count index (line ∷ rest) =
    cue_at shot_id offset duration count index line
    ∷ cues_from shot_id offset duration count (index + 1) rest

unfoldable pub append_shot_cues :
    List SubtitleCue
    → (shot_id : String) (offset duration : ℕ) → List DialogueLine
    → List SubtitleCue
unfolding cues_from
append_shot_cues cues shot_id offset duration dialogue =
    if length dialogue == 0 || duration == 0
    then cues
    else cues ++ cues_from shot_id offset duration (length dialogue) 0 dialogue

abbrev pub is_selected : List String → ShotContract → Bool
is_selected [] shot = true
is_selected (id ∷ ids) shot = contains (id ∷ ids) shot.id

unfoldable pub shot_milliseconds : BuildKind → ShotContract → ℕ
shot_milliseconds kind shot =
    (if is_trailer kind then min 2 shot.duration else shot.duration) * 1000

pub data BuildError : Type 0 where
  duration_overflow : BuildError

-- The loop of `plan`: the cues of the selected shots, one shot after the other.
unfoldable pub plan_cues :
    BuildKind
    → (selected : List String) → List SubtitleCue
    → (offset : ℕ) → List ShotContract
    → Result BuildError (List SubtitleCue × ℕ)
unfolding append_shot_cues shot_milliseconds
plan_cues kind selected cues offset [] = ok (cues, offset)
plan_cues kind selected cues offset (shot ∷ rest) = elim (is_selected selected shot) [
  | false ↦ plan_cues kind selected cues offset rest
  | true ↦
      let duration = shot_milliseconds kind shot in
      ok_or (checked_add offset duration) duration_overflow >>= λ next.
      plan_cues kind selected (append_shot_cues cues shot.id offset duration shot.dialogue) next
        rest
]

-- `{:02}` and `{:03}`.
abbrev pub two_digits : ℕ → String
two_digits n = if ltb n 10 then str_append "0" (decimal n) else decimal n

abbrev pub three_digits : ℕ → String
three_digits n = if ltb n 100 then str_append "0" (two_digits n) else decimal n

unfoldable pub timestamp : ℕ → (separator : String) → String
timestamp milliseconds separator = concat (
    two_digits (milliseconds / 3600000)
    ∷ ":"
    ∷ two_digits (milliseconds / 60000 % 60)
    ∷ ":"
    ∷ two_digits (milliseconds / 1000 % 60)
    ∷ separator
    ∷ three_digits (milliseconds % 1000)
    ∷ [])

abbrev cue_lines : String → String → SubtitleCue → String
cue_lines name separator cue = concat (
    name
    ∷ "\n"
    ∷ timestamp cue.start_milliseconds separator
    ∷ " --> "
    ∷ timestamp cue.end_milliseconds separator
    ∷ "\n"
    ∷ cue.speaker
    ∷ ": "
    ∷ cue.text
    ∷ "\n\n"
    ∷ [])

unfoldable pub render_srt_from : (index : ℕ) → List SubtitleCue → String
unfolding timestamp
render_srt_from index [] = ""
render_srt_from index (cue ∷ rest) =
    str_append (cue_lines (decimal (index + 1)) "," cue) (render_srt_from (index + 1) rest)

unfoldable pub render_vtt_from : List SubtitleCue → String
unfolding timestamp
render_vtt_from [] = ""
render_vtt_from (cue ∷ rest) = str_append (cue_lines cue.shot_id "." cue) (render_vtt_from rest)

unfoldable pub render_srt : List SubtitleCue → String
unfolding render_srt_from
render_srt cues = render_srt_from 0 cues

unfoldable pub render_vtt : List SubtitleCue → String
unfolding render_vtt_from
render_vtt cues = str_append "WEBVTT\n\n" (render_vtt_from cues)
