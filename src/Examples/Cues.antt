-- ===== src/Examples/Cues.antt =====
-- The properties of the subtitle cues, applied to the example script.
use spark_stage.Base.{
  ℕ, ◌*◌, ◌≤◌, u64_max, List, [], ◌∷◌, ◌≡◌, refl, ok, arith, checked_add, length,
}
use spark_stage.Build.Subtitles.{SubtitleCue, draft, append_shot_cues, shot_milliseconds, plan_cues}
use spark_stage.Build.Subtitles.Timeline.{IsOrdered}
use spark_stage.Build.Subtitles.Cues.{FillsShot, append_shot_cues-FillsShot, plan_cues-IsOrdered}
use spark_stage.Examples.Script.{long_shot}

append_shot_cues-FillsShot_example :
    FillsShot [] (append_shot_cues [] "S01" 5000 200000 long_shot.dialogue) 5000 200000 2
append_shot_cues-FillsShot_example =
    append_shot_cues-FillsShot [] "S01" 5000 200000 long_shot.dialogue (omega arith) (omega arith)
      (omega arith) (omega arith)

planned :
    (out : List SubtitleCue) × (total : ℕ) × (plan_cues draft [] [] 0 (long_shot ∷ [])
      ≡ ok (out, total))
unfolding plan_cues checked_add shot_milliseconds
planned = (_, _, refl)

shareable : shot_milliseconds draft long_shot * length long_shot.dialogue ≤ u64_max
unfolding shot_milliseconds
shareable = omega arith

plan_cues-IsOrdered_example : IsOrdered 0 planned.1 planned.0
plan_cues-IsOrdered_example =
    plan_cues-IsOrdered draft [] (long_shot ∷ []) planned.0 planned.1 (shareable, tt) planned.2
