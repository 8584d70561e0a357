-- ===== src/Build/Subtitles/Timeline.antt =====
-- The cues of a shot fill its time without a gap, and those of a build follow each other.
use Prim.Native.Nat.{min}
use native.Mathlib.Nat.{
  mul-le-mul_left, div-le_of_le-mul, le-div_iff_mul-le, div-mul-le_self, mul-div_cancel,
}
use spark_stage.Base.{
  ℕ, String, List, [], ◌∷◌, ◌++◌, ◌+◌, ◌*◌, ◌/◌, ◌≤◌, ◌<◌, ◌≡◌, ap, subst, arith, length, u64_max,
  saturating_mul,
}
use spark_stage.Domain.Script.{DialogueLine}
use spark_stage.Build.Subtitles.{SubtitleCue, wrapping_add, cue_at, cues_from}

-- The cues start at one time, end at the other, and each starts where the one before it ends.
abbrev pub IsTimeline : ℕ → ℕ → List SubtitleCue → Type 0
IsTimeline from to [] = from ≡ to
IsTimeline from to (cue ∷ rest) =
    (cue.start_milliseconds ≡ from)
    × (cue.start_milliseconds ≤ cue.end_milliseconds)
    × IsTimeline cue.end_milliseconds to rest

-- The cues lie between the two times, and none starts before the one before it ends.
abbrev pub IsOrdered : ℕ → ℕ → List SubtitleCue → Type 0
IsOrdered from to [] = from ≤ to
IsOrdered from to (cue ∷ rest) =
    (from ≤ cue.start_milliseconds)
    × (cue.start_milliseconds ≤ cue.end_milliseconds)
    × IsOrdered cue.end_milliseconds to rest

pub IsTimeline-IsOrdered :
    (from to : ℕ) (cues : List SubtitleCue) → IsTimeline from to cues → IsOrdered from to cues
IsTimeline-IsOrdered from to [] h = omega (arith, h)
IsTimeline-IsOrdered from to (cue ∷ rest) (start, order, later) =
    (omega (arith, start), order, IsTimeline-IsOrdered cue.end_milliseconds to rest later)

pub IsOrdered-earlier :
    (a b to : ℕ) (cues : List SubtitleCue) → a ≤ b → IsOrdered b to cues → IsOrdered a to cues
IsOrdered-earlier a b to [] le h = omega (arith, le, h)
IsOrdered-earlier a b to (cue ∷ rest) le (start, order, later) =
    (omega (arith, le, start), order, later)

pub IsOrdered-append :
    (a b c : ℕ) (xs ys : List SubtitleCue)
    → IsOrdered a b xs
    → IsOrdered b c ys
    → IsOrdered a c (xs ++ ys)
IsOrdered-append a b c [] ys h k = IsOrdered-earlier a b c ys h k
IsOrdered-append a b c (x ∷ xs) ys (start, order, later) k =
    (start, order, IsOrdered-append x.end_milliseconds b c xs ys later k)

module _ (duration count : ℕ) (some_line : 0 < count) where
  share-monotone : (index : ℕ) → duration * index / count ≤ duration * (index + 1) / count
  share-monotone index =
      let below = div-mul-le_self (duration * index) count in
      let grows = mul-le-mul_left {m = index} {n = index + 1} duration (omega arith) in
      (le-div_iff_mul-le some_line).1 (omega (arith, below, grows))

  share-bounded : (index : ℕ) → index ≤ count → duration * index / count ≤ duration
  share-bounded index le =
      let grows = mul-le-mul_left {m = index} {n = count} duration le in
      div-le_of_le-mul count (subst (λ p. duration * index ≤ p) (ground arith) grows)

module _ (shot_id : String) (offset duration count : ℕ) (some_line : 0 < count)
    (fits : duration * count ≤ u64_max) (room : offset + duration ≤ u64_max) where
  -- The start of a cue, with no overflow.
  point :
      (index : ℕ)
      → index ≤ count
      → wrapping_add offset (saturating_mul duration index / count)
        ≡ offset + duration * index / count
  unfolding wrapping_add saturating_mul
  point index le =
      let grows = mul-le-mul_left {m = index} {n = count} duration le in
      let exact : min (duration * index) u64_max ≡ duration * index = omega (arith, grows, fits) in
      let bounded = share-bounded duration count some_line index le in
      rw exact (omega (arith, bounded, room))

  pub cues_from-IsTimeline :
      (index : ℕ) (dialogue : List DialogueLine)
      → index + length dialogue ≡ count
      → IsTimeline
          (offset + duration * index / count)
          (offset + duration)
          (cues_from shot_id offset duration count index dialogue)
  unfolding cues_from cue_at
  cues_from-IsTimeline index [] all =
      let last : index ≡ count = omega (arith, all) in
      rw last (ap (λ n. offset + n) (mul-div_cancel duration some_line))
  cues_from-IsTimeline index (line ∷ rest) all =
      let start = point index (omega (arith, all)) in
      let end = point (index + 1) (omega (arith, all)) in
      let grows = share-monotone duration count some_line index in
      (
        start,
        omega (arith, start, end, grows),
        rw end (cues_from-IsTimeline (index + 1) rest (omega (arith, all))),
      )
