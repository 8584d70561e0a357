-- ===== src/Build/Subtitles/Cues.antt =====
-- The cues of one shot, and those of a whole build.
use native.Mathlib.Nat.{zero-div}
use spark_stage.Base.{
  ℕ, String, List, [], ◌∷◌, ◌++◌, ◌+◌, ◌*◌, ◌/◌, ◌≤◌, ◌<◌, ◌≡◌, refl, sym, ap, subst, arith, length,
  All, u64_max, checked_add, leb, leb→le, ok_or, append-nil, some, ok, ok_injective, ok_or-eq_ok,
  >>=-eq-ok, Bool-cases, inl, inr, ◌==◌,
}
use spark_stage.Domain.Script.{DialogueLine, ShotContract}
use spark_stage.Build.Subtitles.{
  BuildKind, SubtitleCue, duration_overflow, cues_from, append_shot_cues, is_selected,
  shot_milliseconds, plan_cues,
}
use spark_stage.Build.Subtitles.Timeline.{
  IsTimeline, IsOrdered, IsTimeline-IsOrdered, IsOrdered-append, cues_from-IsTimeline,
}

length-cues_from :
    (shot_id : String) (offset duration count index : ℕ) (dialogue : List DialogueLine)
    → length (cues_from shot_id offset duration count index dialogue) ≡ length dialogue
unfolding cues_from
length-cues_from shot_id offset duration count index [] = refl
length-cues_from shot_id offset duration count index (line ∷ rest) =
    ap (λ n. ℕ.suc n) (length-cues_from shot_id offset duration count (index + 1) rest)

-- The new cues of a shot: one for each line, from the start of the shot to its end.
pub record FillsShot (cues out : List SubtitleCue) (offset duration lines : ℕ) : Type 0 where
  pub new : List SubtitleCue
  pub appended : out ≡ cues ++ new
  pub one_each : length new ≡ lines
  pub timeline : IsTimeline offset (offset + duration) new

zero_share : (offset duration count : ℕ) → offset + duration * 0 / count ≡ offset
zero_share offset duration count =
    let nothing : duration * 0 ≡ 0 = omega arith in rw nothing (rw (zero-div count) (omega arith))

-- For a shot with some dialogue and some time, whose shares and whose end fit in 64 bits,
-- `append_shot_cues` keeps the cues before and adds one cue for each line: the first starts with
-- the shot, each starts where the one before it ends, and the last ends with the shot.
pub append_shot_cues-FillsShot :
    (cues : List SubtitleCue) (shot_id : String) (offset duration : ℕ)
    (dialogue : List DialogueLine)
    → 0 < length dialogue
    → 0 < duration
    → duration * length dialogue ≤ u64_max
    → offset + duration ≤ u64_max
    → FillsShot cues
        (append_shot_cues cues shot_id offset duration dialogue)
        offset
        duration
        (length dialogue)
unfolding append_shot_cues
append_shot_cues-FillsShot cues shot_id offset duration dialogue some_line some_time fits room =
    let count = length dialogue in
    record {
      new = cues_from shot_id offset duration count 0 dialogue;
      appended = ground (arith, some_line, some_time);
      one_each = length-cues_from shot_id offset duration count 0 dialogue;
      timeline =
          subst
            (λ from.
              IsTimeline from (offset + duration)
                (cues_from shot_id offset duration count 0 dialogue))
            (zero_share offset duration count)
            (cues_from-IsTimeline shot_id offset duration count some_line fits room 0 dialogue
              (omega arith));
    }

-- What `append_shot_cues` adds lies in the time of the shot.
append_shot_cues-IsOrdered :
    (cues : List SubtitleCue) (shot_id : String) (offset duration : ℕ)
    (dialogue : List DialogueLine)
    → duration * length dialogue ≤ u64_max
    → offset + duration ≤ u64_max
    → IsOrdered 0 offset cues
    → IsOrdered 0 (offset + duration) (append_shot_cues cues shot_id offset duration dialogue)
unfolding append_shot_cues
append_shot_cues-IsOrdered cues shot_id offset duration dialogue fits room h =
    let skip : IsOrdered 0 (offset + duration) cues =
      subst (IsOrdered 0 (offset + duration)) (append-nil cues)
        (IsOrdered-append 0 offset (offset + duration) cues [] h (omega arith)) in
    elim (Bool-cases (length dialogue == 0)) [
      | inl empty ↦ rw empty skip
      | inr full ↦ elim (Bool-cases (duration == 0)) [
        | inl instant ↦ rw full (rw instant skip)
        | inr long ↦
            let filled =
              append_shot_cues-FillsShot cues shot_id offset duration dialogue
                (ground (arith, full)) (ground (arith, long)) fits room in
            subst (IsOrdered 0 (offset + duration)) (sym filled.appended) (
              IsOrdered-append 0 offset (offset + duration) cues filled.new h
                (IsTimeline-IsOrdered offset (offset + duration) filled.new filled.timeline))
      ]
    ]

checked_add_lem : (a b n : ℕ) → checked_add a b ≡ some n → (n ≡ a + b) × (a + b ≤ u64_max)
unfolding checked_add
checked_add_lem a b n h = elim (Bool-cases (leb (a + b) u64_max)) [
  | inl room ↦ let e = rw (room, checked_add) at h in (cc e, leb→le (a + b) u64_max room)
  | inr over ↦ absurd (cc (rw (over, checked_add) at h))
]

-- The lines of a shot are few enough for its time to be shared out without overflow.
abbrev pub IsShareable : BuildKind → ShotContract → Type 0
IsShareable kind shot = shot_milliseconds kind shot * length shot.dialogue ≤ u64_max

plan_cues-IsOrdered_from :
    (kind : BuildKind) (selected : List String) (shots : List ShotContract)
    (cues out : List SubtitleCue) (offset total : ℕ)
    → All (IsShareable kind) shots
    → IsOrdered 0 offset cues
    → plan_cues kind selected cues offset shots ≡ ok (out, total)
    → IsOrdered 0 total out
unfolding plan_cues checked_add
plan_cues-IsOrdered_from kind selected [] cues out offset total fits h e =
    let same = ok_injective e in subst (λ p. IsOrdered 0 p.1 p.0) same h
plan_cues-IsOrdered_from kind selected (shot ∷ rest) cues out offset total (fits, later) h e =
    let duration = shot_milliseconds kind shot in
    elim (Bool-cases (is_selected selected shot)) [
      | inr skipped ↦
          plan_cues-IsOrdered_from kind selected rest cues out offset total later h
            (rw (skipped, plan_cues) at e)
      | inl chosen ↦
          let (next, room, e') =
            >>=-eq-ok (ok_or (checked_add offset duration) duration_overflow) _
              (rw (chosen, plan_cues) at e) in
          let added : (next ≡ offset + duration) × (offset + duration ≤ u64_max) =
            checked_add_lem offset duration next
              (ok_or-eq_ok (checked_add offset duration) _ room) in
          plan_cues-IsOrdered_from kind selected rest
            (append_shot_cues cues shot.id offset duration shot.dialogue) out next total later
            (subst
              (λ n. IsOrdered 0 n (append_shot_cues cues shot.id offset duration shot.dialogue))
              (sym added.0)
              (append_shot_cues-IsOrdered cues shot.id offset duration shot.dialogue fits added.1
                h))
            e'
    ]

-- Where the cues of a build are planned and the shares of every shot fit in 64 bits, they lie
-- between zero and the total time, no cue ends before it starts, and none starts before the one
-- before it ends.
pub plan_cues-IsOrdered :
    (kind : BuildKind) (selected : List String) (shots : List ShotContract) (out : List SubtitleCue)
    (total : ℕ)
    → All (IsShareable kind) shots
    → plan_cues kind selected [] 0 shots ≡ ok (out, total)
    → IsOrdered 0 total out
plan_cues-IsOrdered kind selected shots out total fits e =
    plan_cues-IsOrdered_from kind selected shots [] out 0 total fits (omega arith) e
