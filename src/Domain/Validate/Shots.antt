-- ===== src/Domain/Validate/Shots.antt =====
-- The tests of a shot, and of an approval that asks for a candidate, pass exactly when their parts of
-- the well-formedness hold.
use spark_stage.Base.{
  String, true, false, Option, none, some, List, [], ◌∷◌, Map, ◌≡◌, refl, sym, ◌↔◌, inl, inr, not,
  ◌||◌, arith, eq_iff, is_text_iff, contains, contains_iff, contains-false_iff, All, All-map,
  All_of_In, In, Distinct, OnSome, lookup, ok, ok_or, ok_or-eq_ok, >>=-eq-ok, guard, ◌>>=◌, str_eq,
  not-eq_true, then_iff, guard_iff, Bool-cases, Option-cases, for_each, for_each_iff,
}
use spark_stage.Domain.Errors.{
  shot_take_missing, take_shot_mismatch, rejected_take_unavailable, decision_take_unavailable,
  approved_take_not_selected, shot_key_mismatch, candidate_approval_take_unavailable,
}
use spark_stage.Domain.Project.{
  ApprovalKind, kind_eq, kind_eq_iff, Approval, ShotRuntimeState, TakeMetadata,
}
use spark_stage.Domain.Validate.{
  known_stale, check_shot_takes, check_rejected, check_decision, check_approved, check_shot,
  check_candidate, check_candidate_approval,
}
use spark_stage.Domain.Validate.Validity.{IsListed, BelongsTo, IsUsable, IsShot, OffersCandidates}

not-known_stale :
    (o : Option TakeMetadata)
    → ((t : TakeMetadata) → o ≡ some t → t.stale ≡ false)
    → known_stale o ≡ false
not-known_stale none h = refl
not-known_stale (some t) h = h t refl

-- Of the ids that follow, none was seen.
not_In-cons :
    (id : String) (seen ids : List String)
    → All (λ x. ¬ In x (id ∷ seen)) ids ↔ ((¬ In id ids) × All (λ x. ¬ In x seen) ids)
not_In-cons id seen [] = (λ h. (λ i. i, tt), λ h. tt)
not_In-cons id seen (x ∷ rest) =
    let later = not_In-cons id seen rest in
    (
      λ h. (
        λ i. elim i [ inl e ↦ h.0 (inl (sym e)) | inr j ↦ (later.0 h.1).0 j ],
        (λ i. h.0 (inr i), (later.0 h.1).1),
      ),
      λ h. (
        λ i. elim i [ inl e ↦ h.0 (inl (sym e)) | inr j ↦ h.1.0 j ],
        later.1 (λ j. h.0 (inr j), h.1.1),
      ),
    )

module _ (takes : Map TakeMetadata) (shot : ShotRuntimeState) where
  take_iff :
      (id : String)
      → ((ok_or (lookup id takes) (shot_take_missing shot.shot_id id) >>= λ take.
            guard
              (str_eq take.shot_id shot.shot_id)
              (take_shot_mismatch id shot.shot_id take.shot_id))
          ≡ ok tt)
        ↔ BelongsTo takes shot.shot_id id
  take_iff id = (
    λ h. elim (Option-cases (lookup id takes)) [
      | inl missing ↦ absurd (ground (arith, missing))
      | inr (t, found) ↦ (t, found, ground (arith, found, eq_iff t.shot_id shot.shot_id))
    ],
    λ h. ground (arith, h.1, h.2, eq_iff h.0.shot_id shot.shot_id),
  )

  check_shot_takes_iff :
      (seen ids : List String)
      → (check_shot_takes takes shot seen ids ≡ ok tt)
        ↔ (Distinct ids × All (λ x. ¬ In x seen) ids × All (BelongsTo takes shot.shot_id) ids)
  unfolding check_shot_takes
  check_shot_takes_iff seen [] = (λ h. (tt, tt, tt), λ h. refl)
  check_shot_takes_iff seen (id ∷ ids) =
      let ih = check_shot_takes_iff (id ∷ seen) ids in
      let shift = not_In-cons id seen ids in
      let absent = contains-false_iff seen id in
      let here = take_iff id in
      (
        λ h.
            let (front, later) = (then_iff _ _ tt).0 h in
            let (new, own) = (then_iff _ _ tt).0 front in
            let (distinct, apart, belong) = ih.0 later in
            let (alone, unseen) = shift.0 apart in
            (
              (alone, distinct),
              (absent.0 (not-eq_true _ ((guard_iff _ _).0 new)), unseen),
              (here.0 own, belong),
            ),
        λ h.
            let ((alone, distinct), (new, unseen), (own, belong)) = h in
            let later = ih.1 (distinct, shift.1 (alone, unseen), belong) in
            rw (absent.1 new) ((then_iff _ _ tt).1 (here.1 own, later)),
      )

  check_rejected_iff : (id : String) → (check_rejected shot id ≡ ok tt) ↔ In id shot.take_ids
  unfolding check_rejected
  check_rejected_iff id =
      let test =
        guard_iff (contains shot.take_ids id) (rejected_take_unavailable shot.shot_id id) in
      let listed = contains_iff shot.take_ids id in
      (λ h. listed.0 (test.0 h), λ h. test.1 (listed.1 h))

  usable_iff :
      (id : String)
      → (not (
            not (contains shot.take_ids id)
            || contains shot.rejected_take_ids id
            || known_stale (lookup id takes))
          ≡ true)
        ↔ IsUsable takes shot id
  usable_iff id =
      let listed = contains_iff shot.take_ids id in
      let kept = contains-false_iff shot.rejected_take_ids id in
      (
        λ h. record {
          listed = listed.0 (ground arith);
          kept = kept.0 (ground arith);
          fresh = λ t e. ground (arith, e);
        },
        λ h.
            ground
              (arith, listed.1 h.listed, kept.1 h.kept, not-known_stale (lookup id takes) h.fresh),
      )

  check_decision_iff :
      (kind : String) (id : Option String)
      → (check_decision takes shot kind id ≡ ok tt) ↔ OnSome (IsUsable takes shot) id
  unfolding check_decision
  check_decision_iff kind none = (λ h. tt, λ h. refl)
  check_decision_iff kind (some id) =
      let test = guard_iff _ (decision_take_unavailable shot.shot_id id kind) in
      let same = usable_iff id in (λ h. same.0 (test.0 h), λ h. test.1 (same.1 h))

  check_approved_iff :
      (id : Option String)
      → (check_approved shot id ≡ ok tt) ↔ OnSome (λ x. shot.selected_candidate_take_id ≡ some x) id
  unfolding check_approved
  check_approved_iff none = (λ h. tt, λ h. refl)
  check_approved_iff (some id) =
      let test = guard_iff _ (approved_take_not_selected shot.shot_id id) in
      let same = is_text_iff shot.selected_candidate_take_id id in
      (λ h. same.0 (test.0 h), λ h. test.1 (same.1 h))

pub check_shot_iff :
    (takes : Map TakeMetadata) (e : String × ShotRuntimeState)
    → (check_shot takes e ≡ ok tt) ↔ IsShot takes e
unfolding check_shot
check_shot_iff takes (key, shot) =
    let same = eq_iff key shot.shot_id in
    let listed = check_shot_takes_iff takes shot [] shot.take_ids in
    let rejected = for_each_iff (check_rejected shot) shot.rejected_take_ids in
    let selected = check_decision_iff takes shot "selected" shot.selected_candidate_take_id in
    let approved = check_decision_iff takes shot "approved" shot.approved_take_id in
    let chosen = check_approved_iff takes shot shot.approved_take_id in
    (
      λ h.
          let (h₅, c₆) = (then_iff _ _ tt).0 h in
          let (h₄, c₅) = (then_iff _ _ tt).0 h₅ in
          let (h₃, c₄) = (then_iff _ _ tt).0 h₄ in
          let (h₂, c₃) = (then_iff _ _ tt).0 h₃ in
          let (c₁, c₂) = (then_iff _ _ tt).0 h₂ in
          let (distinct, _, belong) = listed.0 c₂ in
          record {
            key = same.0 ((guard_iff _ _).0 c₁);
            distinct = distinct;
            belong = belong;
            rejected =
                All-map _ _ shot.rejected_take_ids (λ id. (check_rejected_iff takes shot id).0)
                  (rejected.0 c₃);
            selected = selected.0 c₄;
            approved = approved.0 c₅;
            approved_selected = chosen.0 c₆;
          },
      λ h.
          let start = (guard_iff _ (shot_key_mismatch key shot.shot_id)).1 (same.1 h.key) in
          let takes_pass = listed.1 (h.distinct, All_of_In _ _ (λ _ _ i. i), h.belong) in
          let rejected_pass = rejected.1 (
            All-map _ _ shot.rejected_take_ids (λ id. (check_rejected_iff takes shot id).1)
              h.rejected) in
          (then_iff _ _ tt).1 (
            (then_iff _ _ tt).1 (
              (then_iff _ _ tt).1 (
                (then_iff _ _ tt).1 ((then_iff _ _ tt).1 (start, takes_pass), rejected_pass),
                selected.1 h.selected,
              ),
              approved.1 h.approved,
            ),
            chosen.1 h.approved_selected,
          ),
    )

check_candidate_iff :
    (takes : Map TakeMetadata) (shot : ShotRuntimeState) (approval_id id : String)
    → (check_candidate takes shot approval_id id ≡ ok tt)
      ↔ (IsListed takes id × IsUsable takes shot id)
unfolding check_candidate
check_candidate_iff takes shot approval_id id =
    let test = guard_iff _ (candidate_approval_take_unavailable approval_id id) in
    let usable = usable_iff takes shot id in
    (
      λ h.
          let pass = test.0 h in
          elim (Option-cases (lookup id takes)) [
            | inl missing ↦ absurd (ground (arith, pass, missing))
            | inr (t, found) ↦ ((t, found), usable.0 (ground (arith, pass, found)))
          ],
      λ h. test.1 (ground (arith, h.0.1, usable.1 h.1)),
    )

candidates_iff :
    (takes : Map TakeMetadata) (shot : ShotRuntimeState) (approval_id : String) (ids : List String)
    → (for_each (check_candidate takes shot approval_id) ids ≡ ok tt)
      ↔ All (λ id. IsListed takes id × IsUsable takes shot id) ids
candidates_iff takes shot approval_id ids =
    let each = for_each_iff (check_candidate takes shot approval_id) ids in
    let one = check_candidate_iff takes shot approval_id in
    (
      λ h. All-map _ _ ids (λ id. (one id).0) (each.0 h),
      λ h. each.1 (All-map _ _ ids (λ id. (one id).1) h),
    )

pub check_candidate_approval_iff :
    (shots : Map ShotRuntimeState) (takes : Map TakeMetadata) (a : Approval)
    → (check_candidate_approval shots takes a ≡ ok tt) ↔ OffersCandidates shots takes a
unfolding check_candidate_approval
check_candidate_approval_iff shots takes a =
    let kind = kind_eq_iff a.kind ApprovalKind.candidate_selection in
    elim (Bool-cases (kind_eq a.kind ApprovalKind.candidate_selection)) [
      | inr other ↦ (λ h e. cc (kind.1 e), λ h. rw other)
      | inl asks ↦ (
        λ h _.
            let (shot_id, named, h₁) = >>=-eq-ok _ _ (rw asks at h) in
            let (shot, found, h₂) = >>=-eq-ok _ _ h₁ in
            (
              shot_id,
              shot,
              ok_or-eq_ok _ _ named,
              ok_or-eq_ok _ _ found,
              (candidates_iff takes shot a.approval_id a.take_ids).0 h₂,
            ),
        λ h.
            let (shot_id, shot, named, found, usable) = h (kind.0 asks) in
            ground (
              arith,
              asks,
              named,
              found,
              (candidates_iff takes shot a.approval_id a.take_ids).1 usable,
            ),
      )
    ]
