-- ===== src/Store/Decisions/Rejection.antt =====
-- Rejecting a take keeps the parts of a state coherent.
use spark_stage.Base.{
  String, true, false, Option, none, some, List, [], ◌∷◌, Map, ◌≡◌, ◌≢◌, refl, ap, not, arith,
  eq_iff, map, All, In, OnSome, retain, All-retain_test, All-append, All-map_image, All-update,
  In-snoc, lookup, update, lookup-update, str_eq, Bool-cases, ok, ok_injective, >>=-eq-ok, inl, inr,
  subst, is_text_iff, All-In, &&_iff,
}
use spark_stage.Domain.Project.{ApprovalKind, kind_eq_iff, Approval, ShotRuntimeState, TakeMetadata}
use spark_stage.Domain.Budget.{BudgetOverrun}
use spark_stage.Domain.State.{ProjectState}
use spark_stage.Domain.Validate.Validity.{
  HasOpenOverrun, IsListed, IsUsable, IsShot, OffersCandidates, core, IsCoherent,
}
use spark_stage.Store.Disk.{BuildRecipe}
use spark_stage.Store.Decisions.Guards.{ensure_reviewable}
use spark_stage.Store.Decisions.Guards.Exact.{ensure_reviewable_iff}
use spark_stage.Store.Decisions.Changes.{
  asks_for, forget, reject_shot, withdraw_take, reject_change,
}
use spark_stage.Store.Decisions.Coherence.{retain-IsCoherent, mark-IsCoherent, OnSome-none}

module _ (takes : Map TakeMetadata) (take_id : String) (v : ShotRuntimeState) where
  -- Another take stays usable.
  other-IsUsable :
      (id : String) → id ≢ take_id → IsUsable takes v id → IsUsable takes (reject_shot take_id v) id
  unfolding reject_shot
  other-IsUsable id differs u = record {
    listed = u.listed;
    kept = λ i. elim (In-snoc id take_id v.rejected_take_ids i) [
      | inl old ↦ u.kept old
      | inr same ↦ differs same
    ];
    fresh = u.fresh;
  }

  forget-OnSome :
      (o : Option String)
      → OnSome (IsUsable takes v) o
      → OnSome (IsUsable takes (reject_shot take_id v)) (forget take_id o)
  forget-OnSome none h = tt
  forget-OnSome (some id) h = elim (Bool-cases (str_eq id take_id)) [
    | inl same ↦ rw same tt
    | inr differs ↦ rw differs (other-IsUsable id (λ e. cc ((eq_iff id take_id).1 e)) h)
  ]

  reject-IsShot :
      (shot_id : String)
      → In take_id v.take_ids
      → v.approved_take_id ≡ none
      → IsShot takes (shot_id, v)
      → IsShot takes (shot_id, reject_shot take_id v)
  unfolding reject_shot
  reject-IsShot shot_id listed undecided p =
      let gone : forget take_id v.approved_take_id ≡ none = rw undecided in
      record {
        key = p.key;
        distinct = p.distinct;
        belong = p.belong;
        rejected = All-append _ v.rejected_take_ids (take_id ∷ []) p.rejected (listed, tt);
        selected = forget-OnSome v.selected_candidate_take_id p.selected;
        approved = OnSome-none _ gone;
        approved_selected = OnSome-none _ gone;
      }

module _ (shot_id take_id : String) where
  withdraw-approval_id :
      (approvals : List Approval)
      → map (λ (a : Approval). a.approval_id) (map (withdraw_take shot_id take_id) approvals)
        ≡ map (λ (a : Approval). a.approval_id) approvals
  unfolding withdraw_take
  withdraw-approval_id [] = refl
  withdraw-approval_id (a ∷ rest) = ground (arith, withdraw-approval_id rest)

  withdraw-HasOpenOverrun :
      (overruns : Map BudgetOverrun) (a : Approval)
      → HasOpenOverrun overruns a
      → HasOpenOverrun overruns (withdraw_take shot_id take_id a)
  unfolding withdraw_take
  withdraw-HasOpenOverrun overruns a h = elim (Bool-cases (asks_for shot_id a)) [
    | inl asks ↦ rw asks h
    | inr other ↦ rw other h
  ]

  asks_for-shot : (a : Approval) → asks_for shot_id a ≡ true → a.shot_id ≡ some shot_id
  unfolding asks_for
  asks_for-shot a h = (is_text_iff a.shot_id shot_id).0 ((&&_iff _ _).0 h).1

  not-asks_for :
      (a : Approval)
      → a.kind ≡ ApprovalKind.candidate_selection
      → asks_for shot_id a ≡ false
      → a.shot_id ≢ some shot_id
  unfolding asks_for
  not-asks_for a kind other named =
      let asks = (&&_iff _ _).1 (
        (kind_eq_iff a.kind ApprovalKind.candidate_selection).1 kind,
        (is_text_iff a.shot_id shot_id).1 named,
      ) in
      cc

  -- What an approval of the given shot and takes offers.
  abbrev Offers : Map ShotRuntimeState → Map TakeMetadata → Option String → List String → Type 0
  Offers shots takes named ids =
      (other : String) × (v : ShotRuntimeState) × (named ≡ some other)
      × (lookup other shots ≡ some v)
      × All (λ id. IsListed takes id × IsUsable takes v id) ids

  still_offered :
      (shots : Map ShotRuntimeState) (takes : Map TakeMetadata) (named : Option String)
      (ids : List String)
      → Offers shots takes named ids
      → named ≡ some shot_id
      → Offers
          (update shot_id (reject_shot take_id) shots)
          takes
          named
          (retain (λ id. not (str_eq id take_id)) ids)
  still_offered shots takes named ids (other, v, e, found, usable) own =
      let same : other ≡ shot_id = cc in
      (
        other,
        reject_shot take_id v,
        e,
        rw lookup-update (rw ((eq_iff other shot_id).1 same, found)),
        All-retain_test _ _ ids (λ id i kept.
            let u = All-In _ id ids usable i in
            (u.0, other-IsUsable takes take_id v id (λ q. cc ((eq_iff id take_id).1 q)) u.1)),
      )

  untouched :
      (shots : Map ShotRuntimeState) (takes : Map TakeMetadata) (named : Option String)
      (ids : List String)
      → Offers shots takes named ids
      → named ≢ some shot_id
      → Offers (update shot_id (reject_shot take_id) shots) takes named ids
  untouched shots takes named ids (other, v, e, found, usable) differs =
      elim (Bool-cases (str_eq other shot_id)) [
        | inl same ↦ absurd (differs (rw e (ap some ((eq_iff other shot_id).0 same))))
        | inr apart ↦ (other, v, e, rw lookup-update (rw apart found), usable)
      ]

  -- The approvals of the shot no longer offer the take; the others offer what they did.
  withdraw-OffersCandidates :
      (shots : Map ShotRuntimeState) (takes : Map TakeMetadata) (a : Approval)
      → OffersCandidates shots takes a
      → OffersCandidates
          (update shot_id (reject_shot take_id) shots)
          takes
          (withdraw_take shot_id take_id a)
  unfolding withdraw_take
  withdraw-OffersCandidates shots takes a h = elim (Bool-cases (asks_for shot_id a)) [
    | inl asks ↦
        rw asks
          (λ kind. still_offered shots takes a.shot_id a.take_ids (h kind) (asks_for-shot a asks))
    | inr other ↦
        rw other
          (λ kind. untouched shots takes a.shot_id a.take_ids (h kind) (not-asks_for a kind other))
  ]

-- Rejecting a take keeps the state coherent.
pub reject_change-IsCoherent :
    (recipes : Map BuildRecipe) (shot_id take_id : String) (s t : ProjectState)
    → IsCoherent (core s)
    → reject_change recipes shot_id take_id s ≡ ok t
    → IsCoherent (core t)
unfolding reject_change
reject_change-IsCoherent recipes shot_id take_id s t h e =
    let (shot, passed, same) = >>=-eq-ok (ensure_reviewable s shot_id take_id) _ e in
    let r = (ensure_reviewable_iff s shot_id take_id shot).0 passed in
    let there = r.open_shot.found in
    let withdrawn = map (withdraw_take shot_id take_id) s.pending_approvals in
    let shots = update shot_id (reject_shot take_id) s.shots in
    let u = record s { shots = shots; pending_approvals = withdrawn } in
    rw (← ok_injective same) (
      mark-IsCoherent recipes _ shot_id _ (
        retain-IsCoherent u _ (record {
          schema = h.schema;
          contract = h.contract;
          active = h.active;
          approval_ids =
              rw (withdraw-approval_id shot_id take_id s.pending_approvals) h.approval_ids;
          overruns =
              All-map_image _ _ (withdraw_take shot_id take_id) s.pending_approvals
                (withdraw-HasOpenOverrun shot_id take_id s.budget.overruns) h.overruns;
          takes = h.takes;
          references = h.references;
          shots =
              All-update _ _ shot_id (reject_shot take_id) s.shots (λ j v p. p)
                (λ v p found.
                  let same_shot : shot ≡ v = cc in
                  reject-IsShot s.takes take_id v shot_id
                    (subst (λ (w : ShotRuntimeState). In take_id w.take_ids) same_shot
                      r.available.listed)
                    (subst (λ (w : ShotRuntimeState). w.approved_take_id ≡ none) same_shot
                      r.open_shot.undecided)
                    p)
                h.shots;
          candidates =
              All-map_image _ _ (withdraw_take shot_id take_id) s.pending_approvals
                (withdraw-OffersCandidates shot_id take_id s.shots s.takes) h.candidates;
        })))
