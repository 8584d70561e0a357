-- ===== src/Store/Builds/Lifecycle.antt =====
-- The life of a build as a step relation on states: it is queued where no other build is active,
-- runs, is delivered or fails, and is approved after its delivery.
use spark_stage.Base.{
  String, Bool, true, false, Option, none, some, [], ◌∷◌, Map, ◌≡◌, ◌≢◌, refl, sym, ap, ◌∙◌, arith,
  lookup, subst, lookup-update, lookup-insert, insert, update, str_eq, eq_iff, eq_refl, find,
  values, Bool-cases, inl, inr, ◌⊎◌, ◌||◌,
}
use mathlib.Core.Option
use spark_stage.Domain.Project.{BuildRecord}
use spark_stage.Store.Builds.{build_is_active}

-- The status of the build, if there is one of the id.
abbrev pub status_of : String → Map BuildRecord → Option String
status_of id builds = Option.map (λ build. build.status) (lookup id builds)

abbrev pub is_active : Option String → Bool
is_active none = false
is_active (some status) = str_eq status "queued" || str_eq status "running"

-- Every build but `id` keeps its status.
abbrev pub Others : String → Map BuildRecord → Map BuildRecord → Type 0
Others id before after = (j : String) → j ≢ id → status_of j after ≡ status_of j before

-- One step of a build, or none.
pub data BuildStep (before after : Map BuildRecord) : Type 0 where
  rest : ((j : String) → status_of j after ≡ status_of j before) → BuildStep before after
  queue :
      (id : String)
      → status_of id before ≡ none
      → ((j : String) → is_active (status_of j before) ≡ false)
      → status_of id after ≡ some "queued"
      → Others id before after
      → BuildStep before after
  run :
      (id : String)
      → status_of id before ≡ some "queued"
      → status_of id after ≡ some "running"
      → Others id before after
      → BuildStep before after
  deliver :
      (id : String)
      → is_active (status_of id before) ≡ true
      → status_of id after ≡ some "needs_review"
      → Others id before after
      → BuildStep before after
  fail :
      (id : String)
      → is_active (status_of id before) ≡ true
      → status_of id after ≡ some "failed"
      → Others id before after
      → BuildStep before after
  approve :
      (id : String)
      → status_of id before ≡ some "needs_review"
      → status_of id after ≡ some "approved"
      → Others id before after
      → BuildStep before after

-- At most one build is active.
abbrev pub IsExclusive : Map BuildRecord → Type 0
IsExclusive builds =
    (i j : String)
    → is_active (status_of i builds) ≡ true
    → is_active (status_of j builds) ≡ true
    → i ≡ j

-- Two texts are the same, or they are not.
str-cases : (a b : String) → (a ≡ b) ⊎ (a ≢ b)
str-cases a b = elim (Bool-cases (str_eq a b)) [
  | inl same ↦ inl ((eq_iff a b).0 same)
  | inr other ↦ inr (λ e. cc (rw other at (eq_iff a b).1 e))
]

module _ (before after : Map BuildRecord) where
  -- A step that does not make its build active makes none active.
  still-active :
      (id : String) (status : Option String)
      → status_of id after ≡ status
      → (is_active status ≡ true → is_active (status_of id before) ≡ true)
      → Others id before after
      → (j : String) → is_active (status_of j after) ≡ true
      → is_active (status_of j before) ≡ true
  still-active id status now was others j h = elim (str-cases j id) [
    | inl same ↦
        subst (λ k. is_active (status_of k before) ≡ true) (sym same)
          (was (ap is_active (sym now) ∙ ap (λ k. is_active (status_of k after)) (sym same) ∙ h))
    | inr other ↦ ap is_active (sym (others j other)) ∙ h
  ]

  pub step-IsExclusive : BuildStep before after → IsExclusive before → IsExclusive after
  step-IsExclusive (rest same) h i j hi hj =
      h i j (ap is_active (sym (same i)) ∙ hi) (ap is_active (sym (same j)) ∙ hj)
  step-IsExclusive (queue id fresh idle now others) h i j hi hj = only i hi ∙ sym (only j hj)
    where
      only : (k : String) → is_active (status_of k after) ≡ true → k ≡ id
      only k hk = elim (str-cases k id) [
        | inl same ↦ same
        | inr other ↦
            let dead : false ≡ true = sym (idle k) ∙ ap is_active (sym (others k other)) ∙ hk in
            absurd (cc dead)
      ]
  step-IsExclusive (run id was now others) h i j hi hj =
      let back = still-active id (some "running") now (λ _. ap is_active was) others in
      h i j (back i hi) (back j hj)
  step-IsExclusive (deliver id was now others) h i j hi hj =
      let back = still-active id (some "needs_review") now (λ _. was) others in
      h i j (back i hi) (back j hj)
  step-IsExclusive (fail id was now others) h i j hi hj =
      let back = still-active id (some "failed") now (λ _. was) others in
      h i j (back i hi) (back j hj)
  step-IsExclusive (approve id was now others) h i j hi hj =
      let back = still-active id (some "approved") now (λ e. absurd (cc e)) others in
      h i j (back i hi) (back j hj)

  -- An approved build stays approved.
  pub step-approved :
      BuildStep before after
      → (j : String) → status_of j before ≡ some "approved"
      → status_of j after ≡ some "approved"
  step-approved (rest same) j h = same j ∙ h
  step-approved (queue id fresh idle now others) j h =
      others j (λ e. cc (fresh, h, ap (λ k. status_of k before) e)) ∙ h
  step-approved (run id was now others) j h =
      others j (λ e. cc (was, h, ap (λ k. status_of k before) e)) ∙ h
  step-approved (deliver id was now others) j h =
      others j (λ e. cc (was, h, ap (λ k. status_of k before) e)) ∙ h
  step-approved (fail id was now others) j h =
      others j (λ e. cc (was, h, ap (λ k. status_of k before) e)) ∙ h
  step-approved (approve id was now others) j h =
      others j (λ e. cc (was, h, ap (λ k. status_of k before) e)) ∙ h

module _ (id : String) (before : Map BuildRecord) where
  -- Changing one build.
  pub status-update :
      (f : BuildRecord → BuildRecord) (build : BuildRecord)
      → lookup id before ≡ some build
      → status_of id (update id f before) ≡ some (f build).status
  status-update f build found = rw lookup-update (rw (eq_refl id, found) refl)

  pub update-Others : (f : BuildRecord → BuildRecord) → Others id before (update id f before)
  update-Others f j other =
      let differs : str_eq j id ≡ false = ground (arith, eq_iff j id, other) in
      rw lookup-update (rw differs refl)

  pub status-insert :
      (build : BuildRecord) → status_of id (insert id build before) ≡ some build.status
  status-insert build = rw lookup-insert (rw (eq_refl id) refl)

  pub insert-Others : (build : BuildRecord) → Others id before (insert id build before)
  insert-Others build j other =
      let differs : str_eq j id ≡ false = ground (arith, eq_iff j id, other) in
      rw lookup-insert (rw differs refl)

-- Where no build in a map is active, none is.
pub none-active :
    (builds : Map BuildRecord)
    → find build_is_active (values builds) ≡ none
    → (j : String) → is_active (status_of j builds) ≡ false
unfolding find lookup build_is_active
none-active [] h j = refl
none-active ((k, b) ∷ later) h j = elim (Bool-cases (build_is_active b)) [
  | inl there ↦ absurd (cc (rw (there) at h))
  | inr idle ↦ elim (Bool-cases (str_eq j k)) [
    | inl same ↦ rw same idle
    | inr other ↦ rw other (none-active later (rw idle at h) j)
  ]
]
