-- ===== src/Worker/Budget/Gate.antt =====
-- The gate of a generation as a whole: what passes it, and what an approval opens.
use spark_stage.Base.{
  ℕ, String, Bool, false, some, List, [], ◌∷◌, ◌≤◌, ◌≡◌, refl, sym, ap, ◌∙◌, ◌↔◌, arith, All, In,
  values, Bool-cases, ltb, Result, ok, ok_injective, inl, inr, ◌>>=◌,
}
use spark_stage.Domain.Script.{ShotContract, ScriptBundle}
use spark_stage.Domain.State.{ProjectState}
use spark_stage.Store.Errors.{StoreError}
use spark_stage.Store.Disk.{Disk}
use spark_stage.Worker.Summary.{BudgetSummary, budget_summary}
use spark_stage.Worker.Budget.{
  GenerationBudgetGate, allowed, approved_dimensions, exceeded, gate_for, projection, required_disk,
  assess_summary, assess_generation,
}
use spark_stage.Worker.Budget.Laws.{pending-none, pending-all}

gate_for-allowed :
    (es : List (String × String)) (wall disk : ℕ) → gate_for es wall disk ≡ allowed → es ≡ []
unfolding gate_for
gate_for-allowed [] wall disk h = refl
gate_for-allowed (e ∷ es) wall disk h = absurd (cc h)

-- Every dimension that one generation more exceeds is covered by an approved overrun.
abbrev pub IsCovered : ProjectState → BudgetSummary → ShotContract → String → Bool → Type 0
IsCovered s summary shot profile audition =
    All (λ e. In e.0 (approved_dimensions (values s.budget.overruns)))
      (exceeded s.budget.contract shot.id (projection s summary shot profile audition))

module _ (s : ProjectState) (summary : BudgetSummary) (shot : ShotContract) (profile : String)
    (audition : Bool) where
  abbrev need : ℕ
  need = required_disk s summary shot profile audition

  assess_summary_iff :
      (assess_summary s summary shot profile audition ≡ allowed)
      ↔ ((need ≤ summary.disk_free_bytes) × IsCovered s summary shot profile audition)
  unfolding assess_summary
  assess_summary_iff = (
    λ h. elim (Bool-cases (ltb summary.disk_free_bytes need)) [
      | inl short ↦ absurd (cc (rw (short, assess_summary) at h))
      | inr enough ↦
          let passed = gate_for-allowed _ _ _ (rw (enough, assess_summary) at h) in
          (ground (arith, enough), pending-all (values s.budget.overruns) _ passed)
    ],
    λ (enough, covered).
        let long : ltb summary.disk_free_bytes need ≡ false = ground (arith, enough) in
        rw long (rw (pending-none (values s.budget.overruns) _ covered) refl),
  )

module _ (free : Result StoreError ℕ) (bundle : ScriptBundle) (shot : ShotContract)
    (profile : String) (audition : Bool) where
  abbrev pub gate : ProjectState → Result StoreError GenerationBudgetGate
  gate s = assess_generation free s bundle shot profile audition

  gate-summary :
      (s : ProjectState) (summary : BudgetSummary)
      → budget_summary free s (some bundle) ≡ ok summary
      → gate s ≡ ok (assess_summary s summary shot profile audition)
  unfolding assess_generation
  gate-summary s summary known =
      ap (λ m. m >>= λ x. ok (assess_summary s x shot profile audition)) known

  -- A generation is allowed exactly when the free space of the summary covers the minimum and
  -- what the generation needs, and an approved overrun covers each dimension that it exceeds.
  pub gate-allowed_iff :
      (s : ProjectState) (summary : BudgetSummary)
      → budget_summary free s (some bundle) ≡ ok summary
      → (gate s ≡ ok allowed) ↔ (
          (required_disk s summary shot profile audition ≤ summary.disk_free_bytes)
          × IsCovered s summary shot profile audition)
  gate-allowed_iff s summary known =
      let (passes, opens) = assess_summary_iff s summary shot profile audition in
      let same = gate-summary s summary known in
      (λ h. passes (ok_injective (sym same ∙ h)), λ h. same ∙ ap ok (opens h))
