-- ===== src/Worker/Budget/Laws.antt =====
-- What the gate lets pass: enough disk space, and no dimension exceeded without an approval.
use spark_stage.Base.{
  String, true, some, List, [], ◌∷◌, ◌++◌, ◌≡◌, refl, ◌⊎◌, inl, inr, arith, Map, map, All, In,
  values, retain, update, lookup, contains, contains_iff, str_eq, is_some, Bool-cases,
}
use spark_stage.Domain.Budget.{BudgetOverrun}
use spark_stage.Store.Budget.{approve_overrun}
use spark_stage.Worker.Budget.{approved_dimensions, pending_dimensions}

In-append : (x : String) (xs ys : List String) → In x xs ⊎ In x ys → In x (xs ++ ys)
In-append x [] ys (inl i) = absurd i
In-append x [] ys (inr j) = j
In-append x (y ∷ xs) ys (inl (inl e)) = inl e
In-append x (y ∷ xs) ys (inl (inr i)) = inr (In-append x xs ys (inl i))
In-append x (y ∷ xs) ys (inr j) = inr (In-append x xs ys (inr j))

In-unappend : (x : String) (xs ys : List String) → In x (xs ++ ys) → In x xs ⊎ In x ys
In-unappend x [] ys i = inr i
In-unappend x (y ∷ xs) ys (inl e) = inl (inl e)
In-unappend x (y ∷ xs) ys (inr i) = elim (In-unappend x xs ys i) [
  | inl j ↦ inl (inr j)
  | inr j ↦ inr j
]

module _ (x : String) (o : BudgetOverrun) (rest : List BudgetOverrun) where
  pub approved-first :
      is_some o.approved_at ≡ true → In x o.dimensions → In x (approved_dimensions (o ∷ rest))
  unfolding approved_dimensions
  approved-first given i = rw given (In-append x o.dimensions (approved_dimensions rest) (inl i))

  pub approved-later : In x (approved_dimensions rest) → In x (approved_dimensions (o ∷ rest))
  unfolding approved_dimensions
  approved-later i = elim (Bool-cases (is_some o.approved_at)) [
    | inl given ↦ rw given (In-append x o.dimensions (approved_dimensions rest) (inr i))
    | inr still ↦ rw still i
  ]

  pub approved-split :
      In x (approved_dimensions (o ∷ rest))
      → ((is_some o.approved_at ≡ true) × In x o.dimensions) ⊎ In x (approved_dimensions rest)
  unfolding approved_dimensions
  approved-split i = elim (Bool-cases (is_some o.approved_at)) [
    | inl given ↦
        elim (In-unappend x o.dimensions (approved_dimensions rest)
          (rw (given, approved_dimensions) at i)) [ inl j ↦ inl (given, j) | inr j ↦ inr j ]
    | inr still ↦ inr (rw (still, approved_dimensions) at i)
  ]

-- Approving an overrun keeps what was covered, and covers its own dimensions.
module _ (id now x : String) where
  pub approved_dimensions-update :
      (m : Map BudgetOverrun)
      → In x (approved_dimensions (values m))
      → In x (approved_dimensions (values (update id (approve_overrun now) m)))
  unfolding update approve_overrun
  approved_dimensions-update [] i = i
  approved_dimensions-update ((j, o) ∷ m) i =
      let later = values (update id (approve_overrun now) m) in
      elim (Bool-cases (str_eq id j)) [
        | inl here ↦ rw here (elim (approved-split x o (values m) i) [
          | inl (given, k) ↦ approved-first x (approve_overrun now o) (values m) refl k
          | inr k ↦ approved-later x (approve_overrun now o) (values m) k
        ])
        | inr other ↦ rw other (elim (approved-split x o (values m) i) [
          | inl (given, k) ↦ approved-first x o later given k
          | inr k ↦ approved-later x o later (approved_dimensions-update m k)
        ])
      ]

  pub approved_dimensions-found :
      (m : Map BudgetOverrun) (o : BudgetOverrun)
      → lookup id m ≡ some o
      → In x o.dimensions
      → In x (approved_dimensions (values (update id (approve_overrun now) m)))
  unfolding update approve_overrun lookup
  approved_dimensions-found [] o found i = absurd (cc found)
  approved_dimensions-found ((j, p) ∷ m) o found i = elim (Bool-cases (str_eq id j)) [
    | inl here ↦
        let same : p ≡ o = ground (arith, here) in
        rw here (approved-first x (approve_overrun now p) (values m) refl (rw same i))
    | inr other ↦ rw other (
        approved-later x p (values (update id (approve_overrun now) m))
          (approved_dimensions-found m o (rw (other, lookup) at found) i))
  ]

-- A list of dimensions that are all covered leaves none pending.
pub pending-none :
    (overruns : List BudgetOverrun) (es : List (String × String))
    → All (λ e. In e.0 (approved_dimensions overruns)) es
    → pending_dimensions overruns es ≡ []
unfolding pending_dimensions retain
pending-none overruns [] h = refl
pending-none overruns (e ∷ es) (first, h) =
    rw ((contains_iff (approved_dimensions overruns) e.0).1 first) (pending-none overruns es h)

pub pending-all :
    (overruns : List BudgetOverrun) (es : List (String × String))
    → pending_dimensions overruns es ≡ []
    → All (λ e. In e.0 (approved_dimensions overruns)) es
unfolding pending_dimensions retain
pending-all overruns [] h = tt
pending-all overruns (e ∷ es) h = elim (Bool-cases (contains (approved_dimensions overruns) e.0)) [
  | inl there ↦ (
    (contains_iff (approved_dimensions overruns) e.0).0 there,
    pending-all overruns es (rw (there, pending_dimensions, retain) at h),
  )
  | inr absent ↦ absurd (cc (rw (absent, pending_dimensions, retain) at h))
]

-- Where what is pending becomes covered, and what is covered stays so, nothing is left pending.
pub pending-approved :
    (before after : List BudgetOverrun) (es : List (String × String))
    → ((x : String) → In x (approved_dimensions before) → In x (approved_dimensions after))
    → All (λ x. In x (approved_dimensions after)) (map (λ p. p.0) (pending_dimensions before es))
    → All (λ e. In e.0 (approved_dimensions after)) es
unfolding pending_dimensions retain
pending-approved before after [] kept covered = tt
pending-approved before after (e ∷ es) kept covered =
    elim (Bool-cases (contains (approved_dimensions before) e.0)) [
      | inl there ↦ (
        kept e.0 ((contains_iff (approved_dimensions before) e.0).0 there),
        pending-approved before after es kept (rw (there, pending_dimensions, retain) at covered),
      )
      | inr absent ↦
          let (first, later) = rw (absent, pending_dimensions, retain) at covered in
          (first, pending-approved before after es kept later)
    ]
