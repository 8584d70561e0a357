-- ===== src/Base/Lists.antt =====
-- Lists under Boolean tests, as the iterator methods use them, and predicates by recursion.
use Prim.Native.Nat.{ℕ, suc}
use Prim.Native.String.{String}
use mathlib.Core.Path.{◌≡◌, refl, sym, subst}
use mathlib.Core.Logic.{◌↔◌, ◌⊎◌, inl, inr}
use mathlib.Core.Bool.{Bool, true, false, ◌&&◌, ◌||◌}
use mathlib.Core.Option.{Option, none, some}
use mathlib.Core.List.{List, [], ◌∷◌, ◌++◌, map}
use native.Mathlib.Omega.{arith}
use text.Mathlib.Text.{◌==◌ as str_eq}
use text.Mathlib.TextEquality.{eq_iff}
use spark_stage.Base.Tests.{if◌then◌else◌, Bool-cases}
use spark_stage.Base.Results.{Result, ok, then_iff, for_each}

module _ {ℓ} {A : Type ℓ} where
  abbrev pub length : List A → ℕ
  length [] = 0
  length (x ∷ xs) = suc (length xs)

  unfoldable pub any : (A → Bool) → List A → Bool
  any p [] = false
  any p (x ∷ xs) = p x || any p xs

  unfoldable pub all : (A → Bool) → List A → Bool
  all p [] = true
  all p (x ∷ xs) = p x && all p xs

  -- `Vec::retain`, and `filter`.
  unfoldable pub retain : (A → Bool) → List A → List A
  retain p [] = []
  retain p (x ∷ xs) = if p x then x ∷ retain p xs else retain p xs

  unfoldable pub find : (A → Bool) → List A → Option A
  find p [] = none
  find p (x ∷ xs) = if p x then some x else find p xs

  -- The last element, and a change of it: `last()`, `last_mut()`.
  unfoldable pub get_last? : List A → Option A
  get_last? [] = none
  get_last? (x ∷ []) = some x
  get_last? (x ∷ y ∷ xs) = get_last? (y ∷ xs)

  unfoldable pub update_last : (A → A) → List A → List A
  update_last f [] = []
  update_last f (x ∷ []) = f x ∷ []
  update_last f (x ∷ y ∷ xs) = x ∷ update_last f (y ∷ xs)

  abbrev pub All {κ} : (A → Type κ) → List A → Type κ
  All P [] = Unit
  All P (x ∷ xs) = P x × All P xs

module _ {A : Type 0} where
  -- `x` stands in the list.
  abbrev pub In : A → List A → Type 0
  In x [] = ⊥
  In x (y ∷ ys) = (x ≡ y) ⊎ In x ys

  abbrev pub Distinct : List A → Type 0
  Distinct [] = Unit
  Distinct (x ∷ xs) = (¬ In x xs) × Distinct xs

unfoldable pub contains : List String → String → Bool
contains [] s = false
contains (x ∷ xs) s = str_eq x s || contains xs s

pub contains_iff : (xs : List String) (s : String) → (contains xs s ≡ true) ↔ In s xs
unfolding contains
contains_iff [] s = (λ h. cc, λ h. absurd h)
contains_iff (x ∷ xs) s = (
  λ h. elim (Bool-cases (str_eq x s)) [
    | inl same ↦ inl (ground (arith, eq_iff x s))
    | inr other ↦ inr ((contains_iff xs s).0 (rw other at h))
  ],
  λ h. elim h [
    | inl same ↦ ground (arith, eq_iff x s)
    | inr later ↦ ground (arith, (contains_iff xs s).1 later)
  ],
)

pub contains-false_iff : (xs : List String) (s : String) → (contains xs s ≡ false) ↔ (¬ In s xs)
contains-false_iff xs s = (
  λ h i. cc ((contains_iff xs s).1 i),
  λ h. elim (Bool-cases (contains xs s)) [
    | inl there ↦ absurd (h ((contains_iff xs s).0 there))
    | inr absent ↦ absent
  ],
)

module _ {κ} {A : Type 0} (P : A → Type κ) where
  pub All-In : (x : A) (xs : List A) → All P xs → In x xs → P x
  All-In x [] h i = absurd i
  All-In x (y ∷ ys) h (inl e) = rw e h.0
  All-In x (y ∷ ys) h (inr i) = All-In x ys h.1 i

  pub All_of_In : (xs : List A) → ((x : A) → In x xs → P x) → All P xs
  All_of_In [] h = tt
  All_of_In (x ∷ xs) h = (h x (inl refl), All_of_In xs (λ y i. h y (inr i)))

  pub All-retain : (p : A → Bool) (xs : List A) → All P xs → All P (retain p xs)
  unfolding retain
  All-retain p [] h = tt
  All-retain p (x ∷ xs) h = ground (arith, All-retain p xs h.1)

  -- An element that stays also passed the test.
  pub All-retain_test :
      (p : A → Bool) (xs : List A) → ((x : A) → In x xs → p x ≡ true → P x) → All P (retain p xs)
  unfolding retain
  All-retain_test p [] h = tt
  All-retain_test p (x ∷ xs) h = elim (Bool-cases (p x)) [
    | inl keep ↦ rw keep (h x (inl refl) keep, All-retain_test p xs (λ y i. h y (inr i)))
    | inr drop ↦ rw drop (All-retain_test p xs (λ y i. h y (inr i)))
  ]

  pub All-append : (xs ys : List A) → All P xs → All P ys → All P (xs ++ ys)
  All-append [] ys hx hy = hy
  All-append (x ∷ xs) ys hx hy = (hx.0, All-append xs ys hx.1 hy)

  pub All-find : (p : A → Bool) (xs : List A) {x : A} → All P xs → find p xs ≡ some x → P x
  unfolding find
  All-find p [] h e = cc
  All-find p (x ∷ xs) h e = elim (Bool-cases (p x)) [
    | inl here ↦ let same = rw here at e in ground (arith, same, h.0)
    | inr later ↦ All-find p xs h.1 (rw later at e)
  ]

module _ {ℓ κ μ} {A : Type ℓ} (P : A → Type κ) (Q : A → Type μ) where
  pub All-map : (xs : List A) → ((x : A) → P x → Q x) → All P xs → All Q xs
  All-map [] f h = tt
  All-map (x ∷ xs) f h = (f x h.0, All-map xs f h.1)

module _ {ℓ} {A : Type ℓ} where
  -- Of the keys that follow, none stands in a longer list of keys.
  pub not_In-cons :
      (f : A → String) (k : String) (seen : List String) (xs : List A)
      → All (λ a. ¬ In (f a) (k ∷ seen)) xs ↔ ((¬ In k (map f xs)) × All (λ a. ¬ In (f a) seen) xs)
  not_In-cons f k seen [] = (λ h. (λ i. i, tt), λ h. tt)
  not_In-cons f k seen (x ∷ rest) =
      let later = not_In-cons f k seen rest in
      (
        λ h. (
          λ i. elim i [ inl e ↦ h.0 (inl (sym e)) | inr j ↦ (later.0 h.1).0 j ],
          (λ i. h.0 (inr i), (later.0 h.1).1),
        ),
        λ h. (
          λ i. elim i [ inl e ↦ h.0 (inl (sym e)) | inr j ↦ h.1.0 j ],
          later.1 (λ j. h.0 (inr j), h.1.1),
        ),
      )

  In-map-retain :
      (f : A → String) (p : A → Bool) (k : String) (xs : List A)
      → In k (map f (retain p xs))
      → In k (map f xs)
  unfolding retain
  In-map-retain f p k [] i = i
  In-map-retain f p k (x ∷ xs) i = elim (Bool-cases (p x)) [
    | inl keep ↦ elim (rw keep at i) [ inl e ↦ inl e | inr j ↦ inr (In-map-retain f p k xs j) ]
    | inr drop ↦ inr (In-map-retain f p k xs (rw drop at i))
  ]

  pub Distinct-retain :
      (f : A → String) (p : A → Bool) (xs : List A)
      → Distinct (map f xs)
      → Distinct (map f (retain p xs))
  unfolding retain
  Distinct-retain f p [] h = tt
  Distinct-retain f p (x ∷ xs) h = elim (Bool-cases (p x)) [
    | inl keep ↦ rw keep (λ i. h.0 (In-map-retain f p (f x) xs i), Distinct-retain f p xs h.1)
    | inr drop ↦ rw drop (Distinct-retain f p xs h.1)
  ]

module _ {ℓ κ μ ν} {A : Type ℓ} {B : Type κ} (P : A → Type μ) (Q : B → Type ν) where
  -- A predicate on the images.
  pub All-map_image :
      (f : A → B) (xs : List A) → ((x : A) → P x → Q (f x)) → All P xs → All Q (map f xs)
  All-map_image f [] g h = tt
  All-map_image f (x ∷ xs) g h = (g x h.0, All-map_image f xs g h.1)

module _ {A : Type 0} where
  pub In-snoc : (x y : A) (xs : List A) → In x (xs ++ y ∷ []) → In x xs ⊎ (x ≡ y)
  In-snoc x y [] (inl e) = inr e
  In-snoc x y [] (inr i) = absurd i
  In-snoc x y (z ∷ zs) (inl e) = inl (inl e)
  In-snoc x y (z ∷ zs) (inr i) = elim (In-snoc x y zs i) [ inl j ↦ inl (inr j) | inr e ↦ inr e ]

  pub In_last : (x : A) (xs : List A) → In x (xs ++ x ∷ [])
  In_last x [] = inl refl
  In_last x (z ∷ zs) = inr (In_last x zs)

  pub In-retain : (p : A → Bool) (x : A) (xs : List A) → In x (retain p xs) → In x xs
  unfolding retain
  In-retain p x [] i = i
  In-retain p x (y ∷ ys) i = elim (Bool-cases (p y)) [
    | inl keep ↦ elim (rw keep at i) [ inl e ↦ inl e | inr j ↦ inr (In-retain p x ys j) ]
    | inr drop ↦ inr (In-retain p x ys (rw drop at i))
  ]

  pub any_iff :
      (p : A → Bool) (xs : List A) → (any p xs ≡ true) ↔ ((x : A) × In x xs × (p x ≡ true))
  unfolding any
  any_iff p [] = (λ h. cc, λ h. absurd h.1)
  any_iff p (x ∷ xs) = (
    λ h. elim (Bool-cases (p x)) [
      | inl here ↦ (x, inl refl, here)
      | inr later ↦ let (y, i, t) = (any_iff p xs).0 (rw later at h) in (y, inr i, t)
    ],
    λ h. elim h.1 [
      | inl e ↦ rw (rw e at h.2)
      | inr i ↦ elim (Bool-cases (p x)) [
        | inl here ↦ rw here
        | inr later ↦ rw later ((any_iff p xs).1 (h.0, i, h.2))
      ]
    ],
  )

  pub find-In : (p : A → Bool) (xs : List A) {x : A} → find p xs ≡ some x → In x xs × (p x ≡ true)
  unfolding find
  find-In p [] e = cc
  find-In p (y ∷ ys) {x} e = elim (Bool-cases (p y)) [
    | inl here ↦ let same = rw here at e in ground (arith, same, here)
    | inr later ↦ let (i, t) = find-In p ys (rw later at e) in (inr i, t)
  ]

  -- A list of checks passes when each check does.
  pub for_each_iff {κ} :
      {E : Type κ} (check : A → Result E (Unit {0})) (xs : List A)
      → (for_each check xs ≡ ok tt) ↔ All (λ x. check x ≡ ok tt) xs
  unfolding for_each
  for_each_iff check [] = (λ h. tt, λ h. refl)
  for_each_iff check (x ∷ xs) =
      let step = then_iff (check x) (for_each check xs) tt in
      let rest = for_each_iff check xs in
      (λ h. ((step.0 h).0, rest.0 (step.0 h).1), λ h. step.1 (h.0, rest.1 h.1))

module _ {A : Type 0} where
  pub find_last :
      (p : A → Bool) (x : A) (xs : List A)
      → p x ≡ true
      → find p xs ≡ none
      → find p (xs ++ x ∷ []) ≡ some x
  unfolding find
  find_last p x [] holds nothing = rw holds refl
  find_last p x (y ∷ ys) holds nothing = ground (arith, find_last p x ys holds)

  -- Where a wider test finds nothing, a narrower one finds nothing.
  pub find-narrower :
      (p q : A → Bool) (xs : List A)
      → ((x : A) → p x ≡ true → q x ≡ true)
      → find q xs ≡ none
      → find p xs ≡ none
  unfolding find
  find-narrower p q [] wider nothing = refl
  find-narrower p q (y ∷ ys) wider nothing = ground (arith, wider y, find-narrower p q ys wider)

  last-listed : (f : A → String) (x : A) (xs : List A) → In (f x) (map f (xs ++ x ∷ []))
  last-listed f x [] = inl refl
  last-listed f x (y ∷ ys) = inr (last-listed f x ys)

  -- In a list with different keys the last element is the first of its key.
  pub last-alone :
      (f : A → String) (x : A) (xs : List A)
      → Distinct (map f (xs ++ x ∷ []))
      → find (λ y. str_eq (f y) (f x)) xs ≡ none
  unfolding find
  last-alone f x [] h = refl
  last-alone f x (y ∷ ys) (alone, later) = elim (Bool-cases (str_eq (f y) (f x))) [
    | inl same ↦
        let e = (eq_iff (f y) (f x)).0 same in
        absurd (alone (subst (λ i. In i (map f (ys ++ x ∷ []))) (sym e) (last-listed f x ys)))
    | inr other ↦ rw other (last-alone f x ys later)
  ]
