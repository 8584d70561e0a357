-- ===== src/Base/Maps.antt =====
-- `BTreeMap<String, V>`: an association list, which `insert` keeps in the order of its keys.
use Prim.Native.Nat.{Ordering}
use Prim.Native.String.{String, compare}
use mathlib.Core.Path.{◌≡◌, refl, sym, subst}
use mathlib.Core.Logic.{inl, inr}
use mathlib.Core.Bool.{Bool, false}
use mathlib.Core.Option.{Option, none, some}
use mathlib.Core.Option
use mathlib.Core.List.{List, [], ◌∷◌, map}
use native.Mathlib.Omega.{arith}
use text.Mathlib.Text.{◌==◌ as str_eq}
use text.Mathlib.TextEquality.{eq_iff, path_by_compare}
use text.Mathlib.TextPositions.{compare_refl}
use spark_stage.Base.Tests.{if◌then◌else◌, Bool-cases, is_some}
use spark_stage.Base.Lists.{All, All-map}

abbrev pub Map {ℓ} : Type ℓ → Type ℓ
Map V = List (String × V)

module _ {ℓ} {V : Type ℓ} where
  unfoldable pub lookup : String → Map V → Option V
  lookup k [] = none
  lookup k ((j, v) ∷ m) = if str_eq k j then some v else lookup k m

  unfoldable pub contains_key : String → Map V → Bool
  unfolding lookup
  contains_key k m = is_some (lookup k m)

  unfoldable pub insert : String → V → Map V → Map V
  insert k v [] = (k, v) ∷ []
  insert k v ((j, w) ∷ m) = elim (compare k j) [
    | Ordering.lt ↦ (k, v) ∷ (j, w) ∷ m
    | Ordering.eq ↦ (k, v) ∷ m
    | Ordering.gt ↦ (j, w) ∷ insert k v m
  ]

  -- A write through `get_mut`; nothing happens where the key is missing.
  unfoldable pub update : String → (V → V) → Map V → Map V
  update k f [] = []
  update k f ((j, v) ∷ m) = if str_eq k j then (j, f v) ∷ m else (j, v) ∷ update k f m

  abbrev pub values : Map V → List V
  values = map (λ e. e.1)

  -- `for v in map.values_mut()`.
  unfoldable pub map_values : (V → V) → Map V → Map V
  map_values f [] = []
  map_values f ((j, v) ∷ m) = (j, f v) ∷ map_values f m

module _ {ℓ} {V : Type ℓ} where
  pub lookup-insert :
      (key probe : String) (new : V) (m : Map V)
      → lookup probe (insert key new m) ≡ (if str_eq probe key then some new else lookup probe m)
  unfolding lookup insert
  lookup-insert key probe new [] = refl
  lookup-insert key probe new ((top, old) ∷ rest) = ground (
    arith,
    eq_iff probe key,
    eq_iff probe top,
    eq_iff key top,
    path_by_compare key top,
    compare_refl key,
    lookup-insert key probe new rest,
  )

  pub lookup-contains_key : (k : String) (m : Map V) → contains_key k m ≡ false → lookup k m ≡ none
  unfolding contains_key
  lookup-contains_key k m h = ground (arith, h)

  -- Of two insertions under one key the later one counts.
  pub insert-insert : (k : String) (v w : V) (m : Map V) → insert k v (insert k w m) ≡ insert k v m
  unfolding insert
  insert-insert k v w [] = ground (arith, compare_refl k)
  insert-insert k v w ((i, u) ∷ m) = ground (arith, compare_refl k, insert-insert k v w m)

  pub lookup-update :
      (k j : String) (f : V → V) (m : Map V)
      → lookup j (update k f m) ≡ (if str_eq j k then Option.map f (lookup j m) else lookup j m)
  unfolding lookup update
  lookup-update k j f [] = ground arith
  lookup-update k j f ((i, v) ∷ m) =
      ground (arith, eq_iff j k, eq_iff j i, eq_iff k i, lookup-update k j f m)

  pub lookup-map_values :
      (j : String) (f : V → V) (m : Map V) → lookup j (map_values f m) ≡ Option.map f (lookup j m)
  unfolding lookup map_values
  lookup-map_values j f [] = refl
  lookup-map_values j f ((i, v) ∷ m) = ground (arith, lookup-map_values j f m)

  pub All-lookup {κ} :
      (P : String × V → Type κ) (k : String) {v : V} (m : Map V)
      → All P m
      → lookup k m ≡ some v
      → P (k, v)
  unfolding lookup
  All-lookup P k [] h e = cc
  All-lookup P k {v} ((j, w) ∷ m) h e = elim (Bool-cases (str_eq k j)) [
    | inl same ↦ ground (arith, (eq_iff k j).0 same, h.0)
    | inr other ↦ All-lookup P k m h.1 (rw other at e)
  ]

  pub All-insert {κ} :
      (P : String × V → Type κ) (k : String) (v : V) (m : Map V)
      → P (k, v)
      → All P m
      → All P (insert k v m)
  unfolding insert
  All-insert P k v [] p h = (p, tt)
  All-insert P k v ((j, w) ∷ m) p h = ground (arith, All-insert P k v m p h.1)

  -- The entry under `k` is the only one that changes.
  pub All-update {κ} :
      (P Q : String × V → Type κ) (k : String) (f : V → V) (m : Map V)
      → ((j : String) (v : V) → P (j, v) → Q (j, v))
      → ((v : V) → P (k, v) → lookup k m ≡ some v → Q (k, f v))
      → All P m
      → All Q (update k f m)
  unfolding update lookup
  All-update P Q k f [] same changed h = tt
  All-update P Q k f ((j, v) ∷ m) same changed h = elim (Bool-cases (str_eq k j)) [
    | inl here ↦
        let e = (eq_iff k j).0 here in
        rw here (
          subst (λ i. Q (i, f v)) e (changed v (subst (λ i. P (i, v)) (sym e) h.0) (rw here refl)),
          All-map P Q m (λ x p. same x.0 x.1 p) h.1,
        )
    | inr other ↦
        rw other (same j v h.0, All-update P Q k f m same (λ v' p e. changed v' p (rw other e)) h.1)
  ]

  pub All-map_values {κ} :
      (P Q : String × V → Type κ) (f : V → V) (m : Map V)
      → ((j : String) (v : V) → P (j, v) → Q (j, f v))
      → All P m
      → All Q (map_values f m)
  unfolding map_values
  All-map_values P Q f [] h all = tt
  All-map_values P Q f ((j, v) ∷ m) h all = (h j v all.0, All-map_values P Q f m h all.1)
