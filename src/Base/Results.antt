-- ===== src/Base/Results.antt =====
-- `Result<A, E>`, its bind for `do` blocks, and how a chain of checks succeeds.
use mathlib.Core.Path.{◌≡◌, refl}
use mathlib.Core.Logic.{◌↔◌}
use mathlib.Core.Bool.{Bool, true, false}
use mathlib.Core.Option.{Option, none, some}
use mathlib.Core.List.{List, [], ◌∷◌}

pub data Result {ℓ κ} (E : Type ℓ) (A : Type κ) : Type (ℓ ⊔ κ) where
  ok : A → Result E A
  err : E → Result E A

infixl 5 ◌>>=◌ ◌>>◌
abbrev pub ◌>>=◌ {ℓ κ μ} :
    {E : Type ℓ} {A : Type κ} {B : Type μ} → Result E A → (A → Result E B) → Result E B
err failure >>= rest = err failure
ok value >>= rest = rest value

abbrev pub ◌>>◌ {ℓ κ} : {E : Type ℓ} {B : Type κ} → Result E (Unit {0}) → Result E B → Result E B
err failure >> rest = err failure
ok value >> rest = rest

-- `if !b { return Err(e) }`.
abbrev pub guard {ℓ} : {E : Type ℓ} → Bool → E → Result E (Unit {0})
guard false failure = err failure
guard true failure = ok tt

-- `ok_or`.
abbrev pub ok_or {ℓ κ} : {E : Type ℓ} {A : Type κ} → Option A → E → Result E A
ok_or (some value) failure = ok value
ok_or none failure = err failure

module _ {ℓ} {E : Type ℓ} where
  -- `for x in xs { check(x)?; }`
  unfoldable pub for_each {κ} :
      {A : Type κ} → (A → Result E (Unit {0})) → List A → Result E (Unit {0})
  for_each check [] = ok tt
  for_each check (x ∷ xs) = check x >> for_each check xs

  pub ok_or-eq_ok {κ} : {A : Type κ} (o : Option A) (e : E) {a : A} → ok_or o e ≡ ok a → o ≡ some a
  ok_or-eq_ok none e h = cc
  ok_or-eq_ok (some b) e h = cc

  pub ok_injective {κ} : {A : Type κ} {a b : A} → ◌≡◌ {A = Result E A} (ok a) (ok b) → a ≡ b
  ok_injective h = cc

  pub err-ne-ok {κ} : {A : Type κ} {e : E} {a : A} → err e ≡ ok a → ⊥
  err-ne-ok h = cc

  pub guard_iff : (b : Bool) (e : E) → (guard b e ≡ ok tt) ↔ (b ≡ true)
  guard_iff true e = (λ h. refl, λ h. refl)
  guard_iff false e = (λ h. cc, λ h. cc)

  pub then_iff {κ} :
      {B : Type κ} (m : Result E (Unit {0})) (k : Result E B) (b : B)
      → ((m >> k) ≡ ok b) ↔ ((m ≡ ok tt) × (k ≡ ok b))
  then_iff (ok tt) k b = (λ h. (refl, h), λ h. h.1)
  then_iff (err e) k b = (λ h. cc, λ h. cc)

  pub >>=-eq-ok {κ μ} :
      {A : Type κ} {B : Type μ} (first : Result E A) (rest : A → Result E B) {end : B}
      → first >>= rest ≡ ok end
      → (value : A) × (first ≡ ok value) × (rest value ≡ ok end)
  >>=-eq-ok (err failure) rest h = cc
  >>=-eq-ok (ok value) rest h = (value, refl, h)
