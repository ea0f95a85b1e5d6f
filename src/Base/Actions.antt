-- ===== src/Base/Actions.antt =====
-- A method with `&mut self` that may fail: it gives a result and the state that it leaves, which keeps
-- what was written before a failure.
use mathlib.Core.Bool.{Bool, true, false}
use mathlib.Core.List.{List, [], ◌∷◌}
use dratchet.Base.Results.{Result, ok, err}

abbrev pub Method {ℓ κ μ} : Type ℓ → Type κ → Type μ → Type (ℓ ⊔ κ ⊔ μ)
Method E S A = S → Result E A × S

module _ {ℓ κ μ ν} {E : Type ℓ} {S : Type κ} {A : Type μ} {B : Type ν} where
  infixl 5 ◌>>=◌
  abbrev pub ◌>>=◌ : Method E S A → (A → Method E S B) → Method E S B
  ◌>>=◌ first next s = let (r, t) = first s in elim r [ ok a ↦ next a t | err e ↦ (err e, t) ]

module _ {ℓ κ ν} {E : Type ℓ} {S : Type κ} {B : Type ν} where
  infixl 5 ◌>>◌
  abbrev pub ◌>>◌ : Method E S (Unit {0}) → Method E S B → Method E S B
  first >> next = first >>= λ _. next

module _ {ℓ κ μ} {E : Type ℓ} {S : Type κ} {A : Type μ} where
  abbrev pub pure : A → Method E S A
  pure a s = (ok a, s)

  abbrev pub lift : Result E A → Method E S A
  lift r s = (r, s)

  abbrev pub gets : (S → A) → Method E S A
  gets f s = (ok (f s), s)

  -- A step that also gives a value and cannot fail
  abbrev pub state : (S → A × S) → Method E S A
  state f s = let (a, t) = f s in (ok a, t)

module _ {ℓ κ} {E : Type ℓ} {S : Type κ} where
  abbrev pub modify : (S → S) → Method E S (Unit {0})
  modify f s = (ok tt, f s)

  abbrev pub fail_if : Bool → E → Method E S (Unit {0})
  fail_if true e s = (err e, s)
  fail_if false e s = (ok tt, s)

  -- `for x in xs { body }`
  abbrev pub for_each {ν} :
      {X : Type ν} → List X → (X → Method E S (Unit {0})) → Method E S (Unit {0})
  for_each [] body = pure tt
  for_each (x ∷ xs) body = body x >> for_each xs body
