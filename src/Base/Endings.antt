-- ===== src/Base/Endings.antt =====
-- What holds of a method's value and state if it does not fail, by the steps of the method.
use mathlib.Core.Path.{◌≡◌, ap}
use dratchet.Base.Results.{Result, ok, err}
use dratchet.Base.Actions.{Method, ◌>>=◌}

pub data Ends {ℓ κ μ ν} {E : Type ℓ} {S : Type κ} {A : Type μ} (Q : A → S → Type ν)
    : Result E A × S → Type (ℓ ⊔ κ ⊔ μ ⊔ ν) where
  done : {a : A} {s : S} → Q a s → Ends Q (ok a, s)
  failed : {e : E} {s : S} → Ends Q (err e, s)

module _ {ℓ κ μ ν} {E : Type ℓ} {S : Type κ} {A : Type μ} where
  Ends-inv : {Q : A → S → Type ν} {a : A} {s : S} → Ends {E = E} Q (ok a, s) → Q a s
  Ends-inv (done q) = q

  pub Ends-ok :
      {Q : A → S → Type ν} {r : Result E A × S} {a : A} {s : S} → Ends Q r → r ≡ (ok a, s) → Q a s
  Ends-ok q h = Ends-inv (rw h at q)

module _ {ℓ κ μ ν ξ} {E : Type ℓ} {S : Type κ} {A : Type μ} where
  pub Ends-both :
      {P : A → S → Type ν} {Q : A → S → Type ξ} {r : Result E A × S}
      → Ends P r
      → Ends Q r
      → Ends (λ a s. P a s × Q a s) r
  Ends-both (done p) (done q) = done (p, q)
  Ends-both failed failed = failed

module _ {ℓ κ μ ν ξ ο} {E : Type ℓ} {S : Type κ} {A : Type μ} {B : Type ξ} where
  pub Ends-next :
      {P : A → S → Type ν} {Q : B → S → Type ο} {next : A → Result E B × S} {r : Result E A × S}
      → Ends P r
      → ((a : A) → P a r.1 → Ends Q (next a))
      → Ends Q (elim r.0 as (λ x. Result E B × S) [ ok a ↦ next a | err e ↦ (err e, r.1) ])
  Ends-next (done p) k = k _ p
  Ends-next failed k = failed

module _ {ℓ κ μ ν} {E : Type ℓ} {S : Type κ} {A : Type μ} {B : Type ν} where
  pub bind_ok :
      (first : Method E S A) (next : A → Method E S B) (s t : S) (a : A)
      → first s ≡ (ok a, t)
      → (first >>= next) s ≡ next a t
  bind_ok first next s t a h =
      ap
        (λ (x : Result E A × S). elim x.0 as (λ r. Result E B × S) [
          | ok b ↦ next b x.1
          | err e ↦ (err e, x.1)
        ])
        h
