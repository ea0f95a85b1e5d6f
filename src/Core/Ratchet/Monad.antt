-- ===== src/Core/Ratchet/Monad.antt =====
-- A method with `&mut self`: what was written to the session stays written when the method fails.
use dratchet.Base.{ok, err}
use dratchet.Core.Errors.{CoreResult}
use dratchet.Core.Ratchet.State.{RatchetState}

abbrev pub Action : Type 0 → Type 0
Action A = RatchetState → CoreResult A × RatchetState

infixl 5 ◌>>=◌
abbrev pub ◌>>=◌ : {A : Type 0} {B : Type 0} → Action A → (A → Action B) → Action B
◌>>=◌ m f s = let (r, s') = m s in elim r [ ok a ↦ f a s' | err e ↦ (err e, s') ]

infixl 5 ◌>>◌
abbrev pub ◌>>◌ : {A : Type 0} {B : Type 0} → Action A → Action B → Action B
m >> k = m >>= λ _. k

module _ {A : Type 0} where
  abbrev pub pure : A → Action A
  pure a s = (ok a, s)

  abbrev pub lift : CoreResult A → Action A
  lift r s = (r, s)

abbrev pub get : Action RatchetState
get s = (ok s, s)

abbrev pub modify : (RatchetState → RatchetState) → Action (Unit {0})
modify f s = (ok tt, f s)
