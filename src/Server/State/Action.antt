-- ===== src/Server/State/Action.antt =====
-- A handler: it runs with the lock held, and what it wrote stays written when it fails.
use dratchet.Base.{Bool, true, false, ok, err}
use dratchet.Server.Errors.{Error, ServerResult}
use dratchet.Server.State.{Inner}

abbrev pub Action : Type 0 → Type 0
Action A = Inner → ServerResult A × Inner

infixl 5 ◌>>=◌
abbrev pub ◌>>=◌ : {A : Type 0} {B : Type 0} → Action A → (A → Action B) → Action B
◌>>=◌ m f s = let (r, s') = m s in elim r [ ok a ↦ f a s' | err e ↦ (err e, s') ]

infixl 5 ◌>>◌
abbrev pub ◌>>◌ : {A : Type 0} {B : Type 0} → Action A → Action B → Action B
m >> k = m >>= λ _. k

module _ {A : Type 0} where
  abbrev pub pure : A → Action A
  pure a s = (ok a, s)

  abbrev pub lift : ServerResult A → Action A
  lift r s = (r, s)

  abbrev pub gets : (Inner → A) → Action A
  gets f s = (ok (f s), s)

  -- A step that also gives a value.
  abbrev pub state : (Inner → A × Inner) → Action A
  state f s = let (a, s') = f s in (ok a, s')

abbrev pub modify : (Inner → Inner) → Action (Unit {0})
modify f s = (ok tt, f s)

-- `if test { return Err(e) }`
abbrev pub fail_if : Bool → Error → Action (Unit {0})
fail_if true e s = (err e, s)
fail_if false e s = (ok tt, s)
