-- ===== src/Server/Abuse/Work.antt =====
-- server/src/abuse.rs: the search for a proof of work ends.
use native.Mathlib.Nat.{zero-add, add-zero}
use dratchet.Base.{
  ℕ, zero, suc, ◌+◌, ◌≤◌, ◌≡◌, refl, Bool, true, false, some, Bytes, arith, Bool-cases, inl, inr,
}
use dratchet.Core.Identity.{Signatures}
use dratchet.Server.Abuse.{verify_registration_pow, solve_from, solve_registration_pow}

module _ (g : Signatures) (username : Bytes) (discriminator : ℕ) (identity_key : Bytes) where
  abbrev verifies : ℕ → Bool
  verifies = verify_registration_pow g username discriminator identity_key

  abbrev pub FailsBelow : ℕ → Type 0
  FailsBelow zero = Unit
  FailsBelow (suc k) = (verifies k ≡ false) × FailsBelow k

  abbrev IsFound : (d start : ℕ) → Type 0
  IsFound d start =
      (k : ℕ) × (solve_from g username discriminator identity_key (suc d) start ≡ some k)
      × (verifies k ≡ true)
      × FailsBelow k
      × (k ≤ start + d)

  stops_here : (d start : ℕ) → verifies start ≡ true → FailsBelow start → IsFound d start
  unfolding solve_from
  stops_here d start good failed = (start, rw (good, solve_from) refl, good, failed, omega arith)

  goes_on : (d start : ℕ) → verifies start ≡ false → IsFound d (start + 1) → IsFound (suc d) start
  unfolding solve_from
  goes_on d start bad (k, e, good, least, small) =
      (k, rw (bad, solve_from) e, good, least, omega arith)

  solve_from_ends : (d start : ℕ) → verifies (start + d) ≡ true → FailsBelow start → IsFound d start
  solve_from_ends zero start works failed = stops_here zero start (rw add-zero at works) failed
  solve_from_ends (suc d) start works failed =
      let shift : start + suc d ≡ start + 1 + d = omega arith in
      let one : start + 1 ≡ suc start = omega arith in
      elim (Bool-cases (verifies start)) [
        | inl good ↦ stops_here (suc d) start good failed
        | inr bad ↦
            goes_on d start bad
              (solve_from_ends d (start + 1) (rw shift at works) (rw one (bad, failed)))
      ]

  -- Where any number solves the proof of work, the search ends after at most so many tries, and what
  -- it finds is the least number that the service accepts.
  pub solve_registration_pow_ends :
      (n : ℕ)
      → verifies n ≡ true
      → (k : ℕ) × (solve_registration_pow g username discriminator identity_key (suc n) ≡ some k)
        × (verifies k ≡ true)
        × FailsBelow k
        × (k ≤ n)
  unfolding solve_registration_pow
  solve_registration_pow_ends n works =
      let (k, e, good, least, small) = solve_from_ends n 0 (rw zero-add works) tt in
      (k, e, good, least, omega arith)
