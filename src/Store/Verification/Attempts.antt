-- ===== src/Store/Verification/Attempts.antt =====
-- store/src/verification.rs: runs of attempts at a pairing code.
use dratchet.Base.{
  ℕ, zero, suc, ◌+◌, ◌-◌, ◌<◌, ◌≤◌, ◌≡◌, Bool, true, false, ◌&&◌, List, [], ◌∷◌, Bytes, bytes_eq,
  arith, leb, length, take, filter, if◌then◌else◌, ◌==◌, Bool-cases, inl, inr,
}
use dratchet.Store.Verification.{
  PairingCode, pairing_code_max_attempts, is_expired, attempts_exhausted, verify,
}

-- An attempt: the code, the contact, and the time.
abbrev pub Attempt : Type 0
Attempt = Bytes × (Bytes × ℕ)

-- The code after some attempts, and how many of them were right.
unfoldable pub attempt_all : List Attempt → PairingCode → ℕ × PairingCode
attempt_all [] c = (0, c)
attempt_all ((code, (bound_to, now)) ∷ others) c =
    let (right, next) = verify code bound_to now c in
    let (rest, last) = attempt_all others next in ((if right then suc rest else rest), last)

-- An attempt within the ten minutes that a code is valid
abbrev pub is_in_time : (generated_at : ℕ) → Attempt → Bool
is_in_time generated_at (code, (bound_to, now)) = leb (now - generated_at) 600

-- An attempt with this code, for this contact
abbrev pub is_right : (code bound_to : Bytes) → Attempt → Bool
is_right code bound_to (guess, (by, now)) = code == guess && bound_to == by

-- The attempts that are compared where so many more are allowed
abbrev pub compared : (left generated_at : ℕ) → List Attempt → List Attempt
compared left generated_at attempts = take left (filter (is_in_time generated_at) attempts)

verify_late :
    (code bound_to : Bytes) (now : ℕ) (c : PairingCode)
    → is_in_time c.generated_at (code, (bound_to, now)) ≡ false
    → verify code bound_to now c ≡ (false, c)
unfolding verify is_expired
verify_late code bound_to now c h = ground (arith, h)

verify_exhausted :
    (code bound_to : Bytes) (now : ℕ) (c : PairingCode)
    → pairing_code_max_attempts ≤ c.attempts
    → verify code bound_to now c ≡ (false, c)
unfolding verify is_expired attempts_exhausted
verify_exhausted code bound_to now c h = ground (arith, h)

verify_compared :
    (code bound_to : Bytes) (now : ℕ) (c : PairingCode)
    → is_in_time c.generated_at (code, (bound_to, now)) ≡ true
    → c.attempts < pairing_code_max_attempts
    → verify code bound_to now c
      ≡ (is_right c.code c.bound_to (code, (bound_to, now)), record c { attempts = c.attempts + 1 })
unfolding verify is_expired attempts_exhausted
verify_compared code bound_to now c h few = ground (arith, h)

-- For a code with at most five attempts counted, of any sequence of attempts: those that count are
-- the first of those within ten minutes, right or wrong, as many as are left of five; those that are
-- accepted are the right ones among them; and nothing else of the code changes.
pub attempt_all_lem :
    (attempts : List Attempt) (c : PairingCode) (left : ℕ)
    → c.attempts + left ≡ 5
    → let counted = compared left c.generated_at attempts in
      attempt_all attempts c ≡ (
        length (filter (is_right c.code c.bound_to) counted),
        record c { attempts = c.attempts + length counted },
      )
unfolding attempt_all filter
attempt_all_lem [] c zero h = ground arith
attempt_all_lem [] c (suc left) h = ground arith
attempt_all_lem ((code, (bound_to, now)) ∷ others) c zero h =
    rw (verify_exhausted code bound_to now c (omega arith)) (attempt_all_lem others c zero h)
attempt_all_lem ((code, (bound_to, now)) ∷ others) c (suc left) h =
    let this : Attempt = (code, (bound_to, now)) in
    elim (Bool-cases (is_in_time c.generated_at this)) [
      | inr late ↦
          rw (verify_late code bound_to now c late, late) (attempt_all_lem others c (suc left) h)
      | inl timely ↦
          let next : PairingCode = record c { attempts = c.attempts + 1 } in
          rw (verify_compared code bound_to now c timely (omega arith), timely)
            (ground (arith, attempt_all_lem others next left (omega arith)))
    ]
