-- ===== src/Store/Gate.antt =====
-- store/src/gate.rs: no chat content passes for a contact that is not verified.
pub mod Chat
mod Tests
use dratchet.Base.{ℕ, Bool, true, false, not, ◌&&◌, Bytes, eqb, Result, ok, err, if◌then◌else◌}
use dratchet.Core.Errors.{CoreResult}
use dratchet.Core.Envelope.{Envelope}
use dratchet.Core.Payload.{payload_chat}
use dratchet.Core.Ratchet.Keys.{Primitives}
use dratchet.Core.Ratchet.State.{RatchetState}
use dratchet.Core.Ratchet.Engine.{encrypt_payload, decrypt_payload}
use dratchet.Store.Errors.{Error, StoreResult, not_verified, core}
use dratchet.Store.Records.{Contact, VerificationState, pending, verified, mismatch}

abbrev pub is_verified : VerificationState → Bool
is_verified pending = false
is_verified verified = true
is_verified mismatch = false

abbrev pub is_blocked : Contact → ℕ → Bool
is_blocked contact payload_type =
    eqb payload_type payload_chat && not (is_verified contact.verification_state)

-- `?` from the core's errors
abbrev pub of_core {ℓ} : {A : Type ℓ} → CoreResult A → StoreResult A
of_core (ok a) = ok a
of_core (err e) = err (core e)

-- What came out of the ratchet, unless it is chat that the gate withholds.
abbrev pub withhold : Contact → StoreResult (ℕ × Bytes) → StoreResult (ℕ × Bytes)
withhold contact (err e) = err e
withhold contact (ok (payload_type, body)) =
    if is_blocked contact payload_type then err not_verified else ok (payload_type, body)

module _ (p : Primitives) where
  unfoldable pub encrypt_gated :
      Contact → ℕ → Bytes → RatchetState → StoreResult Envelope × RatchetState
  encrypt_gated contact payload_type body ratchet =
      if is_blocked contact payload_type
      then (err not_verified, ratchet)
      else (let (r, after) = encrypt_payload p payload_type body ratchet in (of_core r, after))

  -- `new_secret` is the fresh secret of a DH ratchet step.
  unfoldable pub decrypt_gated :
      Contact → Bytes → Envelope → RatchetState → StoreResult (ℕ × Bytes) × RatchetState
  decrypt_gated contact new_secret envelope ratchet =
      let (r, after) = decrypt_payload p new_secret envelope ratchet in
      (withhold contact (of_core r), after)

unfoldable pub mark_verified : Contact → Contact
mark_verified contact = record contact { verification_state = verified }

unfoldable pub mark_mismatch : Contact → Contact
mark_mismatch contact = record contact { verification_state = mismatch }
