-- ===== src/Store/Gate/Chat.antt =====
-- What the verification gate lets through.
use dratchet.Base.{
  ℕ, ◌≡◌, ◌≢◌, refl, true, false, Bytes, eqb, ok, err, arith, ◌⊎◌, inl, inr, Bool-cases,
}
use dratchet.Core.Errors.{CoreResult}
use dratchet.Core.Envelope.{Envelope}
use dratchet.Core.Payload.{payload_chat}
use dratchet.Core.Ratchet.Keys.{Primitives}
use dratchet.Core.Ratchet.State.{RatchetState}
use dratchet.Core.Ratchet.Engine.{decrypt_payload}
use dratchet.Store.Errors.{StoreResult, core, not_verified}
use dratchet.Store.Records.{Contact, VerificationState, pending, verified, mismatch}
use dratchet.Store.Gate.{is_verified, of_core, encrypt_gated, decrypt_gated, withhold}

-- Chat is encrypted for a contact only after the contact was verified; for any other contact the call is
-- refused and the ratchet does not move.
pub encrypt_gated_refuses :
    (p : Primitives) (contact : Contact) (body : Bytes) (ratchet : RatchetState)
    → is_verified contact.verification_state ≡ false
    → encrypt_gated p contact payload_chat body ratchet ≡ (err not_verified, ratchet)
unfolding encrypt_gated
encrypt_gated_refuses p contact body ratchet h = rw h refl

verified_or_not :
    (s : VerificationState)
    → ((is_verified s ≡ true) × (s ≡ verified)) ⊎ ((is_verified s ≡ false) × (s ≢ verified))
verified_or_not pending = inr (refl, λ e. ground (arith, e))
verified_or_not verified = inl (refl, refl)
verified_or_not mismatch = inr (refl, λ e. ground (arith, e))

-- What the gate makes of an opened payload
abbrev pub IsGated : Contact → CoreResult (ℕ × Bytes) → StoreResult (ℕ × Bytes) → Type 0
IsGated contact (err e) given = given ≡ err (core e)
IsGated contact (ok (payload_type, body)) given =
    ((given ≡ ok (payload_type, body))
      × ((payload_type ≢ payload_chat) ⊎ (contact.verification_state ≡ verified)))
    ⊎ ((given ≡ err not_verified)
        × (payload_type ≡ payload_chat)
        × (contact.verification_state ≢ verified))

withhold-IsGated :
    (contact : Contact) (r : CoreResult (ℕ × Bytes))
    → IsGated contact r (withhold contact (of_core r))
withhold-IsGated contact (err e) = refl
withhold-IsGated contact (ok (payload_type, body)) =
    elim (Bool-cases (eqb payload_type payload_chat)) [
      | inr other ↦ rw other (inl (refl, inl (λ same. ground (arith, other, same))))
      | inl chat ↦ elim (verified_or_not contact.verification_state) [
        | inl (good, fine) ↦ rw (chat, good) (inl (refl, inr fine))
        | inr (bad, not_fine) ↦ rw (chat, bad) (inr (refl, ground (arith, chat), not_fine))
      ]
    ]

-- Whatever the ratchet makes of an envelope, the gate goes on from the state that the ratchet
-- leaves, withheld or not. A payload that it opens is given out as it is, unless it is chat and
-- the contact is not verified: then, and only then, the call is refused. An error of the ratchet
-- is passed on.
pub decrypt_gated_passes :
    (p : Primitives) (contact : Contact) (new_secret : Bytes) (envelope : Envelope)
    (ratchet : RatchetState)
    → ((decrypt_gated p contact new_secret envelope ratchet).1
        ≡ (decrypt_payload p new_secret envelope ratchet).1)
      × IsGated contact
          (decrypt_payload p new_secret envelope ratchet).0
          (decrypt_gated p contact new_secret envelope ratchet).0
unfolding decrypt_gated
decrypt_gated_passes p contact new_secret envelope ratchet =
    (refl, withhold-IsGated contact (decrypt_payload p new_secret envelope ratchet).0)
