-- ===== src/Core/Errors.antt =====
-- core/src/error.rs: the errors of the crate, by their variants.
use Prim.Native.String.{String}
use dratchet.Base.{ℕ, Result}

pub data Error : Type 0 where
  malformed_envelope malformed_payload malformed_exported_state : String → Error
  ratchet_not_initialized : String → Error
  max_skip_exceeded : ℕ → Error
  invalid_max_skip : (got min max : ℕ) → Error
  aead unknown_message_key invalid_signature conversation_id_mismatch non_contributory_handshake :
      Error

abbrev pub CoreResult {ℓ} : Type ℓ → Type ℓ
CoreResult A = Result Error A
