-- ===== src/Core/FirstContact.antt =====
-- core/src/first_contact.rs: the first message to a stranger, which carries the handshake's keys.
use dratchet.Base.{ℕ, Option, Bytes, eqb, length, ok, err, ok_or, ◌>>=◌, if◌then◌else◌}
use dratchet.Base.Codecs.{Codec}
use dratchet.Core.Errors.{CoreResult, malformed_payload}
use dratchet.Core.Identity.{Signatures, identity_dh_signature_id, verify_prekey_signature}
use dratchet.Core.X3dh.{X3dhInitMessage}

pub record FirstContactWire : Type 0 where
  pub initiator_identity_key : Bytes
  pub initiator_identity_dh_public : Bytes
  pub initiator_identity_dh_signature : Bytes
  pub initiator_ephemeral_public : Bytes
  pub used_signed_prekey_id : ℕ
  pub used_one_time_prekey_id : Option ℕ
  pub envelope : Bytes

unfoldable pub encode_first_contact : Codec FirstContactWire → FirstContactWire → Bytes
encode_first_contact codec = codec.to_cbor

unfoldable pub decode_first_contact : Codec FirstContactWire → Bytes → CoreResult FirstContactWire
decode_first_contact codec bytes =
    ok_or (codec.from_cbor bytes) (malformed_payload "not a valid FirstContactWire")

unfoldable pub verify_identity_binding : Signatures → FirstContactWire → CoreResult (Unit {0})
verify_identity_binding g w =
    if eqb (length w.initiator_identity_dh_public) 32
    then verify_prekey_signature g w.initiator_identity_key identity_dh_signature_id
        w.initiator_identity_dh_public w.initiator_identity_dh_signature
    else err (malformed_payload "initiator_identity_dh_public must be 32 bytes")

unfoldable pub x3dh_init_message : FirstContactWire → CoreResult X3dhInitMessage
x3dh_init_message w = do
  identity_dh_public ←
      (if eqb (length w.initiator_identity_dh_public) 32
        then ok w.initiator_identity_dh_public
        else err (malformed_payload "initiator_identity_dh_public must be 32 bytes"))
  ephemeral_public ←
      (if eqb (length w.initiator_ephemeral_public) 32
        then ok w.initiator_ephemeral_public
        else err (malformed_payload "initiator_ephemeral_public must be 32 bytes"))
  ok (record {
    initiator_identity_dh_public = identity_dh_public;
    initiator_ephemeral_public = ephemeral_public;
    used_signed_prekey_id = w.used_signed_prekey_id;
    used_one_time_prekey_id = w.used_one_time_prekey_id;
  })
