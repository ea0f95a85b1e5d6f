-- ===== src/Core/X3dh.antt =====
-- core/src/x3dh.rs: the X3DH handshake, and the bootstrap mailbox of an identity.
pub mod Handshake
use dratchet.Base.{
  ℕ, Bool, not, Option, none, some, List, [], ◌∷◌, ◌++◌, Bytes, codes, ok, err, ◌>>=◌, ◌>>◌,
  reject_if, take,
}
use mathlib.Core.Option
use dratchet.Core.Errors.{CoreResult, non_contributory_handshake}
use dratchet.Core.Ratchet.Keys.{Primitives}
use dratchet.Core.Identity.{Signatures, PrekeyBundle, OneTimePrekeyPublic, verify_bundle}

pub record X3dhInitMessage : Type 0 where
  pub initiator_identity_dh_public : Bytes
  pub initiator_ephemeral_public : Bytes
  pub used_signed_prekey_id : ℕ
  pub used_one_time_prekey_id : Option ℕ

pub record X3dhInitResult : Type 0 where
  pub root_key : Bytes
  pub message : X3dhInitMessage

unfoldable pub bootstrap_mailbox_id : Signatures → Bytes → Bytes
bootstrap_mailbox_id g fingerprint =
    take 16 (g.sha256 (codes "dratchet-x3dh-bootstrap-v1" ++ fingerprint))

module _ (p : Primitives) where
  -- The optional fourth secret counts where it is there.
  unfoldable pub reject_non_contributory :
      Bytes → Bytes → Bytes → Option Bytes → CoreResult (Unit {0})
  reject_non_contributory dh1 dh2 dh3 dh4 = do
    reject_if (not (p.was_contributory dh1)) non_contributory_handshake
    reject_if (not (p.was_contributory dh2)) non_contributory_handshake
    reject_if (not (p.was_contributory dh3)) non_contributory_handshake
    elim dh4 [
      | none ↦ ok tt
      | some dh ↦ reject_if (not (p.was_contributory dh)) non_contributory_handshake
    ]

  abbrev optional_bytes : Option Bytes → Bytes
  optional_bytes none = []
  optional_bytes (some dh) = dh

  unfoldable pub derive_root_key : Bytes → Bytes → Bytes → Option Bytes → Bytes
  derive_root_key dh1 dh2 dh3 dh4 =
      let ikm = dh1 ++ (dh2 ++ (dh3 ++ optional_bytes dh4)) in
      p.hkdf none ikm (codes "dratchet-x3dh-root") 32

  abbrev with_ephemeral : Bytes → Option OneTimePrekeyPublic → Option Bytes
  with_ephemeral secret none = none
  with_ephemeral secret (some otp) = some (p.diffie_hellman secret otp.key)

  abbrev prekey_id : Option OneTimePrekeyPublic → Option ℕ
  prekey_id none = none
  prekey_id (some otp) = some otp.id

  -- `ephemeral_secret` is the fresh secret that the random source gives.
  unfoldable pub initiate :
      Signatures → Bytes → Bytes → Bytes → PrekeyBundle → CoreResult X3dhInitResult
  initiate g ephemeral_secret identity_dh_secret identity_dh_public bundle = do
    verify_bundle g bundle
    let ephemeral_public = p.public_key ephemeral_secret
    let dh1 = p.diffie_hellman identity_dh_secret bundle.signed_prekey.key
    let dh2 = p.diffie_hellman ephemeral_secret bundle.identity_dh_public
    let dh3 = p.diffie_hellman ephemeral_secret bundle.signed_prekey.key
    let dh4 = with_ephemeral ephemeral_secret bundle.one_time_prekey
    reject_non_contributory dh1 dh2 dh3 dh4
    ok (record {
      root_key = derive_root_key dh1 dh2 dh3 dh4;
      message = record {
        initiator_identity_dh_public = identity_dh_public;
        initiator_ephemeral_public = ephemeral_public;
        used_signed_prekey_id = bundle.signed_prekey.id;
        used_one_time_prekey_id = prekey_id bundle.one_time_prekey;
      };
    })

  unfoldable pub respond : Bytes → Bytes → Option Bytes → X3dhInitMessage → CoreResult Bytes
  respond identity_dh_secret signed_prekey_secret one_time_prekey_secret message = do
    let dh1 = p.diffie_hellman signed_prekey_secret message.initiator_identity_dh_public
    let dh2 = p.diffie_hellman identity_dh_secret message.initiator_ephemeral_public
    let dh3 = p.diffie_hellman signed_prekey_secret message.initiator_ephemeral_public
    let dh4 =
        Option.map (λ s. p.diffie_hellman s message.initiator_ephemeral_public)
          one_time_prekey_secret
    reject_non_contributory dh1 dh2 dh3 dh4
    ok (derive_root_key dh1 dh2 dh3 dh4)
