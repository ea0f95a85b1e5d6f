-- ===== src/Core/Identity.antt =====
-- core/src/identity.rs and core/src/prekey.rs: fingerprints, domain-separated signatures and the
-- check of a published bundle. Ed25519 and SHA-256 are parameters.
pub mod Domains
use Prim.Native.String.{String}
use dratchet.Base.{
  ℕ, ◌-◌, ◌^◌, Bool, not, ◌++◌, Bytes, codes, eqb, length, ok, err, ◌>>=◌, ◌>>◌, reject_if, Option,
}
use dratchet.Core.Errors.{CoreResult, invalid_signature}
use dratchet.Core.Words.{to_be_bytes}

-- The functions of the crates ed25519-dalek and sha2. `verify key message signature` is the parse of
-- the key and of the signature and the check, all three.
pub record Signatures : Type 0 where
  pub sha256 : Bytes → Bytes
  pub verify : Bytes → Bytes → Bytes → Bool
  pub sign : Bytes → Bytes → Bytes
  pub verifying_key : Bytes → Bytes

unfoldable pub prekey_signing_payload : ℕ → Bytes → Bytes
prekey_signing_payload prekey_id prekey_public =
    codes "dratchet-prekey-signature-v1" ++ (to_be_bytes prekey_id ++ prekey_public)

unfoldable pub auth_challenge_signing_payload : Bytes → Bytes
auth_challenge_signing_payload nonce = codes "dratchet-auth-challenge-v1" ++ nonce

module _ (g : Signatures) where
  unfoldable pub fingerprint_of_public_key : Bytes → Bytes
  fingerprint_of_public_key public_key_bytes = g.sha256 public_key_bytes

  unfoldable pub verify_signature : Bytes → Bytes → Bytes → CoreResult (Unit {0})
  verify_signature public_key_bytes message signature_bytes = do
    reject_if (not (eqb (length public_key_bytes) 32)) invalid_signature
    reject_if (not (g.verify public_key_bytes message signature_bytes)) invalid_signature

  unfoldable pub sign_prekey : Bytes → ℕ → Bytes → Bytes
  sign_prekey secret prekey_id prekey_public =
      g.sign secret (prekey_signing_payload prekey_id prekey_public)

  unfoldable pub sign_auth_challenge : Bytes → Bytes → Bytes
  sign_auth_challenge secret nonce = g.sign secret (auth_challenge_signing_payload nonce)

  unfoldable pub verify_prekey_signature : Bytes → ℕ → Bytes → Bytes → CoreResult (Unit {0})
  verify_prekey_signature key prekey_id prekey_public signature =
      verify_signature key (prekey_signing_payload prekey_id prekey_public) signature

  unfoldable pub verify_auth_challenge_signature : Bytes → Bytes → Bytes → CoreResult (Unit {0})
  verify_auth_challenge_signature key nonce signature =
      verify_signature key (auth_challenge_signing_payload nonce) signature

abbrev pub identity_dh_signature_id : ℕ
identity_dh_signature_id = 2 ^ 32 - 1

pub record SignedPrekeyPublic : Type 0 where
  pub id : ℕ
  pub key : Bytes
  pub signature : Bytes

pub record OneTimePrekeyPublic : Type 0 where
  pub id : ℕ
  pub key : Bytes

pub record PrekeyBundle : Type 0 where
  pub identity_public_key : Bytes
  pub identity_dh_public : Bytes
  pub identity_dh_signature : Bytes
  pub signed_prekey : SignedPrekeyPublic
  pub one_time_prekey : Option OneTimePrekeyPublic

-- `PrekeyBundle::verify`
unfoldable pub verify_bundle : Signatures → PrekeyBundle → CoreResult (Unit {0})
verify_bundle g b = do
  verify_prekey_signature g b.identity_public_key identity_dh_signature_id b.identity_dh_public
      b.identity_dh_signature
  verify_prekey_signature g b.identity_public_key b.signed_prekey.id b.signed_prekey.key
      b.signed_prekey.signature
