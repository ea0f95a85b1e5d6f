-- ===== src/Core/Account/Bundle.antt =====
-- What an account publishes verifies, through every operation on it.
use dratchet.Base.{ℕ, ◌≡◌, refl, Bool, true, List, [], ◌∷◌, Bytes, nat_eq, ok, length}
use dratchet.Core.Identity.{
  Signatures, verify_bundle, verify_prekey_signature, verify_signature, sign_prekey,
  prekey_signing_payload, identity_dh_signature_id,
}
use dratchet.Core.Ratchet.Keys.{Primitives}
use dratchet.Core.Prekey.{new_signed_prekey, signed_prekey_entry}
use dratchet.Core.Account.{
  Account, generate, add_one_time_prekeys, add_one_time_prekey, generate_one_time_prekeys,
  take_one_time_prekey_secret, rotate_signed_prekey, publish_bundle,
}

-- The documented behaviour of Ed25519: a public key has 32 bytes, and it accepts what its secret signed.
pub record Signs (g : Signatures) : Type 0 where
  pub width : (secret : Bytes) → length (g.verifying_key secret) ≡ 32
  pub accepts : (secret m : Bytes) → g.verify (g.verifying_key secret) m (g.sign secret m) ≡ true

module _ (p : Primitives) (g : Signatures) where
  -- Both of the account's signatures are those of its identity.
  pub record IsSigned (a : Account) : Type 0 where
    pub identity_dh :
        a.identity_dh_signature
        ≡ sign_prekey g a.identity identity_dh_signature_id a.identity_dh_public
    pub prekey :
        a.signed_prekey.signature ≡ sign_prekey g a.identity a.signed_prekey.id a.signed_prekey.key

  verify-sign_prekey :
      (secret key : Bytes) (id : ℕ)
      → Signs g
      → verify_prekey_signature g (g.verifying_key secret) id key (sign_prekey g secret id key)
        ≡ ok tt
  unfolding verify_prekey_signature verify_signature sign_prekey
  verify-sign_prekey secret key id s =
      rw (s.width secret, s.accepts secret (prekey_signing_payload id key)) refl

  -- The bundle of an account whose signatures are its identity's verifies, with a one-time prekey or without.
  pub verify_bundle-publish_bundle :
      (with_prekey : Bool) (a : Account)
      → Signs g
      → IsSigned a
      → verify_bundle g (publish_bundle g with_prekey a) ≡ ok tt
  unfolding verify_bundle publish_bundle signed_prekey_entry
  verify_bundle-publish_bundle with_prekey a s i =
      rw
        (
          i.identity_dh,
          i.prekey,
          verify-sign_prekey a.identity a.identity_dh_public identity_dh_signature_id s,
          verify-sign_prekey a.identity a.signed_prekey.key a.signed_prekey.id s,
        )
        refl

  pub generate-IsSigned : (identity dh prekey : Bytes) → IsSigned (generate p g identity dh prekey)
  unfolding generate new_signed_prekey
  generate-IsSigned identity dh prekey = record { identity_dh = refl; prekey = refl }

  pub rotate_signed_prekey-IsSigned :
      (secret : Bytes) (now : ℕ) (a : Account)
      → IsSigned a
      → IsSigned (rotate_signed_prekey p g secret now a)
  unfolding rotate_signed_prekey new_signed_prekey
  rotate_signed_prekey-IsSigned secret now a i = record {
    identity_dh = i.identity_dh;
    prekey = refl;
  }

  add_one_time_prekeys-IsSigned :
      (secrets : List Bytes) (a : Account)
      → IsSigned a
      → IsSigned (add_one_time_prekeys p secrets a).1
  unfolding add_one_time_prekeys add_one_time_prekey
  add_one_time_prekeys-IsSigned [] a i = i
  add_one_time_prekeys-IsSigned (secret ∷ secrets) a i =
      add_one_time_prekeys-IsSigned secrets (add_one_time_prekey p secret a).1
        (record { identity_dh = i.identity_dh; prekey = i.prekey })

  generate_one_time_prekeys-IsSigned :
      (secrets : List Bytes) (a : Account)
      → IsSigned a
      → IsSigned (generate_one_time_prekeys p secrets a).1
  unfolding generate_one_time_prekeys
  generate_one_time_prekeys-IsSigned secrets a i =
      add_one_time_prekeys-IsSigned secrets (record a { one_time_prekeys = [] })
        (record { identity_dh = i.identity_dh; prekey = i.prekey })

  -- The accounts that the operations make.
  pub data IsReached : Account → Type 0 where
    generated : (identity dh prekey : Bytes) → IsReached (generate p g identity dh prekey)
    rotated :
        (secret : Bytes) (now : ℕ) (a : Account)
        → IsReached a
        → IsReached (rotate_signed_prekey p g secret now a)
    restocked :
        (secrets : List Bytes) (a : Account)
        → IsReached a
        → IsReached (generate_one_time_prekeys p secrets a).1
    taken : (id : ℕ) (a : Account) → IsReached a → IsReached (take_one_time_prekey_secret id a).1

  IsReached-IsSigned : (a : Account) → IsReached a → IsSigned a
  unfolding take_one_time_prekey_secret
  IsReached-IsSigned a (generated identity dh prekey) = generate-IsSigned identity dh prekey
  IsReached-IsSigned a (rotated secret now b r) =
      rotate_signed_prekey-IsSigned secret now b (IsReached-IsSigned b r)
  IsReached-IsSigned a (restocked secrets b r) =
      generate_one_time_prekeys-IsSigned secrets b (IsReached-IsSigned b r)
  IsReached-IsSigned a (taken id b r) =
      let i = IsReached-IsSigned b r in record { identity_dh = i.identity_dh; prekey = i.prekey }

  -- However an account was made, by rotations of the signed prekey, by new one-time prekeys and by
  -- taking them, the bundle that it publishes verifies, where public keys have 32 bytes and a
  -- signature is accepted by the key that made it.
  pub verify_bundle-publish_bundle_reached :
      (with_prekey : Bool) (a : Account)
      → Signs g
      → IsReached a
      → verify_bundle g (publish_bundle g with_prekey a) ≡ ok tt
  verify_bundle-publish_bundle_reached with_prekey a s r =
      verify_bundle-publish_bundle with_prekey a s (IsReached-IsSigned a r)
