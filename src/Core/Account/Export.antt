-- ===== src/Core/Account/Export.antt =====
-- core/src/account.rs: an account as bytes, and back.
use dratchet.Base.{ℕ, List, [], ◌∷◌, Bytes, nat_eq, ok, ◌>>=◌, Map, insert, map, ok_or}
use dratchet.Base.Codecs.{Codec}
use dratchet.Core.Errors.{CoreResult, malformed_exported_state}
use dratchet.Core.Exports.{to_array32}
use dratchet.Core.Ratchet.Keys.{Primitives}
use dratchet.Core.Prekey.{OneTimePrekey}
use dratchet.Core.Account.{Account}

pub record ExportedOneTimePrekey : Type 0 where
  pub id : ℕ
  pub secret : Bytes

pub record ExportedAccount : Type 0 where
  pub identity_secret_key : Bytes
  pub identity_dh_secret : Bytes
  pub identity_dh_signature : Bytes
  pub signed_prekey_id : ℕ
  pub signed_prekey_secret : Bytes
  pub signed_prekey_signature : Bytes
  pub signed_prekey_created_at : ℕ
  pub one_time_prekeys : List ExportedOneTimePrekey
  pub next_otp_id : ℕ

unfoldable pub account_to_exported : Account → ExportedAccount
account_to_exported a = record {
  identity_secret_key = a.identity;
  identity_dh_secret = a.identity_dh_secret;
  identity_dh_signature = a.identity_dh_signature;
  signed_prekey_id = a.signed_prekey.id;
  signed_prekey_secret = a.signed_prekey.secret;
  signed_prekey_signature = a.signed_prekey.signature;
  signed_prekey_created_at = a.signed_prekey_created_at;
  one_time_prekeys =
      map (λ entry. record { id = entry.1.id; secret = entry.1.secret }) a.one_time_prekeys;
  next_otp_id = a.next_otp_id;
}

module _ (p : Primitives) where
  unfoldable pub import_one_time_prekeys :
      List ExportedOneTimePrekey → Map ℕ OneTimePrekey → CoreResult (Map ℕ OneTimePrekey)
  import_one_time_prekeys [] prekeys = ok prekeys
  import_one_time_prekeys (otp ∷ others) prekeys = do
    secret ← to_array32 otp.secret "one_time_prekeys[].secret"
    import_one_time_prekeys others
        (insert otp.id (record { id = otp.id; secret = secret; key = p.public_key secret }) prekeys)

  unfoldable pub account_from_exported : ExportedAccount → CoreResult Account
  account_from_exported e = do
    identity ← to_array32 e.identity_secret_key "identity_secret_key"
    identity_dh_secret ← to_array32 e.identity_dh_secret "identity_dh_secret"
    signed_prekey_secret ← to_array32 e.signed_prekey_secret "signed_prekey_secret"
    one_time_prekeys ← import_one_time_prekeys e.one_time_prekeys []
    ok (record {
      identity = identity;
      identity_dh_secret = identity_dh_secret;
      identity_dh_public = p.public_key identity_dh_secret;
      identity_dh_signature = e.identity_dh_signature;
      signed_prekey = record {
        id = e.signed_prekey_id;
        secret = signed_prekey_secret;
        key = p.public_key signed_prekey_secret;
        signature = e.signed_prekey_signature;
      };
      signed_prekey_created_at = e.signed_prekey_created_at;
      one_time_prekeys = one_time_prekeys;
      next_otp_id = e.next_otp_id;
    })

module _ (codec : Codec ExportedAccount) where
  unfoldable pub export_account : Account → Bytes
  export_account a = codec.to_cbor (account_to_exported a)

  unfoldable pub import_account : Primitives → Bytes → CoreResult Account
  import_account p bytes = do
    exported ←
        ok_or (codec.from_cbor bytes) (malformed_exported_state "not valid CBOR for this shape")
    account_from_exported p exported
