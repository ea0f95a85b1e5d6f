-- ===== src/Core/Account.antt =====
-- core/src/account.rs: an account's long-term keys and prekeys. The identity is its secret key; each
-- operation that draws fresh secrets is given them.
pub mod Export
pub mod RoundTrip
pub mod Bundle
mod Tests
use dratchet.Base.{
  ℕ, ◌+◌, ◌*◌, ◌-◌, ◌^◌, min, Bool, true, false, Option, none, some, List, [], ◌∷◌, Bytes, nat_eq,
  leb, Map, lookup, insert, remove, length, if◌then◌else◌,
}
use dratchet.Core.Identity.{
  Signatures, PrekeyBundle, OneTimePrekeyPublic, identity_dh_signature_id, sign_prekey,
}
use dratchet.Core.Ratchet.Keys.{Primitives}
use dratchet.Core.Prekey.{
  SignedPrekey, OneTimePrekey, new_signed_prekey, signed_prekey_entry, new_one_time_prekey,
  one_time_prekey_entry,
}

abbrev pub signed_prekey_rotation_secs : ℕ
signed_prekey_rotation_secs = 7 * 24 * 60 * 60

abbrev pub signed_prekey_lifetime_secs : ℕ
signed_prekey_lifetime_secs = 30 * 24 * 60 * 60

pub record Account : Type 0 where
  pub identity : Bytes
  pub identity_dh_secret : Bytes
  pub identity_dh_public : Bytes
  pub identity_dh_signature : Bytes
  pub signed_prekey : SignedPrekey
  pub signed_prekey_created_at : ℕ
  pub one_time_prekeys : Map ℕ OneTimePrekey
  pub next_otp_id : ℕ

-- `u32::saturating_add(1)` and `u64::saturating_add`
abbrev pub saturating_succ_u32 : ℕ → ℕ
saturating_succ_u32 n = min (n + 1) (2 ^ 32 - 1)

abbrev pub saturating_add_u64 : ℕ → ℕ → ℕ
saturating_add_u64 a b = min (a + b) (2 ^ 64 - 1)

module _ (p : Primitives) where
  unfoldable pub generate : Signatures → Bytes → Bytes → Bytes → Account
  generate g identity identity_dh_secret signed_prekey_secret = record {
    identity = identity;
    identity_dh_secret = identity_dh_secret;
    identity_dh_public = p.public_key identity_dh_secret;
    identity_dh_signature =
        sign_prekey g identity identity_dh_signature_id (p.public_key identity_dh_secret);
    signed_prekey = new_signed_prekey p g signed_prekey_secret 0 identity;
    signed_prekey_created_at = 0;
    one_time_prekeys = [];
    next_otp_id = 0;
  }

  -- One round of the loop; `next_otp_id` stays below 2³².
  unfoldable pub add_one_time_prekey : Bytes → Account → OneTimePrekeyPublic × Account
  add_one_time_prekey secret a =
      let otp = new_one_time_prekey p secret a.next_otp_id in
      (
        one_time_prekey_entry otp,
        record a {
          one_time_prekeys = insert a.next_otp_id otp a.one_time_prekeys;
          next_otp_id = a.next_otp_id + 1;
        },
      )

  -- One prekey for each fresh secret
  unfoldable pub add_one_time_prekeys : List Bytes → Account → List OneTimePrekeyPublic × Account
  add_one_time_prekeys [] a = ([], a)
  add_one_time_prekeys (secret ∷ secrets) a =
      let (entry, next) = add_one_time_prekey secret a in
      let (entries, last) = add_one_time_prekeys secrets next in (entry ∷ entries, last)

  unfoldable pub generate_one_time_prekeys :
      List Bytes → Account → List OneTimePrekeyPublic × Account
  generate_one_time_prekeys secrets a =
      add_one_time_prekeys secrets (record a { one_time_prekeys = [] })

  unfoldable pub rotate_signed_prekey : Signatures → Bytes → ℕ → Account → Account
  rotate_signed_prekey g secret now a = record a {
    signed_prekey =
        new_signed_prekey p g secret (saturating_succ_u32 a.signed_prekey.id) a.identity;
    signed_prekey_created_at = now;
  }

unfoldable pub one_time_prekey_count : Account → ℕ
one_time_prekey_count a = length a.one_time_prekeys

abbrev pub first_entry : Map ℕ OneTimePrekey → Option OneTimePrekeyPublic
first_entry [] = none
first_entry ((id, otp) ∷ _) = some (one_time_prekey_entry otp)

unfoldable pub peek_any_one_time_prekey : Account → Option OneTimePrekeyPublic
peek_any_one_time_prekey a = first_entry a.one_time_prekeys

unfoldable pub publish_bundle : Signatures → Bool → Account → PrekeyBundle
publish_bundle g include_one_time_prekey a = record {
  identity_public_key = g.verifying_key a.identity;
  identity_dh_public = a.identity_dh_public;
  identity_dh_signature = a.identity_dh_signature;
  signed_prekey = signed_prekey_entry a.signed_prekey;
  one_time_prekey = if include_one_time_prekey then peek_any_one_time_prekey a else none;
}

abbrev pub secret_of : Option OneTimePrekey → Option Bytes
secret_of none = none
secret_of (some otp) = some otp.secret

unfoldable pub take_one_time_prekey_secret : ℕ → Account → Option Bytes × Account
take_one_time_prekey_secret id a = (
  secret_of (lookup id a.one_time_prekeys),
  record a { one_time_prekeys = remove id a.one_time_prekeys },
)

unfoldable pub peek_one_time_prekey_secret : ℕ → Account → Option Bytes
peek_one_time_prekey_secret id a = secret_of (lookup id a.one_time_prekeys)

unfoldable pub signed_prekey_expires_at : Account → ℕ
signed_prekey_expires_at a =
    saturating_add_u64 a.signed_prekey_created_at signed_prekey_lifetime_secs

unfoldable pub signed_prekey_rotation_due : ℕ → Account → Bool
signed_prekey_rotation_due now a =
    leb (saturating_add_u64 a.signed_prekey_created_at signed_prekey_rotation_secs) now
