-- ===== src/App/Profiles/Tests.antt =====
-- A run of a claim at a start: the stored discriminator is taken, and the next candidate is granted.
use dratchet.Base.{ℕ, ◌≡◌, refl, true, some, none, [], ◌∷◌, Bytes, ok, replicate}
use dratchet.Core.Account.{Account}
use dratchet.Base.Codecs.{Codec}
use dratchet.Core.Account.Export.{ExportedAccount}
use dratchet.Core.Identity.{Signatures}
use dratchet.Store.Records.{OwnProfile}
use dratchet.Store.Peers.{save_own_profile}
use dratchet.App.Tests.{platform, db, always}
use dratchet.App.Profiles.{
  Registrar, Draws, accepted, discriminator_changed, stored_profile, reconcile_own_profile,
}
use dratchet.App.Profiles.Claims.{taken, IsClaimed, renewed, reconcile_own_profile_claims}

abbrev signatures : Signatures
signatures = record {
  sha256 = λ m. replicate 32 0;
  verify = λ key m signature. true;
  sign = λ secret m. [];
  verifying_key = λ secret. secret;
}

abbrev account : Account
account = record {
  identity = 1 ∷ [];
  identity_dh_secret = 2 ∷ [];
  identity_dh_public = 2 ∷ [];
  identity_dh_signature = [];
  signed_prekey = record { id = 1; secret = 3 ∷ []; key = 3 ∷ []; signature = [] };
  signed_prekey_created_at = 0;
  one_time_prekeys = [];
  next_otp_id = 1;
}

abbrev old : OwnProfile
old = record { username = 97 ∷ []; discriminator = 17; signed_prekey_id = 1 }

abbrev device : Registrar
device = record {
  db = save_own_profile platform (always old) old db;
  account = account;
  replies = taken ∷ accepted ∷ [];
  published = [];
}

abbrev draws : Draws
draws = record { rotation = 4 ∷ []; batch = (5 ∷ []) ∷ [] }

abbrev accounts : Codec ExportedAccount
accounts = record { to_cbor = λ x. []; from_cbor = λ bytes. none }

device-old :
    stored_profile platform signatures accounts (always old) 4 0 device ≡ (ok (some old), device)
unfolding stored_profile dratchet.Store.Peers.load_own_profile dratchet.Store.Db.get_encrypted
    dratchet.Store.Db.read_encrypted dratchet.Base.lookup save_own_profile
    dratchet.Store.Db.put_encrypted dratchet.Store.Db.write_encrypted dratchet.Base.insert
    dratchet.Base.bytes_beq dratchet.Store.Db.decrypt_record dratchet.Store.Db.decrypt
    dratchet.Store.Db.encrypt
device-old = refl

reconcile_own_profile_claims_example :
    let new : OwnProfile = record {
      username = 97 ∷ [];
      discriminator = 23;
      signed_prekey_id = 1;
    } in
    let (r, t) =
      reconcile_own_profile platform signatures accounts
        (always old)
        4
        0
        draws
        (23 ∷ 42 ∷ [])
        device in
    (r ≡ ok (discriminator_changed old new))
    × IsClaimed platform signatures accounts
        (always old)
        4
        0
        new
        (renewed platform signatures accounts (always old) 4 0 draws account)
        (17 ∷ 23 ∷ [])
        []
        device
        t
unfolding dratchet.Core.Account.publish_bundle dratchet.Core.Prekey.signed_prekey_entry
    dratchet.Core.Account.generate_one_time_prekeys dratchet.Core.Account.add_one_time_prekeys
    dratchet.Core.Account.add_one_time_prekey dratchet.App.Profiles.rotate_if_due
    dratchet.Core.Account.signed_prekey_rotation_due
reconcile_own_profile_claims_example =
    reconcile_own_profile_claims platform signatures accounts (always old) 4 0 draws (23 ∷ 42 ∷ [])
      (17 ∷ []) (42 ∷ []) 23 old [] device device device-old refl refl
