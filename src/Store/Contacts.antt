-- ===== src/Store/Contacts.antt =====
-- store/src/contacts.rs: the contact records.
pub mod Laws
use dratchet.Base.{
  ℕ, ◌+◌, Bool, Option, none, some, List, [], ◌∷◌, ◌++◌, Bytes, codes, Result, ok, err, ok_or,
}
use dratchet.Base.Names.{hex}
use dratchet.Base.Actions.{Method, ◌>>=◌, ◌>>◌, pure, lift, gets, modify}
use dratchet.Store.Errors.{Error, StoreResult, malformed_record}
use dratchet.Store.Db.{
  Platform, Db, Action, contacts, keys_with_prefix, put_encrypted, get_encrypted, delete,
}
use dratchet.Store.Scan.{scan_records}
use dratchet.Base.Codecs.{Codec}
use dratchet.Store.Records.{Contact}

abbrev pub contact_key_prefix : Bytes
contact_key_prefix = codes "contact:"

unfoldable pub contact_key : Bytes → Bytes
contact_key fingerprint = contact_key_prefix ++ hex fingerprint

unfoldable pub delete_contact : Bytes → Db → Db
delete_contact fingerprint = delete (contact_key fingerprint)

module _ (v : Platform) (codec : Codec Contact) where
  unfoldable pub save_contact : Contact → Db → Db
  save_contact contact =
      put_encrypted v contacts (contact_key contact.fingerprint) (codec.to_cbor contact)

  unfoldable pub decode_contact : Bytes → StoreResult Contact
  decode_contact bytes =
      ok_or (codec.from_cbor bytes)
        (malformed_record "stored contact is not valid CBOR for this shape")

  unfoldable pub load_contact : Bytes → Action (Option Contact)
  load_contact fingerprint = do
    found ← get_encrypted v contacts (contact_key fingerprint)
    elim found [
      | none ↦ pure none
      | some bytes ↦ (do contact ← lift (decode_contact bytes); pure (some contact))
    ]

  unfoldable pub list_contacts_counting_unreadable : Db → (List Contact × ℕ) × Db
  list_contacts_counting_unreadable db =
      scan_records v contacts codec (keys_with_prefix contact_key_prefix db) db

  unfoldable pub list_contacts : Db → List Contact × Db
  list_contacts db = let (found, after) = list_contacts_counting_unreadable db in (found.0, after)
