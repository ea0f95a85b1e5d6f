-- ===== src/Store/Contacts/Laws.antt =====
-- The contact records as a map from fingerprints.
use dratchet.Base.{◌≡◌, none, some, Bytes, bytes_eq, ok, arith, lookup-remove_self}
use dratchet.Base.Codecs.{Codec, Decodes}
use dratchet.Store.Db.{Platform, Db, contacts, delete, get_encrypted}
use dratchet.Store.Db.Laws.{IsSound, get-put, read-absent}
use dratchet.Store.Records.{Contact}
use dratchet.Store.Contacts.{
  contact_key, save_contact, load_contact, delete_contact, decode_contact,
}

module _ (v : Platform) (codec : Codec Contact) where
  -- A contact that was saved is loaded by its fingerprint, and loading it changes nothing.
  pub load_contact-save_contact :
      (contact : Contact) (db : Db)
      → IsSound v
      → Decodes codec contact
      → load_contact v codec contact.fingerprint (save_contact v codec contact db)
        ≡ (ok (some contact), save_contact v codec contact db)
  unfolding load_contact save_contact decode_contact
  load_contact-save_contact contact db sound decodes =
      let back =
        get-put v sound contacts (contact_key contact.fingerprint) (codec.to_cbor contact) db in
      ground (arith, back, decodes)

  -- After a deletion there is no such contact.
  pub load_contact-delete_contact :
      (fingerprint : Bytes) (db : Db)
      → load_contact v codec fingerprint (delete_contact fingerprint db)
        ≡ (ok none, delete_contact fingerprint db)
  unfolding load_contact delete_contact delete get_encrypted
  load_contact-delete_contact fingerprint db =
      let gone =
        read-absent v db.contacts_key (contact_key fingerprint) (delete_contact fingerprint db)
          (lookup-remove_self (contact_key fingerprint) db.database) in
      ground (arith, gone)
