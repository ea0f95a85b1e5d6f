-- ===== src/Store/Db/Lifecycle.antt =====
-- store/src/db.rs: creating, opening and wiping the database. `create` and `open` work on a database
-- that no session holds yet: the keys of the result count only where both succeed.
use dratchet.Base.{
  ℕ, ◌+◌, Bool, true, false, not, ◌||◌, Option, none, some, List, [], ◌∷◌, ◌++◌, Bytes, bytes_eq,
  codes, eqb, insert, if◌then◌else◌, lookup, length, ok, err, ok_or, is_some, ◌==◌,
}
use dratchet.Base.Actions.{◌>>=◌, ◌>>◌, pure, lift, gets, state, modify, fail_if}
use dratchet.Store.Errors.{
  StoreResult, malformed_record, decryption_failed, wrong_passphrase_or_corrupted, passphrase_hash,
}
use dratchet.Store.Db.{
  Platform, Db, Action, Scope, identity, contacts, content, starts_with, keys_with_prefix,
  delete_many, decrypt, write_encrypted, read_encrypted, put_encrypted, dek_len, salt_key,
  kdf_check_key, kdf_check_plaintext, identity_dek_key, contacts_dek_key, content_dek_key,
  aad_migration_marker_key,
}

module _ (v : Platform) where
  unfoldable pub derive_key : Bytes → Bytes → StoreResult Bytes
  derive_key passphrase salt = ok_or (v.argon2 passphrase salt) passphrase_hash

  -- `random_key`
  abbrev pub random_key : Db → Bytes × Db
  random_key db = (v.random db.draws dek_len, record db { draws = db.draws + 1 })

  -- A freshly made key, wrapped under the master key.
  abbrev pub new_dek : Bytes → Bytes → Db → Bytes × Db
  new_dek master_key key db =
      let (dek, drawn) = random_key db in (dek, write_encrypted v master_key key dek drawn)

  unfoldable pub unwrap_dek : Bytes → Bytes → Action Bytes
  unwrap_dek master_key key = do
    found ← read_encrypted v master_key key
    wrapped ← lift (
        ok_or found
          (malformed_record "missing wrapped data-encryption key — not a dratchet-store database"))
    fail_if (not (eqb (length wrapped) dek_len))
        (malformed_record "wrapped data-encryption key has the wrong length")
    pure wrapped

  -- The decryption under no key's name, by the first of the three keys that fits.
  unfoldable pub find_legacy : Bytes → Db → Option (Scope × Bytes)
  find_legacy stored db = elim (decrypt v db.identity_key [] stored) [
    | ok plaintext ↦ some (identity, plaintext)
    | err _ ↦ elim (decrypt v db.contacts_key [] stored) [
      | ok plaintext ↦ some (contacts, plaintext)
      | err _ ↦ elim (decrypt v db.content_key [] stored) [
        | ok plaintext ↦ some (content, plaintext)
        | err _ ↦ none
      ]
    ]
  ]

  abbrev pub is_ok {ℓ} : {A : Type ℓ} → StoreResult A → Bool
  is_ok (ok _) = true
  is_ok (err _) = false

  unfoldable pub is_bound : Bytes → Bytes → Db → Bool
  is_bound key stored db =
      is_ok (decrypt v db.identity_key key stored)
      || (is_ok (decrypt v db.contacts_key key stored)
          || is_ok (decrypt v db.content_key key stored))

  -- One round of `rebind_legacy_records`, on a record that is there.
  unfoldable pub rebind_record : Bytes → Bytes → Db → Db
  rebind_record key stored db =
      if is_bound key stored db then db else elim (find_legacy stored db) [
        | none ↦ db
        | some (scope, plaintext) ↦ put_encrypted v scope key plaintext db
      ]

  unfoldable pub rebind_key : Bytes → Db → Db
  rebind_key key db =
      if starts_with (codes "__") key
      then db
      else elim (lookup key db.database) [ none ↦ db | some stored ↦ rebind_record key stored db ]

  unfoldable pub rebind_all : List Bytes → Db → Db
  rebind_all [] db = db
  rebind_all (key ∷ others) db = rebind_all others (rebind_key key db)

  -- `rebind_legacy_records`; the number of records that it rewrote is only logged.
  unfoldable pub rebind_legacy_records : Db → Db
  rebind_legacy_records db =
      if is_some (lookup aad_migration_marker_key db.database)
      then db
      else (let rebound = rebind_all (keys_with_prefix [] db) db in
          record rebound {
            database = insert aad_migration_marker_key (codes "1") rebound.database;
          })

  -- `Db::create` in an empty database. `salt` is the fresh salt.
  unfoldable pub create : Bytes → Bytes → Action (Unit {0})
  create salt passphrase = do
    master_key ← lift (derive_key passphrase salt)
    modify (λ db. record db { database = insert salt_key salt db.database })
    modify (write_encrypted v master_key kdf_check_key kdf_check_plaintext)
    identity_key ← state (new_dek master_key identity_dek_key)
    contacts_key ← state (new_dek master_key contacts_dek_key)
    content_key ← state (new_dek master_key content_dek_key)
    modify (λ db. record db {
      master_key = master_key;
      identity_key = identity_key;
      contacts_key = contacts_key;
      content_key = content_key;
      message_sequence = 0;
    })

  abbrev pub checked_against : Option Bytes → StoreResult (Unit {0})
  checked_against none = err (malformed_record "missing KDF check value")
  checked_against (some checked) =
      if checked == kdf_check_plaintext then ok tt else err wrong_passphrase_or_corrupted

  -- Is this the passphrase that the database was created with?
  unfoldable pub check_passphrase : Bytes → Action (Unit {0})
  check_passphrase master_key db =
      let (r, after) = read_encrypted v master_key kdf_check_key db in
      (
        elim r [
          | ok checked ↦ checked_against checked
          | err e ↦
              err (elim e [ decryption_failed ↦ wrong_passphrase_or_corrupted | other ↦ other ])
        ],
        after,
      )

  -- `Db::open`. `recover_message_sequence` is the scan of store/src/messages.rs.
  unfoldable pub open_db : Action ℕ → Bytes → Action (Unit {0})
  open_db recover_message_sequence passphrase = do
    stored_salt ← gets (λ db. lookup salt_key db.database)
    salt ←
        lift (ok_or stored_salt (malformed_record "missing salt — not a dratchet-store database"))
    fail_if (not (v.is_utf8 salt)) (malformed_record "salt is not valid UTF-8")
    master_key ← lift (derive_key passphrase salt)
    check_passphrase master_key
    identity_key ← unwrap_dek master_key identity_dek_key
    contacts_key ← unwrap_dek master_key contacts_dek_key
    content_key ← unwrap_dek master_key content_dek_key
    modify (λ db. record db {
      master_key = master_key;
      identity_key = identity_key;
      contacts_key = contacts_key;
      content_key = content_key;
      message_sequence = 0;
    })
    modify rebind_legacy_records
    recovered ← recover_message_sequence
    modify (λ db. record db { message_sequence = recovered })

  -- Crypto-shred the content: its key is replaced, and then its records are deleted.
  unfoldable pub quick_wipe : Db → ℕ × Db
  quick_wipe db =
      let (fresh, wrapped) = new_dek db.master_key content_dek_key db in
      let shredded : Db = record wrapped { content_key = fresh } in
      let found =
        keys_with_prefix (codes "message:") shredded
        ++ keys_with_prefix (codes "ratchet:") shredded in
      (length found, delete_many found shredded)

  unfoldable pub full_wipe : Db → Db
  full_wipe db =
      let keyless =
        delete_many
          (salt_key ∷ kdf_check_key ∷ identity_dek_key ∷ contacts_dek_key ∷ content_dek_key ∷ [])
          db in
      delete_many (keys_with_prefix [] keyless) keyless
