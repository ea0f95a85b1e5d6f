-- ===== src/Store/Db/Laws.antt =====
-- What the encrypted records are as a map: a value that was put is read back, and others are kept.
use dratchet.Base.{
  ℕ, ◌≡◌, refl, Bool, true, false, none, some, [], ◌++◌, Bytes, bytes_eq, ok, err, arith, lookup,
  lookup-insert, lookup-insert_self, length, drop, take_exact, drop_past, ltb, if◌then◌else◌, ◌==◌,
  ◌∙◌, Option-cases, Result-cases, inl, inr, length-append,
}
use dratchet.Store.Errors.{Error, decryption_failed}
use dratchet.Store.Db.Lifecycle.{unwrap_dek}
use dratchet.Store.Db.{
  dek_len, Platform, Db, Scope, identity, contacts, content, scope_key, nonce_len, expect, encrypt,
  decrypt, decrypt_record, write_encrypted, put_encrypted, read_encrypted, get_encrypted,
}

-- The documented behaviour of the AEAD and of the random source: what is sealed under a nonce of 12
-- bytes opens again under the same key and data, and a draw has the length that was asked for.
pub record IsSound (v : Platform) : Type 0 where
  pub seals :
      (key nonce aad m : Bytes)
      → (c : Bytes) × (v.primitives.seal key nonce aad m ≡ some c)
        × (v.primitives.unseal key nonce aad c ≡ some m)
  pub draws_length : (n len : ℕ) → length (v.random n len) ≡ len

module _ (v : Platform) where
  -- A record that is bound to its key is read as it stands.
  pub read-bound :
      (dek key stored m : Bytes) (db : Db)
      → lookup key db.database ≡ some stored
      → decrypt v dek key stored ≡ ok m
      → read_encrypted v dek key db ≡ (ok (some m), db)
  unfolding read_encrypted decrypt_record
  read-bound dek key stored m db found opened = ground (arith, found, opened)

  pub read-absent :
      (dek key : Bytes) (db : Db)
      → lookup key db.database ≡ none
      → read_encrypted v dek key db ≡ (ok none, db)
  unfolding read_encrypted
  read-absent dek key db absent = ground (arith, absent)

  read_failed :
      (dek key stored : Bytes) (e : Error) (db : Db)
      → lookup key db.database ≡ some stored
      → decrypt_record v dek key stored ≡ err e
      → read_encrypted v dek key db ≡ (err e, db)
  unfolding read_encrypted
  read_failed dek key stored e db found failed = ground (arith, found, failed)

  read_opened :
      (dek key stored m : Bytes) (was_legacy : Bool) (db : Db)
      → lookup key db.database ≡ some stored
      → decrypt_record v dek key stored ≡ ok (m, was_legacy)
      → read_encrypted v dek key db
        ≡ (ok (some m), (if was_legacy then write_encrypted v dek key m db else db))
  unfolding read_encrypted
  read_opened dek key stored m was_legacy db found opened = ground (arith, found, opened)

  -- A wrapped key of the right length is unwrapped.
  pub unwrap_dek_stored :
      (master_key key stored dek : Bytes) (db : Db)
      → lookup key db.database ≡ some stored
      → decrypt v master_key key stored ≡ ok dek
      → length dek ≡ dek_len
      → unwrap_dek v master_key key db ≡ (ok dek, db)
  unfolding unwrap_dek
  unwrap_dek_stored master_key key stored dek db found opened width =
      ground (arith, read-bound master_key key stored dek db found opened, width)

  -- A read leaves the records of other names as they are.
  pub lookup-read_other :
      (dek key j : Bytes) (db : Db)
      → (key == j) ≡ false
      → lookup j (read_encrypted v dek key db).1.database ≡ lookup j db.database
  unfolding write_encrypted
  lookup-read_other dek key j db other = elim (Option-cases (lookup key db.database)) [
    | inl absent ↦ rw (read-absent dek key db absent) refl
    | inr (stored, found) ↦ elim (Result-cases (decrypt_record v dek key stored)) [
      | inr (e, failed) ↦ rw (read_failed dek key stored e db found failed) refl
      | inl ((m, false), opened) ↦ rw (read_opened dek key stored m false db found opened) refl
      | inl ((m, true), opened) ↦ rw (read_opened dek key stored m true db found opened) (
          lookup-insert j key (encrypt v (v.random db.draws nonce_len) dek key m) db.database
          ∙ rw other refl)
    ]
  ]

  -- Nothing is read only where there is nothing.
  pub read-none :
      (dek key : Bytes) (db : Db)
      → (read_encrypted v dek key db).0 ≡ ok none
      → lookup key db.database ≡ none
  read-none dek key db h = elim (Option-cases (lookup key db.database)) [
    | inl absent ↦ absent
    | inr (stored, found) ↦ elim (Result-cases (decrypt_record v dek key stored)) [
      | inr (e, failed) ↦
          absurd (ground (arith, rw (read_failed dek key stored e db found failed) at h))
      | inl ((m, was_legacy), opened) ↦
          absurd (ground (arith, rw (read_opened dek key stored m was_legacy db found opened) at h))
    ]
  ]

  pub lookup-put :
      (scope : Scope) (j key m : Bytes) (db : Db)
      → lookup j (put_encrypted v scope key m db).database ≡ (
          if bytes_eq.beq key j
          then some (encrypt v (v.random db.draws nonce_len) (scope_key scope db) key m)
          else lookup j db.database)
  unfolding put_encrypted write_encrypted
  lookup-put scope j key m db =
      lookup-insert j key (encrypt v (v.random db.draws nonce_len) (scope_key scope db) key m)
        db.database

  -- Under a key that does not open what was sealed with this nonce, a record is not decrypted.
  decrypt_locked :
      (other key nonce aad sealed_aad m : Bytes)
      → length nonce ≡ nonce_len
      → v.primitives.unseal other nonce aad (expect (v.primitives.seal key nonce sealed_aad m))
        ≡ none
      → decrypt v other aad (encrypt v nonce key sealed_aad m) ≡ err decryption_failed
  unfolding decrypt encrypt
  decrypt_locked other key nonce aad sealed_aad m width locked =
      let c = expect (v.primitives.seal key nonce sealed_aad m) in
      let front = take_exact nonce_len nonce c width in
      let long : ltb (length (nonce ++ c)) nonce_len ≡ false =
        ground (arith, length-append nonce c, width) in
      let back : drop nonce_len (nonce ++ c) ≡ c = drop_past nonce_len 0 nonce c width in
      rw (long, front, back, locked) refl

  pub read_locked :
      (other master_key key nonce m : Bytes) (db : Db)
      → length nonce ≡ nonce_len
      → ((aad : Bytes)
          → v.primitives.unseal other nonce aad (expect (v.primitives.seal master_key nonce key m))
            ≡ none)
      → lookup key db.database ≡ some (encrypt v nonce master_key key m)
      → read_encrypted v other key db ≡ (err decryption_failed, db)
  unfolding decrypt_record
  read_locked other master_key key nonce m db width locked found =
      let bound = decrypt_locked other master_key nonce key key m width (locked key) in
      let legacy = decrypt_locked other master_key nonce [] key m width (locked []) in
      read_failed other key (encrypt v nonce master_key key m) decryption_failed db found
        (ground (arith, bound, legacy))

module _ (v : Platform) (sound : IsSound v) where
  pub decrypt-encrypt :
      (nonce key aad m : Bytes)
      → length nonce ≡ nonce_len
      → decrypt v key aad (encrypt v nonce key aad m) ≡ ok m
  unfolding decrypt encrypt
  decrypt-encrypt nonce key aad m width =
      let (c, sealed, opened) = sound.seals key nonce aad m in
      let front = take_exact nonce_len nonce c width in
      let long : ltb (length (nonce ++ c)) nonce_len ≡ false =
        ground (arith, length-append nonce c, width) in
      let back : drop nonce_len (nonce ++ c) ≡ c = drop_past nonce_len 0 nonce c width in
      rw (sealed, long, front, back, opened) refl

  -- What was written under a key is read back under it, and the read changes nothing.
  pub read-write :
      (dek key m : Bytes) (db : Db)
      → read_encrypted v dek key (write_encrypted v dek key m db)
        ≡ (ok (some m), write_encrypted v dek key m db)
  unfolding write_encrypted
  read-write dek key m db =
      let nonce = v.random db.draws nonce_len in
      let stored = encrypt v nonce dek key m in
      read-bound v dek key stored m (write_encrypted v dek key m db)
        (lookup-insert_self key stored db.database)
        (decrypt-encrypt nonce dek key m (sound.draws_length db.draws nonce_len))

  -- A value that was put is read back, in every scope, and the read changes nothing.
  pub get-put :
      (scope : Scope) (key m : Bytes) (db : Db)
      → get_encrypted v scope key (put_encrypted v scope key m db)
        ≡ (ok (some m), put_encrypted v scope key m db)
  unfolding get_encrypted put_encrypted write_encrypted
  get-put identity key m db = read-write db.identity_key key m db
  get-put contacts key m db = read-write db.contacts_key key m db
  get-put content key m db = read-write db.content_key key m db
