-- ===== src/Store/Db/Reopen.antt =====
-- A database that was created opens again, with the same keys.
use dratchet.Base.{
  ℕ, filter, zero, suc, ◌+◌, ◌≡◌, refl, ◌∙◌, true, none, some, [], ◌∷◌, Bytes, bytes_eq, codes, ok,
  err, arith, lookup, insert, bytes_beq,
}
use dratchet.Base.Names.{bytes_le, insert_key, sort_keys}
use dratchet.Base.Actions.{◌>>=◌, modify}
use dratchet.Store.Errors.{Error, decryption_failed, wrong_passphrase_or_corrupted}
use dratchet.Store.Db.{
  Platform, Db, Table, Action, starts_with, keys_with_prefix, write_encrypted, encrypt, expect,
  nonce_len, dek_len, read_encrypted, content_dek_key, salt_key, kdf_check_key, identity_dek_key,
  contacts_dek_key, kdf_check_plaintext, aad_migration_marker_key,
}
use dratchet.Store.Db.Lifecycle.{
  create, open_db, derive_key, check_passphrase, unwrap_dek, rebind_legacy_records, rebind_all,
  rebind_key,
}
use dratchet.Base.Codecs.{Codec}
use dratchet.Store.Records.{Message}
use dratchet.Store.Messages.{recover_message_sequence, highest_sequence}
use dratchet.Store.Db.Laws.{IsSound, read_locked, read-bound, unwrap_dek_stored, decrypt-encrypt}

-- A database file that was just made, before the `n`-th draw
abbrev pub empty_db : ℕ → Db
empty_db n = record {
  database = [];
  master_key = [];
  identity_key = [];
  contacts_key = [];
  content_key = [];
  message_sequence = 0;
  draws = n;
}

-- `k` draws on
abbrev draw : ℕ → ℕ → ℕ
draw zero n = n
draw (suc k) n = draw k n + 1

-- What `create` leaves, made with the draws from `n` on.
module _ (v : Platform) (salt master_key : Bytes) (n : ℕ) where
  abbrev wrapped : ℕ → Bytes → Bytes
  wrapped k key =
      encrypt v (v.random (draw (k + 1) n) nonce_len) master_key key (v.random (draw k n) dek_len)

  abbrev checked : Bytes
  checked = encrypt v (v.random n nonce_len) master_key kdf_check_key kdf_check_plaintext

  abbrev new_table : Table
  new_table =
      (salt_key, salt)
      ∷ (kdf_check_key, checked)
      ∷ (identity_dek_key, wrapped 1 identity_dek_key)
      ∷ (contacts_dek_key, wrapped 3 contacts_dek_key)
      ∷ (content_dek_key, wrapped 5 content_dek_key)
      ∷ []

  abbrev created : Db
  created = record {
    database = new_table;
    master_key = master_key;
    identity_key = v.random (draw 1 n) dek_len;
    contacts_key = v.random (draw 3 n) dek_len;
    content_key = v.random (draw 5 n) dek_len;
    message_sequence = 0;
    draws = draw 7 n;
  }

create_table :
    (v : Platform) (salt passphrase master_key : Bytes) (n : ℕ)
    → v.argon2 passphrase salt ≡ some master_key
    → create v salt passphrase (empty_db n) ≡ (ok tt, created v salt master_key n)
unfolding create derive_key write_encrypted insert bytes_beq
create_table v salt passphrase master_key n derived = rw derived refl

-- The file of a database, before a session holds its keys
abbrev pub closed : Db → Db
closed db = record (empty_db db.draws) { database = db.database }

module _ (v : Platform) (sound : IsSound v) (salt master_key : Bytes) (n : ℕ) where
  unwrap_wrapped :
      (k : ℕ) (key : Bytes) (db : Db)
      → lookup key db.database ≡ some (wrapped v salt master_key n k key)
      → unwrap_dek v master_key key db ≡ (ok (v.random (draw k n) dek_len), db)
  unwrap_wrapped k key db found =
      unwrap_dek_stored v master_key key (wrapped v salt master_key n k key)
        (v.random (draw k n) dek_len) db found
        (decrypt-encrypt v sound (v.random (draw (k + 1) n) nonce_len) master_key key
          (v.random (draw k n) dek_len) (sound.draws_length (draw (k + 1) n) nonce_len))
        (sound.draws_length (draw k n) dek_len)

  check_created :
      (db : Db)
      → lookup kdf_check_key db.database ≡ some (checked v salt master_key n)
      → check_passphrase v master_key db ≡ (ok tt, db)
  unfolding check_passphrase bytes_beq
  check_created db found =
      let opened =
        decrypt-encrypt v sound (v.random n nonce_len) master_key kdf_check_key kdf_check_plaintext
          (sound.draws_length n nonce_len) in
      rw
        (read-bound v master_key kdf_check_key (checked v salt master_key n) kdf_check_plaintext db
          found opened)
        refl

rebind_created :
    (v : Platform) (salt master_key : Bytes) (n : ℕ)
    → rebind_legacy_records v (created v salt master_key n) ≡ record (created v salt master_key n) {
      database = insert aad_migration_marker_key (codes "1") (new_table v salt master_key n);
    }
unfolding rebind_legacy_records rebind_all rebind_key keys_with_prefix sort_keys insert_key bytes_le
    filter starts_with lookup insert bytes_beq
rebind_created v salt master_key n = refl

-- Opening, where each of its steps goes through.
open_db_steps :
    (v : Platform) (recover : Action ℕ) (passphrase salt master_key one two three : Bytes)
    (file : Db)
    → lookup salt_key file.database ≡ some salt
    → v.is_utf8 salt ≡ true
    → derive_key v passphrase salt ≡ ok master_key
    → check_passphrase v master_key file ≡ (ok tt, file)
    → unwrap_dek v master_key identity_dek_key file ≡ (ok one, file)
    → unwrap_dek v master_key contacts_dek_key file ≡ (ok two, file)
    → unwrap_dek v master_key content_dek_key file ≡ (ok three, file)
    → open_db v recover passphrase file
      ≡ (recover >>= λ next. modify (λ db. record db { message_sequence = next })) (
          rebind_legacy_records v (record file {
            master_key = master_key;
            identity_key = one;
            contacts_key = two;
            content_key = three;
            message_sequence = 0;
          }))
unfolding open_db
open_db_steps v recover passphrase salt master_key one two three file h0 h1 h2 h3 h4 h5 h6 =
    ground (arith, h0, h1, h2, h3, h4, h5, h6)

derives :
    (v : Platform) (passphrase salt master_key : Bytes)
    → v.argon2 passphrase salt ≡ some master_key
    → derive_key v passphrase salt ≡ ok master_key
unfolding derive_key
derives v passphrase salt master_key derived = rw derived refl

-- There is no message yet to recover the sequence from.
recover_created :
    (v : Platform) (codec : Codec Message) (salt master_key : Bytes) (n : ℕ)
    → (recover_message_sequence v codec >>= λ next.
          modify (λ db. record db { message_sequence = next }))
        (record (created v salt master_key n) {
          database = insert aad_migration_marker_key (codes "1") (new_table v salt master_key n);
        })
      ≡ (
        ok tt,
        record (created v salt master_key n) {
          database = insert aad_migration_marker_key (codes "1") (new_table v salt master_key n);
        },
      )
unfolding recover_message_sequence highest_sequence keys_with_prefix sort_keys insert_key bytes_le
    filter starts_with insert bytes_beq
recover_created v codec salt master_key n = refl

-- A database that was created with a passphrase opens with the same passphrase, and the session has
-- the keys that it was created with and counts the messages from 0; on a platform whose AEAD opens
-- what it sealed, where Argon2 derives a key from the passphrase and the salt is UTF-8.
pub open_db-create :
    (v : Platform) (codec : Codec Message) (salt passphrase master_key : Bytes) (n : ℕ)
    → IsSound v
    → v.argon2 passphrase salt ≡ some master_key
    → v.is_utf8 salt ≡ true
    → ((create v salt passphrase (empty_db n)).0 ≡ ok tt)
      × (open_db v
            (recover_message_sequence v codec)
            passphrase
            (closed (create v salt passphrase (empty_db n)).1)
          ≡ (
            ok tt,
            record (create v salt passphrase (empty_db n)).1 {
              database =
                  insert aad_migration_marker_key
                    (codes "1")
                    (create v salt passphrase (empty_db n)).1.database;
            },
          ))
unfolding lookup bytes_beq insert
open_db-create v codec salt passphrase master_key n sound derived utf8 =
    let made = create_table v salt passphrase master_key n derived in
    let file = closed (created v salt master_key n) in
    let check = check_created v sound salt master_key n file refl in
    let one = unwrap_wrapped v sound salt master_key n 1 identity_dek_key file refl in
    let two = unwrap_wrapped v sound salt master_key n 3 contacts_dek_key file refl in
    let three = unwrap_wrapped v sound salt master_key n 5 content_dek_key file refl in
    let steps =
      open_db_steps v (recover_message_sequence v codec) passphrase salt master_key
        (v.random (draw 1 n) dek_len) (v.random (draw 3 n) dek_len) (v.random (draw 5 n) dek_len)
        file refl utf8 (derives v passphrase salt master_key derived) check one two three in
    rw made (
      refl,
      steps ∙ rw (rebind_created v salt master_key n) (recover_created v codec salt master_key n),
    )

check_failed :
    (v : Platform) (other : Bytes) (db : Db)
    → (read_encrypted v other kdf_check_key db) ≡ (err decryption_failed, db)
    → check_passphrase v other db ≡ (err wrong_passphrase_or_corrupted, db)
unfolding check_passphrase
check_failed v other db h = rw h refl

open_db_unchecked :
    (v : Platform) (recover : Action ℕ) (passphrase salt master_key : Bytes) (e : Error) (file : Db)
    → lookup salt_key file.database ≡ some salt
    → v.is_utf8 salt ≡ true
    → derive_key v passphrase salt ≡ ok master_key
    → check_passphrase v master_key file ≡ (err e, file)
    → open_db v recover passphrase file ≡ (err e, file)
unfolding open_db
open_db_unchecked v recover passphrase salt master_key e file h0 h1 h2 h3 =
    ground (arith, h0, h1, h2, h3)

-- With a passphrase whose derived key does not open the sealed check value, a database that was
-- created does not open: the error says so, and the file is as it was. The platform is sound, Argon2
-- derives a key from both passphrases, and the salt is UTF-8.
pub open_db_wrong_passphrase :
    (v : Platform) (codec : Codec Message) (salt passphrase wrong master_key other : Bytes) (n : ℕ)
    → IsSound v
    → v.argon2 passphrase salt ≡ some master_key
    → v.argon2 wrong salt ≡ some other
    → v.is_utf8 salt ≡ true
    → ((aad : Bytes)
        → v.primitives.unseal other (v.random n nonce_len) aad (
            expect (
              v.primitives.seal master_key
                (v.random n nonce_len)
                kdf_check_key
                kdf_check_plaintext))
          ≡ none)
    → open_db v
        (recover_message_sequence v codec)
        wrong
        (closed (create v salt passphrase (empty_db n)).1)
      ≡ (err wrong_passphrase_or_corrupted, closed (create v salt passphrase (empty_db n)).1)
unfolding lookup bytes_beq
open_db_wrong_passphrase v codec salt passphrase wrong master_key other n sound derived
      derived_other utf8 locked =
    let made = create_table v salt passphrase master_key n derived in
    let file = closed (created v salt master_key n) in
    let failed = check_failed v other file (
      read_locked v other master_key kdf_check_key (v.random n nonce_len) kdf_check_plaintext file
        (sound.draws_length n nonce_len) locked refl) in
    rw made (
      open_db_unchecked v (recover_message_sequence v codec) wrong salt other
        wrong_passphrase_or_corrupted file refl utf8 (derives v wrong salt other derived_other)
        failed)
