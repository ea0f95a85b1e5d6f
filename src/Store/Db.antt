-- ===== src/Store/Db.antt =====
-- store/src/db.rs: the encrypted records. The database engine redb is the table itself; a transaction is
-- one step, and its failure is not modelled.
-- Each function that draws from the random source gives the state with one draw more.
pub mod Lifecycle
pub mod Laws
pub mod Keys
pub mod Wipe
pub mod Reopen
use Prim.Native.String.{String}
use dratchet.Base.{
  ℕ, ◌+◌, ◌-◌, ◌/◌, ◌%◌, Bool, true, false, not, ◌||◌, Option, none, some, List, [], ◌∷◌, ◌++◌,
  Bytes, bytes_eq, codes, ltb, eqb, if◌then◌else◌, Map, lookup, insert, remove, length, take, drop,
  map, filter, any, Result, ok, err, ok_or, result_map, is_some, ◌==◌,
}
use dratchet.Base.Names.{bytes_le, sort_keys}
use dratchet.Base.Actions.{Method, ◌>>=◌, ◌>>◌, pure, lift, gets, state, modify, fail_if}
use dratchet.Core.Ratchet.Keys.{Primitives}
use dratchet.Store.Errors.{
  Error, StoreResult, malformed_record, decryption_failed, wrong_passphrase_or_corrupted,
  passphrase_hash,
}

-- The crates chacha20poly1305 and argon2, the test of UTF-8, and the random source: its n-th draw, of
-- some length.
pub record Platform : Type 0 where
  pub primitives : Primitives
  pub argon2 : Bytes → Bytes → Option Bytes
  pub is_utf8 : Bytes → Bool
  pub random : ℕ → ℕ → Bytes

abbrev pub nonce_len : ℕ
nonce_len = 12

abbrev pub dek_len : ℕ
dek_len = 32

abbrev pub salt_key : Bytes
salt_key = codes "__salt__"

abbrev pub kdf_check_key : Bytes
kdf_check_key = codes "__kdf_check__"

abbrev pub kdf_check_plaintext : Bytes
kdf_check_plaintext = codes "dratchet-store-v1"

abbrev pub identity_dek_key : Bytes
identity_dek_key = codes "__identity_dek__"

abbrev pub contacts_dek_key : Bytes
contacts_dek_key = codes "__contacts_dek__"

abbrev pub content_dek_key : Bytes
content_dek_key = codes "__content_dek__"

abbrev pub aad_migration_marker_key : Bytes
aad_migration_marker_key = codes "__aad_bound_v1__"

pub data Scope : Type 0 where
  identity contacts content : Scope

abbrev pub Table : Type 0
Table = Map Bytes Bytes

-- `Db`; its locks for `receive_pending` are not modelled. `draws` counts the random draws.
pub record Db : Type 0 where
  pub database : Table
  pub master_key : Bytes
  pub identity_key : Bytes
  pub contacts_key : Bytes
  pub content_key : Bytes
  pub message_sequence : ℕ
  pub draws : ℕ

abbrev pub Action : Type 0 → Type 0
Action A = Method Error Db A

abbrev pub scope_key : Scope → Db → Bytes
scope_key identity db = db.identity_key
scope_key contacts db = db.contacts_key
scope_key content db = db.content_key

-- `expect`: a call that the crate documents not to fail
abbrev pub expect : Option Bytes → Bytes
expect none = []
expect (some bytes) = bytes

-- `starts_with`
unfoldable pub starts_with : Bytes → Bytes → Bool
starts_with [] bytes = true
starts_with (p ∷ prefix) [] = false
starts_with (p ∷ prefix) (b ∷ bytes) = if eqb p b then starts_with prefix bytes else false

-- `table.range(..)`: the keys in the order of their bytes
abbrev pub keys : Table → List Bytes
keys table = sort_keys (map (λ entry. entry.0) table)

unfoldable pub keys_with_prefix : Bytes → Db → List Bytes
keys_with_prefix prefix db = filter (starts_with prefix) (keys db.database)

unfoldable pub remove_all : List Bytes → Table → Table
remove_all [] table = table
remove_all (key ∷ others) table = remove_all others (remove key table)

unfoldable pub delete : Bytes → Db → Db
delete key db = record db { database = remove key db.database }

unfoldable pub delete_many : List Bytes → Db → Db
delete_many removed db = record db { database = remove_all removed db.database }

module _ (v : Platform) where
  -- `encrypt`, with the nonce that it draws
  unfoldable pub encrypt : Bytes → Bytes → Bytes → Bytes → Bytes
  encrypt nonce key aad plaintext = nonce ++ expect (v.primitives.seal key nonce aad plaintext)

  unfoldable pub decrypt : Bytes → Bytes → Bytes → StoreResult Bytes
  decrypt key aad stored =
      if ltb (length stored) nonce_len
      then err (malformed_record "stored value shorter than a nonce")
      else ok_or (v.primitives.unseal key (take nonce_len stored) aad (drop nonce_len stored))
          decryption_failed

  -- The record, and whether it is one of those that were not yet bound to their key.
  unfoldable pub decrypt_record : Bytes → Bytes → Bytes → StoreResult (Bytes × Bool)
  decrypt_record key record_key stored = elim (decrypt key record_key stored) [
    | ok plaintext ↦ ok (plaintext, false)
    | err _ ↦ result_map (λ plaintext. (plaintext, true)) (decrypt key [] stored)
  ]

  -- Encrypt under a key of the caller's and insert.
  unfoldable pub write_encrypted : Bytes → Bytes → Bytes → Db → Db
  write_encrypted dek key plaintext db = record db {
    database = insert key (encrypt (v.random db.draws nonce_len) dek key plaintext) db.database;
    draws = db.draws + 1;
  }

  unfoldable pub put_encrypted : Scope → Bytes → Bytes → Db → Db
  put_encrypted scope key plaintext db = write_encrypted (scope_key scope db) key plaintext db

  -- Decrypt under a key of the caller's; a record that is not bound to its key yet is written back.
  unfoldable pub read_encrypted : Bytes → Bytes → Action (Option Bytes)
  read_encrypted dek key = do
    raw ← gets (λ db. lookup key db.database)
    elim raw [
      | none ↦ pure none
      | some stored ↦ (do
        (plaintext, was_legacy) ← lift (decrypt_record dek key stored)
        modify (λ db. if was_legacy then write_encrypted dek key plaintext db else db)
        pure (some plaintext))
    ]

  unfoldable pub get_encrypted : Scope → Bytes → Action (Option Bytes)
  get_encrypted scope key db = read_encrypted (scope_key scope db) key db
