-- ===== src/Store/Db/Wipe.antt =====
-- What a wipe leaves in the database.
use dratchet.Base.{
  ◌+◌, ◌<◌, ◌≡◌, refl, ◌∙◌, Bool, false, ◌||◌, none, [], ◌∷◌, ◌++◌, Bytes, bytes_eq, codes, ok,
  arith, lookup, insert, lookup-insert, lookup-insert_self, filter, if◌then◌else◌, elem-append,
  ◌==◌,
}
use dratchet.Store.Db.{
  Platform, Db, Table, keys, starts_with, keys_with_prefix, remove_all, delete_many,
  write_encrypted, nonce_len, dek_len, content_dek_key, salt_key, kdf_check_key, identity_dek_key,
  contacts_dek_key, encrypt,
}
use dratchet.Store.Db.Lifecycle.{quick_wipe, full_wipe, unwrap_dek}
use dratchet.Store.Db.Laws.{IsSound, unwrap_dek_stored, decrypt-encrypt}
use dratchet.Store.Db.Keys.{lookup-remove_all, lookup-remove_listed}

-- The names of messages and of sessions.
abbrev pub is_content_key : Bytes → Bool
is_content_key key = starts_with (codes "message:") key || starts_with (codes "ratchet:") key

-- Of two listings of one table, a name is deleted if either asked for it.
lookup-remove_two :
    (j : Bytes) (test other : Bytes → Bool) (table : Table)
    → lookup j (remove_all (filter test (keys table) ++ filter other (keys table)) table)
      ≡ (if test j || other j then none else lookup j table)
lookup-remove_two j test other table =
    let first = lookup-remove_listed j test table in
    let second = lookup-remove_listed j other table in
    let f = lookup-remove_all j (filter test (keys table)) table in
    let s = lookup-remove_all j (filter other (keys table)) table in
    let both = elem-append j (filter test (keys table)) (filter other (keys table)) in
    let out = lookup-remove_all j (filter test (keys table) ++ filter other (keys table)) table in
    ground (arith, first, second, f, s, both, out)

-- A quick wipe leaves no message and no session, and every other record as it was but for the wrapped
-- content key.
lookup-quick_wipe :
    (v : Platform) (j : Bytes) (db : Db)
    → (content_dek_key == j) ≡ false
    → lookup j (quick_wipe v db).1.database
      ≡ (if is_content_key j then none else lookup j db.database)
unfolding quick_wipe keys_with_prefix delete_many write_encrypted
lookup-quick_wipe v j db other =
    let dek = v.random db.draws dek_len in
    let stored = encrypt v (v.random (db.draws + 1) nonce_len) db.master_key content_dek_key dek in
    let apart = lookup-insert j content_dek_key stored db.database in
    let two =
      lookup-remove_two j (starts_with (codes "message:")) (starts_with (codes "ratchet:"))
        (insert content_dek_key stored db.database) in
    rw (two, apart, other) refl

-- After a quick wipe the content key that is stored is the fresh one that the session goes on with.
unwrap_dek-quick_wipe :
    (v : Platform) (sound : IsSound v) (db : Db)
    → unwrap_dek v db.master_key content_dek_key (quick_wipe v db).1
      ≡ (ok (quick_wipe v db).1.content_key, (quick_wipe v db).1)
unfolding quick_wipe keys_with_prefix delete_many write_encrypted starts_with
unwrap_dek-quick_wipe v sound db =
    let dek = v.random db.draws dek_len in
    let nonce = v.random (db.draws + 1) nonce_len in
    let stored = encrypt v nonce db.master_key content_dek_key dek in
    let kept =
      lookup-remove_two content_dek_key (starts_with (codes "message:"))
        (starts_with (codes "ratchet:")) (insert content_dek_key stored db.database) in
    let found = lookup-insert_self content_dek_key stored db.database in
    let opened =
      decrypt-encrypt v sound nonce db.master_key content_dek_key dek
        (sound.draws_length (db.draws + 1) nonce_len) in
    unwrap_dek_stored v db.master_key content_dek_key stored dek (quick_wipe v db).1 (kept ∙ found)
      opened (sound.draws_length db.draws dek_len)

-- After a full wipe nothing is left in the database, under any name.
pub lookup-full_wipe :
    (v : Platform) (j : Bytes) (db : Db) → lookup j (full_wipe v db).database ≡ none
unfolding full_wipe keys_with_prefix delete_many starts_with
lookup-full_wipe v j db = lookup-remove_listed j (starts_with []) (
    remove_all
      (salt_key ∷ kdf_check_key ∷ identity_dek_key ∷ contacts_dek_key ∷ content_dek_key ∷ [])
      db.database)

-- On a sound platform a quick wipe leaves no message and no session, and every other record as it was
-- but for the wrapped content key; and the content key that is stored and that the session goes on
-- with is a draw of the random source that was not made before.
pub quick_wipe_lem :
    (v : Platform) (j : Bytes) (db : Db)
    → IsSound v
    → (content_dek_key == j) ≡ false
    → (lookup j (quick_wipe v db).1.database
        ≡ (if is_content_key j then none else lookup j db.database))
      × (unwrap_dek v db.master_key content_dek_key (quick_wipe v db).1
          ≡ (ok (quick_wipe v db).1.content_key, (quick_wipe v db).1))
      × ((quick_wipe v db).1.content_key ≡ v.random db.draws dek_len)
      × (db.draws < (quick_wipe v db).1.draws)
unfolding quick_wipe keys_with_prefix delete_many write_encrypted
quick_wipe_lem v j db sound other =
    (lookup-quick_wipe v j db other, unwrap_dek-quick_wipe v sound db, refl, omega arith)
