-- ===== src/Store/Peers/Wipe.antt =====
-- What wiping a conversation deletes, and that it leaves the other conversations alone.
use dratchet.Base.{
  ℕ, ◌≡◌, refl, sym, ap, ◌∙◌, Bool, true, false, ◌&&◌, ◌||◌, Option, none, some, List, [], ◌∷◌,
  ◌++◌, Bytes, bytes_eq, codes, ok, err, arith, lookup, length, filter, all, if◌then◌else◌,
  Bool-cases, inl, inr, elem, elem-append, ◌==◌,
}
use dratchet.Base.Names.{hex}
use dratchet.Core.Words.{is_byte}
use mathlib.Core.List.{append_assoc}
use dratchet.Store.Errors.{Error, StoreResult}
use dratchet.Store.Db.Laws.{lookup-read_other, read-none, read-absent}
use dratchet.Store.Db.{
  Table, Platform, Db, keys, starts_with, keys_with_prefix, remove_all, delete_many, read_encrypted,
  get_encrypted,
}
use dratchet.Store.Db.Keys.{hex-prefix, starts_with-split, lookup-remove_all, lookup-remove_listed}
use dratchet.Store.Messages.{message_key, message_key_prefix}
use dratchet.Store.Peers.{ratchet_key, session_keys, wipe_conversation}

-- Does wiping this conversation delete the record of this name?
abbrev pub is_wiped : Bytes → Bool → Bytes → Bool
is_wiped conversation_id include_session j =
    starts_with (message_key_prefix conversation_id) j
    || (include_session && (ratchet_key conversation_id == j))

-- Deleting the listed names and some more, from a table that agrees with the one that was listed.
lookup-remove_more :
    (j : Bytes) (test : Bytes → Bool) (more : List Bytes) (table after : Table)
    → lookup j after ≡ lookup j table
    → lookup j (remove_all (filter test (keys table) ++ more) after)
      ≡ (if test j || elem j more then none else lookup j table)
lookup-remove_more j test more table after kept = ground (
  arith,
  kept,
  elem-append j (filter test (keys table)) more,
  lookup-remove_listed j test table,
  lookup-remove_all j (filter test (keys table)) table,
  lookup-remove_all j (filter test (keys table) ++ more) after,
)

module _ (v : Platform) (id : Bytes) (db : Db) where
  abbrev listed : List Bytes
  listed = keys_with_prefix (message_key_prefix id) db

  wipe_conversation_alone :
      wipe_conversation v id false db ≡ (ok (length (listed ++ [])), delete_many (listed ++ []) db)
  unfolding wipe_conversation session_keys
  wipe_conversation_alone = refl

  wipe_conversation_absent :
      (mid : Db)
      → read_encrypted v db.content_key (ratchet_key id) db ≡ (ok none, mid)
      → wipe_conversation v id true db
        ≡ (ok (length (listed ++ [])), delete_many (listed ++ []) mid)
  unfolding wipe_conversation session_keys get_encrypted
  wipe_conversation_absent mid read = ground (arith, read)

  wipe_conversation_present :
      (bytes : Bytes) (mid : Db)
      → read_encrypted v db.content_key (ratchet_key id) db ≡ (ok (some bytes), mid)
      → wipe_conversation v id true db ≡ (
        ok (length (listed ++ ratchet_key id ∷ [])),
        delete_many (listed ++ ratchet_key id ∷ []) mid,
      )
  unfolding wipe_conversation session_keys get_encrypted
  wipe_conversation_present bytes mid read = ground (arith, read)

  wipe_conversation_failed :
      (e : Error) (mid : Db)
      → read_encrypted v db.content_key (ratchet_key id) db ≡ (err e, mid)
      → wipe_conversation v id true db ≡ (err e, mid)
  unfolding wipe_conversation session_keys get_encrypted
  wipe_conversation_failed e mid read = ground (arith, read)

-- The names of the messages of one conversation never have the prefix of another.
pub message_key_apart :
    (a b id : Bytes)
    → all is_byte a ≡ true
    → all is_byte b ≡ true
    → length a ≡ length b
    → starts_with (message_key_prefix a) (message_key b id) ≡ true
    → a ≡ b
unfolding message_key_prefix message_key
message_key_apart a b id ha hb l h =
    let (rest, e) = starts_with-split (message_key_prefix a) (message_key b id) h in
    let names : hex a ++ (codes ":" ++ rest) ≡ hex b ++ (codes ":" ++ hex id) = ground (
      arith,
      e,
      append_assoc (hex a) (codes ":") rest,
      append_assoc (hex b) (codes ":") (hex id),
    ) in
    hex-prefix a b (codes ":" ++ rest) (codes ":" ++ hex id) ha hb l names

read_content_other :
    (v : Platform) (id j : Bytes) (db mid : Db) (r : StoreResult (Option Bytes))
    → read_encrypted v db.content_key (ratchet_key id) db ≡ (r, mid)
    → (ratchet_key id == j) ≡ false
    → lookup j mid.database ≡ lookup j db.database
read_content_other v id j db mid r read other =
    rw read at (lookup-read_other v db.content_key (ratchet_key id) j db other)

-- With the session, by what reading its record gives.
wiped_with_session :
    (v : Platform) (id j : Bytes) (count : ℕ) (db after mid : Db) (r : StoreResult (Option Bytes))
    → read_encrypted v db.content_key (ratchet_key id) db ≡ (r, mid)
    → wipe_conversation v id true db ≡ (ok count, after)
    → lookup j after.database ≡ (if is_wiped id true j then none else lookup j db.database)
unfolding delete_many keys_with_prefix elem
wiped_with_session v id j count db after mid (err e) read h =
    absurd (ground (arith, sym h ∙ wipe_conversation_failed v id db e mid read))
wiped_with_session v id j count db after mid (ok none) read h =
    let wiped = sym h ∙ wipe_conversation_absent v id db mid read in
    let test = starts_with (message_key_prefix id) in
    let gone = read-none v db.content_key (ratchet_key id) db (ap (λ p. p.0) read) in
    let same : mid ≡ db =
      ap (λ p. p.1) (sym read ∙ read-absent v db.content_key (ratchet_key id) db gone) in
    let left = lookup-remove_more j test [] db.database mid.database (rw same refl) in
    rw (ap (λ p. p.1.database) wiped) (elim (Bool-cases (ratchet_key id == j)) [
      | inl its ↦
          let missing : lookup j db.database ≡ none =
            rw (← (bytes_eq.decides (ratchet_key id) j).0 its) gone in
          ground (arith, left, missing)
      | inr other ↦ ground (arith, left, other)
    ])
wiped_with_session v id j count db after mid (ok (some bytes)) read h =
    let wiped = sym h ∙ wipe_conversation_present v id db bytes mid read in
    rw (ap (λ p. p.1.database) wiped) (elim (Bool-cases (ratchet_key id == j)) [
      | inl its ↦ ground (
        arith,
        its,
        lookup-remove_all j (listed v id db ++ ratchet_key id ∷ []) mid.database,
        elem-append j (listed v id db) (ratchet_key id ∷ []),
      )
      | inr other ↦
          let test = starts_with (message_key_prefix id) in
          let kept = read_content_other v id j db mid (ok (some bytes)) read other in
          ground (
            arith,
            other,
            lookup-remove_more j test (ratchet_key id ∷ []) db.database mid.database kept,
          )
    ])

-- Where wiping a conversation goes through, with its session or without, it has deleted the records of the
-- conversation's messages, and the session's where it was asked for, and every other record is as it was.
pub lookup-wipe_conversation :
    (v : Platform) (id j : Bytes) (include_session : Bool) (count : ℕ) (db after : Db)
    → wipe_conversation v id include_session db ≡ (ok count, after)
    → lookup j after.database
      ≡ (if is_wiped id include_session j then none else lookup j db.database)
unfolding delete_many keys_with_prefix elem
lookup-wipe_conversation v id j false count db after h =
    let wiped = sym h ∙ wipe_conversation_alone v id db in
    let test = starts_with (message_key_prefix id) in
    rw (ap (λ (p : StoreResult ℕ × Db). p.1.database) wiped)
      (lookup-remove_more j test [] db.database db.database refl ∙ ground arith)
lookup-wipe_conversation v id j true count db after h =
    wiped_with_session v id j count db after (read_encrypted v db.content_key (ratchet_key id) db).1
      (read_encrypted v db.content_key (ratchet_key id) db).0 refl h
