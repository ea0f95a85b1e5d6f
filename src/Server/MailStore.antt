-- ===== src/Server/MailStore.antt =====
-- server/src/mailstore.rs: the saved mail. Each message is sealed and cut into one fragment for each directory,
-- and an encrypted index says where they are. A transaction of the index is one step. What fails is a fragment whose name is taken, and what a read meets.
pub mod Epochs
pub mod Fragments
pub mod Reading
pub mod Rebuilding
pub mod Restart
pub mod Saved
pub mod Names
pub mod Owned
pub mod Retained
pub mod Tests
use dratchet.Base.{
  ℕ, zero, suc, ◌+◌, ◌-◌, ◌*◌, ◌%◌, min, Bool, true, false, not, ◌&&◌, Option, none, some, List, [],
  ◌∷◌, ◌++◌, Bytes, bytes_eq, codes, Map, lookup, insert, remove, length, slice, take, drop, filter,
  elem, ltb, eqb, Result, ok, err, if◌then◌else◌, ◌==◌,
}
use dratchet.Base.Actions.{◌>>=◌, ◌>>◌, pure, gets, state, modify}
use dratchet.Base.Names.{sort_keys}
use dratchet.Server.Storage.{
  Action, Crates, Directory, Epoch, IndexRecord, MailStore, PendingEntry, SealedContent, StoreError,
  concat, div_ceil, expect, io, key_check_plaintext, keys, meta_key_check_key, meta_state_key,
  nonce_len, put_file, read_file, remove_file, unreadable, uuid_of,
}

module _ (c : Crates) where
  unfoldable pub derive : Bytes → Bytes → Bytes
  derive key label = c.sha256 (codes "dratchet mailstore " ++ (label ++ key))

  unfoldable pub seal_bytes : Bytes → Bytes → Bytes → MailStore → Bytes × MailStore
  seal_bytes cipher aad plaintext s =
      let nonce = c.random s.draws nonce_len in
      (
        nonce ++ expect (c.primitives.seal cipher nonce aad plaintext),
        record s { draws = s.draws + 1 },
      )

  unfoldable pub open_bytes : Bytes → Bytes → Bytes → Option Bytes
  open_bytes cipher aad sealed =
      if ltb (length sealed) nonce_len
      then none
      else c.primitives.unseal cipher (take nonce_len sealed) aad (drop nonce_len sealed)

  unfoldable pub uuid_v4 : MailStore → Bytes × MailStore
  uuid_v4 s = (uuid_of (c.random s.draws 16), record s { draws = s.draws + 1 })

  unfoldable pub manifest : List Bytes → Bytes
  manifest ids = c.sha256 (concat (sort_keys ids))

  -- A new file, which may not be there yet
  unfoldable pub write_private : ℕ → Bytes → Bytes → Action (Unit {0})
  write_private i name bytes s = elim (read_file i name s.dirs) [
    | some _ ↦ (err io, s)
    | none ↦ (ok tt, record s { dirs = put_file i name bytes s.dirs })
  ]

  -- The loop over the directories, with as many of them left from the `i`-th on
  unfoldable pub write_fragments : (left i chunk : ℕ) → Bytes → Action (List (ℕ × Bytes))
  write_fragments zero i chunk sealed = pure []
  write_fragments (suc left) i chunk sealed = do
    uuid ← state uuid_v4
    write_private i uuid
        (slice (min (i * chunk) (length sealed)) (min ((i + 1) * chunk) (length sealed)) sealed)
    rest ← write_fragments left (i + 1) chunk sealed
    pure ((i % 256, uuid) ∷ rest)

  -- One round of the loop of `save`
  unfoldable pub save_entry : PendingEntry → Action (Bytes × IndexRecord)
  save_entry e = do
    seal ← gets (λ s. s.seal)
    sealed ← state (
        seal_bytes seal e.entry_id (
          c.contents.to_cbor (record {
            mailbox_id = e.mailbox_id;
            entry_id = e.entry_id;
            envelope = e.envelope;
            expires_at = e.expires_at;
            written_by = e.written_by;
          })))
    n ← gets (λ s. length s.dirs)
    fragments ← write_fragments n 0 (div_ceil (length sealed) n) sealed
    pure (
      e.entry_id,
      record {
        mailbox_id = e.mailbox_id;
        expires_at = e.expires_at;
        written_by = e.written_by;
        fragments = fragments;
        checksum = c.sha256 sealed;
      },
    )

  unfoldable pub save_entries : List PendingEntry → Action (List (Bytes × IndexRecord))
  save_entries [] = pure []
  save_entries (e ∷ batch) = do first ← save_entry e; rest ← save_entries batch; pure (first ∷ rest)

  unfoldable pub put_state : Epoch → Bool → Bytes → MailStore → MailStore
  put_state epoch clean listed s =
      let (sealed_state, s1) =
        seal_bytes s.index meta_state_key
          (c.states.to_cbor (record {
            store_id = epoch.store_id;
            number = epoch.number;
            clean = clean;
            manifest = listed;
          }))
          s in
      let (key_check, s2) = seal_bytes s1.index meta_key_check_key key_check_plaintext s1 in
      record s2 { meta = (some sealed_state, some key_check) }

  unfoldable pub write_state : Epoch → Bool → MailStore → MailStore
  write_state epoch clean s = put_state epoch clean (manifest (keys s.records)) s

  unfoldable pub insert_rows : List (Bytes × IndexRecord) → MailStore → MailStore
  insert_rows [] s = s
  insert_rows ((id, entry) ∷ rest) s =
      let (value, drawn) = seal_bytes s.index id (c.records.to_cbor entry) s in
      insert_rows rest (record drawn { index_table = insert id value drawn.index_table })

  unfoldable pub insert_records :
      List (Bytes × IndexRecord) → Map Bytes IndexRecord → Map Bytes IndexRecord
  insert_records [] records = records
  insert_records ((id, entry) ∷ rest) records = insert_records rest (insert id entry records)

  -- The transaction at the end of `save`
  unfoldable pub commit_save : List (Bytes × IndexRecord) → MailStore → MailStore
  commit_save new_records s =
      let after = insert_records new_records s.records in
      let rows = insert_rows new_records s in
      let stated = put_state rows.epoch false (manifest (keys after)) rows in
      record stated { records = after }

  unfoldable pub save : List PendingEntry → Action (Unit {0})
  save [] = pure tt
  save (e ∷ batch) = do new_records ← save_entries (e ∷ batch); modify (commit_save new_records)

  unfoldable pub delete_fragments : List (ℕ × Bytes) → List Directory → List Directory
  delete_fragments [] dirs = dirs
  delete_fragments ((i, uuid) ∷ rest) dirs = delete_fragments rest (remove_file i uuid dirs)

  -- The index's rows, the records and the fragments of what is gone
  unfoldable pub remove_rows : List Bytes → Map Bytes Bytes → Map Bytes Bytes
  remove_rows [] table = table
  remove_rows (id ∷ ids) table = remove_rows ids (remove id table)

  unfoldable pub drop_records : List (Bytes × IndexRecord) → MailStore → MailStore
  drop_records [] s = s
  drop_records ((id, entry) ∷ gone) s =
      drop_records gone
        (record s { records = remove id s.records; dirs = delete_fragments entry.fragments s.dirs })

  unfoldable pub retain : List Bytes → MailStore → ℕ × MailStore
  retain live s =
      let gone = filter (λ entry. not (elem entry.0 live)) s.records in
      if eqb (length gone) 0
      then (0, s)
      else (let unlisted = record s { index_table = remove_rows (keys gone) s.index_table } in
          let kept = keys (filter (λ entry. elem entry.0 live) s.records) in
          (length gone, drop_records gone (put_state s.epoch false (manifest kept) unlisted)))

  unfoldable pub read_fragments : List (ℕ × Bytes) → List Directory → Result StoreError Bytes
  read_fragments [] dirs = ok []
  read_fragments ((i, uuid) ∷ rest) dirs =
      if ltb i (length dirs)
      then (elim (read_file i uuid dirs) [
        | none ↦ err (unreadable "missing fragment")
        | some bytes ↦ elim (read_fragments rest dirs) [
          | ok more ↦ ok (bytes ++ more)
          | err e ↦ err e
        ]
      ])
      else err (unreadable "fragment directory no longer configured")

  abbrev pub matches : Bytes → IndexRecord → SealedContent → Bool
  matches entry_id entry content =
      content.entry_id == entry_id
      && (content.mailbox_id == entry.mailbox_id && content.written_by == entry.written_by)

  -- What the sealed bytes hold, if they are those of the record
  unfoldable pub open_sealed : Bytes → Bytes → IndexRecord → Bytes → Result StoreError SealedContent
  open_sealed seal entry_id entry sealed =
      if not (c.sha256 sealed == entry.checksum)
      then err (unreadable "checksum mismatch")
      else (elim (open_bytes seal entry_id sealed) [
        | none ↦ err (unreadable "sealed message did not decrypt")
        | some plaintext ↦ elim (c.contents.from_cbor plaintext) [
          | none ↦ err (unreadable "sealed message did not decode")
          | some content ↦
              if matches entry_id entry content
              then ok content
              else err (unreadable "sealed message does not match its index record")
        ]
      ])

  unfoldable pub read_record : Bytes → IndexRecord → MailStore → Result StoreError SealedContent
  read_record entry_id entry s = elim (read_fragments entry.fragments s.dirs) [
    | err e ↦ err e
    | ok sealed ↦ open_sealed s.seal entry_id entry sealed
  ]

  unfoldable pub read_envelope : Bytes → MailStore → Result StoreError (Option Bytes)
  read_envelope entry_id s = elim (lookup entry_id s.records) [
    | none ↦ ok none
    | some entry ↦ elim (read_record entry_id entry s) [
      | ok content ↦ ok (some content.envelope)
      | err e ↦ err e
    ]
  ]

  unfoldable pub advance_epoch : MailStore → Epoch × MailStore
  advance_epoch s =
      let next : Epoch = record s.epoch { number = s.epoch.number + 1 } in
      (next, write_state next false (record s { epoch = next }))

  unfoldable pub mark_clean_shutdown : MailStore → MailStore
  mark_clean_shutdown s = write_state s.epoch true s
