-- ===== src/Server/MailStore/Epochs.antt =====
-- server/src/mailstore.rs: opening a store. Making and checking the directories themselves is not modelled.
use Prim.Native.String.{String}
use dratchet.Base.{
  ℕ, ◌+◌, ◌^◌, ◌/◌, ◌%◌, Bool, true, false, not, ◌&&◌, Option, none, some, List, [], ◌∷◌, ◌++◌,
  Bytes, bytes_eq, nat_eq, pair_eq, codes, Map, insert, length, map, filter, elem, leb, eqb, ltb,
  ok, err, if◌then◌else◌, ◌==◌, is_some,
}
use dratchet.Base.Names.{sort_keys}
use dratchet.Core.Words.{to_be_bytes}
use dratchet.Server.MailStore.{manifest}
use dratchet.Server.Storage.{
  MailStore, Crates, Directory, Epoch, IndexRecord, RestoredEntry, SealedContent, StoreState,
  concat, keys, meta_state_key, meta_key_check_key, key_check_plaintext,
}
use dratchet.Server.MailStore.{
  derive, open_bytes, put_state, read_record, delete_fragments, remove_rows,
}

-- `u64::to_be_bytes`
abbrev pub to_be_bytes_u64 : ℕ → Bytes
to_be_bytes_u64 n = to_be_bytes (n / 2 ^ 32) ++ to_be_bytes (n % 2 ^ 32)

-- `Epoch::wire_id`
unfoldable pub wire_id : Epoch → Bytes
wire_id epoch = epoch.store_id ++ to_be_bytes_u64 epoch.number

-- What goes into the manifest of the rows for one id; a malformed one is marked.
abbrev pub row_mark : Bytes → Bytes
row_mark id =
    if eqb (length id) 16
    then id
    else 255 ∷ (codes "bad row" ++ (to_be_bytes_u64 (length id) ++ id))

unfoldable pub remove_orphans : ℕ → List (ℕ × Bytes) → List Directory → List Directory
remove_orphans i referenced [] = []
remove_orphans i referenced (dir ∷ dirs) =
    filter (λ file. elem (i, file.0) referenced) dir ∷ remove_orphans (i + 1) referenced dirs

abbrev pub all_fragments : Map Bytes IndexRecord → List (ℕ × Bytes)
all_fragments [] = []
all_fragments ((id, entry) ∷ records) = entry.fragments ++ all_fragments records

-- What `rebuild` gathers: the entries, the number that was dropped, and the rows to remove.
pub record Rebuilt : Type 0 where
  pub restored : List RestoredEntry
  pub dropped : ℕ
  pub to_remove : List Bytes
  pub store : MailStore

pub record OpenedStore : Type 0 where
  pub store : MailStore
  pub restored : List RestoredEntry
  pub epoch : Epoch
  pub advanced_because : Option String

-- How the epoch goes on: whether the store continues, why it advances, and from which epoch.
pub record Verdict : Type 0 where
  pub continues : Bool
  pub advanced_because : Option String
  pub epoch : Epoch

abbrev pub or_because : Option String → String → Option String
or_because none why = some why
or_because (some first) why = some first

module _ (c : Crates) where
  unfoldable pub continuing_epoch : StoreState → List Bytes → Option String
  continuing_epoch state ids =
      if not (c.sha256 (concat (map row_mark (sort_keys ids))) == state.manifest)
      then some "the index was changed outside the relay"
      else if not state.clean
      then some "previous run did not finish its last save"
      else none

  -- The state record, where it opens and its id is of 16 bytes
  unfoldable pub saved_state : MailStore → Option StoreState
  saved_state s = elim s.meta.0 [
    | none ↦ none
    | some sealed ↦ elim (open_bytes c s.index meta_state_key sealed) [
      | none ↦ none
      | some plaintext ↦ elim (c.states.from_cbor plaintext) [
        | none ↦ none
        | some state ↦ if eqb (length state.store_id) 16 then some state else none
      ]
    ]
  ]

  unfoldable pub key_ok : MailStore → Bool
  key_ok s = elim s.meta.1 [
    | none ↦ false
    | some sealed ↦ elim (open_bytes c s.index meta_key_check_key sealed) [
      | none ↦ false
      | some plaintext ↦ plaintext == key_check_plaintext
    ]
  ]

  -- `fresh` is the random id of a new store.
  unfoldable pub judge : Bytes → MailStore → Verdict
  judge fresh s =
      let new_epoch : Epoch = record { store_id = fresh; number = 1 } in
      if is_some s.meta.1 && not (key_ok s)
      then record {
        continues = false;
        advanced_because = some "store unreadable with the current key";
        epoch = new_epoch;
      }
      else elim (saved_state s) [
        | some state ↦ record {
          continues = true;
          advanced_because = continuing_epoch state (keys s.index_table);
          epoch = record { store_id = state.store_id; number = state.number };
        }
        | none ↦ record {
          continues = false;
          advanced_because =
              if not (is_some s.meta.0) && (not (is_some s.meta.1) && eqb (length s.index_table) 0)
              then some "new mail store"
              else some "the store's state record is missing or unreadable";
          epoch = new_epoch;
        }
      ]

  abbrev pub drop_row : Bytes → Rebuilt → Rebuilt
  drop_row key r = record r { dropped = r.dropped + 1; to_remove = r.to_remove ++ key ∷ [] }

  abbrev pub forget_fragments : IndexRecord → Rebuilt → Rebuilt
  forget_fragments entry r = record r {
    store = record r.store { dirs = delete_fragments c entry.fragments r.store.dirs };
  }

  -- An entry whose content was read
  unfoldable pub restore_row : Bytes → IndexRecord → SealedContent → Rebuilt → Rebuilt
  restore_row key entry content r =
      if eqb (length content.mailbox_id) 16 && eqb (length content.written_by) 32
      then record r {
        restored =
            r.restored
            ++ record {
              mailbox_id = content.mailbox_id;
              entry_id = key;
              expires_at = content.expires_at;
              written_by = content.written_by;
            }
              ∷ [];
        store = record r.store { records = insert key entry r.store.records };
      }
      else drop_row key r

  -- A row whose record opened: it has expired, or its content is read.
  unfoldable pub rebuild_record : ℕ → Bytes → IndexRecord → Rebuilt → Rebuilt
  rebuild_record now key entry r =
      if leb entry.expires_at now
      then (let forgotten = forget_fragments entry r in
          record forgotten { to_remove = r.to_remove ++ key ∷ [] })
      else elim (read_record c key entry r.store) [
        | ok content ↦ restore_row key entry content r
        | err e ↦ drop_row key (forget_fragments entry r)
      ]

  unfoldable pub index_record : MailStore → Bytes → Bytes → Option IndexRecord
  index_record s key value = elim (open_bytes c s.index key value) [
    | none ↦ none
    | some plaintext ↦ c.records.from_cbor plaintext
  ]

  unfoldable pub rebuild_row : ℕ → Bytes → Bytes → Rebuilt → Rebuilt
  rebuild_row now key value r =
      if not (eqb (length key) 16) then drop_row key r else elim (index_record r.store key value) [
        | none ↦ drop_row key r
        | some entry ↦ rebuild_record now key entry r
      ]

  unfoldable pub rebuild : ℕ → Map Bytes Bytes → Rebuilt → Rebuilt
  rebuild now [] r = r
  rebuild now ((key, value) ∷ rows) r = rebuild now rows (rebuild_row now key value r)

  -- With a key that does not open the store, all its fragments and rows go.
  unfoldable pub discard_unreadable : MailStore → List Bytes × (Map Bytes Bytes × MailStore)
  discard_unreadable s =
      if is_some s.meta.1 && not (key_ok s)
      then (keys s.index_table, ([], record s { dirs = map (λ dir. []) s.dirs }))
      else ([], (s.index_table, s))

  -- `MailStore::open` on what is on disk; `key` is the configured key.
  unfoldable pub open_store : ℕ → Bytes → Bytes → MailStore → OpenedStore
  open_store now fresh key disk =
      let s : MailStore = record disk {
        seal = derive c key (codes "seal");
        index = derive c key (codes "index");
        records = [];
        epoch = record { store_id = []; number = 0 };
      } in
      let verdict = judge fresh s in
      let (unread, (rows, kept)) = discard_unreadable s in
      let r =
        rebuild now rows
          (record { restored = []; dropped = 0; to_remove = unread; store = kept }) in
      let because =
        if ltb 0 r.dropped
        then or_because verdict.advanced_because "entries could not be rebuilt"
        else verdict.advanced_because in
      let epoch : Epoch = record verdict.epoch {
        number =
            if is_some because && verdict.continues
            then verdict.epoch.number + 1
            else verdict.epoch.number;
      } in
      let cleaned : MailStore = record r.store {
        dirs = remove_orphans 0 (all_fragments r.store.records) r.store.dirs;
        epoch = epoch;
        index_table = remove_rows c r.to_remove r.store.index_table;
      } in
      record {
        store = put_state c epoch false (manifest c (keys cleaned.records)) cleaned;
        restored = r.restored;
        epoch = epoch;
        advanced_because = because;
      }
