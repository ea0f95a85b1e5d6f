-- ===== src/Server/Flush.antt =====
-- server/src/flush.rs: saving the queued mail. `flush_now` collects a batch under the lock, writes it with the lock
-- released, and marks the entries as saved. What the other tasks do to the state meanwhile is a parameter.
pub mod Kept
pub mod Progress
pub mod Readable
mod Tests
use dratchet.Base.{
  ℕ, ◌+◌, ◌/◌, true, not, Option, none, some, List, [], ◌∷◌, ◌++◌, Bytes, bytes_eq, Map, map,
  filter, elem, Result, ok, err, if◌then◌else◌,
}
use dratchet.Base.Actions.{Method}
use dratchet.Server.Abuse.{nanos_per_sec}
use dratchet.Server.State.{Inner, MailboxId, MailboxEntry, prune_expired, recount_memory}
use dratchet.Server.Storage.{MailStore, Crates, StoreError, PendingEntry}
use dratchet.Server.MailStore.{save, retain, mark_clean_shutdown}

-- `AppState`: the state behind its lock, the mail store, and the number of the last save that ended.
pub record Service : Type 0 where
  pub inner : Inner
  pub mail_store : Option MailStore
  pub flushed : ℕ

unfoldable pub pending_entry : MailboxId → MailboxEntry → PendingEntry
pending_entry mailbox_id e = record {
  mailbox_id = mailbox_id;
  entry_id = e.entry_id;
  envelope = e.envelope;
  expires_at = e.expires_at / nanos_per_sec;
  written_by = e.written_by;
}

-- The entries to save, of all mailboxes
unfoldable pub batch_of : ℕ → Map MailboxId (List MailboxEntry) → List PendingEntry
batch_of now [] = []
batch_of now ((mailbox_id, entries) ∷ mailboxes) =
    map (pending_entry mailbox_id) (filter (λ e. not e.saved) (prune_expired now entries))
    ++ batch_of now mailboxes

-- The ids of the entries that have not expired
unfoldable pub live_ids : ℕ → Map MailboxId (List MailboxEntry) → List Bytes
live_ids now [] = []
live_ids now ((mailbox_id, entries) ∷ mailboxes) =
    map (λ e. e.entry_id) (prune_expired now entries) ++ live_ids now mailboxes

unfoldable pub mark_saved : List Bytes → MailboxEntry → MailboxEntry
mark_saved saved_ids e =
    if elem e.entry_id saved_ids then record e { saved = true; envelope = [] } else e

unfoldable pub mark_mailboxes :
    List Bytes → Map MailboxId (List MailboxEntry) → Map MailboxId (List MailboxEntry)
mark_mailboxes saved_ids [] = []
mark_mailboxes saved_ids ((mailbox_id, entries) ∷ mailboxes) =
    (mailbox_id, map (mark_saved saved_ids) entries) ∷ mark_mailboxes saved_ids mailboxes

module _ (c : Crates) where
  -- The blocking task: the save, and the removal of what is not live any more
  unfoldable pub save_and_retain :
      List PendingEntry → List Bytes → MailStore → Result StoreError (Unit {0}) × MailStore
  save_and_retain batch live store =
      let (r, saved) = save c batch store in
      elim r [ ok _ ↦ (ok tt, (retain c live saved).1) | err e ↦ (err e, saved) ]

  -- What follows the blocking task
  unfoldable pub publish_save :
      ℕ
      → List PendingEntry
      → (Inner → Inner)
      → Result StoreError (Unit {0}) × MailStore
      → Method StoreError Service (Unit {0})
  publish_save seq batch meanwhile (ok _, store) s =
      let inner = meanwhile s.inner in
      let saved_ids = map (λ e. e.entry_id) batch in
      (
        ok tt,
        record {
          inner =
              recount_memory
                (record inner { mailboxes = mark_mailboxes saved_ids inner.mailboxes });
          mail_store = some store;
          flushed = seq;
        },
      )
  publish_save seq batch meanwhile (err e, store) s =
      (err e, record s { inner = meanwhile s.inner; mail_store = some store })

  -- `now` is the wall clock.
  unfoldable pub flush_now : ℕ → (Inner → Inner) → Method StoreError Service (Unit {0})
  flush_now now meanwhile s = elim s.mail_store [
    | none ↦ (ok tt, s)
    | some store ↦
        let seq = s.inner.next_flush_seq in
        let inner : Inner = record s.inner { next_flush_seq = seq + 1 } in
        let batch = batch_of now inner.mailboxes in
        let live = live_ids now inner.mailboxes in
        publish_save seq batch meanwhile (save_and_retain batch live store)
          (record s { inner = inner })
  ]

  unfoldable pub shutdown : ℕ → (Inner → Inner) → Service → Service
  shutdown now meanwhile s = elim s.mail_store [
    | none ↦ s
    | some _ ↦
        let (r, t) = flush_now now meanwhile s in
        elim r [
          | ok _ ↦ elim t.mail_store [
            | some store ↦ record t { mail_store = some (mark_clean_shutdown c store) }
            | none ↦ t
          ]
          | err _ ↦ t
        ]
  ]
