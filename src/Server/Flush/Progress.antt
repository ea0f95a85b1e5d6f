-- ===== src/Server/Flush/Progress.antt =====
-- server/src/flush.rs: what a save that ends well has done for the mail that waited for it.
use dratchet.Base.{
  ℕ, ◌+◌, ◌≡◌, refl, ap, eqb, ◌∙◌, Bool, true, not, ◌&&◌, ◌||◌, some, List, [], ◌∷◌, ◌++◌, Bytes,
  bytes_eq, arith, Map, map, filter, elem, all, all-append, filter-append, ltb, length, ok, err,
}
use dratchet.Server.State.{
  Inner, MailboxId, MailboxEntry, prune_expired, recount_memory, total_unsaved,
}
use dratchet.Server.Storage.{MailStore, Crates, StoreError, PendingEntry}
use dratchet.Server.MailStore.{save, retain}
use dratchet.Server.Flush.{
  Service, batch_of, live_ids, mark_saved, mark_mailboxes, save_and_retain, publish_save, flush_now,
  pending_entry,
}

abbrev pub entries_of : Map MailboxId (List MailboxEntry) → List MailboxEntry
entries_of [] = []
entries_of ((mailbox_id, entries) ∷ mailboxes) = entries ++ entries_of mailboxes

abbrev pub ids_of : List PendingEntry → List Bytes
ids_of = map (λ e. e.entry_id)

-- An entry that is saved and has left the memory, if its id is one of these
abbrev pub is_settled : List Bytes → MailboxEntry → Bool
is_settled saved_ids e = not (elem e.entry_id saved_ids) || e.saved && eqb (length e.envelope) 0

all-map-mark_saved :
    (saved_ids : List Bytes) (entries : List MailboxEntry)
    → all (is_settled saved_ids) (map (mark_saved saved_ids) entries) ≡ true
unfolding all mark_saved
all-map-mark_saved saved_ids [] = refl
all-map-mark_saved saved_ids (e ∷ entries) = ground (arith, all-map-mark_saved saved_ids entries)

mark_mailboxes_settles :
    (saved_ids : List Bytes) (mailboxes : Map MailboxId (List MailboxEntry))
    → all (is_settled saved_ids) (entries_of (mark_mailboxes saved_ids mailboxes)) ≡ true
unfolding all mark_mailboxes
mark_mailboxes_settles saved_ids [] = refl
mark_mailboxes_settles saved_ids ((mailbox_id, entries) ∷ mailboxes) =
    all-append (is_settled saved_ids) (map (mark_saved saved_ids) entries)
      (entries_of (mark_mailboxes saved_ids mailboxes))
    ∙ ground
        (arith, all-map-mark_saved saved_ids entries, mark_mailboxes_settles saved_ids mailboxes)

-- The entries that wait for a save: not saved and not expired
abbrev pub waits : ℕ → MailboxEntry → Bool
waits now e = not e.saved && ltb now e.expires_at

abbrev pub waiting_ids : ℕ → Map MailboxId (List MailboxEntry) → List Bytes
waiting_ids now mailboxes = map (λ e. e.entry_id) (filter (waits now) (entries_of mailboxes))

map-append {ℓ κ} :
    {A : Type ℓ} {B : Type κ} (f : A → B) (xs ys : List A) → map f (xs ++ ys) ≡ map f xs ++ map f ys
map-append f [] ys = refl
map-append f (x ∷ xs) ys = ap (λ rest. f x ∷ rest) (map-append f xs ys)

rejoin {ℓ} :
    {B : Type ℓ} (g : MailboxEntry → B) (p : MailboxEntry → Bool) (xs ys : List MailboxEntry)
    → map g (filter p xs) ++ map g (filter p ys) ≡ map g (filter p (xs ++ ys))
rejoin g p xs ys = rw (filter-append p xs ys, map-append) refl

-- What is read off the batch is what is read off the mail that waits.
module _ {ℓ} {B : Type ℓ} (f : PendingEntry → B) (g : MailboxEntry → B)
    (same : (id : MailboxId) (e : MailboxEntry) → f (pending_entry id e) ≡ g e) where
  map-mailbox :
      (now : ℕ) (id : MailboxId) (entries : List MailboxEntry)
      → map f (map (pending_entry id) (filter (λ e. not e.saved) (prune_expired now entries)))
        ≡ map g (filter (waits now) entries)
  unfolding filter prune_expired
  map-mailbox now id [] = refl
  map-mailbox now id (e ∷ entries) = ground (arith, same id e, map-mailbox now id entries)

  pub map-batch_of :
      (now : ℕ) (mailboxes : Map MailboxId (List MailboxEntry))
      → map f (batch_of now mailboxes) ≡ map g (filter (waits now) (entries_of mailboxes))
  unfolding batch_of filter
  map-batch_of now [] = refl
  map-batch_of now ((id, entries) ∷ mailboxes) =
      let first = map (pending_entry id) (filter (λ e. not e.saved) (prune_expired now entries)) in
      map-append f first (batch_of now mailboxes)
      ∙ ap (λ rest. map f first ++ rest) (map-batch_of now mailboxes)
      ∙ ap (λ front. front ++ map g (filter (waits now) (entries_of mailboxes)))
          (map-mailbox now id entries)
      ∙ rejoin g (waits now) entries (entries_of mailboxes)

-- The batch holds exactly the mail that waits.
pub ids_of-batch_of :
    (now : ℕ) (mailboxes : Map MailboxId (List MailboxEntry))
    → ids_of (batch_of now mailboxes) ≡ waiting_ids now mailboxes
unfolding pending_entry
ids_of-batch_of = map-batch_of (λ e. e.entry_id) (λ e. e.entry_id) (λ id e. refl)

-- The entries that have not expired
abbrev pub queued_ids : ℕ → Map MailboxId (List MailboxEntry) → List Bytes
queued_ids now mailboxes =
    map (λ e. e.entry_id) (filter (λ e. ltb now e.expires_at) (entries_of mailboxes))

pub live_ids_lem :
    (now : ℕ) (mailboxes : Map MailboxId (List MailboxEntry))
    → live_ids now mailboxes ≡ queued_ids now mailboxes
unfolding live_ids prune_expired filter
live_ids_lem now [] = refl
live_ids_lem now ((id, entries) ∷ mailboxes) =
    ap (λ rest. map (λ e. e.entry_id) (prune_expired now entries) ++ rest)
      (live_ids_lem now mailboxes)
    ∙ rejoin (λ e. e.entry_id) (λ e. ltb now e.expires_at) entries (entries_of mailboxes)

module _ (c : Crates) (now : ℕ) (meanwhile : Inner → Inner) (s : Service) (store : MailStore)
    (has_store : s.mail_store ≡ some store) where
  abbrev batch : List PendingEntry
  batch = batch_of now s.inner.mailboxes

  -- The state that the flush leaves when it releases the lock
  abbrev taken : Inner
  taken = record s.inner { next_flush_seq = s.inner.next_flush_seq + 1 }

  -- The store accepts the mail that waits.
  abbrev pub Accepts : Type 0
  Accepts = (save c (batch_of now s.inner.mailboxes) store).0 ≡ ok tt

  pub flush_now_accepted :
      Accepts
      → flush_now c now meanwhile s ≡ (
        ok tt,
        record {
          inner = recount_memory (record (meanwhile taken) {
            mailboxes = mark_mailboxes (ids_of batch) (meanwhile taken).mailboxes;
          });
          mail_store = some (retain c (live_ids now s.inner.mailboxes) (save c batch store).1).1;
          flushed = s.inner.next_flush_seq;
        },
      )
  unfolding flush_now save_and_retain publish_save
  flush_now_accepted accepted = rw (has_store, flush_now) (rw (accepted, save_and_retain) refl)

  -- With a mail store that saves the batch, a flush ends well: the number that it took is published,
  -- and every entry that waited for it and is still queued is saved and out of the memory, whose
  -- count is exact again.
  pub flush_now_settles :
      Accepts
      → let t = (flush_now c now meanwhile s).1 in
        ((flush_now c now meanwhile s).0 ≡ ok tt)
        × (t.flushed ≡ s.inner.next_flush_seq)
        × (all (is_settled (waiting_ids now s.inner.mailboxes)) (entries_of t.inner.mailboxes)
            ≡ true)
        × (t.inner.memory_bytes ≡ total_unsaved t.inner.mailboxes)
  unfolding recount_memory
  flush_now_settles accepted =
      let settled = mark_mailboxes_settles (ids_of batch) (meanwhile taken).mailboxes in
      rw (flush_now_accepted accepted)
        (refl, refl, rw (← ids_of-batch_of now s.inner.mailboxes) settled, refl)

  -- Where the store refuses the batch, nothing is marked or published, and the next flush takes another number.
  pub flush_now_refused :
      (e : StoreError)
      → (save c (batch_of now s.inner.mailboxes) store).0 ≡ err e
      → let t = (flush_now c now meanwhile s).1 in
        ((flush_now c now meanwhile s).0 ≡ err e)
        × (t.flushed ≡ s.flushed)
        × (t.inner ≡ meanwhile (record s.inner { next_flush_seq = s.inner.next_flush_seq + 1 }))
  unfolding flush_now save_and_retain publish_save
  flush_now_refused e refused =
      rw (has_store, flush_now) (rw (refused, save_and_retain) (refl, refl, refl))
