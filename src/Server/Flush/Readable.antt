-- ===== src/Server/Flush/Readable.antt =====
-- server/src/flush.rs with server/src/mailstore.rs: what the store and the memory hold after a flush.
use dratchet.Base.{
  ℕ, ◌+◌, ◌≤◌, ◌≡◌, refl, ap, ◌∙◌, true, false, not, some, List, [], ◌∷◌, ◌++◌, Bytes, bytes_eq,
  arith, Map, map, filter, elem, elem-append, length, ok, Bool-cases, inl, inr, Each, Each-weaken,
  Each-append, Each-both,
}
use dratchet.Base.Codecs.{Decodes}
use dratchet.Server.State.{MailboxId, MailboxEntry, Inner, prune_expired, recount_memory}
use dratchet.Server.Storage.{MailStore, Crates, PendingEntry}
use dratchet.Server.MailStore.{save, retain, read_envelope}
use dratchet.Server.MailStore.Reading.{IsSound, content_of}
use dratchet.Server.MailStore.Saved.{Distinct, read_envelope-save, read_envelope-save_other}
use dratchet.Server.MailStore.Owned.{OwnsFragments, save-OwnsFragments}
use dratchet.Server.MailStore.Retained.{read_envelope-retain}
use dratchet.Server.Flush.{Service, pending_entry, batch_of, live_ids, flush_now}
use dratchet.Server.Flush.Progress.{
  ids_of, waits, entries_of, map-batch_of, waiting_ids, queued_ids, live_ids_lem, ids_of-batch_of,
  flush_now_accepted,
}
use dratchet.Server.Flush.Kept.{others, entry_ids, others-mark_mailboxes, entry_ids-mark_mailboxes}

abbrev ids : List MailboxEntry → List Bytes
ids = map (λ e. e.entry_id)

abbrev IsAmong : List Bytes → PendingEntry → Type 0
IsAmong live e = elem e.entry_id live ≡ true

pending-live :
    (id : MailboxId) (entries : List MailboxEntry) (others : List Bytes)
    → Each
        (IsAmong (ids entries ++ others))
        (map (pending_entry id) (filter (λ e. not e.saved) entries))
unfolding filter elem pending_entry
pending-live id [] others = tt
pending-live id (e ∷ entries) others =
    let rest =
      Each-weaken (IsAmong (ids entries ++ others)) (IsAmong (e.entry_id ∷ (ids entries ++ others)))
        (map (pending_entry id) (filter (λ e. not e.saved) entries)) (λ f h. ground (arith, h))
        (pending-live id entries others) in
    elim (Bool-cases (not e.saved)) [
      | inl unsaved ↦
          rw (unsaved, filter) (ground (arith, bytes_eq.decides e.entry_id e.entry_id), rest)
      | inr saved ↦ rw (saved, filter) rest
    ]

-- What is saved is live.
batch-live :
    (now : ℕ) (mailboxes : Map MailboxId (List MailboxEntry))
    → Each (IsAmong (live_ids now mailboxes)) (batch_of now mailboxes)
unfolding batch_of live_ids
batch-live now [] = tt
batch-live now ((id, entries) ∷ mailboxes) =
    let young = prune_expired now entries in
    let others = live_ids now mailboxes in
    Each-append (IsAmong (ids young ++ others))
      (map (pending_entry id) (filter (λ e. not e.saved) young)) (batch_of now mailboxes)
      (pending-live id young others)
      (Each-weaken (IsAmong others) (IsAmong (ids young ++ others)) (batch_of now mailboxes)
        (λ e h. ground (arith, h, elem-append e.entry_id (ids young) others))
        (batch-live now mailboxes))

-- Mail that is queued and was saved before: its id, and the envelope that the store reads
abbrev pub IsOlder : Crates → ℕ → Inner → MailStore → Bytes × Bytes → Type 0
IsOlder c now inner store (id, envelope) =
    (elem id (queued_ids now inner.mailboxes) ≡ true)
    × (elem id (waiting_ids now inner.mailboxes) ≡ false)
    × (read_envelope c id store ≡ ok (some envelope))

-- The mail that waits, with its envelopes
abbrev pub waiting_mail : ℕ → Inner → List (Bytes × Bytes)
waiting_mail now inner =
    map (λ e. (e.entry_id, e.envelope)) (filter (waits now) (entries_of inner.mailboxes))

abbrev pub IsRead : Crates → MailStore → Bytes × Bytes → Type 0
IsRead c store (id, envelope) = read_envelope c id store ≡ ok (some envelope)

letters_of-batch_of :
    (now : ℕ) (inner : Inner)
    → map (λ e. (e.entry_id, e.envelope)) (batch_of now inner.mailboxes) ≡ waiting_mail now inner
unfolding pending_entry
letters_of-batch_of now inner =
    map-batch_of {B = Bytes × Bytes} (λ e. (e.entry_id, e.envelope)) (λ e. (e.entry_id, e.envelope))
      (λ id e. refl) now inner.mailboxes

Each-letters :
    (c : Crates) (store : MailStore) (batch : List PendingEntry)
    → Each (λ e. read_envelope c e.entry_id store ≡ ok (some e.envelope)) batch
    → Each (IsRead c store) (map (λ e. (e.entry_id, e.envelope)) batch)
Each-letters c store [] h = tt
Each-letters c store (e ∷ batch) h = (h.0, Each-letters c store batch h.1)

-- With a sound AEAD, encoded contents that decode, between 1 and 256 directories, an index whose
-- records own their fragments and entries with different ids: after a flush for which the store
-- accepts the batch, the store reads every entry that waited for it back with the envelope that it
-- had in memory, and whatever of the older mail, saved before and still queued, it read, it still
-- reads. Against the state that the other tasks made while the save ran, each mailbox has the same
-- entries in the same order, and those that the flush did not save, such as the mail that was
-- queued meanwhile, are unchanged.
pub flush_now_readable :
    (c : Crates) (now : ℕ) (meanwhile : Inner → Inner) (s : Service) (store saved : MailStore)
    (older : List (Bytes × Bytes))
    → IsSound c
    → s.mail_store ≡ some store
    → 1 ≤ length store.dirs
    → length store.dirs ≤ 256
    → OwnsFragments store.records store.dirs
    → Each (λ e. Decodes c.contents (content_of e)) (batch_of now s.inner.mailboxes)
    → Distinct (batch_of now s.inner.mailboxes)
    → save c (batch_of now s.inner.mailboxes) store ≡ (ok tt, saved)
    → Each (IsOlder c now s.inner store) older
    → let t = (flush_now c now meanwhile s).1 in
      let waited : Inner =
        meanwhile (record s.inner { next_flush_seq = s.inner.next_flush_seq + 1 }) in
      (kept : MailStore) × (t.mail_store ≡ some kept)
      × Each (IsRead c kept) (waiting_mail now s.inner)
      × Each (IsRead c kept) older
      × (entry_ids t.inner.mailboxes ≡ entry_ids waited.mailboxes)
      × (others (waiting_ids now s.inner.mailboxes) t.inner.mailboxes
          ≡ others (waiting_ids now s.inner.mailboxes) waited.mailboxes)
unfolding recount_memory
flush_now_readable c now meanwhile s store saved older sound has_store some_dirs few owns decodes
      apart accepted were =
    let batch = batch_of now s.inner.mailboxes in
    let live = live_ids now s.inner.mailboxes in
    let waited : Inner =
      meanwhile (record s.inner { next_flush_seq = s.inner.next_flush_seq + 1 }) in
    let Reads =
      λ (t : MailStore) (e : PendingEntry). read_envelope c e.entry_id t ≡ ok (some e.envelope) in
    let owned = save-OwnsFragments c batch store saved few owns accepted in
    let readable =
      read_envelope-save c sound batch store saved some_dirs few decodes apart accepted in
    let kept = (retain c live saved).1 in
    let done = flush_now_accepted c now meanwhile s store has_store (ap (λ r. r.0) accepted) in
    let in_store =
      Each-weaken (λ e. Reads saved e × IsAmong live e) (Reads kept) batch
        (λ e (reads, alive). read_envelope-retain c live e.entry_id saved owned ∙ rw alive reads)
        (Each-both (Reads saved) (IsAmong live) batch readable
          (batch-live now s.inner.mailboxes)) in
    let other =
      read_envelope-save_other c sound batch store saved some_dirs few decodes apart accepted in
    let listed = ids_of-batch_of now s.inner.mailboxes in
    let marked = ap (λ r. r.1.inner.mailboxes) done in
    (
      kept,
      ap (λ r. r.1.mail_store) done ∙ ap (λ r. some (retain c live r.1).1) accepted,
      rw (← letters_of-batch_of now s.inner) (Each-letters c kept batch in_store),
      Each-weaken (IsOlder c now s.inner store) (IsRead c kept) older
          (λ (id, envelope) (alive, unsaved, reads).
            read_envelope-retain c live id saved owned
            ∙ rw (live_ids_lem now s.inner.mailboxes, alive)
                (other id envelope (rw listed unsaved) reads))
          were,
      ap entry_ids marked ∙ entry_ids-mark_mailboxes (ids_of batch) waited.mailboxes,
      ap (others (waiting_ids now s.inner.mailboxes)) marked
          ∙ rw (← listed) (others-mark_mailboxes (ids_of batch) waited.mailboxes),
    )
