-- ===== src/Server/Mailbox/Bounds.antt =====
-- The caps of a mailbox: its entries in all, and each writer's.
use dratchet.Base.{
  ◌≤◌, ◌<◌, ◌≡◌, refl, Bool, not, Option, none, some, List, [], ◌∷◌, ◌++◌, Bytes, bytes_eq, ◌⊎◌,
  inl, inr, arith, Map, lookup, insert, lookup-insert, lookup-insert_self, length, filter,
  length-filter-le, length-append, filter-append, ltb, ◌==◌, Bool-cases, Option-cases, ◌||◌,
}
use dratchet.Server.Abuse.{Fingerprint, ConnectionId}
use dratchet.Server.State.{
  Inner, MailboxId, MailboxEntry, or_default, prune_expired, recount_memory, try_send,
  max_mailbox_entries, max_entries_per_writer_per_mailbox,
}
use dratchet.Server.Mailbox.{
  Config, Moment, MailboxWrite, admit_mailbox, open_mailbox, written_by_count, reserve_memory,
  push_entry, enqueue, new_entry, withdraw, await_save, mailbox_write,
}

-- One mailbox within both caps.
abbrev pub IsWithinCaps : List MailboxEntry → Type 0
IsWithinCaps entries =
    (length entries ≤ max_mailbox_entries)
    × ((writer : Fingerprint)
        → written_by_count writer entries ≤ max_entries_per_writer_per_mailbox)

abbrev pub IsLimited : Map MailboxId (List MailboxEntry) → Type 0
IsLimited m = (id : MailboxId) → IsWithinCaps (or_default (lookup id m))

filter-filter_le :
    (p q : MailboxEntry → Bool) (entries : List MailboxEntry)
    → length (filter p (filter q entries)) ≤ length (filter p entries)
unfolding filter
filter-filter_le p q [] = omega arith
filter-filter_le p q (e ∷ entries) = ground (arith, filter-filter_le p q entries)

pub filter-IsWithinCaps :
    (p : MailboxEntry → Bool) (entries : List MailboxEntry)
    → IsWithinCaps entries
    → IsWithinCaps (filter p entries)
unfolding written_by_count
filter-IsWithinCaps p entries h = (
  omega (arith, length-filter-le p entries, h.0),
  λ writer. omega (arith, filter-filter_le (λ e. e.written_by == writer) p entries, h.1 writer),
)

pub insert-IsLimited :
    (id : MailboxId) (entries : List MailboxEntry) (m : Map MailboxId (List MailboxEntry))
    → IsLimited m
    → IsWithinCaps entries
    → IsLimited (insert id entries m)
insert-IsLimited id entries m h w j = elim (Bool-cases (id == j)) [
  | inl same ↦ rw (lookup-insert j id entries m, same) w
  | inr other ↦ rw (lookup-insert j id entries m, other) (h j)
]

-- An entry of a writer that has room.
push-IsWithinCaps :
    (writer : Fingerprint) (entry : MailboxEntry) (entries : List MailboxEntry)
    → entry.written_by ≡ writer
    → length entries < max_mailbox_entries
    → written_by_count writer entries < max_entries_per_writer_per_mailbox
    → IsWithinCaps entries
    → IsWithinCaps (entries ++ entry ∷ [])
unfolding written_by_count filter
push-IsWithinCaps writer entry entries by short quota w = (
  omega (arith, length-append entries (entry ∷ [])),
  λ other. ground (
    arith,
    filter-append (λ e. e.written_by == other) entries (entry ∷ []),
    length-append (filter (λ e. e.written_by == other) entries) (entry ∷ []),
    length-append (filter (λ e. e.written_by == other) entries) [],
    bytes_eq.decides entry.written_by other,
    w.1 other,
  ),
)

-- What `enqueue` leaves of the mailboxes.
enqueue_cases :
    (config : Config) (now : Moment) (writer : Fingerprint) (id : MailboxId) (entry : MailboxEntry)
    (s : Inner)
    → let entries = prune_expired now.wall (or_default (lookup id s.mailboxes)) in
      let after = (enqueue config now writer id entry s).1.mailboxes in
      let opened = insert id entries s.mailboxes in
      (after ≡ s.mailboxes)
      ⊎ (after ≡ opened)
      ⊎ ((length entries < max_mailbox_entries)
          × (written_by_count writer entries < max_entries_per_writer_per_mailbox)
          × (after
              ≡ insert id
                  (or_default (lookup id opened)
                    ++ record entry { flush_seq = s.next_flush_seq } ∷ [])
                  opened))
unfolding enqueue admit_mailbox open_mailbox reserve_memory push_entry recount_memory
enqueue_cases config now writer id entry s = ground arith

pub enqueue-IsLimited :
    (config : Config) (now : Moment) (writer : Fingerprint) (id : MailboxId) (entry : MailboxEntry)
    (s : Inner)
    → entry.written_by ≡ writer
    → IsLimited s.mailboxes
    → IsLimited (enqueue config now writer id entry s).1.mailboxes
unfolding prune_expired
enqueue-IsLimited config now writer id entry s by h =
    let entries = prune_expired now.wall (or_default (lookup id s.mailboxes)) in
    let w : IsWithinCaps entries =
      filter-IsWithinCaps (λ e. ltb now.wall e.expires_at) (or_default (lookup id s.mailboxes))
        (h id) in
    let opened : IsLimited (insert id entries s.mailboxes) =
      insert-IsLimited id entries s.mailboxes h w in
    elim (enqueue_cases config now writer id entry s) [
      | inl same ↦ rw same h
      | inr (inl reopened) ↦ rw reopened opened
      | inr (inr (short, quota, pushed)) ↦
          rw (pushed, lookup-insert_self id entries s.mailboxes)
            (insert-IsLimited id (entries ++ record entry { flush_seq = s.next_flush_seq } ∷ [])
              (insert id entries s.mailboxes) opened
              (push-IsWithinCaps writer (record entry { flush_seq = s.next_flush_seq }) entries by
                short quota w))
    ]

withdraw-IsLimited :
    (id : MailboxId) (entry_id : Bytes) (s : Inner)
    → IsLimited s.mailboxes
    → IsLimited (withdraw id entry_id s).mailboxes
unfolding withdraw
withdraw-IsLimited id entry_id s h = elim (Option-cases (lookup id s.mailboxes)) [
  | inl absent ↦ rw (absent, withdraw) h
  | inr (entries, e) ↦
      let w : IsWithinCaps entries = rw e at (h id) in
      rw (e, withdraw)
        (insert-IsLimited id (filter (λ x. not (x.entry_id == entry_id) || x.saved) entries)
          s.mailboxes h
          (filter-IsWithinCaps (λ x. not (x.entry_id == entry_id) || x.saved) entries w))
]

-- The mailboxes that an authenticated MailboxWrite may leave.
mailbox_write_cases :
    (config : Config) (now : Moment) (tx : ConnectionId) (writer : Fingerprint) (entry_id : Bytes)
    (meanwhile : Inner → Bool × Inner) (req : MailboxWrite) (s : Inner)
    → let after =
        (mailbox_write config now tx (some writer) entry_id meanwhile req s).1.mailboxes in
      let queued =
        (enqueue config now writer req.mailbox_id (new_entry now writer entry_id req) s).1 in
      (after ≡ s.mailboxes)
      ⊎ (after ≡ queued.mailboxes)
      ⊎ (after ≡ (meanwhile queued).1.mailboxes)
      ⊎ (after ≡ (withdraw req.mailbox_id entry_id (meanwhile queued).1).mailboxes)
unfolding mailbox_write await_save try_send
mailbox_write_cases config now tx writer entry_id meanwhile req s = ground arith

-- MailboxWrite keeps every mailbox within 256 entries and 128 of one writer, whatever its outcome and
-- for every request, if what the other tasks do while it waits for the save keeps that too.
pub mailbox_write-IsLimited :
    (config : Config) (now : Moment) (tx : ConnectionId) (authenticated : Option Fingerprint)
    (entry_id : Bytes) (meanwhile : Inner → Bool × Inner) (req : MailboxWrite) (s : Inner)
    → ((t : Inner) → IsLimited t.mailboxes → IsLimited (meanwhile t).1.mailboxes)
    → IsLimited s.mailboxes
    → IsLimited (mailbox_write config now tx authenticated entry_id meanwhile req s).1.mailboxes
unfolding mailbox_write
mailbox_write-IsLimited config now tx none entry_id meanwhile req s keeps h = h
mailbox_write-IsLimited config now tx (some writer) entry_id meanwhile req s keeps h =
    let entry = new_entry now writer entry_id req in
    let queued = (enqueue config now writer req.mailbox_id entry s).1 in
    let q : IsLimited queued.mailboxes =
      enqueue-IsLimited config now writer req.mailbox_id entry s refl h in
    elim (mailbox_write_cases config now tx writer entry_id meanwhile req s) [
      | inl same ↦ rw same h
      | inr (inl a) ↦ rw a q
      | inr (inr (inl b)) ↦ rw b (keeps queued q)
      | inr (inr (inr c)) ↦
          rw c (withdraw-IsLimited req.mailbox_id entry_id (meanwhile queued).1 (keeps queued q))
    ]
