-- ===== src/Server/Mailbox/Delivery.antt =====
-- server/src/ws.rs: what MailboxFetch answers with, from memory and from the mail store.
use mathlib.Core.List.{filter_map}
use dratchet.Base.{
  ◌≡◌, refl, ap, Bool, true, false, not, ◌&&◌, Option, none, some, List, [], ◌∷◌, Bytes, bytes_eq,
  pair_eq, inl, inr, ok, arith, map, lookup, filter, ltb, ◌==◌, length, Option-cases, if◌then◌else◌,
}
use dratchet.Server.Abuse.{Fingerprint}
use dratchet.Server.State.{
  Inner, bootstrap_mailbox_belongs_to_another, MailboxId, MailboxEntry, or_default, prune_expired,
}
use dratchet.Server.Mailbox.{
  Config, Moment, list_mailbox, in_memory, listing, meter_fetch, fetch_entries, read_all, read_one,
  StoreRead, found, collected, unreadable, read_saved_envelopes,
}

-- The entries that a fetcher is to see: of others, and not expired.
abbrev pub is_due : Moment → Fingerprint → MailboxEntry → Bool
is_due now fetcher e = ltb now.wall e.expires_at && not (e.written_by == fetcher)

abbrev read_back : Bytes → StoreRead → Option (Bytes × Bytes)
read_back id (found envelope) = some (id, envelope)
read_back id collected = none
read_back id unreadable = none

-- What is sent of an entry: its envelope from memory, or from the mail store once it is saved,
-- unless the store has it no more
abbrev pub sent_of : Option (Bytes → StoreRead) → MailboxEntry → Option (Bytes × Bytes)
sent_of store e =
    if e.saved
    then (elim store [ none ↦ none | some read ↦ read_back e.entry_id (read e.entry_id) ])
    else some (e.entry_id, e.envelope)

in_memory-listing :
    (entries : List MailboxEntry)
    → in_memory (map listing entries) ≡ filter_map (sent_of none) entries
unfolding in_memory filter_map
in_memory-listing [] = refl
in_memory-listing (e ∷ entries) = ground (arith, in_memory-listing entries)

read_all-listing :
    (store : Bytes → StoreRead) (entries : List MailboxEntry)
    → (read_all store (map listing entries)).0 ≡ filter_map (sent_of (some store)) entries
unfolding read_all read_one filter_map
read_all-listing store [] = refl
read_all-listing store (e ∷ entries) = ground (arith, read_all-listing store entries)

read_saved_envelopes_sent :
    (config : Config) (id : MailboxId) (entries : List MailboxEntry) (s : Inner)
    → (read_saved_envelopes config id (map listing entries) s).0
      ≡ filter_map (sent_of config.mail_store) entries
unfolding read_saved_envelopes
read_saved_envelopes_sent config id entries s = elim (Option-cases config.mail_store) [
  | inl absent ↦ rw (absent, read_saved_envelopes) (in_memory-listing entries)
  | inr (store, e) ↦ rw (e, read_saved_envelopes) (read_all-listing store entries)
]

filter_due :
    (now : Moment) (fetcher : Fingerprint) (entries : List MailboxEntry)
    → filter (λ e. not (e.written_by == fetcher)) (prune_expired now.wall entries)
      ≡ filter (is_due now fetcher) entries
unfolding filter prune_expired
filter_due now fetcher [] = refl
filter_due now fetcher (e ∷ entries) = ground (arith, filter_due now fetcher entries)

-- Where the handler of MailboxFetch gets past its guards.
abbrev pub MayFetch : Moment → Fingerprint → MailboxId → Inner → Type 0
MayFetch now fetcher id s =
    ((meter_fetch now fetcher s).0 ≡ true)
    × (bootstrap_mailbox_belongs_to_another id fetcher s ≡ false)
    × (length id ≡ 16)

list_mailbox_due :
    (now : Moment) (fetcher : Fingerprint) (id : MailboxId) (s : Inner)
    → (list_mailbox now fetcher id s).0
      ≡ map listing (filter (is_due now fetcher) (or_default (lookup id s.mailboxes)))
unfolding list_mailbox filter
list_mailbox_due now fetcher id s = elim (Option-cases (lookup id s.mailboxes)) [
  | inl absent ↦ rw (absent, list_mailbox) refl
  | inr (entries, e) ↦ rw (e, list_mailbox) (ap (map listing) (filter_due now fetcher entries))
]

-- A fetch that the limiter grants, of a mailbox id of 16 bytes that is not the bootstrap mailbox
-- of another account, answers with exactly the mail of the mailbox that another identity wrote and
-- that has not expired, in the order it was written: an entry in memory with its envelope, and a
-- saved one with the envelope that the mail store gives for its id. Only a saved entry that the
-- store does not give is left out.
pub fetch_entries_exact :
    (config : Config) (now : Moment) (fetcher : Fingerprint) (id : MailboxId) (s : Inner)
    → MayFetch now fetcher id s
    → (fetch_entries config now (some fetcher) id s).0
      ≡ ok (
          filter_map
            (sent_of config.mail_store)
            (filter (is_due now fetcher) (or_default (lookup id s.mailboxes))))
unfolding fetch_entries bootstrap_mailbox_belongs_to_another
fetch_entries_exact config now fetcher id s (granted, own, sixteen) =
    let metered : Inner = (meter_fetch now fetcher s).1 in
    let listed = list_mailbox_due now fetcher id metered in
    rw (sixteen, granted, own, listed)
      (ap ok (read_saved_envelopes_sent config id _ (list_mailbox now fetcher id metered).1))
