-- ===== src/Server/Mailbox.antt =====
-- server/src/ws.rs: the handlers of MailboxWrite, MailboxFetch, MailboxDelete and
-- FetchOwnPrekeyCount. The mail store on disk (server/src/mailstore.rs) and the tasks that run while
-- a write waits for its save are arguments.
pub mod Bounds
pub mod Delivery
use dratchet.Base.{
  ℕ, ◌+◌, ◌*◌, ◌/◌, Bool, true, false, not, ◌&&◌, ◌||◌, Option, none, some, List, [], ◌∷◌, ◌++◌,
  Bytes, bytes_eq, nat_eq, ◌==◌, ltb, leb, eqb, if◌then◌else◌, Map, lookup, insert, contains_key,
  length, filter, elem, map, ok, err, ok_or,
}
use dratchet.Core.Identity.{Signatures}
use dratchet.Server.Errors.{
  Error, ServerResult, auth_required, malformed_frame, envelope_too_large, mailbox_full,
  writer_quota_exceeded, new_mailbox_rate_limited, write_refused, rate_limited, not_mailbox_owner,
}
use dratchet.Server.Abuse.{
  ConnectionId, Fingerprint, nanos_per_sec, new_mailbox_allow, mailbox_fetch_allow,
  mailbox_delete_allow,
}
use dratchet.Server.State.{
  Inner, MailboxId, MailboxEntry, Frame, ack, mailbox_entries, own_prekey_count, or_default,
  try_send, prune_expired, recount_memory, bootstrap_mailbox_belongs_to_another, max_envelope_len,
  max_mailbox_entries, max_entries_per_writer_per_mailbox,
}
use dratchet.Server.State.Action.{Action, ◌>>=◌, ◌>>◌, pure, lift, gets, state, modify, fail_if}

-- `Instant::now()` and `SystemTime::now()`, in nanoseconds.
pub record Moment : Type 0 where
  pub instant : ℕ
  pub wall : ℕ

-- `MailStore::read_envelope`: the envelope, an entry that was collected meanwhile, or an error.
pub data StoreRead : Type 0 where
  found : Bytes → StoreRead
  collected unreadable : StoreRead

-- What the service was started with.
pub record Config : Type 0 where
  pub signatures : Signatures
  pub memory_limit : ℕ
  pub mail_store : Option (Bytes → StoreRead)

pub record MailboxWrite : Type 0 where
  pub mailbox_id : Bytes
  pub envelope : Bytes
  pub ttl : ℕ

-- `try_into` of a slice to an array
abbrev pub exactly : ℕ → Bytes → Error → ServerResult Bytes
exactly n bytes e = if eqb (length bytes) n then ok bytes else err e

abbrev pub reply : ConnectionId → Frame → Action (Unit {0})
reply tx frame = state (λ s. (tt, (try_send tx frame s).1))

-- `new_mailbox_rate_limiter.allow`, which only a mailbox that is not there asks.
unfoldable pub admit_mailbox : Moment → Fingerprint → MailboxId → Inner → Bool × Inner
admit_mailbox now writer mailbox_id s =
    if contains_key mailbox_id s.mailboxes
    then (true, s)
    else (let (granted, limiter) =
          new_mailbox_allow now.instant writer s.new_mailbox_rate_limiter in
        (granted, record s { new_mailbox_rate_limiter = limiter }))

abbrev pub put_mailbox : MailboxId → List MailboxEntry → Inner → Inner
put_mailbox mailbox_id entries s = record s { mailboxes = insert mailbox_id entries s.mailboxes }

-- `entry(mailbox_id).or_default()` and `prune_expired`
unfoldable pub open_mailbox : Moment → MailboxId → Inner → List MailboxEntry × Inner
open_mailbox now mailbox_id s =
    let entries = prune_expired now.wall (or_default (lookup mailbox_id s.mailboxes)) in
    (entries, put_mailbox mailbox_id entries s)

unfoldable pub written_by_count : Fingerprint → List MailboxEntry → ℕ
written_by_count writer entries = length (filter (λ e. e.written_by == writer) entries)

-- Is there room in memory? The running total is recounted before the answer is no.
unfoldable pub reserve_memory : ℕ → ℕ → Inner → Bool × Inner
reserve_memory memory_limit len s =
    if ltb memory_limit (s.memory_bytes + len)
    then (let s' = recount_memory s in (leb (s'.memory_bytes + len) memory_limit, s'))
    else (true, s)

unfoldable pub push_entry : MailboxId → MailboxEntry → Inner → Inner
push_entry mailbox_id entry s = record s {
  mailboxes =
      insert mailbox_id
        (or_default (lookup mailbox_id s.mailboxes)
          ++ record entry { flush_seq = s.next_flush_seq } ∷ [])
        s.mailboxes;
  memory_bytes = s.memory_bytes + length entry.envelope;
}

-- The part of MailboxWrite under its first lock.
unfoldable pub enqueue :
    Config → Moment → Fingerprint → MailboxId → MailboxEntry → Action (Unit {0})
enqueue config now writer mailbox_id entry = do
  admitted ← state (admit_mailbox now writer mailbox_id)
  fail_if (not admitted) new_mailbox_rate_limited
  entries ← state (open_mailbox now mailbox_id)
  fail_if (leb max_mailbox_entries (length entries)) mailbox_full
  fail_if (leb max_entries_per_writer_per_mailbox (written_by_count writer entries))
      writer_quota_exceeded
  room ← state (reserve_memory config.memory_limit (length entry.envelope))
  fail_if (not room) write_refused
  modify (push_entry mailbox_id entry)

-- Give up on an entry that no save has covered.
unfoldable pub withdraw : MailboxId → Bytes → Inner → Inner
withdraw mailbox_id entry_id s = elim (lookup mailbox_id s.mailboxes) [
  | none ↦ s
  | some entries ↦
      put_mailbox mailbox_id (filter (λ e. not (e.entry_id == entry_id) || e.saved) entries) s
]

abbrev pub is_persistent : Config → Bool
is_persistent config = elim config.mail_store [ none ↦ false | some _ ↦ true ]

-- `meanwhile` is what the other tasks do to the state while a write waits, and whether the save that
-- covers the entry came in time.
unfoldable pub await_save : Config → MailboxId → Bytes → (Inner → Bool × Inner) → Action (Unit {0})
await_save config mailbox_id entry_id meanwhile s =
    if is_persistent config
    then (let (was_saved, s') = meanwhile s in
        if was_saved then (ok tt, s') else (err write_refused, withdraw mailbox_id entry_id s'))
    else (ok tt, s)

abbrev pub new_entry : Moment → Fingerprint → Bytes → MailboxWrite → MailboxEntry
new_entry now writer entry_id req = record {
  entry_id = entry_id;
  envelope = req.envelope;
  expires_at = now.wall + req.ttl * nanos_per_sec;
  written_by = writer;
  saved = false;
  flush_seq = 0;
}

-- `entry_id` is the random id that the entry gets.
unfoldable pub mailbox_write :
    Config
    → Moment
    → ConnectionId
    → Option Fingerprint
    → Bytes
    → (Inner → Bool × Inner)
    → MailboxWrite
    → Action (Unit {0})
mailbox_write config now tx authenticated entry_id meanwhile req = do
  writer ← lift (ok_or authenticated auth_required)
  fail_if (ltb max_envelope_len (length req.envelope)) envelope_too_large
  mailbox_id ← lift (exactly 16 req.mailbox_id (malformed_frame "mailbox_id must be 16 bytes"))
  enqueue config now writer mailbox_id (new_entry now writer entry_id req)
  await_save config mailbox_id entry_id meanwhile
  reply tx (ack true)

abbrev pub Listed : Type 0
Listed = List (Bytes × Option Bytes)

abbrev pub listing : MailboxEntry → Bytes × Option Bytes
listing e = (e.entry_id, if e.saved then none else some e.envelope)

-- The pruned mailbox without what the fetcher wrote.
unfoldable pub list_mailbox : Moment → Fingerprint → MailboxId → Inner → Listed × Inner
list_mailbox now fetcher mailbox_id s = elim (lookup mailbox_id s.mailboxes) [
  | none ↦ ([], s)
  | some stored ↦
      let entries = prune_expired now.wall stored in
      (
        map listing (filter (λ e. not (e.written_by == fetcher)) entries),
        put_mailbox mailbox_id entries s,
      )
]

-- The envelopes in memory, and no others: there is no mail store.
unfoldable pub in_memory : Listed → List (Bytes × Bytes)
in_memory [] = []
in_memory ((id, none) ∷ listed) = in_memory listed
in_memory ((id, some envelope) ∷ listed) = (id, envelope) ∷ in_memory listed

unfoldable pub read_one :
    (Bytes → StoreRead)
    → Bytes
    → Option Bytes
    → List (Bytes × Bytes) × List Bytes
    → List (Bytes × Bytes) × List Bytes
read_one store id (some envelope) (wire, lost) = ((id, envelope) ∷ wire, lost)
read_one store id none (wire, lost) = elim (store id) [
  | found envelope ↦ ((id, envelope) ∷ wire, lost)
  | collected ↦ (wire, lost)
  | unreadable ↦ (wire, id ∷ lost)
]

-- What the store still holds, and the ids of the entries that it lost.
unfoldable pub read_all : (Bytes → StoreRead) → Listed → List (Bytes × Bytes) × List Bytes
read_all store [] = ([], [])
read_all store ((id, envelope) ∷ listed) = read_one store id envelope (read_all store listed)

abbrev pub forget : MailboxId → List Bytes → Inner → Inner
forget mailbox_id [] s = s
forget mailbox_id (id ∷ ids) s = elim (lookup mailbox_id s.mailboxes) [
  | none ↦ s
  | some entries ↦ put_mailbox mailbox_id (filter (λ e. not (elem e.entry_id (id ∷ ids))) entries) s
]

-- An entry that does not read back is dropped; the advance of the server epoch is not modelled.
unfoldable pub read_saved_envelopes :
    Config → MailboxId → Listed → Inner → List (Bytes × Bytes) × Inner
read_saved_envelopes config mailbox_id listed s = elim config.mail_store [
  | none ↦ (in_memory listed, s)
  | some store ↦ let (wire, lost) = read_all store listed in (wire, forget mailbox_id lost s)
]

abbrev pub meter_fetch : Moment → Fingerprint → Inner → Bool × Inner
meter_fetch now fetcher s =
    let (granted, limiter) = mailbox_fetch_allow now.instant fetcher s.mailbox_fetch_rate_limiter in
    (granted, record s { mailbox_fetch_rate_limiter = limiter })

abbrev pub meter_delete : Moment → Fingerprint → Inner → Bool × Inner
meter_delete now deleter s =
    let (granted, limiter) =
      mailbox_delete_allow now.instant deleter s.mailbox_delete_rate_limiter in
    (granted, record s { mailbox_delete_rate_limiter = limiter })

-- The entries that MailboxFetch answers with.
unfoldable pub fetch_entries :
    Config → Moment → Option Fingerprint → Bytes → Action (List (Bytes × Bytes))
fetch_entries config now authenticated id = do
  fetcher ← lift (ok_or authenticated auth_required)
  mailbox_id ← lift (exactly 16 id (malformed_frame "mailbox_id must be 16 bytes"))
  granted ← state (meter_fetch now fetcher)
  fail_if (not granted) rate_limited
  foreign ← gets (bootstrap_mailbox_belongs_to_another mailbox_id fetcher)
  fail_if foreign not_mailbox_owner
  listed ← state (list_mailbox now fetcher mailbox_id)
  state (read_saved_envelopes config mailbox_id listed)

unfoldable pub mailbox_fetch :
    Config → Moment → ConnectionId → Option Fingerprint → Bytes → Action (Unit {0})
mailbox_fetch config now tx authenticated id = do
  entries ← fetch_entries config now authenticated id
  reply tx (mailbox_entries entries)

unfoldable pub delete_entry : MailboxId → Bytes → Inner → Inner
delete_entry mailbox_id entry_id s = elim (lookup mailbox_id s.mailboxes) [
  | none ↦ s
  | some entries ↦ put_mailbox mailbox_id (filter (λ e. not (e.entry_id == entry_id)) entries) s
]

unfoldable pub mailbox_delete :
    Moment → ConnectionId → Option Fingerprint → Bytes → Bytes → Action (Unit {0})
mailbox_delete now tx authenticated id entry = do
  deleter ← lift (ok_or authenticated auth_required)
  mailbox_id ← lift (exactly 16 id (malformed_frame "mailbox_id must be 16 bytes"))
  entry_id ← lift (exactly 16 entry (malformed_frame "entry_id must be 16 bytes"))
  granted ← state (meter_delete now deleter)
  fail_if (not granted) rate_limited
  foreign ← gets (bootstrap_mailbox_belongs_to_another mailbox_id deleter)
  fail_if foreign not_mailbox_owner
  modify (delete_entry mailbox_id entry_id)
  reply tx (ack true)

unfoldable pub prekeys_remaining : Fingerprint → Inner → ℕ
prekeys_remaining fp s = elim (lookup fp s.directory) [
  | none ↦ 0
  | some stored ↦ length stored.one_time_prekeys
]

unfoldable pub fetch_own_prekey_count : ConnectionId → Option Fingerprint → Action (Unit {0})
fetch_own_prekey_count tx authenticated = do
  fp ← lift (ok_or authenticated auth_required)
  remaining ← gets (prekeys_remaining fp)
  reply tx (own_prekey_count remaining)
