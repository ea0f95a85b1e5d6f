-- ===== src/Server/State.antt =====
-- server/src/state.rs: the service's state behind its lock, with the channels to the clients and the
-- frames that travel on them (server/src/protocol.rs) as values.
pub mod Action
use dratchet.Base.{
  ℕ, zero, suc, ◌+◌, ◌*◌, Bool, true, false, not, ◌&&◌, ◌||◌, Option, none, some, List, [], ◌∷◌,
  ◌++◌, Bytes, bytes_eq, nat_eq, pair_eq, ◌==◌, ltb, if◌then◌else◌, Map, lookup, insert, length,
  filter, elem, Eq,
}
use dratchet.Core.X3dh.{bootstrap_mailbox_id}
use dratchet.Core.Identity.{Signatures}
use dratchet.Server.Errors.{Error}
use dratchet.Server.Abuse.{ConnectionId, Fingerprint, FetchRateLimiter, Limiter}

abbrev pub MailboxId : Type 0
MailboxId = Bytes

abbrev pub max_envelope_len : ℕ
max_envelope_len = 64 * 1024

abbrev pub max_mailbox_entries : ℕ
max_mailbox_entries = 256

abbrev pub max_entries_per_writer_per_mailbox : ℕ
max_entries_per_writer_per_mailbox = 128

abbrev pub max_one_time_prekeys_per_publish : ℕ
max_one_time_prekeys_per_publish = 100

abbrev pub max_sdp_len : ℕ
max_sdp_len = 64 * 1024

abbrev pub max_ice_candidates : ℕ
max_ice_candidates = 64

abbrev pub max_ice_candidate_len : ℕ
max_ice_candidate_len = 4096

abbrev pub max_queued_outbound_frames : ℕ
max_queued_outbound_frames = 64

-- A username and its discriminator.
abbrev pub UsernameKey : Type 0
UsernameKey = Bytes × ℕ

pub record OneTimePrekeyWire : Type 0 where
  pub id : ℕ
  pub key : Bytes

pub record PrekeyBundleWire : Type 0 where
  pub username : Bytes
  pub discriminator : ℕ
  pub identity_key : Bytes
  pub identity_dh_public : Bytes
  pub identity_dh_signature : Bytes
  pub signed_prekey_id : ℕ
  pub signed_prekey : Bytes
  pub signed_prekey_sig : Bytes
  pub signed_prekey_expires_at : ℕ
  pub one_time_prekeys : List OneTimePrekeyWire
  pub registration_pow : Option ℕ

-- `FetchedBundleWire`: the bundle's fields but for its pool and proof of work, and the one-time
-- prekey that was taken.
pub record FetchedBundleWire : Type 0 where
  pub username : Bytes
  pub discriminator : ℕ
  pub identity_key : Bytes
  pub identity_dh_public : Bytes
  pub identity_dh_signature : Bytes
  pub signed_prekey_id : ℕ
  pub signed_prekey : Bytes
  pub signed_prekey_sig : Bytes
  pub signed_prekey_expires_at : ℕ
  pub one_time_prekey : Option OneTimePrekeyWire

pub record StoredBundle : Type 0 where
  pub bundle : PrekeyBundleWire
  pub one_time_prekeys : Map ℕ Bytes

pub data PresenceState : Type 0 where
  online away : PresenceState
  offline : (last_seen : ℕ) → PresenceState

-- `expires_at` is a wall-clock time in nanoseconds.
pub record MailboxEntry : Type 0 where
  pub entry_id : Bytes
  pub envelope : Bytes
  pub expires_at : ℕ
  pub written_by : Fingerprint
  pub saved : Bool
  pub flush_seq : ℕ

-- The frames that the service sends.
pub data Frame : Type 0 where
  ack : Bool → Frame
  bundle_result : Option FetchedBundleWire → Frame
  presence_update : Fingerprint → ℕ → Option ℕ → Frame
  rendezvous_offer rendezvous_answer : Fingerprint → Bytes → List Bytes → Frame
  mailbox_entries : List (Bytes × Bytes) → Frame
  own_prekey_count : ℕ → Frame

-- `Inner`, with the frames queued on each connection's channel (`outboxes`; a connection that is not
-- there has a closed channel) and the records written by the directory's persistence, newest first.
pub record Inner : Type 0 where
  pub directory : Map Fingerprint StoredBundle
  pub bootstrap_mailbox_index : Map MailboxId Fingerprint
  pub username_index : Map UsernameKey Fingerprint
  pub presence : Map Fingerprint PresenceState
  pub subscriptions : Map Fingerprint (List Fingerprint)
  pub fetch_evidence : Map Fingerprint (List Fingerprint)
  pub mailboxes : Map MailboxId (List MailboxEntry)
  pub connections : Map Fingerprint ConnectionId
  pub fetch_rate_limiter : FetchRateLimiter
  pub new_mailbox_rate_limiter : Limiter
  pub rendezvous_rate_limiter : Limiter
  pub mailbox_fetch_rate_limiter : Limiter
  pub mailbox_delete_rate_limiter : Limiter
  pub otp_exhaustion_attempts : Map Fingerprint ℕ
  pub memory_bytes : ℕ
  pub next_flush_seq : ℕ
  pub outboxes : Map ConnectionId (List Frame)
  pub persisted : List (Fingerprint × StoredBundle)

-- `or_default()` on maps to lists
abbrev pub or_default {ℓ} : {A : Type ℓ} → Option (List A) → List A
or_default none = []
or_default (some xs) = xs

-- `HashSet::insert`, on the list of the elements
abbrev pub set_add {ℓ} : {A : Type ℓ} ⦃e : Eq A⦄ → A → List A → List A
set_add a xs = if elem a xs then xs else a ∷ xs

-- `tx.try_send`: refused where the channel is full or closed.
unfoldable pub try_send : ConnectionId → Frame → Inner → Bool × Inner
try_send tx frame s = elim (lookup tx s.outboxes) [
  | none ↦ (false, s)
  | some queue ↦
      if ltb (length queue) max_queued_outbound_frames
      then (true, record s { outboxes = insert tx (queue ++ frame ∷ []) s.outboxes })
      else (false, s)
]

unfoldable pub prune_expired : ℕ → List MailboxEntry → List MailboxEntry
prune_expired now = filter (λ e. ltb now e.expires_at)

-- The sum over the entries that are only in memory.
unfoldable pub unsaved_bytes : List MailboxEntry → ℕ
unsaved_bytes [] = 0
unsaved_bytes (e ∷ entries) = (if e.saved then 0 else length e.envelope) + unsaved_bytes entries

unfoldable pub total_unsaved : Map MailboxId (List MailboxEntry) → ℕ
total_unsaved [] = 0
total_unsaved ((_, entries) ∷ m) = unsaved_bytes entries + total_unsaved m

unfoldable pub recount_memory : Inner → Inner
recount_memory s = record s { memory_bytes = total_unsaved s.mailboxes }

unfoldable pub register_bundle : Signatures → Fingerprint → StoredBundle → Inner → Inner
register_bundle g fingerprint stored s = record s {
  bootstrap_mailbox_index =
      insert (bootstrap_mailbox_id g fingerprint) fingerprint s.bootstrap_mailbox_index;
  directory = insert fingerprint stored s.directory;
}

unfoldable pub bootstrap_mailbox_belongs_to_another : MailboxId → Fingerprint → Inner → Bool
bootstrap_mailbox_belongs_to_another mailbox_id caller s =
    elim (lookup mailbox_id s.bootstrap_mailbox_index) [
      | none ↦ false
      | some owner ↦ not (owner == caller)
    ]
