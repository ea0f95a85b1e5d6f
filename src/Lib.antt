-- ===== src/Lib.antt =====
-- DRAtchet: an end-to-end encrypted messenger. Two clients run a Double Ratchet session that an X3DH
-- handshake starts; an untrusted signaling service keeps the directory of prekey bundles, presence
-- and mailboxes.
--
-- How the parts interact: a client fetches the peer's bundle from the service's directory, runs the
-- handshake on it (core/src/x3dh.rs), starts a session with the root key (core/src/ratchet.rs), pads
-- each payload (core/src/payload.rs), encrypts it to an envelope (core/src/envelope.rs), and leaves
-- that in a mailbox of the service (server/src/ws.rs), from which the peer fetches it. Each client
-- keeps its account, contacts, messages and sessions in a local database whose records are encrypted
-- (store/src/db.rs), and passes chat only for a contact that was verified (store/src/gate.rs).
--
-- The files:
-- - Base and its children: Boolean tests, lists measured by native numbers, finite maps, results, and in
--   Base/Actions methods on `&mut self` that may fail, with rules for those that end well in
--   Base/Endings. Base/Codecs is the interface of CBOR, Base/Names the order and the hex of keys.
-- - Core/Envelope, Core/Payload, Core/Username: the codecs and rules of core/src/envelope.rs,
--   core/src/payload.rs and core/src/username.rs, by the functions' names.
-- - Core/Identity: core/src/identity.rs and core/src/prekey.rs. Core/X3dh: core/src/x3dh.rs.
-- - Core/Prekey and Core/Account: core/src/prekey.rs and core/src/account.rs. Core/FirstContact:
--   core/src/first_contact.rs. Core/Payload/Contents: the payload types of core/src/payload.rs.
-- - Core/Ratchet: core/src/ratchet.rs. Keys has the key derivation, State the struct `RatchetState`
--   and its helpers, Tracker the two fields of `record_content_delivered`, Engine `encrypt` and
--   `decrypt_raw`. A method on `&mut self` is a function of the state that gives a result and a
--   state (Ratchet/Monad); what it wrote stays written when it fails, so that "no change on an error"
--   is a theorem about the order of its steps. Export is the
--   exported form of a session. The other files there prove properties.
-- - Server/Abuse: server/src/abuse.rs. Server/State: the struct `Inner` of server/src/state.rs, with
--   the queues of the clients' channels and the persisted records as values. Server/Mailbox,
--   Server/Directory, Server/Presence: the arms of `dispatch` and their helpers in server/src/ws.rs,
--   as handlers that run under the lock (Server/State/Action). Server/Pruning:
--   server/src/pruning.rs. Server/Address: server/src/address.rs, and in Slots the slots of
--   server/src/ws.rs that connections hold, as a relation of steps.
-- - Server/Storage and Server/MailStore: server/src/mailstore.rs, the records and files of the
--   store, then saving,
--   retaining and reading, and in Epochs the opening of a store. A directory is a map from file
--   names to contents, and the index two maps.
--   Server/Flush: server/src/flush.rs, which saves what is queued in `Inner` to that store.
-- - Store: the crate store/, with one file for one file there, but that Peers has routing.rs, profile.rs
--   and wipe_policy.rs, Records the records of all, and Scan the loop of the listings. Store/Db is
--   store/src/db.rs, and Store/Db/Lifecycle its creation, opening and wipes; the database engine is a
--   finite map that is walked in the order of its keys.
-- - App: app/src/lib.rs. Client is the database and the connection of a client, Receive `apply_entry`
--   with one function for each payload type, Send `transmit_chat` and its callers, Wipes the wipes that
--   a peer asks for, FirstContact `try_accept_first_contact`, Upkeep what is done for every conversation
--   at a start, Profiles the publishing of a bundle under a username and its claim at a start, Announce
--   what a client tells its contacts of itself. What the service answers to a client is a list that
--   is given ahead.
--
-- What is a parameter: the cryptographic crates (`Primitives`, `Signatures`), with the agreement of
-- X25519 and the opening of what the AEAD sealed as named hypotheses; random values, as arguments;
-- clocks, as arguments; CBOR (`Codec`), by reading back what it wrote; Argon2, the test of UTF-8 and
-- the random source of the store (`Platform`); the mail store's reads; and what other tasks do while
-- a write waits for its save.
--
-- Numbers: `u32` values are native numbers with their wrap-around written out; the limiters count
-- in nanoseconds of refill in place of `f64` tokens, so rounding is not modelled. The inner loop of
-- the delivery tracker runs on as much fuel as there are numbers out of order, each round of it
-- using up one of them.
--
-- The search for a proof of work runs on fuel, for which one more than any solution is enough.
--
-- Not modelled: of the app crate adding a contact and the loop of `receive_pending`; the client and
-- user-interface crates; failures of the database engines and the locks for concurrent receives and
-- flushes; rendering a QR code; the preparation of the mail store's directories on disk; the mail store
-- behind a fetch, which is its reads; the CBOR of the service's frames; the service's configuration;
-- logging and timers.
pub mod Base
pub mod Core
pub mod Server
pub mod Store
pub mod App
