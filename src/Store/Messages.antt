-- ===== src/Store/Messages.antt =====
-- store/src/messages.rs: the message records of the conversations. `now` is `now_unix()`.
pub mod Delivery
pub mod Order
use dratchet.Base.{
  ℕ, ◌+◌, Bool, true, false, not, ◌&&◌, ◌||◌, Option, none, some, List, [], ◌∷◌, ◌++◌, Bytes,
  bytes_eq, nat_eq, pair_eq, codes, leb, ltb, eqb, if◌then◌else◌, filter, Result, ok, err, ok_or,
  is_some, ◌==◌, map, Eq, any,
}
use dratchet.Base.Names.{hex}
use dratchet.Base.Actions.{Method, ◌>>=◌, ◌>>◌, pure, lift, gets, state, modify}
use dratchet.Store.Errors.{Error, StoreResult, malformed_record}
use dratchet.Store.Db.{
  Platform, Db, Action, content, keys_with_prefix, put_encrypted, get_encrypted, delete,
}
use dratchet.Base.Codecs.{Codec}
use dratchet.Store.Records.{Message, RetryReason, send_failed, expired, server_restarted}
use dratchet.Store.Scan.{scan_records}

unfoldable pub message_key_prefix : Bytes → Bytes
message_key_prefix conversation_id = codes "message:" ++ (hex conversation_id ++ codes ":")

unfoldable pub message_key : Bytes → Bytes → Bytes
message_key conversation_id message_id = message_key_prefix conversation_id ++ hex message_id

-- `a == Some(b)`
abbrev pub is_just {ℓ} : {A : Type ℓ} ⦃e : Eq A⦄ → Option A → A → Bool
is_just none b = false
is_just ⦃e⦄ (some a) b = e.beq a b

-- `(a.timestamp, a.sequence) <= (b.timestamp, b.sequence)`
abbrev pub not_after : Message → Message → Bool
not_after a b =
    ltb a.timestamp b.timestamp || (eqb a.timestamp b.timestamp && leb a.sequence b.sequence)

unfoldable pub insert_by_time : Message → List Message → List Message
insert_by_time m [] = m ∷ []
insert_by_time m (n ∷ ns) = if not_after m n then m ∷ n ∷ ns else n ∷ insert_by_time m ns

-- `sort_by_key(|m| (m.timestamp, m.sequence))`, which is stable
unfoldable pub sort_by_time : List Message → List Message
sort_by_time [] = []
sort_by_time (m ∷ ms) = insert_by_time m (sort_by_time ms)

-- `self.message_sequence.fetch_add(1, Relaxed)`
abbrev pub next_sequence : Db → ℕ × Db
next_sequence db = (db.message_sequence, record db { message_sequence = db.message_sequence + 1 })

-- A new message's fields but for those that differ.
abbrev pub blank : Bytes → Bool → Bytes → ℕ → ℕ → Message
blank id sender_is_local body now sequence = record {
  id = id;
  sender_is_local = sender_is_local;
  content = body;
  timestamp = now;
  sequence = sequence;
  send_n = none;
  send_dh_pub = none;
  recv_n = none;
  recv_dh_pub = none;
  delivered = false;
  uncertain = false;
  retry_reason = none;
  peer_message_id = none;
  last_sent_at = none;
}

abbrev pub server_boot_id_key : Bytes
server_boot_id_key = codes "server:boot_id"

unfoldable pub delete_message : Bytes → Bytes → Db → Db
delete_message conversation_id message_id = delete (message_key conversation_id message_id)

-- The message that was decrypted from the same envelope, if one of these was.
unfoldable pub find_received : Bytes → ℕ → List Message → Option Message
find_received recv_dh_pub recv_n [] = none
find_received recv_dh_pub recv_n (m ∷ ms) =
    if not m.sender_is_local && (is_just m.recv_n recv_n && is_just m.recv_dh_pub recv_dh_pub)
    then some m
    else find_received recv_dh_pub recv_n ms

-- The received message that the peer gave this id, if there is one.
unfoldable pub find_resent : Bytes → List Message → Option Message
find_resent peer_id [] = none
find_resent peer_id (m ∷ ms) =
    if not m.sender_is_local && is_just m.peer_message_id peer_id
    then some m
    else find_resent peer_id ms

module _ (v : Platform) where
  abbrev pub random_message_id : Db → Bytes × Db
  random_message_id db = (v.random db.draws 16, record db { draws = db.draws + 1 })

  unfoldable pub load_server_boot_id : Action (Option Bytes)
  load_server_boot_id = get_encrypted v content server_boot_id_key

  unfoldable pub save_server_boot_id : Bytes → Db → Db
  save_server_boot_id boot_id = put_encrypted v content server_boot_id_key boot_id

  unfoldable pub new_outgoing_message : ℕ → Bytes → Db → Message × Db
  new_outgoing_message now body db =
      let (id, drawn) = random_message_id db in
      let (sequence, counted) = next_sequence drawn in
      (record (blank id true body now sequence) { retry_reason = some send_failed }, counted)

module _ (v : Platform) (codec : Codec Message) where
  unfoldable pub decode_message : Bytes → StoreResult Message
  decode_message bytes =
      ok_or (codec.from_cbor bytes)
        (malformed_record "stored message is not valid CBOR for this shape")

  unfoldable pub save_message : Bytes → Message → Db → Db
  save_message conversation_id message =
      put_encrypted v content (message_key conversation_id message.id) (codec.to_cbor message)

  -- A record whose key was listed: it has to be there and to be readable.
  unfoldable pub load_listed : Bytes → Action Message
  load_listed key = do
    found ← get_encrypted v content key
    bytes ← lift (ok_or found (malformed_record "message key listed but not found"))
    lift (decode_message bytes)

  -- The loop of `recover_message_sequence`
  unfoldable pub highest_sequence : List Bytes → ℕ → Action ℕ
  highest_sequence [] next = pure next
  highest_sequence (key ∷ others) next = do
    message ← load_listed key
    highest_sequence others (if leb (message.sequence + 1) next then next else message.sequence + 1)

  unfoldable pub recover_message_sequence : Action ℕ
  recover_message_sequence db = highest_sequence (keys_with_prefix (codes "message:") db) 0 db

  unfoldable pub save_message_now :
      ℕ → Bytes → Bytes → Bool → Option ℕ → Option Bytes → Db → Message × Db
  save_message_now now conversation_id body sender_is_local send_n send_dh_pub db =
      let (id, drawn) = random_message_id v db in
      let (sequence, counted) = next_sequence drawn in
      let message : Message = record (blank id sender_is_local body now sequence) {
        send_n = send_n;
        send_dh_pub = send_dh_pub;
      } in
      (message, save_message conversation_id message counted)

  -- The loop of `save_received_message_idempotent` over the conversation's records, which ends at
  -- the first match.
  unfoldable pub find_duplicate : Bytes → ℕ → List Bytes → Action (Option Message)
  find_duplicate recv_dh_pub recv_n [] = pure none
  find_duplicate recv_dh_pub recv_n (key ∷ others) = do
    existing ← load_listed key
    elim (find_received recv_dh_pub recv_n (existing ∷ [])) [
      | some message ↦ pure (some message)
      | none ↦ find_duplicate recv_dh_pub recv_n others
    ]

  unfoldable pub store_received : ℕ → Bytes → Bytes → Bytes → ℕ → Db → Message × Db
  store_received now conversation_id body recv_dh_pub recv_n db =
      let (id, drawn) = random_message_id v db in
      let (sequence, counted) = next_sequence drawn in
      let message : Message = record (blank id false body now sequence) {
        recv_n = some recv_n;
        recv_dh_pub = some recv_dh_pub;
      } in
      (message, save_message conversation_id message counted)

  unfoldable pub save_received_message_idempotent : ℕ → Bytes → Bytes → Bytes → ℕ → Action Message
  save_received_message_idempotent now conversation_id body recv_dh_pub recv_n = do
    listed ← gets (keys_with_prefix (message_key_prefix conversation_id))
    duplicate ← find_duplicate recv_dh_pub recv_n listed
    elim duplicate [
      | some existing ↦ pure existing
      | none ↦ state (store_received now conversation_id body recv_dh_pub recv_n)
    ]

  unfoldable pub load_message : Bytes → Bytes → Action (Option Message)
  load_message conversation_id message_id = do
    found ← get_encrypted v content (message_key conversation_id message_id)
    elim found [
      | none ↦ pure none
      | some bytes ↦ (do message ← lift (decode_message bytes); pure (some message))
    ]

  unfoldable pub list_messages_counting_unreadable : Bytes → Db → (List Message × ℕ) × Db
  list_messages_counting_unreadable conversation_id db =
      let (found, after) =
        scan_records v content codec (keys_with_prefix (message_key_prefix conversation_id) db)
          db in
      ((sort_by_time found.0, found.1), after)

  unfoldable pub list_messages : Bytes → Db → List Message × Db
  list_messages conversation_id db =
      let (found, after) = list_messages_counting_unreadable conversation_id db in (found.0, after)

  -- The peer's id of a received message, once the message has been stored.
  unfoldable pub note_peer_id : Bytes → Option Bytes → Message → Db → Message × Db
  note_peer_id conversation_id none message db = (message, db)
  note_peer_id conversation_id (some peer_id) message db =
      if is_just message.peer_message_id peer_id
      then (message, db)
      else (let noted : Message = record message { peer_message_id = some peer_id } in
          (noted, save_message conversation_id noted db))

  -- A resent message that is already there, if the peer gave it an id.
  unfoldable pub find_resent_in : Bytes → Option Bytes → Db → Option Message × Db
  find_resent_in conversation_id none db = (none, db)
  find_resent_in conversation_id (some peer_id) db =
      let (found, after) = list_messages conversation_id db in (find_resent peer_id found, after)

  -- The message, and whether it had been received before.
  unfoldable pub save_received_chat :
      ℕ → Bytes → Bytes → Bytes → ℕ → Option Bytes → Action (Message × Bool)
  save_received_chat now conversation_id body recv_dh_pub recv_n peer_message_id = do
    resent ← state (find_resent_in conversation_id peer_message_id)
    elim resent [
      | some existing ↦ pure (existing, true)
      | none ↦ (do
        message ← save_received_message_idempotent now conversation_id body recv_dh_pub recv_n
        noted ← state (note_peer_id conversation_id peer_message_id message)
        pure (noted, false))
    ]
