-- ===== src/App/Send.antt =====
-- app/src/lib.rs: sending a chat message, and sending one again. `now` is `now_unix()`; what goes wrong when the
-- routing id is announced again is only logged.
pub mod Kept
use dratchet.Base.{
  ℕ, Bool, true, false, not, ◌||◌, Option, none, some, List, [], ◌∷◌, Bytes, ok, err, ok_or,
  if◌then◌else◌, is_some,
}
use dratchet.Base.Actions.{Method, ◌>>=◌, ◌>>◌, pure, lift, gets, fail_if}
use dratchet.Core.Envelope.{Envelope, encode}
use dratchet.Core.Payload.{payload_chat}
use dratchet.Core.Payload.Contents.{ChatContent, PiggybackAck}
use dratchet.Core.Ratchet.State.{RatchetState, receiving_progress}
use dratchet.Core.X3dh.{bootstrap_mailbox_id}
use dratchet.Store.Errors as StoreErrors
use dratchet.Store.Records.{Contact, Message, send_failed}
use dratchet.Store.Contacts.{load_contact}
use dratchet.Store.Gate.{is_verified, encrypt_gated}
use dratchet.Store.Messages.{save_message, load_message, new_outgoing_message}
use dratchet.Store.Sessions.{save_ratchet}
use dratchet.App.Errors.{Error, AppResult, store, connection, not_sent, nothing_to_retry}
use dratchet.App.Client.{
  Crates, Client, Action, of_store, on_db, from_db, update_db, conversation_id_for, session_of,
  write_mailbox,
}

abbrev pub piggyback : Option (Bytes × ℕ) → Option PiggybackAck
piggyback none = none
piggyback (some (dh_pub, highest_n)) = some (record { dh_pub = dh_pub; highest_n = highest_n })

abbrev pub is_empty : Bytes → Bool
is_empty [] = true
is_empty (b ∷ bs) = false

-- The message as it is stored before it is sent: failed until the service has it.
abbrev pub in_flight : Envelope → Message → Message
in_flight envelope message = record message {
  send_n = some envelope.n;
  send_dh_pub = some envelope.dh_pub;
  delivered = false;
  uncertain = false;
  retry_reason = some send_failed;
}

module _ (c : Crates) where
  -- The announce of the contact's routing id, if the peer has not confirmed it yet
  unfoldable pub reannounce : Option Contact → Action (Unit {0})
  reannounce none = pure tt
  reannounce (some current) =
      if not (is_some current.peer_routing_id)
        || (current.routing_confirmed || is_empty current.routing_announce)
      then pure tt
      else write_mailbox (bootstrap_mailbox_id c.signatures current.fingerprint)
          current.routing_announce

  -- Any failure counts as nothing to do.
  unfoldable pub reannounce_routing_id_if_unconfirmed : Contact → Client → Client
  reannounce_routing_id_if_unconfirmed contact client =
      let (r, after) =
        (on_db (load_contact c.platform c.contacts contact.fingerprint) >>= reannounce) client in
      after

  abbrev pub to_chat : RatchetState → Message → ChatContent
  to_chat ratchet m = record {
    text = m.content;
    piggyback_ack = piggyback (receiving_progress ratchet);
    message_id = m.id;
  }

  -- Over a lost connection nothing is encrypted: the message is kept for later.
  unfoldable pub keep_unsent : Contact → Bytes → Message → Action Message
  keep_unsent contact conv_id message = do
    fail_if (not (is_verified contact.verification_state)) (store StoreErrors.not_verified)
    let kept : Message = record message { retry_reason = some send_failed }
    update_db (save_message c.platform c.messages conv_id kept)
    lift (err (not_sent kept (connection "connection already lost")))

  -- What becomes of a message whose envelope was handed to the service
  unfoldable pub settle : ℕ → Contact → Bytes → Message → AppResult (Unit {0}) → Action Message
  settle now contact conv_id message (err cause) = lift (err (not_sent message cause))
  settle now contact conv_id message (ok done) = do
    let accepted : Message = record message { retry_reason = none; last_sent_at = some now }
    update_db (save_message c.platform c.messages conv_id accepted)
    (λ client. (ok accepted, reannounce_routing_id_if_unconfirmed contact client))

  abbrev pub attempt : Bytes → Bytes → Action (AppResult (Unit {0}))
  attempt mailbox_id envelope client =
      let (r, after) = write_mailbox mailbox_id envelope client in (ok r, after)

  -- The session and the message are saved before the envelope leaves.
  unfoldable pub send_sealed :
      ℕ → Contact → Bytes → Message → Envelope → RatchetState → Action Message
  send_sealed now contact conv_id message envelope advanced = do
    update_db (save_ratchet c.platform c.sessions conv_id advanced)
    update_db (save_message c.platform c.messages conv_id (in_flight envelope message))
    sent ← attempt contact.mailbox_id (encode envelope)
    settle now contact conv_id (in_flight envelope message) sent

  unfoldable pub transmit_chat : ℕ → Bytes → Contact → Message → Action Message
  transmit_chat now account contact message = do
    let conv_id = conversation_id_for c account contact
    ratchet ← session_of c conv_id
    is_lost ← gets (λ client. client.is_lost)
    (if is_lost then keep_unsent contact conv_id message else (do
      let (sealed, advanced) =
          encrypt_gated c.platform.primitives contact payload_chat
            (c.chats.to_cbor (to_chat ratchet message)) ratchet
      envelope ← lift (of_store sealed)
      send_sealed now contact conv_id message envelope advanced))

  unfoldable pub send_message : ℕ → Bytes → Contact → Bytes → Action Message
  send_message now account contact body = do
    message ← from_db (new_outgoing_message c.platform now body)
    transmit_chat now account contact message

  unfoldable pub save_unsent_message : ℕ → Bytes → Contact → Bytes → Action Message
  save_unsent_message now account contact body = do
    fail_if (not (is_verified contact.verification_state)) (store StoreErrors.not_verified)
    message ← from_db (new_outgoing_message c.platform now body)
    update_db (save_message c.platform c.messages (conversation_id_for c account contact) message)
    pure message

  unfoldable pub retry_message : ℕ → Bytes → Contact → Bytes → Action Message
  retry_message now account contact message_id = do
    found ←
        on_db
          (load_message c.platform c.messages (conversation_id_for c account contact) message_id)
    message ← lift (ok_or found nothing_to_retry)
    fail_if (not message.sender_is_local || not (is_some message.retry_reason)) nothing_to_retry
    transmit_chat now account contact message
