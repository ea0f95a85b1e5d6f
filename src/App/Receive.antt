-- ===== src/App/Receive.antt =====
-- app/src/lib.rs: `apply_entry`, what an entry of the mailbox does to the database and to the session. `now`
-- is `now_unix()`, and `new_secret` the fresh secret of a DH ratchet step.
pub mod Gate
use dratchet.Base.{
  ℕ, Bool, true, false, not, ◌||◌, Option, none, some, List, [], ◌∷◌, Bytes, bytes_eq, ok, err,
  ok_or, if◌then◌else◌, eqb, ◌==◌, length, Result,
}
use dratchet.Base.Actions.{Method, ◌>>=◌, ◌>>◌, pure, lift, fail_if}
use dratchet.Core.Errors.{CoreResult, malformed_payload}
use dratchet.Core.Envelope.{Envelope, decode}
use dratchet.Core.Payload.{payload_chat}
use dratchet.Core.Payload.Contents.{
  ChatContent, DeliveryAck, PiggybackAck, payload_delivery_ack, payload_routing_id_announce,
  payload_conversation_wipe_policy_announce, payload_conversation_wipe_request,
  payload_profile_announce, decode_routing_id_announce, decode_chat_content, decode_delivery_ack,
  decode_wipe_policy_announce, decode_wipe_request, decode_profile_announce,
}
use dratchet.Core.Ratchet.State.{RatchetState}
use dratchet.Store.Errors as StoreErrors
use dratchet.Store.Db as Database
use dratchet.Store.Db.{Db}
use dratchet.Store.Records.{Contact, Message}
use dratchet.Store.Contacts.{save_contact, load_contact}
use dratchet.Store.Gate.{is_verified, decrypt_gated}
use dratchet.Store.Messages.{save_received_chat}
use dratchet.Store.Messages.Delivery.{mark_message_delivered, mark_messages_delivered_up_to}
use dratchet.Store.Peers.{
  record_peer_routing_id, record_peer_wipe_policy, record_peer_profile,
  effective_wipe_ask_before_delete, effective_wipe_include_session,
}
use dratchet.App.Errors.{Error, AppResult, store, core}
use dratchet.App.Client.{Crates, handle_of, of_store}
use dratchet.App.Wipes.{wipe_conversation_scoped}

pub record ProfileChangeNotice : Type 0 where
  pub fingerprint : Bytes
  pub old_handle : Bytes
  pub new_handle : Bytes

pub data EntryEffect : Type 0 where
  no_effect : EntryEffect
  message : Message → (dh_pub : Bytes) → (acked_n : ℕ) → List Message → EntryEffect
  resent : (dh_pub : Bytes) → (acked_n : ℕ) → List Message → EntryEffect
  delivered : Message → EntryEffect
  wipe_activity : (session_wiped : Bool) → EntryEffect
  profile_change : ProfileChangeNotice → EntryEffect

-- An error of the entry alone, and not of the database
unfoldable pub is_per_entry_content_error : Error → Bool
is_per_entry_content_error (core e) = true
is_per_entry_content_error (store (StoreErrors.core e)) = true
is_per_entry_content_error _ = false

abbrev pub Action : Type 0 → Type 0
Action A = Method Error Db A

abbrev pub of_core {ℓ} : {A : Type ℓ} → CoreResult A → AppResult A
of_core (ok a) = ok a
of_core (err e) = err (core e)

module _ {A : Type 0} where
  abbrev pub on_db : Database.Action A → Action A
  on_db f db = let (r, after) = f db in (of_store r, after)

  abbrev pub from_db : (Db → A × Db) → Action A
  from_db f db = let (a, after) = f db in (ok a, after)

abbrev pub update_db : (Db → Db) → Action (Unit {0})
update_db f db = (ok tt, f db)

abbrev pub some_unless_empty : Bytes → Option Bytes
some_unless_empty [] = none
some_unless_empty (b ∷ bs) = some (b ∷ bs)

abbrev pub or_contact : Option Contact → Contact → Contact
or_contact none contact = contact
or_contact (some current) contact = current

abbrev pub or_number : Option ℕ → ℕ
or_number none = 0
or_number (some n) = n

abbrev pub or_empty : Option Bytes → Bytes
or_empty none = []
or_empty (some bytes) = bytes

-- The contact's handle as it is known
abbrev pub known_handle : Contact → Option Bytes
known_handle contact = elim contact.username [
  | none ↦ none
  | some username ↦ some (handle_of username (or_number contact.discriminator))
]

module _ (c : Crates) (now : ℕ) (contact : Contact) (conv_id : Bytes) where
  unfoldable pub apply_routing_id_announce : Bytes → Action EntryEffect
  apply_routing_id_announce body = do
    announce ← lift (of_core (decode_routing_id_announce c.routes body))
    recorded ← on_db (
        record_peer_routing_id c.platform c.contacts c.signatures contact.fingerprint
          announce.routing_id)
    pure no_effect

  -- The acknowledgement that comes with a chat message
  unfoldable pub apply_piggyback_ack : Option PiggybackAck → Db → List Message × Db
  apply_piggyback_ack none db = ([], db)
  apply_piggyback_ack (some ack) db =
      mark_messages_delivered_up_to c.platform c.messages conv_id ack.dh_pub ack.highest_n db

  unfoldable pub apply_chat : Envelope → Bytes → Action EntryEffect
  apply_chat envelope body = do
    chat ← lift (of_core (decode_chat_content c.chats body))
    piggyback_delivered ← from_db (apply_piggyback_ack chat.piggyback_ack)
    saved ← on_db (
        save_received_chat c.platform c.messages now conv_id chat.text envelope.dh_pub envelope.n
          (some_unless_empty chat.message_id))
    pure (
        if saved.1
        then resent envelope.dh_pub envelope.n piggyback_delivered
        else message saved.0 envelope.dh_pub envelope.n piggyback_delivered)

  unfoldable pub apply_delivery_ack : Bytes → Action EntryEffect
  apply_delivery_ack body = do
    ack ← lift (of_core (decode_delivery_ack c.acks body))
    fail_if (not (ack.conversation_id == conv_id)) (
        core
          (malformed_payload "DeliveryAck.conversation_id doesn't match the session it arrived on"))
    marked ← from_db (mark_message_delivered c.platform c.messages conv_id ack.dh_pub ack.acked_n)
    pure (elim marked [ none ↦ no_effect | some m ↦ delivered m ])

  unfoldable pub apply_wipe_policy : Bytes → Action EntryEffect
  apply_wipe_policy body =
      if not (is_verified contact.verification_state) then pure no_effect else (do
        announce ← lift (of_core (decode_wipe_policy_announce c.wipe_policies body))
        recorded ← on_db (
            record_peer_wipe_policy c.platform c.contacts now contact.fingerprint
              announce.ask_before_delete announce.include_session)
        pure (wipe_activity false))

  -- The request of a peer that is verified: it waits for the user, or it is carried out.
  unfoldable pub apply_wipe_of : Contact → Bool → Action EntryEffect
  apply_wipe_of current requested =
      if effective_wipe_ask_before_delete current
      then update_db
          (save_contact c.platform c.contacts (record current { wipe_request_pending = true }))
        >> pure (wipe_activity false)
      else (do
        let include_session = effective_wipe_include_session current || requested
        removed ← on_db (wipe_conversation_scoped c conv_id current include_session)
        pure (wipe_activity include_session))

  unfoldable pub apply_wipe_request : Bytes → Action EntryEffect
  apply_wipe_request body = do
    requested ← lift (of_core (decode_wipe_request c.wipe_requests body))
    found ← on_db (load_contact c.platform c.contacts contact.fingerprint)
    (if not (is_verified (or_contact found contact).verification_state)
        then pure no_effect
        else apply_wipe_of (or_contact found contact) requested.include_session)

  unfoldable pub apply_profile_announce : Bytes → Action EntryEffect
  apply_profile_announce body = do
    announce ← lift (of_core (decode_profile_announce c.profiles body))
    recorded ← on_db (
        record_peer_profile c.platform c.contacts contact.fingerprint announce.username
          announce.discriminator)
    pure (
        if recorded.1
        then profile_change (record {
          fingerprint = contact.fingerprint;
          old_handle = or_empty (known_handle contact);
          new_handle = handle_of announce.username announce.discriminator;
        })
        else no_effect)

  -- The arms of the match on the payload's type
  unfoldable pub apply_payload : Envelope → ℕ → Bytes → Action EntryEffect
  apply_payload envelope payload_type body =
      if eqb payload_type payload_routing_id_announce
      then apply_routing_id_announce body
      else if eqb payload_type payload_chat
      then apply_chat envelope body
      else if eqb payload_type payload_delivery_ack
      then apply_delivery_ack body
      else if eqb payload_type payload_conversation_wipe_policy_announce
      then apply_wipe_policy body
      else if eqb payload_type payload_conversation_wipe_request
      then apply_wipe_request body
      else if eqb payload_type payload_profile_announce
      then apply_profile_announce body
      else pure no_effect

  -- What the gate gave: chat that it withheld has no effect.
  unfoldable pub apply_decrypted :
      Envelope → StoreErrors.StoreResult (ℕ × Bytes) → Action EntryEffect
  apply_decrypted envelope (ok (payload_type, body)) = apply_payload envelope payload_type body
  apply_decrypted envelope (err StoreErrors.not_verified) = pure no_effect
  apply_decrypted envelope (err e) = lift (err (store e))

  unfoldable pub apply_entry :
      Bytes → Bytes → RatchetState → Db → AppResult EntryEffect × RatchetState × Db
  apply_entry new_secret entry ratchet db = elim (decode entry) [
    | err e ↦ (err (core e), ratchet, db)
    | ok envelope ↦
        let (decrypted, advanced) =
          decrypt_gated c.platform.primitives contact new_secret envelope ratchet in
        let (r, after) = apply_decrypted envelope decrypted db in (r, advanced, after)
  ]
