-- ===== src/App/Wipes.antt =====
-- app/src/lib.rs: wipes that a peer asks for, and the user's verification of a contact.
use dratchet.Base.{
  ℕ, Bool, false, not, Option, none, some, List, Bytes, ok, err, ok_or, if◌then◌else◌, filter,
  length,
}
use dratchet.Base.Actions.{◌>>=◌, ◌>>◌, pure, lift, fail_if}
use dratchet.Core.Ratchet.Engine.{encrypt_payload}
use dratchet.Core.Envelope.{encode}
use dratchet.Core.Payload.Contents.{payload_conversation_wipe_request}
use dratchet.Store.Db as Database
use dratchet.Store.Records.{Contact, Message}
use dratchet.Store.Contacts.{save_contact, load_contact}
use dratchet.Store.Messages.{list_messages}
use dratchet.Store.Gate.{mark_verified, mark_mismatch}
use dratchet.Store.Sessions.{save_ratchet}
use dratchet.Store.Peers.{
  is_since, effective_wipe_include_session, wipe_conversation, wipe_conversation_since,
}
use dratchet.App.Errors.{core, no_such_account, no_pending_wipe_request}
use dratchet.App.Client.{
  Crates, Action, on_db, from_db, update_db, conversation_id_for, session_of,
  ensure_connection_usable, write_mailbox,
}

abbrev pub or_zero : Option ℕ → ℕ
or_zero none = 0
or_zero (some n) = n

pub record WipePreview : Type 0 where
  pub will_remove_locally : ℕ
  pub peer_likely_keeps : ℕ

-- How many of the messages are from before the boundary, if there is one.
abbrev pub kept_by_peer : Option ℕ → Option ℕ → List Message → ℕ
kept_by_peer none sequence messages = 0
kept_by_peer (some timestamp) sequence messages =
    length (filter (λ m. not (is_since (timestamp, or_zero sequence) m)) messages)

module _ (c : Crates) where
  unfoldable pub wipe_conversation_scoped : Bytes → Contact → Bool → Database.Action ℕ
  wipe_conversation_scoped conv_id contact include_session =
      elim contact.peer_wipe_boundary_timestamp [
        | some timestamp ↦
            wipe_conversation_since c.platform c.messages conv_id
              (timestamp, or_zero contact.peer_wipe_boundary_sequence) include_session
        | none ↦ wipe_conversation c.platform conv_id include_session
      ]

  unfoldable pub preview_conversation_wipe : Bytes → Contact → Action WipePreview
  preview_conversation_wipe account contact = do
    messages ← from_db (list_messages c.platform c.messages (conversation_id_for c account contact))
    pure (record {
      will_remove_locally = length messages;
      peer_likely_keeps =
          kept_by_peer contact.wipe_boundary_timestamp contact.wipe_boundary_sequence messages;
    })

  unfoldable pub confirm_pending_wipe : Bytes → Contact → Action ℕ
  confirm_pending_wipe account contact = do
    found ← on_db (load_contact c.platform c.contacts contact.fingerprint)
    fresh ← lift (ok_or found no_such_account)
    fail_if (not fresh.wipe_request_pending) no_pending_wipe_request
    removed ← on_db (
        wipe_conversation_scoped (conversation_id_for c account fresh) fresh
          (effective_wipe_include_session fresh))
    update_db (save_contact c.platform c.contacts (record fresh { wipe_request_pending = false }))
    pure removed

  unfoldable pub decline_pending_wipe : Contact → Action Contact
  decline_pending_wipe contact = do
    update_db (save_contact c.platform c.contacts (record contact { wipe_request_pending = false }))
    pure (record contact { wipe_request_pending = false })

  unfoldable pub record_verification_result : Contact → Bool → Action Contact
  record_verification_result contact matches = do
    let judged = if matches then mark_verified contact else mark_mismatch contact
    update_db (save_contact c.platform c.contacts judged)
    pure judged

  -- The session, its next envelope for a payload, and the session saved before the envelope is sent.
  abbrev pub seal_payload : Bytes → ℕ → Bytes → Action Bytes
  seal_payload conv_id payload_type body = do
    ratchet ← session_of c conv_id
    ensure_connection_usable
    let (r, advanced) = encrypt_payload c.platform.primitives payload_type body ratchet
    envelope ← lift (elim r [ ok e ↦ ok e | err e ↦ err (core e) ])
    update_db (save_ratchet c.platform c.sessions conv_id advanced)
    pure (encode envelope)

  unfoldable pub request_conversation_wipe : Bytes → Contact → Action ℕ
  request_conversation_wipe account contact = do
    let conv_id = conversation_id_for c account contact
    let include_session = effective_wipe_include_session contact
    envelope ←
        seal_payload conv_id payload_conversation_wipe_request
          (c.wipe_requests.to_cbor (record { include_session = include_session }))
    write_mailbox contact.mailbox_id envelope
    on_db (wipe_conversation c.platform conv_id include_session)
