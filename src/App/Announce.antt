-- ===== src/App/Announce.antt =====
-- app/src/lib.rs: what a client tells its contacts of itself, and when a contact's new handle is shown.
use dratchet.Base.{
  ℕ, ◌*◌, Bool, true, not, ◌&&◌, Option, none, some, List, [], ◌∷◌, Bytes, bytes_eq, ok, err,
  if◌then◌else◌, leb, ◌==◌,
}
use dratchet.Base.Actions.{◌>>=◌, ◌>>◌, pure, lift, gets}
use dratchet.Base.Codecs.{Codec}
use dratchet.Core.Account.{saturating_add_u64}
use dratchet.Core.Envelope.{encode}
use dratchet.Core.Payload.Contents.{
  payload_profile_announce, payload_routing_id_announce, payload_conversation_wipe_policy_announce,
}
use dratchet.Core.Ratchet.Engine.{encrypt_payload}
use dratchet.Core.Ratchet.State.{RatchetState}
use dratchet.Core.X3dh.{bootstrap_mailbox_id}
use dratchet.Store.Contacts.{save_contact, load_contact}
use dratchet.Store.Notices.{
  ProfileNoticeState, load_profile_notice_state, save_profile_notice_state,
}
use dratchet.Store.Peers.{current_wipe_boundary}
use dratchet.Store.Records.{Contact, OwnProfile}
use dratchet.Store.Sessions.{save_ratchet}
use dratchet.App.Client.{
  Crates, Action, on_db, update_db, conversation_id_for, session_of, ensure_connection_usable,
  write_mailbox, handle_of,
}
use dratchet.App.Errors.{core}
use dratchet.App.Receive.{ProfileChangeNotice}
use dratchet.App.Wipes.{seal_payload, or_zero}

abbrev pub profile_notice_interval_secs : ℕ
profile_notice_interval_secs = 10 * 60

-- The handle that was last shown: of a contact that was never shown, the first that changed in this pass
abbrev pub last_shown : Option (ℕ × Bytes) → List ProfileChangeNotice → Option Bytes
last_shown (some (shown_at, handle)) changes = some handle
last_shown none [] = none
last_shown none (change ∷ changes) = some change.old_handle

abbrev pub is_due : ℕ → Option (ℕ × Bytes) → Bool
is_due now none = true
is_due now (some (shown_at, handle)) =
    leb (saturating_add_u64 shown_at profile_notice_interval_secs) now

-- The notice that is shown now, if one is
unfoldable pub notice_of :
    ℕ → Bytes → Bytes → Option (ℕ × Bytes) → List ProfileChangeNotice → Option ProfileChangeNotice
notice_of now fingerprint current_handle state changes = elim (last_shown state changes) [
  | none ↦ none
  | some old_handle ↦
      if is_due now state && not (old_handle == current_handle)
      then some (record {
        fingerprint = fingerprint;
        old_handle = old_handle;
        new_handle = current_handle;
      })
      else none
]

module _ (c : Crates) where
  unfoldable pub announce_profile : Bytes → Contact → OwnProfile → Action (Unit {0})
  announce_profile account contact own_profile = do
    envelope ← seal_payload c (conversation_id_for c account contact) payload_profile_announce (
        c.profiles.to_cbor
          (record { username = own_profile.username; discriminator = own_profile.discriminator }))
    write_mailbox contact.mailbox_id envelope

  -- The envelope is kept with the contact, so that it can be sent again.
  unfoldable pub keep_announce : Bytes → Option Contact → Action (Unit {0})
  keep_announce envelope none = pure tt
  keep_announce envelope (some current) =
      update_db
        (save_contact c.platform c.contacts (record current { routing_announce = envelope }))

  unfoldable pub announce_routing_id : Bytes → Contact → Bytes → Action (Unit {0})
  announce_routing_id account contact routing_id = do
    envelope ←
        seal_payload c (conversation_id_for c account contact) payload_routing_id_announce
          (c.routes.to_cbor (record { routing_id = routing_id }))
    current ← on_db (load_contact c.platform c.contacts contact.fingerprint)
    keep_announce envelope current
    write_mailbox (bootstrap_mailbox_id c.signatures contact.fingerprint) envelope

  -- An envelope of a session that was loaded before
  unfoldable pub seal_with : RatchetState → Bytes → ℕ → Bytes → Action Bytes
  seal_with ratchet conv_id payload_type body = do
    let (r, advanced) = encrypt_payload c.platform.primitives payload_type body ratchet
    envelope ← lift (elim r [ ok e ↦ ok e | err e ↦ err (core e) ])
    update_db (save_ratchet c.platform c.sessions conv_id advanced)
    pure (encode envelope)

  -- The boundary is stamped only once the announcement is acknowledged.
  unfoldable pub announce_wipe_policy : ℕ → Bytes → Contact → Bool → Bool → Action Contact
  announce_wipe_policy now account contact ask_before_delete include_session = do
    let conv_id = conversation_id_for c account contact
    let updated : Contact = record contact {
      wipe_ask_before_delete = ask_before_delete;
      wipe_include_session = include_session;
    }
    ratchet ← session_of c conv_id
    update_db (save_contact c.platform c.contacts updated)
    ensure_connection_usable
    envelope ← seal_with ratchet conv_id payload_conversation_wipe_policy_announce (
        c.wipe_policies.to_cbor
          (record { ask_before_delete = ask_before_delete; include_session = include_session }))
    write_mailbox updated.mailbox_id envelope
    boundary ← gets (λ client. current_wipe_boundary now client.db)
    let stamped : Contact = record updated {
      wipe_boundary_timestamp = some boundary.0;
      wipe_boundary_sequence = some boundary.1;
    }
    update_db (save_contact c.platform c.contacts stamped)
    pure stamped

  module _ (notices : Codec ProfileNoticeState) (now : ℕ) where
    unfoldable pub show_notice : Option ProfileChangeNotice → Action (List ProfileChangeNotice)
    show_notice none = pure []
    show_notice (some notice) = do
      update_db
          (save_profile_notice_state c.platform notices notice.fingerprint now notice.new_handle)
      pure (notice ∷ [])

    unfoldable pub throttle_named :
        Contact
        → List ProfileChangeNotice
        → Option Bytes
        → Option ℕ
        → Action (List ProfileChangeNotice)
    throttle_named contact changes none discriminator = pure []
    throttle_named contact changes (some username) discriminator = do
      state ← on_db (load_profile_notice_state c.platform notices contact.fingerprint)
      show_notice (
          notice_of now contact.fingerprint (handle_of username (or_zero discriminator)) state
            changes)

    unfoldable pub throttle_profile_notices :
        Contact → List ProfileChangeNotice → Action (List ProfileChangeNotice)
    throttle_profile_notices contact changes = do
      found ← on_db (load_contact c.platform c.contacts contact.fingerprint)
      elim found [
        | none ↦ pure []
        | some current ↦ throttle_named contact changes current.username current.discriminator
      ]
