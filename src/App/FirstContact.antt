-- ===== src/App/FirstContact.antt =====
-- app/src/lib.rs: `try_accept_first_contact`, a stranger's first message. `now` is `now_unix()`, `new_secret` the
-- fresh secret of the DH ratchet step and `routing_id` the fresh routing id.
use dratchet.Base.{ℕ, Bool, true, false, Option, none, some, [], Bytes, eqb, ok, err, if◌then◌else◌}
use dratchet.Base.Actions.{◌>>=◌, ◌>>◌, pure}
use dratchet.Base.Codecs.{Codec}
use dratchet.Core.Errors.{CoreResult}
use dratchet.Core.Account.{Account, peek_one_time_prekey_secret, take_one_time_prekey_secret}
use dratchet.Core.Conversation.{conversation_id}
use dratchet.Core.Envelope.{Envelope, decode}
use dratchet.Core.FirstContact.{FirstContactWire, verify_identity_binding, x3dh_init_message}
use dratchet.Core.Identity.{fingerprint_of_public_key}
use dratchet.Core.Payload.Contents.{
  FirstContactContent, payload_first_contact, decode_first_contact_content,
}
use dratchet.Core.Ratchet.State.{RatchetState, init_as_responder}
use dratchet.Core.Ratchet.Engine.{decrypt_payload}
use dratchet.Core.X3dh.{X3dhInitMessage, respond, bootstrap_mailbox_id}
use dratchet.Store.Records.{Contact, verified}
use dratchet.Store.Contacts.{save_contact}
use dratchet.Store.Sessions.{save_ratchet}
use dratchet.Store.Verification.{
  PairingCode, verify, save_pairing_code, load_pairing_code, clear_pairing_code,
}
use dratchet.App.Client.{Crates, Action, on_db, update_db}

abbrev pub default_max_skip : ℕ
default_max_skip = 100

-- `let Ok(a) = r else { return Ok(None) }`
infixl 5 ◌&>◌
abbrev pub ◌&>◌ {ℓ κ} : {A : Type ℓ} {B : Type κ} → CoreResult A → (A → Option B) → Option B
ok a &> next = next a
err e &> next = none

-- The secret of the one-time prekey that the message names: none is named, or it has to be there.
abbrev pub named_secret : Option ℕ → Account → Option (Option Bytes)
named_secret none account = some none
named_secret (some id) account = elim (peek_one_time_prekey_secret id account) [
  | none ↦ none
  | some secret ↦ some (some secret)
]

module _ (c : Crates) (new_secret : Bytes) (account : Account) (wire : FirstContactWire) where
  abbrev pub peer_fingerprint : Bytes
  peer_fingerprint = fingerprint_of_public_key c.signatures wire.initiator_identity_key

  abbrev pub first_conversation : Bytes
  first_conversation =
      conversation_id c.signatures
        (fingerprint_of_public_key c.signatures (c.signatures.verifying_key account.identity))
        peer_fingerprint

  -- The content, if it is that of a first contact
  unfoldable pub open_first_contact :
      RatchetState → Envelope → Option (RatchetState × FirstContactContent)
  open_first_contact ratchet envelope =
      let (decrypted, advanced) =
        decrypt_payload c.platform.primitives new_secret envelope ratchet in
      decrypted &> λ payload.
      if eqb payload.0 payload_first_contact
      then decode_first_contact_content c.first_contacts payload.1
        &> (λ announced. some (advanced, announced))
      else none

  -- The session that the handshake gives, and what it decrypts
  unfoldable pub answer_handshake :
      X3dhInitMessage → Option Bytes → Option (RatchetState × FirstContactContent)
  answer_handshake init otp_secret =
      respond c.platform.primitives account.identity_dh_secret account.signed_prekey.secret
        otp_secret init
      &> λ root_key.
          init_as_responder c.platform.primitives first_conversation root_key
            account.signed_prekey.secret default_max_skip
          &> λ ratchet. (decode wire.envelope &> open_first_contact ratchet)

  -- What can be checked before the pairing code is looked at
  unfoldable pub open_handshake : Option (RatchetState × FirstContactContent)
  open_handshake = verify_identity_binding c.signatures wire &> λ bound.
      x3dh_init_message wire &> λ init. elim (named_secret init.used_one_time_prekey_id account) [
        | none ↦ none
        | some otp_secret ↦ answer_handshake init otp_secret
      ]

  -- An attempt at the pairing code, which is counted whether it is right or not
  unfoldable pub try_pairing_code : Codec PairingCode → ℕ → Bytes → Action Bool
  try_pairing_code codes now attempted = do
    stored ← on_db (load_pairing_code c.platform codes)
    elim stored [
      | none ↦ pure false
      | some code ↦
          let (matched, counted) = verify attempted [] now code in
          update_db (save_pairing_code c.platform codes counted) >> pure matched
    ]

  unfoldable pub new_contact : ℕ → Bytes → FirstContactContent → Contact
  new_contact now routing_id announced = record {
    fingerprint = peer_fingerprint;
    username = some announced.username;
    discriminator = some announced.discriminator;
    verification_state = verified;
    mailbox_id = bootstrap_mailbox_id c.signatures peer_fingerprint;
    created_at = now;
    local_routing_id = routing_id;
    peer_routing_id = none;
    wipe_ask_before_delete = false;
    peer_wipe_ask_before_delete = none;
    wipe_include_session = false;
    peer_wipe_include_session = none;
    wipe_request_pending = false;
    wipe_boundary_timestamp = none;
    wipe_boundary_sequence = none;
    peer_wipe_boundary_timestamp = none;
    peer_wipe_boundary_sequence = none;
    routing_confirmed = false;
    routing_announce = [];
  }

  -- The account without the prekey that was used, and whether it changed
  unfoldable pub spend_prekey : Account × Bool
  spend_prekey = elim wire.used_one_time_prekey_id [
    | none ↦ (account, false)
    | some id ↦ ((take_one_time_prekey_secret id account).1, true)
  ]

  -- The new contact, the account, and whether the account has to be saved
  unfoldable pub try_accept_first_contact :
      Codec PairingCode → ℕ → Bytes → Action (Option Contact × (Account × Bool))
  try_accept_first_contact codes now routing_id = elim open_handshake [
    | none ↦ pure (none, (account, false))
    | some (ratchet, announced) ↦ (do
      matched ← try_pairing_code codes now announced.pairing_code
      (if matched
          then (do
            update_db clear_pairing_code
            update_db (save_contact c.platform c.contacts (new_contact now routing_id announced))
            update_db (save_ratchet c.platform c.sessions first_conversation ratchet)
            pure (some (new_contact now routing_id announced), spend_prekey))
          else pure (none, (account, false))))
  ]
