-- ===== src/Store/Gate/Tests.antt =====
-- A run of the gate on a small session, with stand-ins for the crates.
use dratchet.Base.{
  ◌-◌, ◌≡◌, true, false, none, some, [], ◌∷◌, ◌++◌, ok, length, take, replicate, bytes_beq, lookup,
}
use dratchet.Core.Envelope.{Envelope, current_version}
use dratchet.Core.Payload.{payload_chat, untag_and_unpad}
use dratchet.Core.Words.{from_le_bytes}
use dratchet.Core.Ratchet.Keys.{Primitives, skip_and_derive, aead_decrypt}
use dratchet.Core.Ratchet.Tracker.{fresh_tracker}
use dratchet.Core.Ratchet.State.{RatchetState}
use dratchet.Core.Ratchet.Engine.{decrypt_payload, decrypt_raw, decrypt_chain, chain_before}
use dratchet.Store.Records.{Contact, verified}
use dratchet.Store.Gate.{decrypt_gated}
use dratchet.Store.Gate.Chat.{IsGated, decrypt_gated_passes}

-- A cipher adds an empty tag.
abbrev toy : Primitives
toy = record {
  hmac = λ key tag. key;
  hkdf = λ salt ikm info n. replicate n 0;
  public_key = λ secret. secret;
  diffie_hellman = λ secret public. secret;
  was_contributory = λ shared. true;
  seal = λ key nonce aad m. some (m ++ replicate 16 0);
  unseal = λ key nonce aad c. some (take (length c - 16) c);
}

abbrev contact : Contact
contact = record {
  fingerprint = [];
  username = none;
  discriminator = none;
  verification_state = verified;
  mailbox_id = [];
  created_at = 0;
  local_routing_id = [];
  peer_routing_id = none;
  wipe_ask_before_delete = false;
  peer_wipe_ask_before_delete = none;
  wipe_include_session = false;
  peer_wipe_include_session = none;
  wipe_request_pending = false;
  wipe_boundary_timestamp = none;
  wipe_boundary_sequence = none;
  peer_wipe_boundary_timestamp = none;
  peer_wipe_boundary_sequence = none;
  routing_confirmed = false;
  routing_announce = [];
}

abbrev session : RatchetState
session = record {
  conversation_id = replicate 16 1;
  max_skip = 50;
  root_key = [];
  dh_self = none;
  dh_remote = some (9 ∷ []);
  sending_chain_key = none;
  receiving_chain_key = some (5 ∷ []);
  send_n = 0;
  recv_n = 0;
  prev_chain_len = 0;
  skipped = [];
  skipped_order = [];
  tracker = fresh_tracker;
}

abbrev chat : Envelope
chat = record {
  version = current_version;
  conversation_id = replicate 16 1;
  dh_pub = 9 ∷ [];
  pn = 0;
  n = 0;
  ciphertext = payload_chat ∷ 2 ∷ 0 ∷ 0 ∷ 0 ∷ 72 ∷ 105 ∷ replicate 16 0;
}

decrypt_gated_passes_example :
    ((decrypt_gated toy contact [] chat session).1 ≡ (decrypt_payload toy [] chat session).1)
    × IsGated contact
        (ok (payload_chat, 72 ∷ 105 ∷ []))
        (decrypt_gated toy contact [] chat session).0
unfolding decrypt_gated decrypt_payload decrypt_raw bytes_beq lookup decrypt_chain chain_before
    skip_and_derive aead_decrypt untag_and_unpad from_le_bytes
decrypt_gated_passes_example = decrypt_gated_passes toy contact [] chat session
