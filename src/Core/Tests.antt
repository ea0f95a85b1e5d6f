-- ===== src/Core/Tests.antt =====
-- Runs of the core's theorems on small sessions, with stand-ins for the cryptographic crates.
use dratchet.Base.{
  ℕ, zero, suc, ◌+◌, ◌-◌, ◌*◌, ◌≤◌, ◌<◌, ◌≡◌, ◌≢◌, ◌%◌, ◌⊎◌, refl, sym, ap, ◌∙◌, Bool, true, false,
  Option, none, some, List, [], ◌∷◌, ◌++◌, Bytes, bytes_eq, nat_eq, pair_eq, ok, err, arith, length,
  lookup, replicate, take, take_exact, length-append, length-replicate, codes, all, eqb, elem, ◌||◌,
}
use dratchet.Core.Errors.{conversation_id_mismatch}
use dratchet.Core.Words.{u32_mod, is_byte}
use dratchet.Core.Envelope.{Envelope, encode, decode, header_bytes, current_version}
use dratchet.Core.Envelope.Codec.{IsWire, decode-encode, encode-decode}
use dratchet.Core.Payload.{padded_len_of, tag_and_pad, untag_and_unpad, max_padded_len, pad_bucket}
use dratchet.Core.Payload.Padding.{untag-tag_and_pad}
use dratchet.Core.X3dh.{X3dhInitResult, initiate, respond, reject_non_contributory, derive_root_key}
use dratchet.Core.X3dh.Handshake.{respond-initiate}
use dratchet.Core.Identity.{
  Signatures, PrekeyBundle, verify_bundle, verify_prekey_signature, verify_signature,
}
use dratchet.Core.Ratchet.Keys.{Primitives, kdf_rk, aead_decrypt}
use dratchet.Core.Ratchet.Tracker.{track, fresh_tracker}
use dratchet.Core.Ratchet.Tracker.Frontier.{
  IsTracker, delivered, track-delivered, track_all, track_all_frontier,
}
use dratchet.Core.Ratchet.State.{RatchetState}
use dratchet.Core.Ratchet.Engine.{decrypt_raw, skip_old_chain}
use dratchet.Core.Ratchet.Rejection.{decrypt_raw_rejects}
use dratchet.Core.Ratchet.Cache.{IsBounded, decrypt_raw-IsBounded}
use dratchet.Core.Ratchet.Chain.{chain_key}
use dratchet.Core.Ratchet.Agreement.{AeadOpens, ReceivesOn, Sent}
use dratchet.Core.Ratchet.Delivery.{decrypt_raw_in_window}
use dratchet.Core.Ratchet.OutOfOrder.{decrypt_raw_out_of_order}
use dratchet.Core.Ratchet.Conversation.{DhAgrees, Ahead, init-Ahead, turn-Ahead}
use dratchet.Core.Ratchet.State.{init_as_initiator, init_as_responder, validate_max_skip}
use dratchet.Core.Ratchet.Tracker.{set_insert, set_remove, absorb, expected_next}

-- The sum of the bytes
abbrev total : Bytes → ℕ
total [] = 0
total (b ∷ bs) = b + total bs

-- Stand-ins: a secret is its own public key, a shared secret is a sum, a cipher adds an empty tag.
abbrev toy : Primitives
toy = record {
  hmac = λ key tag. tag ++ key;
  hkdf = λ salt ikm info n. replicate n (total ikm);
  public_key = λ secret. secret;
  diffie_hellman = λ secret public. (total secret + total public) ∷ [];
  was_contributory = λ shared. true;
  seal = λ key nonce aad m. some (m ++ replicate 16 0);
  unseal = λ key nonce aad c. some (take (length c - 16) c);
}

abbrev conversation : Bytes
conversation = replicate 16 1

abbrev remote_key : Bytes
remote_key = 9 ∷ replicate 31 0

abbrev first_key : Bytes
first_key = 5 ∷ []

abbrev hello : Bytes
hello = 72 ∷ 105 ∷ []

abbrev receiver : RatchetState
receiver = record {
  conversation_id = conversation;
  max_skip = 50;
  root_key = 3 ∷ [];
  dh_self = some (4 ∷ [], 4 ∷ []);
  dh_remote = some remote_key;
  sending_chain_key = some (6 ∷ []);
  receiving_chain_key = some first_key;
  send_n = 0;
  recv_n = 0;
  prev_chain_len = 0;
  skipped = [];
  skipped_order = [];
  tracker = fresh_tracker;
}

abbrev message : ℕ → Envelope
message n = record {
  version = current_version;
  conversation_id = conversation;
  dh_pub = remote_key;
  pn = 0;
  n = n;
  ciphertext = hello ++ replicate 16 0;
}

abbrev stranger : Envelope
stranger = record (message 0) { conversation_id = replicate 16 2 }

decrypt_raw_rejects_example : receiver ≡ receiver
unfolding decrypt_raw dratchet.Base.bytes_beq
decrypt_raw_rejects_example =
    decrypt_raw_rejects toy [] stranger receiver receiver conversation_id_mismatch refl

decrypt_raw-IsBounded_example : IsBounded (decrypt_raw toy [] (message 3) receiver).1
decrypt_raw-IsBounded_example =
    decrypt_raw-IsBounded toy [] (message 3) receiver
      (record { at_least = omega arith; at_most = omega arith; covered = tt; capped = omega arith })

receiver-ReceivesOn : ReceivesOn toy conversation remote_key first_key receiver
unfolding chain_key
receiver-ReceivesOn = record { conversation = refl; remote_key = refl; chain = refl }

no_skipped : lookup (remote_key, 3) receiver.skipped ≡ none
unfolding lookup
no_skipped = refl

message-Sent : (n : ℕ) → Sent toy conversation remote_key first_key n hello (message n)
unfolding aead_decrypt
message-Sent n = record { conversation = refl; key = refl; number = refl; opens = refl }

decrypt_raw_in_window_example :
    (s : RatchetState) × (decrypt_raw toy [] (message 3) receiver ≡ (ok hello, s))
    × ReceivesOn toy conversation remote_key first_key s
    × (s.recv_n ≡ 4)
unfolding lookup
decrypt_raw_in_window_example =
    decrypt_raw_in_window toy conversation remote_key first_key [] 3 hello (message 3) receiver
      receiver-ReceivesOn (message-Sent 3) (omega arith) (omega arith) (omega arith) refl

decrypt_raw_out_of_order_example :
    (s s' : RatchetState) × (decrypt_raw toy [] (message 3) receiver ≡ (ok hello, s))
    × (decrypt_raw toy [] (message 1) s ≡ (ok hello, s'))
    × (lookup (remote_key, 1) s'.skipped ≡ none)
unfolding lookup
decrypt_raw_out_of_order_example =
    decrypt_raw_out_of_order toy conversation remote_key first_key [] [] 1 3 hello hello (message 3)
      (message 1) receiver receiver-ReceivesOn (message-Sent 3) (message-Sent 1) (omega arith)
      (omega arith) (omega arith) (omega arith) refl (omega arith)

toy-DhAgrees : DhAgrees toy
toy-DhAgrees a b = ap (λ (n : ℕ). n ∷ []) (omega arith)

toy-AeadOpens : AeadOpens toy
toy-AeadOpens key nonce aad m c h = ground (
  arith,
  h,
  length-append m (replicate 16 0),
  length-append {A = ℕ} m [],
  take_exact (length m) m (replicate 16 0) refl,
)

-- A handshake's root key, and the sessions that start from it.
abbrev shared_root : Bytes
shared_root = 3 ∷ []

abbrev initiator_secret : Bytes
initiator_secret = 7 ∷ []

abbrev responder_secret : Bytes
responder_secret = 4 ∷ []

fresh-IsTracker : IsTracker fresh_tracker
unfolding fresh_tracker
fresh-IsTracker = record { room = omega arith; gap = tt }

track-delivered_example :
    IsTracker (track 2 fresh_tracker)
    × ((k : ℕ) → delivered (track 2 fresh_tracker) k ≡ (eqb 2 k || delivered fresh_tracker k))
track-delivered_example = track-delivered 2 fresh_tracker fresh-IsTracker (omega arith)

track_all_frontier_example :
    ((k : ℕ) → k ≤ 2 → elem {A = ℕ} k (1 ∷ 0 ∷ 2 ∷ 5 ∷ []) ≡ true)
    × (elem {A = ℕ} 3 (1 ∷ 0 ∷ 2 ∷ 5 ∷ []) ≡ false)
unfolding track_all track fresh_tracker set_insert set_remove absorb expected_next elem
track_all_frontier_example =
    track_all_frontier (1 ∷ 0 ∷ 2 ∷ 5 ∷ []) 2
      (omega arith, (omega arith, (omega arith, (omega arith, tt)))) refl

message-IsWire : IsWire (message 3)
message-IsWire = record {
  version_current = refl;
  conversation_width = refl;
  key_width = refl;
  pn_u32 = omega arith;
  n_u32 = omega arith;
  ciphertext_u32 = omega arith;
}

decode-encode_example : decode (encode (message 3)) ≡ ok (message 3)
decode-encode_example = decode-encode (message 3) message-IsWire

encode-decode_example : encode (message 3) ≡ encode (message 3)
unfolding encode header_bytes all dratchet.Core.Words.to_be_bytes
encode-decode_example =
    encode-decode (encode (message 3)) (message 3) refl (decode-encode (message 3) message-IsWire)

abbrev padded : Bytes
padded = 0 ∷ 2 ∷ 0 ∷ 0 ∷ 0 ∷ (hello ++ replicate (pad_bucket - 7) 0)

untag-tag_and_pad_example : untag_and_unpad padded ≡ ok (0, hello)
unfolding tag_and_pad dratchet.Core.Payload.resize padded_len_of dratchet.Core.Words.to_le_bytes
untag-tag_and_pad_example = untag-tag_and_pad 0 hello padded refl

abbrev initiated : RatchetState
initiated = record {
  conversation_id = conversation;
  max_skip = 50;
  root_key = replicate 32 11;
  dh_self = some (initiator_secret, initiator_secret);
  dh_remote = some responder_secret;
  sending_chain_key = some (replicate 32 11);
  receiving_chain_key = none;
  send_n = 0;
  recv_n = 0;
  prev_chain_len = 0;
  skipped = [];
  skipped_order = [];
  tracker = fresh_tracker;
}

abbrev awaiting : RatchetState
awaiting = record {
  conversation_id = conversation;
  max_skip = 60;
  root_key = shared_root;
  dh_self = some (responder_secret, responder_secret);
  dh_remote = none;
  sending_chain_key = none;
  receiving_chain_key = none;
  send_n = 0;
  recv_n = 0;
  prev_chain_len = 0;
  skipped = [];
  skipped_order = [];
  tracker = fresh_tracker;
}

opening : (ck : Bytes) × Ahead toy initiator_secret responder_secret ck initiated awaiting
unfolding init_as_initiator init_as_responder validate_max_skip kdf_rk
opening =
    init-Ahead toy initiator_secret responder_secret conversation shared_root 50 60 initiated
      awaiting toy-DhAgrees refl refl

abbrev greeting : Envelope
greeting = record (message 0) { dh_pub = initiator_secret }

greeting-Sent : Sent toy conversation initiator_secret (opening.0) 0 hello greeting
unfolding aead_decrypt
greeting-Sent = record { conversation = refl; key = refl; number = refl; opens = refl }

turn-Ahead_example :
    (r' : RatchetState) × (ck' : Bytes) × (decrypt_raw toy (8 ∷ []) greeting awaiting
      ≡ (ok hello, r'))
    × Ahead toy (8 ∷ []) initiator_secret ck' r' initiated
    × ReceivesOn toy conversation initiator_secret (opening.0) r'
    × (r'.recv_n ≡ 1)
unfolding lookup skip_old_chain
turn-Ahead_example =
    turn-Ahead toy initiator_secret responder_secret (opening.0) (8 ∷ []) 0 hello greeting initiated
      awaiting [] toy-DhAgrees (opening.1) greeting-Sent refl refl refl refl (omega arith)
      (omega arith) refl

abbrev toy_signatures : Signatures
toy_signatures = record {
  sha256 = λ bytes. bytes;
  verify = λ key m signature. true;
  sign = λ key m. m;
  verifying_key = λ secret. secret;
}

abbrev bundle : PrekeyBundle
bundle = record {
  identity_public_key = replicate 32 1;
  identity_dh_public = responder_secret;
  identity_dh_signature = [];
  signed_prekey = record { id = 1; key = 12 ∷ []; signature = [] };
  one_time_prekey = some (record { id = 5; key = 13 ∷ [] });
}

abbrev handshake : X3dhInitResult
handshake = record {
  root_key = replicate 32 81;
  message = record {
    initiator_identity_dh_public = initiator_secret;
    initiator_ephemeral_public = 11 ∷ [];
    used_signed_prekey_id = 1;
    used_one_time_prekey_id = some 5;
  };
}

respond-initiate_example :
    respond toy responder_secret (12 ∷ []) (some (13 ∷ [])) handshake.message ≡ ok (replicate 32 81)
unfolding initiate verify_bundle verify_prekey_signature verify_signature reject_non_contributory
    derive_root_key
respond-initiate_example =
    respond-initiate toy toy_signatures (11 ∷ []) initiator_secret (12 ∷ []) responder_secret
      (some (13 ∷ [])) bundle handshake toy-DhAgrees refl refl refl refl
