-- ===== src/App/Tests.antt =====
-- Runs of the client on a small session, with stand-ins for the crates.
use dratchet.Base.{
  ◌-◌, ◌≡◌, refl, true, false, none, some, [], ◌∷◌, ◌++◌, ok, err, length, take, replicate,
  length-replicate, bytes_beq, lookup, take_exact, length-append, arith, ap,
}
use dratchet.Base.Codecs.{Codec}
use dratchet.Core.Envelope.{Envelope, current_version, encode, decode}
use dratchet.Core.Payload.{payload_chat, untag_and_unpad}
use dratchet.Core.Ratchet.Tracker.{fresh_tracker}
use dratchet.Core.Ratchet.State.{RatchetState}
use dratchet.Core.Ratchet.Engine.{decrypt_payload, decrypt_raw, decrypt_chain, chain_before}
use dratchet.Core.Ratchet.Keys.{skip_and_derive, aead_decrypt}
use dratchet.Core.Words.{to_be_bytes, from_be_bytes, from_le_bytes}
use dratchet.Store.Records.{Contact, Message, pending}
use dratchet.Store.Db.{Platform, Db}
use dratchet.Store.Db.Laws.{IsSound}
use dratchet.Store.Messages.{blank, load_message}
use dratchet.App.Errors.{not_sent, not_acknowledged}
use dratchet.App.Client.{Crates, Client, acked}
use dratchet.App.Receive.{no_effect, apply_entry}
use dratchet.App.Receive.Gate.{apply_entry_unverified}
use dratchet.App.Send.{in_flight, send_sealed}
use dratchet.App.Send.Kept.{to_retry, send_sealed_kept}

-- A codec that knows one value
abbrev pub always : {A : Type 0} → A → Codec A
always a = record { to_cbor = λ x. []; from_cbor = λ bytes. some a }

abbrev session : RatchetState
session = record {
  conversation_id = replicate 16 1;
  max_skip = 50;
  root_key = [];
  dh_self = none;
  dh_remote = some (replicate 32 9);
  sending_chain_key = none;
  receiving_chain_key = some (5 ∷ []);
  send_n = 0;
  recv_n = 0;
  prev_chain_len = 0;
  skipped = [];
  skipped_order = [];
  tracker = fresh_tracker;
}

abbrev chat : Envelope
chat = record {
  version = current_version;
  conversation_id = replicate 16 1;
  dh_pub = replicate 32 9;
  pn = 0;
  n = 0;
  ciphertext = payload_chat ∷ 2 ∷ 0 ∷ 0 ∷ 0 ∷ 72 ∷ 105 ∷ replicate 16 0;
}

abbrev sample : Message
sample = blank (1 ∷ []) true (72 ∷ 105 ∷ []) 5 0

-- A cipher adds an empty tag, and a draw repeats its number.
abbrev pub platform : Platform
platform = record {
  primitives = record {
    hmac = λ key tag. key;
    hkdf = λ salt ikm info n. replicate n 0;
    public_key = λ secret. secret;
    diffie_hellman = λ secret public. secret;
    was_contributory = λ shared. true;
    seal = λ key nonce aad m. some (m ++ replicate 16 0);
    unseal = λ key nonce aad c. some (take (length c - 16) c);
  };
  argon2 = λ passphrase salt. some passphrase;
  is_utf8 = λ bytes. true;
  random = λ n len. replicate len n;
}

platform-IsSound : IsSound platform
platform-IsSound = record {
  seals = λ key nonce aad m. (
    m ++ replicate 16 0,
    refl,
    ap some (
        take_exact (length (m ++ replicate 16 0) - 16) m (replicate 16 0)
          (omega (arith, length-append m (replicate 16 0)))),
  );
  draws_length = λ n len. length-replicate len n;
}

abbrev crates : Crates
crates = record {
  platform = platform;
  signatures = record {
    sha256 = λ m. m;
    verify = λ key m signature. true;
    sign = λ secret m. m;
    verifying_key = λ secret. secret;
  };
  contacts = record { to_cbor = λ x. []; from_cbor = λ bytes. none };
  messages = always (in_flight chat sample);
  sessions = record { to_cbor = λ x. []; from_cbor = λ bytes. none };
  chats = record { to_cbor = λ x. x.text; from_cbor = λ bytes. none };
  acks = record { to_cbor = λ x. []; from_cbor = λ bytes. none };
  profiles = record { to_cbor = λ x. []; from_cbor = λ bytes. none };
  routes = record { to_cbor = λ x. []; from_cbor = λ bytes. none };
  wipe_policies = record { to_cbor = λ x. []; from_cbor = λ bytes. none };
  wipe_requests = record { to_cbor = λ x. []; from_cbor = λ bytes. none };
  first_contacts = record { to_cbor = λ x. []; from_cbor = λ bytes. none };
}

abbrev contact : Contact
contact = record {
  fingerprint = [];
  username = none;
  discriminator = none;
  verification_state = pending;
  mailbox_id = [];
  created_at = 0;
  local_routing_id = [];
  peer_routing_id = none;
  wipe_ask_before_delete = false;
  peer_wipe_ask_before_delete = none;
  wipe_include_session = false;
  peer_wipe_include_session = none;
  wipe_request_pending = false;
  wipe_boundary_timestamp = none;
  wipe_boundary_sequence = none;
  peer_wipe_boundary_timestamp = none;
  peer_wipe_boundary_sequence = none;
  routing_confirmed = false;
  routing_announce = [];
}

abbrev pub db : Db
db = record {
  database = [];
  master_key = [];
  identity_key = [];
  contacts_key = [];
  content_key = [];
  message_sequence = 0;
  draws = 0;
}

apply_entry_unverified_example :
    apply_entry crates 7 contact (replicate 16 1) [] (encode chat) session db
    ≡ (ok no_effect, (decrypt_payload platform.primitives [] chat session).1, db)
unfolding decode encode decrypt_payload to_be_bytes from_be_bytes decrypt_raw bytes_beq lookup
    decrypt_chain chain_before skip_and_derive aead_decrypt untag_and_unpad from_le_bytes
apply_entry_unverified_example =
    apply_entry_unverified crates 7 contact (replicate 16 1) [] (encode chat) (72 ∷ 105 ∷ []) chat
      session db refl refl refl

abbrev client : Client
client = record { db = db; is_lost = false; sent = []; answers = acked false ∷ [] }

send_sealed_kept_example :
    ((send_sealed crates 7 contact [] sample chat session client).0
      ≡ err (not_sent (to_retry chat sample) not_acknowledged))
    × ((load_message platform crates.messages []
          (1 ∷ [])
          (send_sealed crates 7 contact [] sample chat session client).1.db).0
        ≡ ok (some (to_retry chat sample)))
send_sealed_kept_example =
    send_sealed_kept crates 7 contact [] sample chat session client not_acknowledged
      platform-IsSound refl refl
