-- ===== src/Store/Tests.antt =====
-- Runs of the store's theorems on small databases, with stand-ins for the crates.
use dratchet.Base.{
  ℕ, ◌<◌, ◌≡◌, refl, true, false, Option, none, some, List, [], ◌∷◌, Bytes, bytes_eq, nat_eq,
  pair_eq, ok, err, arith, lookup, insert, replicate, length-replicate, eqb, if◌then◌else◌, codes,
  filter, bytes_beq,
}
use dratchet.Base.Names.{bytes_le, hex, insert_key, sort_keys}
use dratchet.Base.Codecs.{Codec}
use dratchet.Core.Identity.{Signatures}
use dratchet.Store.Errors.{wrong_passphrase_or_corrupted}
use dratchet.Store.Records.{Contact, Message, verified}
use dratchet.Store.Db.{
  Platform, Db, get_encrypted, read_encrypted, keys_with_prefix, content_dek_key, dek_len,
  starts_with,
}
use dratchet.Store.Db.Lifecycle.{create, open_db, quick_wipe, unwrap_dek}
use dratchet.Store.Db.Laws.{IsSound}
use dratchet.Store.Db.Reopen.{empty_db, closed, open_db-create, open_db_wrong_passphrase}
use dratchet.Store.Db.Wipe.{quick_wipe_lem}
use dratchet.Store.Messages.{blank, recover_message_sequence, message_key, message_key_prefix}
use dratchet.Store.Peers.{
  wipe_conversation, session_keys, ratchet_key, with_routing_id, effective_wipe_ask_before_delete,
  effective_wipe_include_session,
}
use dratchet.Store.Peers.Wipe.{lookup-wipe_conversation}
use dratchet.Store.Peers.Symmetry.{Mirrored, peers_agree}
use dratchet.Store.Verification.{PairingCode, generate}
use dratchet.Store.Verification.Attempts.{Attempt, attempt_all, attempt_all_lem}

abbrev first_of : Bytes → ℕ
first_of [] = 0
first_of (b ∷ bs) = b

abbrev open_tagged : Bytes → Bytes → Option Bytes
open_tagged key [] = none
open_tagged key (b ∷ bs) = if eqb b (first_of key) then some bs else none

-- Stand-ins: a cipher puts the first byte of the key before the message, and a draw repeats its number.
abbrev platform : Platform
platform = record {
  primitives = record {
    hmac = λ key tag. tag;
    hkdf = λ salt ikm info n. replicate n 0;
    public_key = λ secret. secret;
    diffie_hellman = λ secret public. secret;
    was_contributory = λ shared. true;
    seal = λ key nonce aad m. some (first_of key ∷ m);
    unseal = λ key nonce aad c. open_tagged key c;
  };
  argon2 = λ passphrase salt. some passphrase;
  is_utf8 = λ bytes. true;
  random = λ n len. replicate len n;
}

platform-IsSound : IsSound platform
platform-IsSound = record {
  seals = λ key nonce aad m. (first_of key ∷ m, refl, ground arith);
  draws_length = λ n len. length-replicate len n;
}

abbrev sample : Message
sample = blank (1 ∷ []) true [] 5 0

abbrev codec : Codec Message
codec = record { to_cbor = λ m. m.id; from_cbor = λ bytes. none }

abbrev salt : Bytes
salt = 115 ∷ []

abbrev passphrase : Bytes
passphrase = 7 ∷ 8 ∷ []

open_db-create_example :
    ((create platform salt passphrase (empty_db 0)).0 ≡ ok tt)
    × (open_db platform
          (recover_message_sequence platform codec)
          passphrase
          (closed (create platform salt passphrase (empty_db 0)).1)
        ≡ (
          ok tt,
          record (create platform salt passphrase (empty_db 0)).1 {
            database =
                insert
                  (codes "__aad_bound_v1__")
                  (codes "1")
                  (create platform salt passphrase (empty_db 0)).1.database;
          },
        ))
open_db-create_example =
    open_db-create platform codec salt passphrase passphrase 0 platform-IsSound refl refl

open_db_wrong_passphrase_example :
    open_db platform
      (recover_message_sequence platform codec)
      (9 ∷ [])
      (closed (create platform salt passphrase (empty_db 0)).1)
    ≡ (err wrong_passphrase_or_corrupted, closed (create platform salt passphrase (empty_db 0)).1)
open_db_wrong_passphrase_example =
    open_db_wrong_passphrase platform codec salt passphrase (9 ∷ []) passphrase (9 ∷ []) 0
      platform-IsSound refl refl refl (λ aad. refl)

abbrev conversation : Bytes
conversation = 1 ∷ 2 ∷ []

abbrev stored : Db
stored = record (empty_db 3) {
  database = (message_key conversation (5 ∷ []), 0 ∷ []) ∷ (codes "contact:00", 1 ∷ []) ∷ [];
}

quick_wipe_lem_example :
    (lookup (codes "contact:00") (quick_wipe platform stored).1.database ≡ some (1 ∷ []))
    × (unwrap_dek platform [] content_dek_key (quick_wipe platform stored).1
        ≡ (ok (quick_wipe platform stored).1.content_key, (quick_wipe platform stored).1))
    × ((quick_wipe platform stored).1.content_key ≡ platform.random stored.draws dek_len)
    × (stored.draws < (quick_wipe platform stored).1.draws)
unfolding lookup bytes_beq starts_with message_key message_key_prefix
quick_wipe_lem_example = quick_wipe_lem platform (codes "contact:00") stored platform-IsSound refl

abbrev wiped_stored : Db
wiped_stored = (wipe_conversation platform conversation true stored).1

lookup-wipe_conversation_example :
    lookup (message_key conversation (5 ∷ [])) wiped_stored.database ≡ none
unfolding lookup bytes_beq starts_with message_key message_key_prefix wipe_conversation hex
    session_keys get_encrypted read_encrypted ratchet_key keys_with_prefix sort_keys insert_key
    bytes_le filter
lookup-wipe_conversation_example =
    lookup-wipe_conversation platform conversation (message_key conversation (5 ∷ [])) true 1 stored
      wiped_stored refl

abbrev code : PairingCode
code = generate 42 [] 1_000

abbrev attempts : List Attempt
attempts =
    (codes "000041", ([], 1_001))
    ∷ (codes "000042", ([], 1_002))
    ∷ (codes "000042", ([], 9_999))
    ∷ []

attempt_all_lem_example : attempt_all attempts code ≡ (1, record code { attempts = 2 })
unfolding generate filter bytes_beq
attempt_all_lem_example = attempt_all_lem attempts code 5 refl

abbrev later : Message
later = blank (2 ∷ []) false [] 9 1

abbrev contact : Bytes → Bytes → Contact
contact own peer = record {
  fingerprint = own;
  username = none;
  discriminator = none;
  verification_state = verified;
  mailbox_id = [];
  created_at = 0;
  local_routing_id = own;
  peer_routing_id = some peer;
  wipe_ask_before_delete = true;
  peer_wipe_ask_before_delete = some true;
  wipe_include_session = false;
  peer_wipe_include_session = some false;
  wipe_request_pending = false;
  wipe_boundary_timestamp = none;
  wipe_boundary_sequence = none;
  peer_wipe_boundary_timestamp = none;
  peer_wipe_boundary_sequence = none;
  routing_confirmed = true;
  routing_announce = [];
}

abbrev signatures : Signatures
signatures = record {
  sha256 = λ m. m;
  verify = λ key m signature. true;
  sign = λ secret m. m;
  verifying_key = λ secret. secret;
}

abbrev hers : Contact
hers = contact (3 ∷ []) (4 ∷ [])

abbrev his : Contact
his = contact (4 ∷ []) (3 ∷ [])

mirrored : Mirrored hers his
mirrored = record {
  routes = refl;
  routes_back = refl;
  asks = refl;
  asks_back = refl;
  sessions = refl;
  sessions_back = refl;
}

peers_agree_example :
    ((with_routing_id signatures his.local_routing_id hers).mailbox_id
      ≡ (with_routing_id signatures hers.local_routing_id his).mailbox_id)
    × (effective_wipe_ask_before_delete hers ≡ effective_wipe_ask_before_delete his)
    × (effective_wipe_include_session hers ≡ effective_wipe_include_session his)
peers_agree_example = peers_agree signatures hers his mirrored
