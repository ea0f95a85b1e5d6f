-- ===== src/Core/Ratchet/Engine.antt =====
-- core/src/ratchet.rs: encryption and decryption.
use dratchet.Base.{
  ℕ, ◌+◌, not, Option, none, some, List, [], ◌++◌, map, Bytes, bytes_eq, nat_eq, pair_eq, ◌==◌,
  if◌then◌else◌, lookup, remove, length, replicate, ok, err, ok_or, reject_if, result_map,
}
use dratchet.Core.Errors.{CoreResult, ratchet_not_initialized, conversation_id_mismatch}
use dratchet.Core.Envelope.{Envelope, current_version, header_bytes}
use dratchet.Core.Payload.{tag_and_pad, untag_and_unpad}
use dratchet.Core.Ratchet.Keys.{
  Primitives, RatchetStep, kdf_ck, aead_encrypt, aead_decrypt, skip_and_derive,
  compute_dh_ratchet_step,
}
use dratchet.Core.Ratchet.Tracker.{fresh_tracker, wrapping_succ}
use dratchet.Core.Ratchet.State.{
  RatchetState, SkippedId, is_remote, record_content_delivered, stage_skipped,
  evict_oldest_skipped_beyond_lifetime_bound,
}
use dratchet.Core.Ratchet.Monad.{Action, ◌>>=◌, ◌>>◌, pure, lift, get, modify}

abbrev pub aead_tag_len : ℕ
aead_tag_len = 16

module _ (p : Primitives) where
  unfoldable pub encrypt : Bytes → Action Envelope
  encrypt plaintext = do
    s ← get
    dh_self ← lift (ok_or s.dh_self (ratchet_not_initialized "dh_self"))
    chain_key ← lift (ok_or s.sending_chain_key (ratchet_not_initialized "sending_chain_key"))
    let (next_chain_key, message_key) = kdf_ck p chain_key
    modify (λ r. record r { sending_chain_key = some next_chain_key })
    let header : Envelope = record {
      version = current_version;
      conversation_id = s.conversation_id;
      dh_pub = dh_self.1;
      pn = s.prev_chain_len;
      n = s.send_n;
      ciphertext = replicate (length plaintext + aead_tag_len) 0;
    }
    modify (λ r. record r { send_n = wrapping_succ r.send_n })
    ciphertext ← lift (aead_encrypt p message_key (header_bytes header) plaintext)
    pure (record header { ciphertext = ciphertext })

  -- The fast path of `decrypt_raw`: a cached key of a skipped message.
  unfoldable pub decrypt_cached : Envelope → Bytes → Action Bytes
  decrypt_cached envelope message_key = do
    plaintext ← lift (aead_decrypt p message_key (header_bytes envelope) envelope.ciphertext)
    modify (λ r. record r { skipped = remove (envelope.dh_pub, envelope.n) r.skipped })
    modify (λ r.
        if is_remote r.dh_remote envelope.dh_pub then record_content_delivered envelope.n r else r)
    pure plaintext

  -- `keys.into_iter().map(|(n, k)| ((dh, n), k))`
  abbrev pub under_key : Bytes → List (ℕ × Bytes) → List (SkippedId × Bytes)
  under_key dh = map (λ e. ((dh, e.0), e.1))

  -- The rest of the old receiving chain, up to the length that the sender reports for it.
  unfoldable pub skip_old_chain : RatchetState → Envelope → CoreResult (List (SkippedId × Bytes))
  skip_old_chain s envelope = elim s.receiving_chain_key [
    | none ↦ ok []
    | some old_chain_key ↦ elim s.dh_remote [
      | none ↦ ok []
      | some old_dh_remote ↦
          result_map (λ derived. under_key old_dh_remote derived.1)
            (skip_and_derive p s.recv_n old_chain_key envelope.pn s.max_skip)
    ]
  ]

  -- The DH step of a session, against the key that the envelope carries.
  unfoldable pub ratchet_step : Bytes → RatchetState → Envelope → CoreResult (RatchetStep p)
  ratchet_step new_secret s envelope = elim s.dh_self [
    | none ↦ err (ratchet_not_initialized "dh_self")
    | some (dh_self_secret, _) ↦
        compute_dh_ratchet_step p new_secret s.root_key dh_self_secret envelope.dh_pub
  ]

  -- The receiving chain key and number that the message's chain stands at.
  unfoldable pub chain_before : RatchetState → Option (RatchetStep p) → CoreResult (Bytes × ℕ)
  chain_before s (some step) = ok (step.new_receiving_chain_key, 0)
  chain_before s none = elim s.receiving_chain_key [
    | none ↦ err (ratchet_not_initialized "receiving_chain_key")
    | some chain_key ↦ ok (chain_key, s.recv_n)
  ]

  unfoldable pub commit_step : Bytes → Option (RatchetStep p) → RatchetState → RatchetState
  commit_step incoming_dh none r = r
  commit_step incoming_dh (some step) r = record r {
    root_key = step.new_root_key;
    dh_self = some (step.new_dh_self_secret, step.new_dh_self_public);
    dh_remote = some incoming_dh;
    prev_chain_len = r.send_n;
    send_n = 0;
    sending_chain_key = some step.new_sending_chain_key;
    tracker = fresh_tracker;
  }

  unfoldable pub commit_chain : Bytes → ℕ → RatchetState → RatchetState
  commit_chain final_receiving_chain_key n r = record r {
    receiving_chain_key = some final_receiving_chain_key;
    recv_n = wrapping_succ n;
  }

  -- The slow path of `decrypt_raw`: everything is derived first and committed behind the AEAD
  -- check. `new_secret` is the fresh secret that a DH step takes from the random source.
  unfoldable pub decrypt_chain : Bytes → Envelope → Action Bytes
  decrypt_chain new_secret envelope = do
    s ← get
    let ratchets = not (is_remote s.dh_remote envelope.dh_pub)
    old ← lift (if ratchets then skip_old_chain s envelope else ok [])
    step ← lift (if ratchets then result_map some (ratchet_step new_secret s envelope) else ok none)
    start ← lift (chain_before s step)
    derived ← lift (skip_and_derive p start.1 start.0 envelope.n s.max_skip)
    let (final_receiving_chain_key, message_key) = kdf_ck p derived.0
    plaintext ← lift (aead_decrypt p message_key (header_bytes envelope) envelope.ciphertext)
    modify (commit_step envelope.dh_pub step)
    modify (commit_chain final_receiving_chain_key envelope.n)
    modify (stage_skipped (old ++ under_key envelope.dh_pub derived.1))
    modify evict_oldest_skipped_beyond_lifetime_bound
    modify (record_content_delivered envelope.n)
    pure plaintext

  unfoldable pub decrypt_raw : Bytes → Envelope → Action Bytes
  decrypt_raw new_secret envelope = do
    s ← get
    lift (reject_if (not (envelope.conversation_id == s.conversation_id)) conversation_id_mismatch)
    elim (lookup (envelope.dh_pub, envelope.n) s.skipped) [
      | some message_key ↦ decrypt_cached envelope message_key
      | none ↦ decrypt_chain new_secret envelope
    ]

  unfoldable pub decrypt_payload : Bytes → Envelope → Action (ℕ × Bytes)
  decrypt_payload new_secret envelope = do
    plaintext ← decrypt_raw new_secret envelope
    lift (untag_and_unpad plaintext)

  unfoldable pub encrypt_payload : ℕ → Bytes → Action Envelope
  encrypt_payload payload_type content = do
    tagged ← lift (tag_and_pad payload_type content)
    encrypt tagged
