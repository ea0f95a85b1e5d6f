-- ===== src/Core/Ratchet/Keys.antt =====
-- core/src/ratchet.rs: KDF_RK, KDF_CK, the message cipher and the keys of skipped messages. The
-- cryptographic crates are parameters.
use dratchet.Base.{
  ℕ, zero, suc, ◌+◌, ◌-◌, Bool, not, Option, none, some, List, [], ◌∷◌, Bytes, codes, ltb, slice,
  ok, ok_or, ◌>>◌, reject_if,
}
use dratchet.Core.Errors.{CoreResult, max_skip_exceeded, aead, non_contributory_handshake}
use dratchet.Core.Words.{saturating_add}

-- The functions of the crates hmac, hkdf, x25519-dalek and chacha20poly1305 that the engine calls.
-- `hkdf salt ikm info n` is extract and expand to n bytes; `seal` and `unseal` take the key, the
-- nonce, the associated data and the message, and `none` is the crate's error.
pub record Primitives : Type 0 where
  pub hmac : Bytes → Bytes → Bytes
  pub hkdf : Option Bytes → Bytes → Bytes → ℕ → Bytes
  pub public_key : Bytes → Bytes
  pub diffie_hellman : Bytes → Bytes → Bytes
  pub was_contributory : Bytes → Bool
  pub seal : Bytes → Bytes → Bytes → Bytes → Option Bytes
  pub unseal : Bytes → Bytes → Bytes → Bytes → Option Bytes

module _ (p : Primitives) where
  unfoldable pub kdf_rk : Bytes → Bytes → Bytes × Bytes
  kdf_rk root_key dh_output =
      let okm = p.hkdf (some root_key) dh_output (codes "dratchet-kdf-rk") 64 in
      (slice 0 32 okm, slice 32 64 okm)

  unfoldable pub kdf_ck : Bytes → Bytes × Bytes
  kdf_ck chain_key = (p.hmac chain_key (0x02 ∷ []), p.hmac chain_key (0x01 ∷ []))

  unfoldable pub derive_message_cipher : Bytes → Bytes × Bytes
  derive_message_cipher message_key =
      let okm = p.hkdf none message_key (codes "dratchet-message-key") 44 in
      (slice 0 32 okm, slice 32 44 okm)

  unfoldable pub aead_encrypt : Bytes → Bytes → Bytes → CoreResult Bytes
  aead_encrypt message_key aad plaintext =
      let (key, nonce) = derive_message_cipher message_key in
      ok_or (p.seal key nonce aad plaintext) aead

  unfoldable pub aead_decrypt : Bytes → Bytes → Bytes → CoreResult Bytes
  aead_decrypt message_key aad ciphertext =
      let (key, nonce) = derive_message_cipher message_key in
      ok_or (p.unseal key nonce aad ciphertext) aead

  -- The loop of `skip_and_derive`, on the rounds left: `n` rises to `until`.
  unfoldable pub derive_keys : ℕ → ℕ → Bytes → Bytes × List (ℕ × Bytes)
  derive_keys zero n chain_key = (chain_key, [])
  derive_keys (suc rounds) n chain_key =
      let (next_chain_key, message_key) = kdf_ck chain_key in
      let (last, keys) = derive_keys rounds (n + 1) next_chain_key in
      (last, (n, message_key) ∷ keys)

  unfoldable pub skip_and_derive : ℕ → Bytes → ℕ → ℕ → CoreResult (Bytes × List (ℕ × Bytes))
  skip_and_derive from chain_key until max_skip = do
    reject_if (ltb (saturating_add from max_skip) until) (max_skip_exceeded max_skip)
    ok (derive_keys (until - from) from chain_key)

  pub record RatchetStep : Type 0 where
    pub new_root_key : Bytes
    pub new_receiving_chain_key : Bytes
    pub new_sending_chain_key : Bytes
    pub new_dh_self_secret : Bytes
    pub new_dh_self_public : Bytes

  -- `new_secret` is the fresh secret that the random source gives.
  unfoldable pub compute_dh_ratchet_step : Bytes → Bytes → Bytes → Bytes → CoreResult RatchetStep
  compute_dh_ratchet_step new_secret root_key dh_self_secret incoming_dh = do
    let received = p.diffie_hellman dh_self_secret incoming_dh
    reject_if (not (p.was_contributory received)) non_contributory_handshake
    let (root_after_recv, receiving_chain_key) = kdf_rk root_key received
    let new_public = p.public_key new_secret
    let sent = p.diffie_hellman new_secret incoming_dh
    reject_if (not (p.was_contributory sent)) non_contributory_handshake
    let (root_after_send, sending_chain_key) = kdf_rk root_after_recv sent
    ok (record {
      new_root_key = root_after_send;
      new_receiving_chain_key = receiving_chain_key;
      new_sending_chain_key = sending_chain_key;
      new_dh_self_secret = new_secret;
      new_dh_self_public = new_public;
    })
